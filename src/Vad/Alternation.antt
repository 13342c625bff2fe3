-- ===== src/Vad/Alternation.antt =====
-- The events of the detectors of libs/vad_sdk: starts and ends take turns.
use yuviz.Base.{Bool, true, false, List, [], ◌∷◌, ◌≡◌, sym, arith, ℕ, inl, inr, ◌⊎◌}
use yuviz.Vad.{Level, Vad, VadEvent, quiet, speech_start, speech_end, process_level, listen}

-- Starts and ends take turns, from a detector that is in speech or not, to one that is or not.
pub data Alternates : Bool → List VadEvent → Bool → Type 0 where
  stop : (b : Bool) → Alternates b [] b
  still : {b c : Bool} {es : List VadEvent} → Alternates b es c → Alternates b (quiet ∷ es) c
  starts :
      {c : Bool} {es : List VadEvent}
      → Alternates true es c
      → Alternates false (speech_start ∷ es) c
  ends :
      {c : Bool} {es : List VadEvent} → Alternates false es c → Alternates true (speech_end ∷ es) c

level-cases :
    (onset_frames hold : ℕ) (l : Level) (v : Vad)
    → (((process_level onset_frames hold l v).1 ≡ quiet)
        × ((process_level onset_frames hold l v).0.in_speech ≡ v.in_speech))
      ⊎ ((((process_level onset_frames hold l v).1 ≡ speech_start)
            × (v.in_speech ≡ false)
            × ((process_level onset_frames hold l v).0.in_speech ≡ true))
          ⊎ (((process_level onset_frames hold l v).1 ≡ speech_end)
              × (v.in_speech ≡ true)
              × ((process_level onset_frames hold l v).0.in_speech ≡ false)))
unfolding process_level
level-cases onset_frames hold l v = ground arith

level-Alternates :
    (onset_frames hold : ℕ) (l : Level) (v : Vad) (es : List VadEvent) (c : Bool)
    → Alternates (process_level onset_frames hold l v).0.in_speech es c
    → Alternates v.in_speech ((process_level onset_frames hold l v).1 ∷ es) c
level-Alternates onset_frames hold l v es c h = elim (level-cases onset_frames hold l v) [
  | inl (e, same) ↦ rw e (still (rw (sym same) h))
  | inr (inl (e, before, after)) ↦ rw (e, before) (starts (rw (sym after) h))
  | inr (inr (e, before, after)) ↦ rw (e, before) (ends (rw (sym after) h))
]

-- Whatever the frames are, starts and ends are reported in turns, and `in_speech` says which is next.
pub listen-Alternates :
    (onset_frames hold : ℕ) (ls : List Level) (v : Vad)
    → Alternates v.in_speech
        (listen onset_frames hold ls v).1
        (listen onset_frames hold ls v).0.in_speech
unfolding listen
listen-Alternates onset_frames hold [] v = stop v.in_speech
listen-Alternates onset_frames hold (l ∷ ls) v =
    level-Alternates onset_frames hold l v _ _
      (listen-Alternates onset_frames hold ls (process_level onset_frames hold l v).0)
