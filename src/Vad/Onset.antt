-- ===== src/Vad/Onset.antt =====
-- When the detectors of libs/vad_sdk report a start and an end.
use yuviz.Base.{ℕ, zero, suc, ◌+◌, ◌<◌, true, false, List, [], ◌∷◌, ◌++◌, ◌≡◌, refl, ap, arith}
use yuviz.Vad.{Level, Vad, quiet, speech_start, speech_end, process_level, listen}

-- n frames of one kind
abbrev pub repeated {ℓ} : {A : Type ℓ} → ℕ → A → List A
repeated zero x = []
repeated (suc n) x = x ∷ repeated n x

listen_step :
    (onset_frames hold : ℕ) (l : Level) (ls : List Level) (v : Vad)
    → listen onset_frames hold (l ∷ ls) v ≡ (
      (listen onset_frames hold ls (process_level onset_frames hold l v).0).0,
      (process_level onset_frames hold l v).1
          ∷ (listen onset_frames hold ls (process_level onset_frames hold l v).0).1,
    )
unfolding listen
listen_step onset_frames hold l ls v = refl

level_starts :
    (onset_frames hold : ℕ) (l : Level) (v : Vad)
    → v.in_speech ≡ false
    → l.is_loud ≡ true
    → v.onset + 1 ≡ onset_frames
    → (process_level onset_frames hold l v).1 ≡ speech_start
unfolding process_level
level_starts onset_frames hold l v rest loud left = ground (arith, rest, loud, left)

level_waits :
    (onset_frames hold : ℕ) (l : Level) (v : Vad)
    → v.in_speech ≡ false
    → l.is_loud ≡ true
    → v.onset + 1 < onset_frames
    → process_level onset_frames hold l v ≡ (record v { onset = v.onset + 1 }, quiet)
unfolding process_level
level_waits onset_frames hold l v rest loud left = ground (arith, rest, loud, left)

level_ends :
    (onset_frames hold : ℕ) (l : Level) (v : Vad)
    → v.in_speech ≡ true
    → l.is_silent ≡ true
    → v.silence + 1 ≡ hold
    → (process_level onset_frames hold l v).1 ≡ speech_end
unfolding process_level
level_ends onset_frames hold l v rest silent left = ground (arith, rest, silent, left)

level_holds :
    (onset_frames hold : ℕ) (l : Level) (v : Vad)
    → v.in_speech ≡ true
    → l.is_silent ≡ true
    → v.silence + 1 < hold
    → process_level onset_frames hold l v ≡ (record v { silence = v.silence + 1 }, quiet)
unfolding process_level
level_holds onset_frames hold l v rest silent left = ground (arith, rest, silent, left)

listen_end : (onset_frames hold : ℕ) (v : Vad) → listen onset_frames hold [] v ≡ (v, [])
unfolding listen
listen_end onset_frames hold v = refl

-- Of loud frames in a row, at rest, the one that completes the count is reported as a start, and no
-- earlier one is reported.
pub onset_lem :
    (onset_frames hold n : ℕ) (l : Level) (v : Vad)
    → v.in_speech ≡ false
    → l.is_loud ≡ true
    → v.onset + n + 1 ≡ onset_frames
    → (listen onset_frames hold (repeated (suc n) l) v).1 ≡ repeated n quiet ++ speech_start ∷ []
onset_lem onset_frames hold zero l v rest loud left =
    rw
      (
        listen_step onset_frames hold l [] v,
        level_starts onset_frames hold l v rest loud (omega (arith, left)),
        listen_end onset_frames hold (process_level onset_frames hold l v).0,
      )
      refl
onset_lem onset_frames hold (suc n) l v rest loud left =
    rw
      (
        listen_step onset_frames hold l (repeated (suc n) l) v,
        level_waits onset_frames hold l v rest loud (omega (arith, left)),
      )
      (ap (λ es. quiet ∷ es)
        (onset_lem onset_frames hold n l (record v { onset = v.onset + 1 }) rest loud
          (omega (arith, left))))

-- Of silent frames in a row, in speech, the one that completes the count is reported as the end,
-- and no earlier one is reported.
pub hold_lem :
    (onset_frames hold n : ℕ) (l : Level) (v : Vad)
    → v.in_speech ≡ true
    → l.is_silent ≡ true
    → v.silence + n + 1 ≡ hold
    → (listen onset_frames hold (repeated (suc n) l) v).1 ≡ repeated n quiet ++ speech_end ∷ []
hold_lem onset_frames hold zero l v talks silent left =
    rw
      (
        listen_step onset_frames hold l [] v,
        level_ends onset_frames hold l v talks silent (omega (arith, left)),
        listen_end onset_frames hold (process_level onset_frames hold l v).0,
      )
      refl
hold_lem onset_frames hold (suc n) l v talks silent left =
    rw
      (
        listen_step onset_frames hold l (repeated (suc n) l) v,
        level_holds onset_frames hold l v talks silent (omega (arith, left)),
      )
      (ap (λ es. quiet ∷ es)
        (hold_lem onset_frames hold n l (record v { silence = v.silence + 1 }) talks silent
          (omega (arith, left))))
