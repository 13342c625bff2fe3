-- ===== src/Vad/Counters.antt =====
-- The counters of the detectors of libs/vad_sdk stay below what they wait for.
use yuviz.Base.{ℕ, ◌<◌, true, false, Option, none, some, ◌≡◌, arith}
use yuviz.Vad.{Level, Vad, process_level, EnergyVadConfig, process, onset_needed, hold_frames}

-- Below what is waited for, and only the counters of the present phase run.
pub record IsCounting (onset_frames hold : ℕ) (v : Vad) : Type 0 where
  pub onset_below : v.onset < onset_frames
  pub silence_below : v.silence < hold
  pub phase_speech : v.in_speech ≡ true → v.onset ≡ 0
  pub phase_rest : v.in_speech ≡ false → (v.silence ≡ 0) × (v.speech ≡ 0)

pub process_level-IsCounting :
    (onset_frames hold : ℕ) (l : Level) (v : Vad)
    → IsCounting onset_frames hold v
    → IsCounting onset_frames hold (process_level onset_frames hold l v).0
unfolding process_level
process_level-IsCounting onset_frames hold l v h = record {
  onset_below = ground (arith, h.onset_below, h.phase_speech);
  silence_below = ground (arith, h.silence_below);
  phase_speech = λ s. ground (arith, h.phase_speech, s);
  phase_rest = λ s. ground (arith, h.phase_rest, s);
}

-- The counters of `EnergyVAD` stay below what they wait for, whatever the frames are.
pub process-IsCounting :
    (cfg : EnergyVadConfig) (frame : Option Level) (v : Vad)
    → IsCounting (onset_needed cfg) (hold_frames cfg) v
    → IsCounting (onset_needed cfg) (hold_frames cfg) (process cfg frame v).0
unfolding process
process-IsCounting cfg none v h = h
process-IsCounting cfg (some l) v h =
    process_level-IsCounting (onset_needed cfg) (hold_frames cfg) l v h
