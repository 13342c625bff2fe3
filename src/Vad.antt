-- ===== src/Vad.antt =====
-- libs/vad_sdk/vad.py and silero_vad.py: where speech starts and ends. Sound is floating point and
-- the model is a network, so a frame comes as what the two comparisons say of it.
pub mod Counters
pub mod Onset
pub mod Alternation
use yuviz.Base.{
  ℕ, suc, ◌+◌, ◌-◌, ◌*◌, ◌/◌, max, Bool, true, false, Option, none, some, List, [], ◌∷◌, leb,
  if◌then◌else◌,
}

pub data VadEvent : Type 0 where
  quiet speech_start speech_end : VadEvent

-- A frame that was measured: whether its level reaches the threshold of speech, and whether it is
-- below the threshold of silence.
pub record Level : Type 0 where
  pub is_loud : Bool
  pub is_silent : Bool

-- the state of a detector
pub record Vad : Type 0 where
  pub in_speech : Bool
  pub onset : ℕ
  pub silence : ℕ
  pub speech : ℕ

-- the state that `__init__` and `reset` set
abbrev pub at_rest : Vad
at_rest = record { in_speech = false; onset = 0; silence = 0; speech = 0 }

-- `-(-a // b)`
abbrev pub ceil_div : ℕ → ℕ → ℕ
ceil_div a b = (a + b - 1) / b

pub record EnergyVadConfig : Type 0 where
  pub hold_ms : ℕ
  pub frame_ms : ℕ
  pub onset_ms : ℕ

abbrev pub energy_defaults : EnergyVadConfig
energy_defaults = record { hold_ms = 500; frame_ms = 20; onset_ms = 100 }

-- `_hold_frames` and `_onset_needed`
unfoldable pub hold_frames : EnergyVadConfig → ℕ
hold_frames cfg = max 1 (cfg.hold_ms / cfg.frame_ms)

unfoldable pub onset_needed : EnergyVadConfig → ℕ
onset_needed cfg = max 1 (ceil_div cfg.onset_ms cfg.frame_ms)

-- `EnergyVAD.process` behind the measurement, with the counts of frames that are needed
unfoldable pub process_level : ℕ → ℕ → Level → Vad → Vad × VadEvent
process_level onset_frames hold l v =
    if v.in_speech
    then (if l.is_silent
        then (if leb hold (v.silence + 1)
            then (record v { in_speech = false; silence = 0; speech = 0 }, speech_end)
            else (record v { silence = v.silence + 1 }, quiet))
        else (record v { silence = 0; speech = v.speech + 1 }, quiet))
    else (if l.is_loud
        then (if leb onset_frames (v.onset + 1)
            then (
              record { in_speech = true; onset = 0; silence = 0; speech = v.onset + 1 },
              speech_start,
            )
            else (record v { onset = v.onset + 1 }, quiet))
        else (record v { onset = 0 }, quiet))

-- `EnergyVAD.process`: `none` is a frame without a sample
unfoldable pub process : EnergyVadConfig → Option Level → Vad → Vad × VadEvent
process cfg none v = (v, quiet)
process cfg (some l) v = process_level (onset_needed cfg) (hold_frames cfg) l v

-- `speech_duration_ms`
unfoldable pub speech_duration_ms : EnergyVadConfig → Vad → ℕ
speech_duration_ms cfg v = if v.in_speech then v.speech * cfg.frame_ms else 0

pub record SileroVadConfig : Type 0 where
  pub onset_ms : ℕ
  pub hold_ms : ℕ

abbrev pub silero_defaults : SileroVadConfig
silero_defaults = record { onset_ms = 96; hold_ms = 1000 }

-- `_WINDOW_MS`
abbrev pub window_ms : ℕ
window_ms = 32

unfoldable pub silero_onset : SileroVadConfig → ℕ
silero_onset cfg = max 1 (ceil_div cfg.onset_ms window_ms)

unfoldable pub silero_hold : SileroVadConfig → ℕ
silero_hold cfg = max 1 (ceil_div cfg.hold_ms window_ms)

-- `SileroVAD.process`: `none` is a window of another size, or one on which the model fails
unfoldable pub process_window : SileroVadConfig → Option Level → Vad → Vad × VadEvent
process_window cfg none v = (v, quiet)
process_window cfg (some l) v = process_level (silero_onset cfg) (silero_hold cfg) l v

-- the events of a sequence of frames
unfoldable pub listen : ℕ → ℕ → List Level → Vad → Vad × List VadEvent
listen onset_frames hold [] v = (v, [])
listen onset_frames hold (l ∷ ls) v =
    let (v1, e) = process_level onset_frames hold l v in
    let (v2, es) = listen onset_frames hold ls v1 in (v2, e ∷ es)
