-- ===== src/Examples/Calls.antt =====
-- Runs of services/conversation/fsm.py, and of the detectors of libs/vad_sdk.
use yuviz.Base.{ℕ, ◌+◌, true, false, List, [], ◌∷◌, ◌≡◌, refl}
use yuviz.Fsm.{
  CallFsmState, idle, closed, FsmHandlers, ConversationFsm, Event, run, is_terminal, session_start,
  service_ready, session_close,
}
use yuviz.Fsm.Diagram.{Walks, transitions, run-Walks}
use yuviz.Vad.{Level, at_rest, listen}
use yuviz.Vad.Alternation.{Alternates, listen-Alternates}

abbrev all_set : FsmHandlers
all_set = record {
  on_state_changed = true;
  on_speech_started = true;
  on_speech_ended = true;
  on_stt_final = true;
  on_playback_finished = true;
  on_transfer_requested = true;
  on_transfer_completed = true;
  on_session_close = true;
}

abbrev machine : CallFsmState → ConversationFsm
machine s = record { state = s; state_entered = 10; transition_count = 0 }

abbrev short_call : List (ℕ × Event)
short_call = (20, session_start) ∷ (30, service_ready) ∷ (50, session_close "bye") ∷ []

run-Walks_example :
    Walks idle
      (run all_set short_call (machine idle)).1
      (run all_set short_call (machine idle)).0.state
    × ((run all_set short_call (machine idle)).0.transition_count
        ≡ 0 + transitions (run all_set short_call (machine idle)).1)
run-Walks_example = run-Walks all_set refl short_call (machine idle)

terminal : is_terminal closed ≡ true
unfolding is_terminal
terminal = refl

abbrev loud : Level
loud = record { is_loud = true; is_silent = false }

abbrev silent : Level
silent = record { is_loud = false; is_silent = true }

listen-Alternates_example :
    Alternates false
      (listen 1 1 (loud ∷ silent ∷ []) at_rest).1
      (listen 1 1 (loud ∷ silent ∷ []) at_rest).0.in_speech
listen-Alternates_example = listen-Alternates 1 1 (loud ∷ silent ∷ []) at_rest
