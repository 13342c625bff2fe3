-- ===== src/Fsm/Shapes.antt =====
-- The states, the callbacks and the events of services/conversation/fsm.py.
use yuviz.Base.{ℕ, String, Bool}

pub data CallFsmState : Type 0 where
  idle connecting listening recognizing thinking synthesizing speaking barge_in : CallFsmState
  transferring recovering finalizing closing closed : CallFsmState

unfoldable pub CallFsmState-discrete : Discrete CallFsmState
CallFsmState-discrete = hlevel

-- Which fields of `ConversationFsmHandlers` are set.
pub record FsmHandlers : Type 0 where
  pub on_state_changed : Bool
  pub on_speech_started : Bool
  pub on_speech_ended : Bool
  pub on_stt_final : Bool
  pub on_playback_finished : Bool
  pub on_transfer_requested : Bool
  pub on_transfer_completed : Bool
  pub on_session_close : Bool

-- A call of a handler, with its arguments.
pub data Callback : Type 0 where
  state_changed : CallFsmState → CallFsmState → String → ℕ → Callback
  speech_started : ℕ → Callback
  speech_ended : ℕ → ℕ → Callback
  stt_final : String → ℕ → Callback
  playback_finished : Bool → Callback
  transfer_requested : String → String → Callback
  transfer_completed : Bool → String → Callback
  session_close : String → Callback

pub record ConversationFsm : Type 0 where
  pub state : CallFsmState
  pub state_entered : ℕ
  pub transition_count : ℕ

-- The trigger methods with their arguments. `cancel` reads the clock twice when it interrupts
-- playback: it carries the second reading.
pub data Event : Type 0 where
  session_start service_ready text_ready first_audio_chunk cancel_complete : Event
  session_finalized recovery_response_ready close_acknowledged : Event
  speech_started : ℕ → Event
  speech_ended : ℕ → ℕ → Event
  stt_final : String → ℕ → Event
  playback_finished : Bool → Event
  cancel : ℕ → Event
  transfer_requested : String → String → Event
  transfer_completed : Bool → String → Event
  transfer_failed : String → Event
  session_close : String → Event
  timeout : CallFsmState → Event
