-- ===== src/Session/Shapes.antt =====
-- What services/conversation/session.py keeps and publishes. The ids of the session, which every event
-- carries, are left out.
use yuviz.Base.{ℕ, Bool, true, false, String, Option, none, List, [], Text}
use yuviz.Fsm.{CallFsmState, FsmHandlers, ConversationFsm, init}

-- the fields of `HandlerResponse` that a session reads; the others are passed on
pub record HandlerResponse : Type 0 where
  pub stt_text : String
  pub stt_confidence : ℕ
  pub tts_payloads : List Text
  pub agent_text : String

-- `HandlerResponse()`
abbrev pub empty_response : HandlerResponse
empty_response = record { stt_text = ""; stt_confidence = 0; tts_payloads = []; agent_text = "" }

-- `FinalizationResult` without its status
pub record FinalizationResult : Type 0 where
  pub summary : String
  pub summary_generated : Bool
  pub transcript_written : Bool

-- the values of `_transfer_outcome`
pub data TransferOutcome : Type 0 where
  transfer_success transfer_failure transfer_timeout transfer_cancelled : TransferOutcome

-- the events of event_bus.py that a session publishes
pub data SessionEvent : Type 0 where
  session_state_changed : CallFsmState → CallFsmState → String → ℕ → SessionEvent
  speech_started : ℕ → SessionEvent
  speech_ended : ℕ → ℕ → SessionEvent
  transcript_ready : String → ℕ → SessionEvent
  transfer_initiated : String → String → String → String → SessionEvent
  transfer_completed : String → String → SessionEvent
  transfer_failed : String → String → String → SessionEvent
  session_finalizing : SessionEvent
  conversation_finalized : FinalizationResult → SessionEvent
  session_ended : String → SessionEvent

-- the calls of `IConversationHandler` that answer nothing
pub data HandlerCall : Type 0 where
  on_cancel start_finalization on_transfer_cancelled : HandlerCall
  on_session_end : String → Option TransferOutcome → HandlerCall

-- `ConversationSession`, with all that it has published and what it has called
pub record ConversationSession : Type 0 where
  pub fsm : ConversationFsm
  pub text_only : Bool
  pub tts_seq : ℕ
  pub audio_buffer : Text
  pub transfer_outcome : Option TransferOutcome
  pub published : List SessionEvent
  pub calls : List HandlerCall

-- `_make_handlers`
abbrev pub session_handlers : FsmHandlers
session_handlers = record {
  on_state_changed = true;
  on_speech_started = true;
  on_speech_ended = true;
  on_stt_final = true;
  on_playback_finished = false;
  on_transfer_requested = false;
  on_transfer_completed = false;
  on_session_close = false;
}

-- `__init__`
abbrev pub new_session : ℕ → Bool → ConversationSession
new_session now text_only = record {
  fsm = init now;
  text_only = text_only;
  tts_seq = 0;
  audio_buffer = [];
  transfer_outcome = none;
  published = [];
  calls = [];
}
