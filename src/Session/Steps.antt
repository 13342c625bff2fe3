-- ===== src/Session/Steps.antt =====
-- The operations of services/conversation/session.py as data, and runs of them in any order.
use yuviz.Base.{ℕ, Bool, String, string_eq, List, [], ◌∷◌, Text}
use yuviz.Session.Shapes.{HandlerResponse, FinalizationResult, ConversationSession}
use yuviz.Session.{
  session_ready, greet, push_audio, count_audio, begin_speech, hear_text, speech_response,
  end_speech, begin_text, playback_done, initiate_transfer, complete_transfer, finish_transfer,
  fail_transfer, recovery_response, end_recovery, cancel_transfer, begin_cancel, end_cancel,
  begin_close, end_close,
}

-- An operation on a session, with readings of the clock where it calls the machine. The flags that the
-- loops carry, and what the handler answers, are arguments.
pub data Op : Type 0 where
  ready : ℕ → ℕ → Op
  greeted : List Text → String → Op
  audio : Text → Op
  audio_is_heard : HandlerResponse → Op
  speech_begins : ℕ → ℕ → ℕ → ℕ → Op
  text_begins : ℕ → ℕ → Op
  speech_goes_on : ℕ → HandlerResponse → Bool → Op
  text_goes_on : ℕ → HandlerResponse → Op
  speech_ends : ℕ → ℕ → Op
  played : ℕ → Bool → Op
  transfer_starts : ℕ → String → String → String → String → Op
  transfer_succeeds : ℕ → String → String → Op
  transfer_is_finished : ℕ → FinalizationResult → Op
  transfer_fails : ℕ → String → Op
  recovery_goes_on : ℕ → HandlerResponse → Bool → Op
  recovery_ends : ℕ → ℕ → String → String → String → Bool → Op
  transfer_is_cancelled : Op
  cancel_begins : Op
  cancel_ends : ℕ → ℕ → Op
  close_begins : ℕ → ℕ → String → Op
  close_ends : String → Op

unfoldable pub apply : Op → ConversationSession → ConversationSession
apply (ready now later) s = session_ready now later s
apply (greeted payloads text) s = (greet payloads text s).0
apply (audio payload) s = (push_audio payload s).0
apply (audio_is_heard r) s = count_audio r s
apply (speech_begins now later ms db) s = (begin_speech now later ms db s).0
apply (text_begins now later) s = (begin_text now later s).0
apply (speech_goes_on now r first_tts) s = (speech_response now r first_tts s).0
apply (text_goes_on now r) s = hear_text now r s
apply (speech_ends now later) s = end_speech now later s
apply (played now interrupted) s = playback_done now interrupted s
apply (transfer_starts now transfer_type destination reason id) s =
    initiate_transfer now transfer_type destination reason id s
apply (transfer_succeeds now destination id) s = complete_transfer now destination id s
apply (transfer_is_finished now result) s = finish_transfer now result s
apply (transfer_fails now reason) s = fail_transfer now reason s
apply (recovery_goes_on now r any_audio) s = (recovery_response now r any_audio s).0
apply (recovery_ends now later destination reason id any_audio) s =
    end_recovery now later destination reason id any_audio s
apply transfer_is_cancelled s = cancel_transfer s
apply cancel_begins s = begin_cancel s
apply (cancel_ends now later) s = end_cancel now later s
apply (close_begins now later reason) s = (begin_close now later reason s).0
apply (close_ends effective) s = end_close effective s

unfoldable pub apply_all : List Op → ConversationSession → ConversationSession
apply_all [] s = s
apply_all (op ∷ ops) s = apply_all ops (apply op s)
