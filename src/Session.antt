-- ===== src/Session.antt =====
-- services/conversation/session.py: `ConversationSession`, which drives the state machine of a call and
-- publishes what happens. A method that awaits is cut there: an operation is what runs from one await
-- to the next, so that others can come between. Each call of the machine has its reading of the
-- clock. Logs and metrics are left out.
pub mod Shapes
pub mod Steps
pub mod Moves
pub mod Turns
pub mod Outcomes
use yuviz.Base.{
  ℕ, ◌+◌, Bool, true, false, not, ◌&&◌, ◌||◌, String, string_eq, Option, none, some, List, [], ◌∷◌,
  ◌++◌, length, any, Text, ◌==◌, if◌then◌else◌,
}
use yuviz.Fsm.{
  CallFsmState, idle, connecting, listening, recognizing, thinking, synthesizing, speaking,
  Callback, state_changed, stt_final, Event, session_start, service_ready, text_ready,
  first_audio_chunk, session_finalized, recovery_response_ready, close_acknowledged,
  playback_finished, cancel, transfer_requested, session_close, ConversationFsm, step,
  can_accept_audio, is_terminal,
}
use yuviz.Session.Shapes.{
  HandlerResponse, empty_response, FinalizationResult, TransferOutcome, transfer_success,
  transfer_failure, transfer_timeout, transfer_cancelled, SessionEvent, session_state_changed,
  transcript_ready, transfer_initiated, session_finalizing, conversation_finalized, session_ended,
  HandlerCall, on_cancel, start_finalization, on_transfer_cancelled, on_session_end,
  ConversationSession, session_handlers,
}

-- the functions of `_make_handlers`
abbrev pub published_of : List Callback → List SessionEvent
published_of [] = []
published_of (state_changed a b trigger ms ∷ out) =
    session_state_changed a b trigger ms ∷ published_of out
published_of (Callback.speech_started db ∷ out) = SessionEvent.speech_started db ∷ published_of out
published_of (Callback.speech_ended ms db ∷ out) =
    SessionEvent.speech_ended ms db ∷ published_of out
published_of (stt_final text confidence ∷ out) = transcript_ready text confidence ∷ published_of out
published_of (Callback.playback_finished _ ∷ out) = published_of out
published_of (Callback.transfer_requested _ _ ∷ out) = published_of out
published_of (Callback.transfer_completed _ _ ∷ out) = published_of out
published_of (Callback.session_close _ ∷ out) = published_of out

-- a call of the machine
unfoldable pub drive : ℕ → Event → ConversationSession → ConversationSession
drive now event s =
    let (m, out) = step session_handlers now event s.fsm in
    record s { fsm = m; published = s.published ++ published_of out }

abbrev pub publish : SessionEvent → ConversationSession → ConversationSession
publish event s = record s { published = s.published ++ event ∷ [] }

abbrev pub tell : HandlerCall → ConversationSession → ConversationSession
tell call s = record s { calls = s.calls ++ call ∷ [] }

-- `session_ready`
unfoldable pub session_ready : ℕ → ℕ → ConversationSession → ConversationSession
session_ready now later s = drive later service_ready (drive now session_start s)

-- `greet`, with what `greeting` and `greeting_message` answer; `opening_events` are passed on
unfoldable pub greet :
    List Text → String → ConversationSession → ConversationSession × Option HandlerResponse
greet [] text s =
    if s.text_only && not (text == "")
    then (s, some (record empty_response { agent_text = text }))
    else (s, none)
greet (payload ∷ payloads) text s = (
  record s { tts_seq = s.tts_seq + length (payload ∷ payloads) },
  some (record empty_response { tts_payloads = payload ∷ payloads }),
)

-- `push_audio` up to the handler's `on_audio`: whether the audio is kept, and the handler asked; and
-- behind it, with the response. Where the handler is not asked, the response is the empty one.
unfoldable pub push_audio : Text → ConversationSession → ConversationSession × Bool
push_audio payload s =
    if can_accept_audio s.fsm.state
    then (record s { audio_buffer = s.audio_buffer ++ payload }, true)
    else (s, false)

abbrev pub count_audio : HandlerResponse → ConversationSession → ConversationSession
count_audio response s = record s { tts_seq = s.tts_seq + length response.tts_payloads }

-- `state in _SPEECH_ENDED_STATES`
abbrev pub is_speech_ended_state : CallFsmState → Bool
is_speech_ended_state listening = true
is_speech_ended_state recognizing = true
is_speech_ended_state _ = false

-- `speech_ended` up to its loop: the audio for the handler, unless the call is ignored
unfoldable pub begin_speech :
    ℕ → ℕ → ℕ → ℕ → ConversationSession → ConversationSession × Option Text
begin_speech now later duration_ms energy_db s =
    if not (is_speech_ended_state s.fsm.state) then (s, none) else (
      drive later (Event.speech_ended duration_ms energy_db)
          (drive now (Event.speech_started energy_db) (record s { audio_buffer = [] })),
      some s.audio_buffer,
    )

-- `if response.stt_text: self._fsm.on_stt_final(...)`
abbrev pub hear_text : ℕ → HandlerResponse → ConversationSession → ConversationSession
hear_text now r s =
    if r.stt_text == "" then s else drive now (Event.stt_final r.stt_text r.stt_confidence) s

-- `bool(response.tts_payloads)`
abbrev pub has_audio : HandlerResponse → Bool
has_audio r = elim r.tts_payloads [ [] ↦ false | _ ∷ _ ↦ true ]

-- the body of the loop of `speech_ended`, with `first_tts`
unfoldable pub speech_response :
    ℕ → HandlerResponse → Bool → ConversationSession → ConversationSession × Bool
speech_response now r first_tts s =
    let heard = hear_text now r (record s { tts_seq = s.tts_seq + length r.tts_payloads }) in
    if has_audio r && first_tts
    then (drive now first_audio_chunk (drive now text_ready heard), false)
    else (heard, first_tts)

-- the states that the end of `speech_ended` and of `text_input` calls off
abbrev pub is_mid_turn : CallFsmState → Bool
is_mid_turn recognizing = true
is_mid_turn thinking = true
is_mid_turn synthesizing = true
is_mid_turn speaking = true
is_mid_turn _ = false

-- the end of `speech_ended` and of `text_input`
unfoldable pub end_speech : ℕ → ℕ → ConversationSession → ConversationSession
end_speech now later s = if is_mid_turn s.fsm.state then drive now (cancel later) s else s

-- `text_input` up to its loop, and the body of the loop
unfoldable pub begin_text : ℕ → ℕ → ConversationSession → ConversationSession × Bool
begin_text now later s =
    if not (is_speech_ended_state s.fsm.state)
    then (s, false)
    else (drive later (Event.speech_ended 0 0) (drive now (Event.speech_started 0) s), true)

-- `on_playback_finished`
abbrev pub playback_done : ℕ → Bool → ConversationSession → ConversationSession
playback_done now interrupted s = drive now (playback_finished interrupted) s

-- `on_transfer_initiated`
unfoldable pub initiate_transfer :
    ℕ → String → String → String → String → ConversationSession → ConversationSession
initiate_transfer now transfer_type destination reason transfer_id s = tell start_finalization (
    publish (transfer_initiated transfer_type destination reason transfer_id)
      (drive now (transfer_requested destination reason) s))

-- `on_transfer_completed` up to `finalize_session`, and behind it
unfoldable pub complete_transfer : ℕ → String → String → ConversationSession → ConversationSession
complete_transfer now destination transfer_id s = publish session_finalizing (
    publish (SessionEvent.transfer_completed destination transfer_id) (
      drive now (Event.transfer_completed true destination)
        (record s { transfer_outcome = some transfer_success })))

unfoldable pub finish_transfer : ℕ → FinalizationResult → ConversationSession → ConversationSession
finish_transfer now result s =
    publish (conversation_finalized result) (drive now session_finalized s)

-- `on_transfer_failed` up to its loop, with the outcome that it notes
abbrev pub failure_of : String → TransferOutcome
failure_of reason = if reason == "transfer_timeout" then transfer_timeout else transfer_failure

unfoldable pub fail_transfer : ℕ → String → ConversationSession → ConversationSession
fail_transfer now reason s =
    drive now (Event.transfer_failed reason)
      (record s { transfer_outcome = some (failure_of reason) })

-- the body of the loop of `on_transfer_failed`, with `any_audio`, whose negation is `first_audio`
unfoldable pub recovery_response :
    ℕ → HandlerResponse → Bool → ConversationSession → ConversationSession × Bool
recovery_response now r any_audio s =
    if has_audio r
    then ((if any_audio then s else drive now recovery_response_ready s), true)
    else (s, any_audio)

-- the end of `on_transfer_failed`
unfoldable pub end_recovery :
    ℕ → ℕ → String → String → String → Bool → ConversationSession → ConversationSession
end_recovery now later destination reason transfer_id any_audio s =
    publish (SessionEvent.transfer_failed destination reason transfer_id) (
      if any_audio
      then s
      else drive later (playback_finished false) (drive now recovery_response_ready s))

-- `on_transfer_cancelled`
unfoldable pub cancel_transfer : ConversationSession → ConversationSession
cancel_transfer s =
    tell on_transfer_cancelled (record s { transfer_outcome = some transfer_cancelled })

-- `cancel` up to the handler's `on_cancel`, and behind it
abbrev pub begin_cancel : ConversationSession → ConversationSession
begin_cancel s = tell on_cancel (record s { audio_buffer = [] })

abbrev pub end_cancel : ℕ → ℕ → ConversationSession → ConversationSession
end_cancel now later s = drive now (cancel later) s

-- `_GENERIC_CLOSE_REASONS`
abbrev pub is_generic : String → Bool
is_generic reason =
    (reason == "stream_ended")
    || (reason == "close_timeout")
    || (reason == "session_destroyed")
    || (reason == "transport_error")

-- the `effective` reason of `close`
unfoldable pub effective_reason : Option TransferOutcome → String → String
effective_reason (some transfer_success) reason = "TRANSFER_SUCCESS"
effective_reason (some transfer_failure) reason =
    if is_generic reason then "TRANSFER_FAILED" else reason
effective_reason (some transfer_timeout) reason =
    if is_generic reason then "TRANSFER_TIMEOUT" else reason
effective_reason (some transfer_cancelled) reason = reason
effective_reason none reason = reason

-- `close` up to the handler's `on_session_end`: the effective reason, which is published behind it
unfoldable pub begin_close : ℕ → ℕ → String → ConversationSession → ConversationSession × String
unfolding effective_reason
begin_close now later reason s =
    let effective = effective_reason s.transfer_outcome reason in
    let quiet = record s { audio_buffer = [] } in
    (
      tell (on_session_end effective s.transfer_outcome) (
          if is_terminal s.fsm.state
          then quiet
          else drive later close_acknowledged (drive now (session_close reason) quiet)),
      effective,
    )

abbrev pub end_close : String → ConversationSession → ConversationSession
end_close effective s = publish (session_ended effective) s
