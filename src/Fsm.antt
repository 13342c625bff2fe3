-- ===== src/Fsm.antt =====
-- services/conversation/fsm.py: `ConversationFSM`. A trigger method is a clause of `step`, which
-- returns the new state and the callbacks that it fired. The clock (`time.monotonic`) is an
-- argument in whole milliseconds; levels, confidences and durations that are only passed on are
-- numbers. The logger is left out, and a callback does not call the machine again.
mod Shapes
pub mod Diagram
pub mod Closing
pub mod Timing
pub mod Turns
unfoldable pub use Shapes.*
use yuviz.Base.{ℕ, suc, ◌-◌, String, Bool, true, false, List, [], ◌∷◌, ◌++◌, if◌then◌else◌}

-- `_VALID`
unfoldable pub is_valid : CallFsmState → CallFsmState → Bool
is_valid idle connecting = true
is_valid connecting listening = true
is_valid listening recognizing = true
is_valid recognizing thinking = true
is_valid thinking synthesizing = true
is_valid synthesizing speaking = true
is_valid speaking listening = true
is_valid speaking barge_in = true
is_valid barge_in listening = true
is_valid recognizing listening = true
is_valid thinking listening = true
is_valid synthesizing listening = true
is_valid listening transferring = true
is_valid recognizing transferring = true
is_valid thinking transferring = true
is_valid synthesizing transferring = true
is_valid speaking transferring = true
is_valid transferring closing = true
is_valid transferring finalizing = true
is_valid finalizing closing = true
is_valid transferring recovering = true
is_valid recovering speaking = true
is_valid connecting closing = true
is_valid listening closing = true
is_valid recognizing closing = true
is_valid thinking closing = true
is_valid synthesizing closing = true
is_valid speaking closing = true
is_valid barge_in closing = true
is_valid recovering closing = true
is_valid closing closed = true
is_valid _ _ = false

-- `__init__`
unfoldable pub init : ℕ → ConversationFsm
init now = record { state = idle; state_entered = now; transition_count = 0 }

-- `is_terminal`
unfoldable pub is_terminal : CallFsmState → Bool
is_terminal closed = true
is_terminal _ = false

-- `can_accept_audio`
unfoldable pub can_accept_audio : CallFsmState → Bool
can_accept_audio listening = true
can_accept_audio recognizing = true
can_accept_audio speaking = true
can_accept_audio barge_in = true
can_accept_audio _ = false

-- `_is_active`
unfoldable pub is_active : CallFsmState → Bool
is_active idle = false
is_active closing = false
is_active closed = false
is_active _ = true

abbrev pub Outcome : Type 0
Outcome = ConversationFsm × List Callback

-- `if self._handlers.f: self._handlers.f(...)`
abbrev pub fire : Bool → Callback → List Callback
fire set c = if set then c ∷ [] else []

abbrev pub also : Outcome → List Callback → Outcome
also (m, out) more = (m, out ++ more)

-- `_transition`
unfoldable pub transition : FsmHandlers → ℕ → CallFsmState → String → ConversationFsm → Outcome
unfolding is_valid
transition h now next trigger m =
    if is_valid m.state next
    then (
      record { state = next; state_entered = now; transition_count = suc m.transition_count },
      fire h.on_state_changed (state_changed m.state next trigger (now - m.state_entered)),
    )
    else (m, [])

-- `on_session_close`
unfoldable pub close_session : FsmHandlers → ℕ → String → CallFsmState → ConversationFsm → Outcome
unfolding transition
close_session h now reason closing m = (m, [])
close_session h now reason closed m = (m, [])
close_session h now reason _ m =
    let (m', out) = transition h now closing reason m in
    (m', fire h.on_session_close (session_close reason) ++ out)

-- `on_cancel_complete`
unfoldable pub complete_cancel : FsmHandlers → ℕ → CallFsmState → ConversationFsm → Outcome
unfolding transition
complete_cancel h now barge_in m =
    also (transition h now listening "cancel_complete" m)
      (fire h.on_playback_finished (playback_finished true))
complete_cancel h now _ m = (m, [])

-- `on_cancel`
unfoldable pub cancel_turn : FsmHandlers → ℕ → ℕ → CallFsmState → ConversationFsm → Outcome
unfolding transition
cancel_turn h now later speaking m =
    let (m', out) = transition h now barge_in "barge_in" m in
    let (m'', out') = transition h later listening "cancel_complete" m' in
    (m'', out ++ out' ++ fire h.on_playback_finished (playback_finished true))
cancel_turn h now later recognizing m = transition h now listening "barge_in_cancel" m
cancel_turn h now later thinking m = transition h now listening "barge_in_cancel" m
cancel_turn h now later synthesizing m = transition h now listening "barge_in_cancel" m
cancel_turn h now later _ m = (m, [])

-- the tables `recoverable` and `terminal` of `on_timeout`, and its other branches; the state is
-- the timer's, which is the machine's own
unfoldable pub fire_timeout : FsmHandlers → ℕ → CallFsmState → ConversationFsm → Outcome
unfolding transition close_session complete_cancel
fire_timeout h now recognizing m = transition h now listening "stt_timeout" m
fire_timeout h now thinking m = transition h now listening "llm_timeout" m
fire_timeout h now synthesizing m = transition h now listening "tts_timeout" m
fire_timeout h now connecting m = close_session h now "connection_timeout" m.state m
fire_timeout h now listening m = close_session h now "no_speech_timeout" m.state m
fire_timeout h now speaking m = close_session h now "playback_timeout" m.state m
fire_timeout h now transferring m = close_session h now "transfer_timeout" m.state m
fire_timeout h now barge_in m = complete_cancel h now m.state m
fire_timeout h now closing m = transition h now closed "close_timeout_forced" m
fire_timeout h now _ m = (m, [])

-- `on_timeout`: a stale timer is ignored
abbrev same_state : CallFsmState → CallFsmState → Bool
unfolding CallFsmState-discrete
same_state s t = elim (CallFsmState-discrete s t) [ yes _ ↦ true | no _ ↦ false ]

-- `on_playback_finished`
unfoldable pub finish_playback : FsmHandlers → ℕ → Bool → ConversationFsm → Outcome
unfolding transition
finish_playback h now true m = transition h now barge_in "playback_interrupted" m
finish_playback h now false m =
    also (transition h now listening "playback_finished" m)
      (fire h.on_playback_finished (playback_finished false))

-- `on_transfer_completed`
unfoldable pub complete_transfer : FsmHandlers → ℕ → Bool → String → ConversationFsm → Outcome
unfolding transition
complete_transfer h now success id m =
    let (m', out) =
      transition h now (if success then finalizing else closing)
        (if success then "transfer_completed" else "transfer_failed") m in
    (m', fire h.on_transfer_completed (transfer_completed success id) ++ out)

-- The guard `if self._state != S: return` of most methods is the first pattern.
unfoldable pub dispatch : FsmHandlers → ℕ → Event → CallFsmState → ConversationFsm → Outcome
unfolding transition close_session complete_cancel cancel_turn fire_timeout finish_playback
    complete_transfer is_active same_state
dispatch h now session_start s m = transition h now connecting "session_start" m
dispatch h now service_ready connecting m = transition h now listening "service_ready" m
dispatch h now (speech_started db) listening m =
    also (transition h now recognizing "speech_started" m)
      (fire h.on_speech_started (speech_started db))
dispatch h now (speech_ended ms db) recognizing m = (m, fire h.on_speech_ended (speech_ended ms db))
dispatch h now (stt_final text confidence) recognizing m =
    also (transition h now thinking "stt_final" m) (fire h.on_stt_final (stt_final text confidence))
dispatch h now text_ready thinking m = transition h now synthesizing "text_ready" m
dispatch h now first_audio_chunk synthesizing m = transition h now speaking "first_audio_chunk" m
dispatch h now (playback_finished interrupted) speaking m = finish_playback h now interrupted m
dispatch h now cancel_complete s m = complete_cancel h now s m
dispatch h now (cancel later) s m = cancel_turn h now later s m
dispatch h now (transfer_requested queue reason) s m =
    if is_active s
    then (let (m', out) = transition h now transferring "transfer_requested" m in
        (m', fire h.on_transfer_requested (transfer_requested queue reason) ++ out))
    else (m, [])
dispatch h now (transfer_completed success id) transferring m = complete_transfer h now success id m
dispatch h now session_finalized finalizing m = transition h now closing "session_finalized" m
dispatch h now (transfer_failed reason) transferring m =
    transition h now recovering "transfer_failed" m
dispatch h now recovery_response_ready recovering m =
    transition h now speaking "recovery_response_ready" m
dispatch h now (session_close reason) s m = close_session h now reason s m
dispatch h now close_acknowledged closing m = transition h now closed "close_acknowledged" m
dispatch h now (timeout t) s m = if same_state s t then fire_timeout h now t m else (m, [])
dispatch h now _ _ m = (m, [])

unfoldable pub step : FsmHandlers → ℕ → Event → ConversationFsm → Outcome
unfolding dispatch
step h now e m = dispatch h now e m.state m

-- A call: its events with the clock at each, and all the callbacks fired, in order.
unfoldable pub run : FsmHandlers → List (ℕ × Event) → ConversationFsm → Outcome
run h [] m = (m, [])
run h ((now, e) ∷ es) m =
    let (m', out) = step h now e m in let (m'', more) = run h es m' in (m'', out ++ more)
