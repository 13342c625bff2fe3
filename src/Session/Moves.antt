-- ===== src/Session/Moves.antt =====
-- The changes of state that a session of services/conversation/session.py publishes.
use yuviz.Base.{
  ℕ, Bool, true, false, not, ◌&&◌, ◌+◌, string_eq, none, some, List, [], ◌∷◌, ◌++◌, length, ◌==◌,
  if◌then◌else◌, ◌≡◌, refl, sym, subst, arith,
}
use yuviz.Fsm.{
  CallFsmState, idle, is_valid, Callback, state_changed, Event, step, can_accept_audio, is_terminal,
  init,
}
use yuviz.Fsm.Diagram.{Walks, step-Walks}
use yuviz.Session.Shapes.{
  HandlerResponse, SessionEvent, session_state_changed, session_finalizing, empty_response,
  transfer_success, ConversationSession, session_handlers, new_session,
}
use yuviz.Session.{
  published_of, drive, publish, session_ready, greet, push_audio, is_speech_ended_state,
  begin_speech, hear_text, has_audio, speech_response, is_mid_turn, end_speech, begin_text,
  initiate_transfer, complete_transfer, finish_transfer, fail_transfer, failure_of,
  recovery_response, end_recovery, cancel_transfer, begin_close,
}
use yuviz.Session.Steps.{
  Op, ready, greeted, audio, audio_is_heard, speech_begins, text_begins, speech_goes_on,
  text_goes_on, speech_ends, played, transfer_starts, transfer_succeeds, transfer_is_finished,
  transfer_fails, recovery_goes_on, recovery_ends, transfer_is_cancelled, cancel_begins,
  cancel_ends, close_begins, close_ends, apply, apply_all,
}

-- Read in order, the published changes of state lead from `s` to `t`, each by an entry of the table.
abbrev pub Moves : CallFsmState → List SessionEvent → CallFsmState → Type 0
Moves s [] t = s ≡ t
Moves s (session_state_changed a b trigger ms ∷ events) t =
    (a ≡ s) × (is_valid a b ≡ true) × Moves b events t
Moves s (_ ∷ events) t = Moves s events t

Moves-append :
    (s t u : CallFsmState) (xs ys : List SessionEvent)
    → Moves s xs t
    → Moves t ys u
    → Moves s (xs ++ ys) u
Moves-append s t u [] ys p q = subst (λ (r : CallFsmState). Moves r ys u) (sym p) q
Moves-append s t u (session_state_changed a b trigger ms ∷ xs) ys p q =
    (p.0, p.1, Moves-append b t u xs ys p.2 q)
Moves-append s t u (_ ∷ xs) ys p q = Moves-append s t u xs ys p q

Moves-published_of :
    (s t : CallFsmState) (out : List Callback) → Walks s out t → Moves s (published_of out) t
Moves-published_of s t [] p = p
Moves-published_of s t (state_changed a b trigger ms ∷ out) p =
    (p.0, p.1, Moves-published_of b t out p.2)
Moves-published_of s t (Callback.speech_started _ ∷ out) p = Moves-published_of s t out p
Moves-published_of s t (Callback.speech_ended _ _ ∷ out) p = Moves-published_of s t out p
Moves-published_of s t (Callback.stt_final _ _ ∷ out) p = Moves-published_of s t out p
Moves-published_of s t (Callback.playback_finished _ ∷ out) p = Moves-published_of s t out p
Moves-published_of s t (Callback.transfer_requested _ _ ∷ out) p = Moves-published_of s t out p
Moves-published_of s t (Callback.transfer_completed _ _ ∷ out) p = Moves-published_of s t out p
Moves-published_of s t (Callback.session_close _ ∷ out) p = Moves-published_of s t out p

-- the changes published so far lead from `from` to the state of the machine
abbrev pub IsWalk : CallFsmState → ConversationSession → Type 0
IsWalk from s = Moves from s.published s.fsm.state

drive-IsWalk :
    (from : CallFsmState) (now : ℕ) (event : Event) (s : ConversationSession)
    → IsWalk from s
    → IsWalk from (drive now event s)
unfolding drive
drive-IsWalk from now event s p =
    let (m, out) = step session_handlers now event s.fsm in
    Moves-append from s.fsm.state m.state s.published (published_of out) p (
      Moves-published_of s.fsm.state m.state out (step-Walks session_handlers refl now event s.fsm))

-- any other event
abbrev is_other : SessionEvent → Bool
is_other (session_state_changed _ _ _ _) = false
is_other _ = true

Moves-other :
    (event : SessionEvent) (t : CallFsmState) → is_other event ≡ true → Moves t (event ∷ []) t
Moves-other (session_state_changed a b trigger ms) t h = absurd (ground (arith, h))
Moves-other _ t h = refl

publish-IsWalk :
    (from : CallFsmState) (event : SessionEvent) (s : ConversationSession)
    → is_other event ≡ true
    → IsWalk from s
    → IsWalk from (publish event s)
publish-IsWalk from event s h p =
    Moves-append from s.fsm.state s.fsm.state s.published (event ∷ []) p
      (Moves-other event s.fsm.state h)

if-IsWalk :
    (from : CallFsmState) (b : Bool) (s t : ConversationSession)
    → IsWalk from s
    → IsWalk from t
    → IsWalk from (if b then s else t)
if-IsWalk from true s t p q = p
if-IsWalk from false s t p q = q

either-IsWalk :
    {A : Type 0} (from : CallFsmState) (b : Bool) (x y : ConversationSession × A)
    → IsWalk from x.0
    → IsWalk from y.0
    → IsWalk from (if b then x else y).0
either-IsWalk from true x y p q = p
either-IsWalk from false x y p q = q

module _ (from : CallFsmState) where
  twice-IsWalk :
      (now later : ℕ) (e f : Event) (s : ConversationSession)
      → IsWalk from s
      → IsWalk from (drive later f (drive now e s))
  twice-IsWalk now later e f s p =
      drive-IsWalk from later f (drive now e s) (drive-IsWalk from now e s p)

  hear_text-IsWalk :
      (now : ℕ) (r : HandlerResponse) (s : ConversationSession)
      → IsWalk from s
      → IsWalk from (hear_text now r s)
  hear_text-IsWalk now r s p =
      if-IsWalk from (r.stt_text == "") s
        (drive now (Event.stt_final r.stt_text r.stt_confidence) s) p
        (drive-IsWalk from now (Event.stt_final r.stt_text r.stt_confidence) s p)

  apply-IsWalk : (op : Op) (s : ConversationSession) → IsWalk from s → IsWalk from (apply op s)
  unfolding apply session_ready greet push_audio begin_speech speech_response end_speech begin_text
      initiate_transfer complete_transfer finish_transfer fail_transfer recovery_response
      end_recovery cancel_transfer begin_close
  apply-IsWalk (ready now later) s p =
      twice-IsWalk now later Event.session_start Event.service_ready s p
  apply-IsWalk (greeted [] text) s p =
      either-IsWalk from (s.text_only && not (text == ""))
        (s, some (record empty_response { agent_text = text })) (s, none) p p
  apply-IsWalk (greeted (_ ∷ _) text) s p = p
  apply-IsWalk (audio payload) s p =
      either-IsWalk from (can_accept_audio s.fsm.state)
        (record s { audio_buffer = s.audio_buffer ++ payload }, true) (s, false) p p
  apply-IsWalk (audio_is_heard r) s p = p
  apply-IsWalk (speech_begins now later ms db) s p =
      either-IsWalk from (not (is_speech_ended_state s.fsm.state)) (s, none)
        (
          drive later (Event.speech_ended ms db)
              (drive now (Event.speech_started db) (record s { audio_buffer = [] })),
          some s.audio_buffer,
        )
        p
        (twice-IsWalk now later (Event.speech_started db) (Event.speech_ended ms db)
          (record s { audio_buffer = [] }) p)
  apply-IsWalk (text_begins now later) s p =
      either-IsWalk from (not (is_speech_ended_state s.fsm.state)) (s, false)
        (drive later (Event.speech_ended 0 0) (drive now (Event.speech_started 0) s), true) p
        (twice-IsWalk now later (Event.speech_started 0) (Event.speech_ended 0 0) s p)
  apply-IsWalk (speech_goes_on now r first_tts) s p =
      let counted = record s { tts_seq = s.tts_seq + length r.tts_payloads } in
      let heard = hear_text now r counted in
      let q = hear_text-IsWalk now r counted p in
      either-IsWalk from (has_audio r && first_tts)
        (drive now Event.first_audio_chunk (drive now Event.text_ready heard), false)
        (heard, first_tts) (twice-IsWalk now now Event.text_ready Event.first_audio_chunk heard q) q
  apply-IsWalk (text_goes_on now r) s p = hear_text-IsWalk now r s p
  apply-IsWalk (speech_ends now later) s p =
      if-IsWalk from (is_mid_turn s.fsm.state) (drive now (Event.cancel later) s) s
        (drive-IsWalk from now (Event.cancel later) s p) p
  apply-IsWalk (played now interrupted) s p =
      drive-IsWalk from now (Event.playback_finished interrupted) s p
  apply-IsWalk (transfer_starts now transfer_type destination reason id) s p =
      publish-IsWalk from (SessionEvent.transfer_initiated transfer_type destination reason id)
        (drive now (Event.transfer_requested destination reason) s) refl
        (drive-IsWalk from now (Event.transfer_requested destination reason) s p)
  apply-IsWalk (transfer_succeeds now destination id) s p =
      let driven =
        drive now (Event.transfer_completed true destination)
          (record s { transfer_outcome = some transfer_success }) in
      let told = publish (SessionEvent.transfer_completed destination id) driven in
      publish-IsWalk from session_finalizing told refl (
        publish-IsWalk from (SessionEvent.transfer_completed destination id) driven refl (
          drive-IsWalk from now (Event.transfer_completed true destination)
            (record s { transfer_outcome = some transfer_success }) p))
  apply-IsWalk (transfer_is_finished now result) s p =
      publish-IsWalk from (SessionEvent.conversation_finalized result)
        (drive now Event.session_finalized s) refl
        (drive-IsWalk from now Event.session_finalized s p)
  apply-IsWalk (transfer_fails now reason) s p =
      drive-IsWalk from now (Event.transfer_failed reason)
        (record s { transfer_outcome = some (failure_of reason) }) p
  apply-IsWalk (recovery_goes_on now r any_audio) s p =
      either-IsWalk from (has_audio r)
        ((if any_audio then s else drive now Event.recovery_response_ready s), true) (s, any_audio)
        (if-IsWalk from any_audio s (drive now Event.recovery_response_ready s) p
          (drive-IsWalk from now Event.recovery_response_ready s p))
        p
  apply-IsWalk (recovery_ends now later destination reason id any_audio) s p =
      let forced =
        drive later (Event.playback_finished false) (drive now Event.recovery_response_ready s) in
      publish-IsWalk from (SessionEvent.transfer_failed destination reason id)
        (if any_audio then s else forced) refl
        (if-IsWalk from any_audio s forced p (
          twice-IsWalk now later Event.recovery_response_ready (Event.playback_finished false) s p))
  apply-IsWalk transfer_is_cancelled s p = p
  apply-IsWalk cancel_begins s p = p
  apply-IsWalk (cancel_ends now later) s p = drive-IsWalk from now (Event.cancel later) s p
  apply-IsWalk (close_begins now later reason) s p =
      let quiet = record s { audio_buffer = [] } in
      if-IsWalk from (is_terminal s.fsm.state) quiet
        (drive later Event.close_acknowledged (drive now (Event.session_close reason) quiet)) p
        (twice-IsWalk now later (Event.session_close reason) Event.close_acknowledged quiet p)
  apply-IsWalk (close_ends effective) s p =
      publish-IsWalk from (SessionEvent.session_ended effective) s refl p

  apply_all-IsWalk :
      (ops : List Op) (s : ConversationSession) → IsWalk from s → IsWalk from (apply_all ops s)
  unfolding apply_all
  apply_all-IsWalk [] s p = p
  apply_all-IsWalk (op ∷ ops) s p = apply_all-IsWalk ops (apply op s) (apply-IsWalk op s p)

-- Whatever operations a session gets, in whatever order and from whichever of its methods: the changes
-- of state that it publishes lead from IDLE to the state that its machine is in, each by an entry of
-- the machine's table.
pub published_changes :
    (now : ℕ) (text_only : Bool) (ops : List Op)
    → let s = apply_all ops (new_session now text_only) in Moves idle s.published s.fsm.state
unfolding init
published_changes now text_only ops = apply_all-IsWalk idle ops (new_session now text_only) refl
