-- ===== src/Session/Outcomes.antt =====
-- How a session of services/conversation/session.py ends, and what it reports.
use yuviz.Base.{
  ℕ, Bool, true, false, String, string_eq, Option, none, some, List, [], ◌∷◌, ◌++◌, if◌then◌else◌,
  ◌≡◌, refl, sym, ap, ◌∙◌, arith, subst, Bool-cases, inl, inr, ◌==◌,
}
use yuviz.Fsm.{CallFsmState, idle, closed, step, is_terminal}
use yuviz.Session.Shapes.{
  TransferOutcome, transfer_success, transfer_failure, transfer_timeout, transfer_cancelled,
  on_session_end, ConversationSession, new_session,
}
use yuviz.Session.{
  drive, session_ready, greet, push_audio, begin_speech, speech_response, end_speech, begin_text,
  initiate_transfer, complete_transfer, finish_transfer, failure_of, fail_transfer,
  recovery_response, end_recovery, cancel_transfer, effective_reason, begin_close, is_generic,
}
use yuviz.Session.Steps.{
  Op, ready, greeted, audio, audio_is_heard, speech_begins, text_begins, speech_goes_on,
  text_goes_on, speech_ends, played, transfer_starts, transfer_succeeds, transfer_is_finished,
  transfer_fails, recovery_goes_on, recovery_ends, transfer_is_cancelled, cancel_begins,
  cancel_ends, close_begins, close_ends, apply, apply_all,
}

-- what the last of the notifications on a transfer says, and before the first the given outcome
abbrev pub last_outcome : List Op → Option TransferOutcome → Option TransferOutcome
last_outcome [] outcome = outcome
last_outcome (transfer_succeeds _ _ _ ∷ ops) outcome = last_outcome ops (some transfer_success)
last_outcome (transfer_fails _ reason ∷ ops) outcome = last_outcome ops (some (failure_of reason))
last_outcome (transfer_is_cancelled ∷ ops) outcome = last_outcome ops (some transfer_cancelled)
last_outcome (_ ∷ ops) outcome = last_outcome ops outcome

apply-outcome :
    (op : Op) (s : ConversationSession)
    → (apply op s).transfer_outcome ≡ last_outcome (op ∷ []) s.transfer_outcome
unfolding apply session_ready greet push_audio begin_speech speech_response end_speech begin_text
    initiate_transfer complete_transfer finish_transfer fail_transfer recovery_response end_recovery
    cancel_transfer begin_close drive
apply-outcome (ready now later) s = refl
apply-outcome (greeted [] text) s = ground arith
apply-outcome (greeted (_ ∷ _) text) s = refl
apply-outcome (audio payload) s = ground arith
apply-outcome (audio_is_heard r) s = refl
apply-outcome (speech_begins now later ms db) s = ground arith
apply-outcome (text_begins now later) s = ground arith
apply-outcome (speech_goes_on now r first_tts) s = ground arith
apply-outcome (text_goes_on now r) s = ground arith
apply-outcome (speech_ends now later) s = ground arith
apply-outcome (played now interrupted) s = refl
apply-outcome (transfer_starts now transfer_type destination reason id) s = refl
apply-outcome (transfer_succeeds now destination id) s = refl
apply-outcome (transfer_is_finished now result) s = refl
apply-outcome (transfer_fails now reason) s = refl
apply-outcome (recovery_goes_on now r any_audio) s = ground arith
apply-outcome (recovery_ends now later destination reason id any_audio) s = ground arith
apply-outcome transfer_is_cancelled s = refl
apply-outcome cancel_begins s = refl
apply-outcome (cancel_ends now later) s = refl
apply-outcome (close_begins now later reason) s = ground arith
apply-outcome (close_ends effective) s = refl

last_outcome-first :
    (op : Op) (ops : List Op) (outcome : Option TransferOutcome)
    → last_outcome (op ∷ ops) outcome ≡ last_outcome ops (last_outcome (op ∷ []) outcome)
last_outcome-first (transfer_succeeds _ _ _) ops outcome = refl
last_outcome-first (transfer_fails _ reason) ops outcome = refl
last_outcome-first transfer_is_cancelled ops outcome = refl
last_outcome-first _ ops outcome = refl

apply_all-outcome :
    (ops : List Op) (s : ConversationSession)
    → (apply_all ops s).transfer_outcome ≡ last_outcome ops s.transfer_outcome
unfolding apply_all
apply_all-outcome [] s = refl
apply_all-outcome (op ∷ ops) s =
    apply_all-outcome ops (apply op s)
    ∙ ap (last_outcome ops) (apply-outcome op s)
    ∙ sym (last_outcome-first op ops s.transfer_outcome)

calls_at_close :
    (now later : ℕ) (reason : String) (s : ConversationSession)
    → (begin_close now later reason s).0.calls
      ≡ s.calls
        ++ on_session_end (effective_reason s.transfer_outcome reason) s.transfer_outcome ∷ []
unfolding begin_close drive
calls_at_close now later reason s = ground arith

-- The reasons for closing that say no more than that the connection is gone.
pub data IsVague : String → Type 0 where
  stream : IsVague "stream_ended"
  timed_out : IsVague "close_timeout"
  destroyed : IsVague "session_destroyed"
  transport : IsVague "transport_error"

-- What is to be reported of a session whose last outcome is given, and which is closed for a reason.
pub data ReportedAs : Option TransferOutcome → String → String → Type 0 where
  succeeded : {reason : String} → ReportedAs (some transfer_success) reason "TRANSFER_SUCCESS"
  failed_vaguely :
      {reason : String}
      → IsVague reason
      → ReportedAs (some transfer_failure) reason "TRANSFER_FAILED"
  timed_out_vaguely :
      {reason : String}
      → IsVague reason
      → ReportedAs (some transfer_timeout) reason "TRANSFER_TIMEOUT"
  failed_clearly :
      {reason : String} → ¬ IsVague reason → ReportedAs (some transfer_failure) reason reason
  timed_out_clearly :
      {reason : String} → ¬ IsVague reason → ReportedAs (some transfer_timeout) reason reason
  was_cancelled : {reason : String} → ReportedAs (some transfer_cancelled) reason reason
  untried : {reason : String} → ReportedAs none reason reason

vague_of : (reason : String) → is_generic reason ≡ true → IsVague reason
vague_of reason h = elim (Bool-cases (reason == "stream_ended")) [
  | inl e ↦ subst IsVague (sym ((string_eq.is_same_iff reason "stream_ended").0 e)) stream
  | inr n ↦ elim (Bool-cases (reason == "close_timeout")) [
    | inl e ↦ subst IsVague (sym ((string_eq.is_same_iff reason "close_timeout").0 e)) timed_out
    | inr m ↦ elim (Bool-cases (reason == "session_destroyed")) [
      | inl e ↦
          subst IsVague (sym ((string_eq.is_same_iff reason "session_destroyed").0 e)) destroyed
      | inr k ↦
          subst IsVague
            (sym ((string_eq.is_same_iff reason "transport_error").0 (ground (arith, n, m, k, h))))
            transport
    ]
  ]
]

vague-is_generic : (reason : String) → IsVague reason → is_generic reason ≡ true
vague-is_generic _ stream = refl
vague-is_generic _ timed_out = refl
vague-is_generic _ destroyed = refl
vague-is_generic _ transport = refl

clear_of : (reason : String) → is_generic reason ≡ false → ¬ IsVague reason
clear_of reason h v = ground (arith, h, vague-is_generic reason v)

effective_reason-ReportedAs :
    (outcome : Option TransferOutcome) (reason : String)
    → ReportedAs outcome reason (effective_reason outcome reason)
unfolding effective_reason
effective_reason-ReportedAs none reason = untried
effective_reason-ReportedAs (some transfer_success) reason = succeeded
effective_reason-ReportedAs (some transfer_cancelled) reason = was_cancelled
effective_reason-ReportedAs (some transfer_failure) reason = elim (Bool-cases (is_generic reason)) [
  | inl e ↦ rw e (failed_vaguely (vague_of reason e))
  | inr n ↦ rw n (failed_clearly (clear_of reason n))
]
effective_reason-ReportedAs (some transfer_timeout) reason = elim (Bool-cases (is_generic reason)) [
  | inl e ↦ rw e (timed_out_vaguely (vague_of reason e))
  | inr n ↦ rw n (timed_out_clearly (clear_of reason n))
]

-- Closing a session after any operations tells the handler, as the last of its calls, the outcome of
-- the last attempt of a transfer, and the reason that is then published: a success is the reason,
-- whatever the session was closed for; a failure or a time-out is, if it was closed for one of the four
-- reasons that say no more than that the connection is gone; any other reason stays as it is.
pub close_reports :
    (start : ℕ) (text_only : Bool) (ops : List Op) (now later : ℕ) (reason : String)
    → let s = apply_all ops (new_session start text_only) in
      (reported : String) × ((begin_close now later reason s).1 ≡ reported)
      × ((begin_close now later reason s).0.calls
          ≡ s.calls ++ on_session_end reported (last_outcome ops none) ∷ [])
      × ReportedAs (last_outcome ops none) reason reported
unfolding begin_close drive
close_reports start text_only ops now later reason =
    let s = apply_all ops (new_session start text_only) in
    let same : s.transfer_outcome ≡ last_outcome ops none =
      apply_all-outcome ops (new_session start text_only) in
    (
      effective_reason (last_outcome ops none) reason,
      ap (λ (o : Option TransferOutcome). effective_reason o reason) same,
      (calls_at_close now later reason s
          ∙ ap
              (λ (o : Option TransferOutcome).
                s.calls ++ on_session_end (effective_reason o reason) o ∷ [])
              same),
      effective_reason-ReportedAs (last_outcome ops none) reason,
    )

abbrev pub is_idle : CallFsmState → Bool
is_idle idle = true
is_idle _ = false

-- Closing a session leaves its machine closed, from every state but IDLE, where it stays, and the audio
-- that was kept is gone.
pub close_settles :
    (now later : ℕ) (reason : String) (s : ConversationSession)
    → ((begin_close now later reason s).0.fsm.state
        ≡ (if is_idle s.fsm.state then idle else closed))
      × ((begin_close now later reason s).0.audio_buffer ≡ [])
unfolding begin_close drive step is_terminal
close_settles now later reason s = ground arith
