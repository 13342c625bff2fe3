-- ===== src/Transfer/Sessions.antt =====
-- How many transfers a session of services/conversation/pipeline.py can ask for.
use yuviz.Base.{
  ℕ, ◌+◌, ◌≤◌, Bool, true, false, Option, none, some, is_some, List, [], ◌∷◌, Text, ◌≡◌, refl,
  arith, inl, inr, ◌⊎◌, Option-cases, length, length-append, ◌++◌,
}
use yuviz.Transfer.{
  TransferDirective, take_request, record_booking_fabrication, on_transfer_cancelled, llm_directive,
  escalation, workflow, TransferRequest, Decision, accepted, rejected, evaluate,
  evaluate_escalation, record_guardrail_violation, TransferSession, begin_turn, end_turn,
  ask_directive, ask_step, transfer_failed, TransferTrigger, Rejection, decision_context, increment,
}
use yuviz.Transfer.Ready.{accepted-IsReady}

-- What happens in a session, with the ids that are drawn.
pub data TransferEvent : Type 0 where
  turn_begins : Text → Bool → TransferEvent
  turn_ends : Text → Bool → Option TransferDirective → Option (Text × Text) → TransferEvent
  booking_is_fabricated : Text → TransferEvent
  transfer_fails : TransferEvent
  transfer_is_cancelled : TransferEvent

unfoldable pub handle : TransferEvent → TransferSession → TransferSession × Option TransferRequest
handle (turn_begins fresh violation) s = (begin_turn fresh violation s, none)
handle (turn_ends fresh cancelled directive step) s = end_turn fresh cancelled directive step s
handle (booking_is_fabricated fresh) s = (record_booking_fabrication fresh s, none)
handle transfer_fails s = (transfer_failed s, none)
handle transfer_is_cancelled s = (on_transfer_cancelled s, none)

abbrev pub listed : Option TransferRequest → List TransferRequest
listed none = []
listed (some r) = r ∷ []

-- The session after the events, and the requests that went out.
unfoldable pub run_session :
    List TransferEvent → TransferSession → TransferSession × List TransferRequest
run_session [] s = (s, [])
run_session (e ∷ events) s =
    let (s1, out) = handle e s in let (s2, rest) = run_session events s1 in (s2, listed out ++ rest)

abbrev pub unit_of : Bool → ℕ
unit_of true = 1
unit_of false = 0

-- the latch, and the request that waits, as numbers
abbrev pub latched : TransferSession → ℕ
latched s = unit_of s.transfer_requested

abbrev pub waiting : TransferSession → ℕ
waiting s = unit_of (is_some s.pending_transfer)

-- the transfers of the events that failed, or were cancelled by the caller
abbrev pub ends : TransferEvent → ℕ
ends transfer_fails = 1
ends transfer_is_cancelled = 1
ends _ = 0

abbrev pub ended : List TransferEvent → ℕ
ended [] = 0
ended (e ∷ events) = ends e + ended events

Decision-cases :
    (d : Decision)
    → ((r : TransferRequest) × (d ≡ accepted r)) ⊎ ((why : Rejection) × (d ≡ rejected why))
Decision-cases (accepted r) = inl (r, refl)
Decision-cases (rejected why) = inr (why, refl)

-- no request without the latch
evaluate_needs_no_latch :
    (fresh : Text) (s : TransferSession) (o : Option Text) (t : TransferTrigger)
    (r : TransferRequest)
    → evaluate fresh (decision_context s o) t ≡ accepted r
    → s.transfer_requested ≡ false
evaluate_needs_no_latch fresh s o t r h =
    (accepted-IsReady fresh (decision_context s o) t r h).not_yet

directive_needs_no_latch :
    (fresh : Text) (d : Option TransferDirective) (s : TransferSession) (r : TransferRequest)
    → ask_directive fresh d s ≡ accepted r
    → s.transfer_requested ≡ false
unfolding ask_directive
directive_needs_no_latch fresh none s r h = cc
directive_needs_no_latch fresh (some d) s r h =
    evaluate_needs_no_latch fresh s none (llm_directive (some d)) r h

step_needs_no_latch :
    (fresh : Text) (d : Option (Text × Text)) (s : TransferSession) (r : TransferRequest)
    → ask_step fresh d s ≡ accepted r
    → s.transfer_requested ≡ false
unfolding ask_step
step_needs_no_latch fresh none s r h = cc
step_needs_no_latch fresh (some (k, why)) s r h =
    evaluate_needs_no_latch fresh s (some k) (workflow (some why)) r h

escalation_count :
    (fresh : Text) (s : TransferSession) (count : ℕ)
    → waiting (evaluate_escalation fresh s count).0 + latched s
      ≤ latched (evaluate_escalation fresh s count).0 + waiting s
unfolding evaluate_escalation
escalation_count fresh s count =
    elim (Decision-cases (evaluate fresh (decision_context s none) (escalation (some count)))) [
      | inl (r, e) ↦
          ground (arith, e, evaluate_needs_no_latch fresh s none (escalation (some count)) r e)
      | inr (_, e) ↦ ground (arith, e)
    ]

begin_count :
    (fresh : Text) (violation : Bool) (s : TransferSession)
    → waiting (begin_turn fresh violation s) + latched s
      ≤ latched (begin_turn fresh violation s) + waiting s
unfolding begin_turn record_guardrail_violation increment
begin_count fresh true s = escalation_count fresh _ _
begin_count fresh false s = omega arith

fabrication_count :
    (fresh : Text) (s : TransferSession)
    → waiting (record_booking_fabrication fresh s) + latched s
      ≤ latched (record_booking_fabrication fresh s) + waiting s
unfolding record_booking_fabrication increment
fabrication_count fresh s =
    let id = s.config.session_id in
    let (counts, count) = increment s.fabrications id in
    let counted = record s { fabrications = counts } in
    elim (Option-cases (evaluate_escalation fresh counted count).1) [
      | inl e ↦ rw (record_booking_fabrication, e) (escalation_count fresh counted count)
      | inr (r, e) ↦ rw (record_booking_fabrication, e) (escalation_count fresh counted count)
    ]

take_count :
    (fresh : Text) (cancelled : Bool) (directive : Option TransferDirective)
    (step : Option (Text × Text)) (s : TransferSession)
    → length (listed (take_request fresh cancelled directive step s).1)
        + waiting (take_request fresh cancelled directive step s).0
        + latched s
      ≤ latched (take_request fresh cancelled directive step s).0 + waiting s
unfolding take_request
take_count fresh true directive step s = omega arith
take_count fresh false directive step s = elim (Decision-cases (ask_directive fresh directive s)) [
  | inl (r, e) ↦ ground (arith, e, directive_needs_no_latch fresh directive s r e)
  | inr (_, e) ↦ elim (Decision-cases (ask_step fresh step s)) [
    | inl (r, f) ↦ ground (arith, e, f, step_needs_no_latch fresh step s r f)
    | inr (_, f) ↦ ground (arith, e, f)
  ]
]

end_count :
    (fresh : Text) (cancelled : Bool) (directive : Option TransferDirective)
    (step : Option (Text × Text)) (s : TransferSession)
    → length (listed (end_turn fresh cancelled directive step s).1)
        + waiting (end_turn fresh cancelled directive step s).0
        + latched s
      ≤ latched (end_turn fresh cancelled directive step s).0 + waiting s
unfolding end_turn
end_count fresh cancelled directive step s =
    let taken = take_count fresh cancelled directive step s in
    elim (Option-cases (take_request fresh cancelled directive step s).1) [
      | inl e ↦ ground (arith, e, taken)
      | inr (r, e) ↦ ground (arith, e, taken)
    ]

handle_count :
    (e : TransferEvent) (s : TransferSession)
    → length (listed (handle e s).1) + waiting (handle e s).0 + latched s
      ≤ ends e + latched (handle e s).0 + waiting s
unfolding handle
handle_count (turn_begins fresh violation) s = omega (arith, begin_count fresh violation s)
handle_count (turn_ends fresh cancelled directive step) s =
    omega (arith, end_count fresh cancelled directive step s)
handle_count (booking_is_fabricated fresh) s = omega (arith, fabrication_count fresh s)
handle_count transfer_fails s = ground arith
handle_count transfer_is_cancelled s = ground arith

run_count :
    (events : List TransferEvent) (s : TransferSession)
    → length (run_session events s).1 + waiting (run_session events s).0 + latched s
      ≤ ended events + latched (run_session events s).0 + waiting s
unfolding run_session
run_count [] s = omega arith
run_count (e ∷ events) s = omega (
  arith,
  handle_count e s,
  run_count events (handle e s).0,
  length-append (listed (handle e s).1) (run_session events (handle e s).0).1,
)

-- A session in which no request waits at first sends, whatever turns, fabricated bookings, failures and
-- cancellations come, at most one request more than transfers that failed or were cancelled.
pub requests_bounded :
    (events : List TransferEvent) (s : TransferSession)
    → s.pending_transfer ≡ none
    → length (run_session events s).1 ≤ ended events + 1
requests_bounded events s h = ground (arith, run_count events s, h)
