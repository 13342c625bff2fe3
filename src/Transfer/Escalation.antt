-- ===== src/Transfer/Escalation.antt =====
-- When the violations in a row lead to a transfer: guardrails.py and `record_guardrail_violation` of
-- services/conversation/pipeline.py.
use yuviz.Base.{
  ℕ, zero, suc, ◌+◌, true, false, not, leb, string_eq, none, some, is_some, [], Text, ◌≡◌, ◌∙◌,
  arith, Bool-cases, inl, inr, if◌then◌else◌, beq_refl,
}
use yuviz.Base.Dict.{insert, lookup-insert}
use yuviz.Directives.{coerce_transfer_type}
use yuviz.Transfer.{
  DecisionContext, escalation, threshold_exceeded, escalation_threshold, is_on, is_said, text_or,
  configured, TransferRequest, accepted, rejected, Rejection, already_transferring,
  threshold_not_reached, request_for, consider, evaluate, evaluate_escalation,
  record_guardrail_violation, TransferSession, decision_context, increment, current,
}
use yuviz.Transfer.Ready.{evaluate-open, evaluate-latched, settle-due}

-- `record_guardrail_violation` n times in a row
unfoldable pub violations : Text → ℕ → TransferSession → TransferSession
violations fresh zero s = s
violations fresh (suc n) s = record_guardrail_violation fresh (violations fresh n s)

-- The agent may transfer to a configured destination, with the threshold k.
pub record IsConfigured (k : ℕ) (ctx : DecisionContext) : Type 0 where
  pub limit : ctx.threshold ≡ some k
  pub on : is_on (coerce_transfer_type ctx.transfer_type) ≡ true
  pub routable : is_said (text_or ctx.transfer_destination []) ≡ true

-- n violations in a row have been counted, and more than k have led to a request.
pub record HasCounted (k n : ℕ) (s : TransferSession) : Type 0 where
  pub counted : current s.counter s.config.session_id ≡ n
  pub latched : s.transfer_requested ≡ not (leb n k)
  pub waits : is_some s.pending_transfer ≡ not (leb n k)
  pub configuration : IsConfigured k s.config

evaluate-violations :
    (fresh : Text) (k n : ℕ) (s : TransferSession)
    → IsConfigured k s.config
    → s.transfer_requested ≡ false
    → evaluate fresh (decision_context s none) (escalation (some n)) ≡ (
        if leb n k
        then rejected threshold_not_reached
        else accepted (
            request_for fresh
              (decision_context s none)
              (configured (decision_context s none) escalation_threshold (threshold_exceeded n))))
unfolding consider
evaluate-violations fresh k n s c free =
    let ctx = decision_context s none in
    let w = configured ctx escalation_threshold (threshold_exceeded n) in
    let due = settle-due fresh ctx w c.on c.routable in
    evaluate-open fresh ctx (escalation (some n)) free ∙ ground (arith, c.limit, due)

escalation-rejected :
    (fresh : Text) (s : TransferSession) (n : ℕ) (why : Rejection)
    → evaluate fresh (decision_context s none) (escalation (some n)) ≡ rejected why
    → evaluate_escalation fresh s n ≡ (s, none)
unfolding evaluate_escalation
escalation-rejected fresh s n why e = ground (arith, e)

escalation-accepted :
    (fresh : Text) (s : TransferSession) (n : ℕ) (r : TransferRequest)
    → evaluate fresh (decision_context s none) (escalation (some n)) ≡ accepted r
    → evaluate_escalation fresh s n
      ≡ (record s { transfer_requested = true; pending_transfer = some r }, some r)
unfolding evaluate_escalation
escalation-accepted fresh s n r e = ground (arith, e)

escalate-HasCounted :
    (fresh : Text) (k n : ℕ) (s : TransferSession)
    → current s.counter s.config.session_id ≡ suc n
    → s.transfer_requested ≡ not (leb n k)
    → is_some s.pending_transfer ≡ not (leb n k)
    → IsConfigured k s.config
    → HasCounted k (suc n) (evaluate_escalation fresh s (suc n)).0
escalate-HasCounted fresh k n s c l w conf =
    let ctx = decision_context s none in
    let same : leb n k ≡ leb (suc n) k → HasCounted k (suc n) s = λ h. record {
      counted = c;
      latched = ground (arith, h, l);
      waits = ground (arith, h, w);
      configuration = conf;
    } in
    elim (Bool-cases (leb n k)) [
      | inr past ↦
          rw
            (escalation-rejected fresh s (suc n) already_transferring
              (evaluate-latched fresh ctx (escalation (some (suc n))) (ground (arith, past, l))))
            (same (ground arith))
      | inl under ↦
          let e = evaluate-violations fresh k (suc n) s conf (ground (arith, under, l)) in
          elim (Bool-cases (leb (suc n) k)) [
            | inl below ↦
                rw
                  (escalation-rejected fresh s (suc n) threshold_not_reached
                    (ground (arith, e, below)))
                  (same (ground (arith, below, under)))
            | inr above ↦
                let w = configured ctx escalation_threshold (threshold_exceeded (suc n)) in
                rw
                  (escalation-accepted fresh s (suc n) (request_for fresh ctx w)
                    (ground (arith, e, above)))
                  (record {
                    counted = c;
                    latched = ground (arith, above);
                    waits = ground (arith, above);
                    configuration = conf;
                  })
          ]
    ]

record-HasCounted :
    (fresh : Text) (k n : ℕ) (s : TransferSession)
    → HasCounted k n s
    → HasCounted k (suc n) (record_guardrail_violation fresh s)
unfolding record_guardrail_violation increment
record-HasCounted fresh k n s h =
    let id = s.config.session_id in
    let next = record s { counter = insert id (suc n) s.counter } in
    let one_more : current s.counter id + 1 ≡ suc n = omega (arith, h.counted) in
    let counted : current next.counter id ≡ suc n =
      ground (arith, lookup-insert id id (suc n) s.counter, beq_refl id) in
    rw (record_guardrail_violation, one_more)
      (escalate-HasCounted fresh k n next counted h.latched h.waits h.configuration)

violations-HasCounted :
    (fresh : Text) (k : ℕ) (s : TransferSession) (n : ℕ)
    → HasCounted k 0 s
    → HasCounted k n (violations fresh n s)
unfolding violations
violations-HasCounted fresh k s zero h = h
violations-HasCounted fresh k s (suc n) h =
    record-HasCounted fresh k n (violations fresh n s) (violations-HasCounted fresh k s n h)

-- Of n violations in a row, from a calm session, the first past the threshold k makes a request:
-- one waits if n is greater than k, and none otherwise.
pub escalates_past_threshold :
    (fresh : Text) (k : ℕ) (s : TransferSession) (n : ℕ)
    → HasCounted k 0 s
    → is_some (violations fresh n s).pending_transfer ≡ not (leb n k)
escalates_past_threshold fresh k s n h = (violations-HasCounted fresh k s n h).waits
