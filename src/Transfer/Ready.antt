-- ===== src/Transfer/Ready.antt =====
-- What `TransferDecisionEngine.evaluate` of services/conversation/transfer_engine.py accepts, by its own
-- tests.
use yuviz.Base.{
  true, false, Option, none, some, [], Text, text_eq, ◌≡◌, ◌≢◌, refl, sym, ◌∙◌, ◌⊎◌, arith,
  Bool-cases, inl, inr, ◌⊎◌, if◌then◌else◌,
}
use yuviz.Directives.{TransferType, coerce_transfer_type}
use yuviz.Transfer.{
  TransferTrigger, llm_directive, escalation, workflow, external, DecisionContext, TransferRequest,
  configured, escalation_threshold, threshold_exceeded, accepted, rejected, already_transferring,
  is_said, text_or, Wish, is_on, request_for, is_past, settle, consider, evaluate,
}

-- The type and the destination that a trigger asks for, where it is ready.
abbrev pub wished : DecisionContext → TransferTrigger → Option (TransferType × Text)
wished ctx (llm_directive none) = none
wished ctx (llm_directive (some d)) = some (d.transfer_type, d.destination)
wished ctx (escalation none) = none
wished ctx (escalation (some count)) =
    if is_past count ctx.threshold
    then some (coerce_transfer_type ctx.transfer_type, text_or ctx.transfer_destination [])
    else none
wished ctx (workflow _) =
    some (coerce_transfer_type ctx.transfer_type, text_or ctx.transfer_destination [])
wished ctx (external _) =
    some (coerce_transfer_type ctx.transfer_type, text_or ctx.transfer_destination [])

-- the same by the tests of the code
pub record IsReady (ctx : DecisionContext) (trigger : TransferTrigger) (how : TransferType)
    (where_to : Text) : Type 0 where
  pub not_yet : ctx.already_requested ≡ false
  pub ready : wished ctx trigger ≡ some (how, where_to)
  pub on : is_on how ≡ true
  pub routable : is_said where_to ≡ true

settle-accepted :
    (fresh : Text) (ctx : DecisionContext) (w : Wish) (r : TransferRequest)
    → settle fresh ctx w ≡ accepted r
    → (is_on w.how ≡ true)
      × (is_said w.where_to ≡ true)
      × (r.transfer_type ≡ w.how)
      × (r.destination ≡ w.where_to)
unfolding settle request_for
settle-accepted fresh ctx w r h = ground arith

pub settle-due :
    (fresh : Text) (ctx : DecisionContext) (w : Wish)
    → is_on w.how ≡ true
    → is_said w.where_to ≡ true
    → settle fresh ctx w ≡ accepted (request_for fresh ctx w)
unfolding settle
settle-due fresh ctx w on said = rw (on, said) refl

-- What a ready trigger wishes for is what the engine settles.
consider-wished :
    (fresh : Text) (ctx : DecisionContext) (trigger : TransferTrigger)
    → ((wished ctx trigger ≡ none)
        × ((r : TransferRequest) → consider fresh ctx trigger ≢ accepted r))
      ⊎ ((w : Wish) × (wished ctx trigger ≡ some (w.how, w.where_to))
          × (consider fresh ctx trigger ≡ settle fresh ctx w))
unfolding consider
consider-wished fresh ctx (llm_directive none) = inl (refl, λ r e. cc)
consider-wished fresh ctx (llm_directive (some d)) = inr (_, refl, refl)
consider-wished fresh ctx (escalation none) = inl (refl, λ r e. cc)
consider-wished fresh ctx (escalation (some count)) =
    elim (Bool-cases (is_past count ctx.threshold)) [
      | inl y ↦
          inr (configured ctx escalation_threshold (threshold_exceeded count), rw y refl, rw y refl)
      | inr n ↦ inl (rw n refl, λ r e. ground (arith, n))
    ]
consider-wished fresh ctx (workflow reason) = inr (_, refl, refl)
consider-wished fresh ctx (external reason) = inr (_, refl, refl)

-- The engine considers a trigger if the latch is off.
pub evaluate-open :
    (fresh : Text) (ctx : DecisionContext) (trigger : TransferTrigger)
    → ctx.already_requested ≡ false
    → evaluate fresh ctx trigger ≡ consider fresh ctx trigger
unfolding evaluate
evaluate-open fresh ctx trigger h = rw h refl

-- It rejects every trigger if the latch is on.
pub evaluate-latched :
    (fresh : Text) (ctx : DecisionContext) (trigger : TransferTrigger)
    → ctx.already_requested ≡ true
    → evaluate fresh ctx trigger ≡ rejected already_transferring
unfolding evaluate
evaluate-latched fresh ctx trigger h = rw h refl

-- What is accepted is due.
pub accepted-IsReady :
    (fresh : Text) (ctx : DecisionContext) (trigger : TransferTrigger) (r : TransferRequest)
    → evaluate fresh ctx trigger ≡ accepted r
    → IsReady ctx trigger r.transfer_type r.destination
accepted-IsReady fresh ctx trigger r h = elim (Bool-cases ctx.already_requested) [
  | inl y ↦ absurd (cc (evaluate-latched fresh ctx trigger y))
  | inr free ↦
      let k : consider fresh ctx trigger ≡ accepted r =
        sym (evaluate-open fresh ctx trigger free) ∙ h in
      elim (consider-wished fresh ctx trigger) [
        | inl (_, never) ↦ absurd (never r k)
        | inr (w, wish, settled) ↦
            let (on, said, how, where_to) = settle-accepted fresh ctx w r (sym settled ∙ k) in
            record {
              not_yet = free;
              ready = rw (how, where_to) wish;
              on = rw how on;
              routable = rw where_to said;
            }
      ]
]

pub IsReady-accepted :
    (fresh : Text) (ctx : DecisionContext) (trigger : TransferTrigger) (how : TransferType)
    (where_to : Text)
    → IsReady ctx trigger how where_to
    → (r : TransferRequest) × (evaluate fresh ctx trigger ≡ accepted r)
      × (r.transfer_type ≡ how)
      × (r.destination ≡ where_to)
unfolding request_for
IsReady-accepted fresh ctx trigger how where_to due = elim (consider-wished fresh ctx trigger) [
  | inl (none_wished, _) ↦ ground (arith, none_wished, due.ready)
  | inr (w, wish, settled) ↦
      let same_how : w.how ≡ how = ground (arith, wish, due.ready) in
      let same_where : w.where_to ≡ where_to = ground (arith, wish, due.ready) in
      (
        request_for fresh ctx w,
        evaluate-open fresh ctx trigger due.not_yet
            ∙ settled
            ∙ settle-due fresh ctx w (rw same_how due.on) (rw same_where due.routable),
        same_how,
        same_where,
      )
]
