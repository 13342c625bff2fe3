-- ===== src/Transfer/Engine.antt =====
-- `TransferDecisionEngine.evaluate` of services/conversation/transfer_engine.py: when it accepts.
use yuviz.Base.{
  true, false, Option, none, some, [], Text, text_eq, ◌≡◌, ◌≢◌, refl, sym, ◌⊎◌, arith, Bool-cases,
  inl, inr, ◌⊎◌, ◌↔◌, ℕ, ◌<◌, codes, subst, Option-cases, text_beq_iff, ◌==◌,
}
use yuviz.Directives.{TransferType, warm, cold, coerce_transfer_type}
use yuviz.Transfer.{
  TransferTrigger, llm_directive, escalation, workflow, external, DecisionContext, TransferRequest,
  accepted, is_said, text_or, is_on, evaluate,
}
use yuviz.Transfer.Ready.{wished, IsReady, accepted-IsReady, IsReady-accepted}

-- The type of a transfer that a text of the configuration names, where it names one.
pub data Names : TransferType → Text → Type 0 where
  by_warm : Names warm (codes "warm")
  by_cold : Names cold (codes "cold")

-- The destination, and the type, that are configured for transfers which the model does not ask for.
pub record IsConfigured (ctx : DecisionContext) (how : TransferType) (where_to : Text)
    : Type 0 where
  pub type_named : Names how ctx.transfer_type
  pub destination : ctx.transfer_destination ≡ some where_to

-- What a trigger has to bring along, and what it asks for.
pub data Asks (ctx : DecisionContext) : TransferTrigger → TransferType → Text → Type 0 where
  by_model :
      {how : TransferType} {where_to reason : Text}
      → (how ≡ warm) ⊎ (how ≡ cold)
      → Asks ctx
          (llm_directive
            (some (record { transfer_type = how; destination = where_to; reason = reason })))
          how
          where_to
  by_violations :
      {how : TransferType} {where_to : Text} {count threshold : ℕ}
      → ctx.threshold ≡ some threshold
      → threshold < count
      → IsConfigured ctx how where_to
      → Asks ctx (escalation (some count)) how where_to
  by_workflow :
      {how : TransferType} {where_to : Text} {reason : Option Text}
      → IsConfigured ctx how where_to
      → Asks ctx (workflow reason) how where_to
  by_system :
      {how : TransferType} {where_to : Text} {reason : Option Text}
      → IsConfigured ctx how where_to
      → Asks ctx (external reason) how where_to

-- What the engine should accept, in terms of the configuration and the trigger alone.
pub record IsDue (ctx : DecisionContext) (trigger : TransferTrigger) (how : TransferType)
    (where_to : Text) : Type 0 where
  pub not_yet : ctx.already_requested ≡ false
  pub asked : Asks ctx trigger how where_to
  pub routable : where_to ≢ []

-- The tests of the code on the type and on the destination.
coerce-Names :
    (how : TransferType) (raw : Text)
    → coerce_transfer_type raw ≡ how
    → is_on how ≡ true
    → Names how raw
unfolding coerce_transfer_type
coerce-Names how raw e on = elim (Bool-cases (raw == codes "warm")) [
  | inl y ↦
      let is_warm : warm ≡ how = ground (arith, e, y) in
      let same : codes "warm" ≡ raw = sym ((text_beq_iff raw (codes "warm")).0 y) in
      subst (λ (h : TransferType). Names h raw) is_warm (subst (Names warm) same by_warm)
  | inr n ↦ elim (Bool-cases (raw == codes "cold")) [
    | inl y ↦
        let is_cold : cold ≡ how = ground (arith, e, n, y) in
        let same : codes "cold" ≡ raw = sym ((text_beq_iff raw (codes "cold")).0 y) in
        subst (λ (h : TransferType). Names h raw) is_cold (subst (Names cold) same by_cold)
    | inr m ↦ ground (arith, e, n, m, on)
  ]
]

Names-coerce :
    (how : TransferType) (raw : Text)
    → Names how raw
    → (coerce_transfer_type raw ≡ how) × (is_on how ≡ true)
unfolding coerce_transfer_type
Names-coerce _ _ by_warm = (refl, refl)
Names-coerce _ _ by_cold = (refl, refl)

wish-IsConfigured :
    (ctx : DecisionContext) (how : TransferType) (where_to : Text)
    → coerce_transfer_type ctx.transfer_type ≡ how
    → text_or ctx.transfer_destination [] ≡ where_to
    → is_on how ≡ true
    → is_said where_to ≡ true
    → IsConfigured ctx how where_to
wish-IsConfigured ctx how where_to e d on said = record {
  type_named = coerce-Names how ctx.transfer_type e on;
  destination = ground (arith, d, said);
}

wished-Asks :
    (ctx : DecisionContext) (trigger : TransferTrigger) (how : TransferType) (where_to : Text)
    → wished ctx trigger ≡ some (how, where_to)
    → is_on how ≡ true
    → is_said where_to ≡ true
    → Asks ctx trigger how where_to
wished-Asks ctx (llm_directive none) how where_to h on said = ground arith
wished-Asks ctx (llm_directive (some d)) how where_to h on said =
    let same_how : d.transfer_type ≡ how = ground (arith, h) in
    let same_where : d.destination ≡ where_to = ground (arith, h) in
    subst (λ (w : Text). Asks ctx (llm_directive (some d)) how w) same_where
      (subst (λ (t : TransferType). Asks ctx (llm_directive (some d)) t d.destination) same_how
        (by_model (ground (arith, on, same_how))))
wished-Asks ctx (escalation none) how where_to h on said = ground arith
wished-Asks ctx (escalation (some count)) how where_to h on said =
    elim (Option-cases ctx.threshold) [
      | inl unset ↦ ground (arith, unset, h)
      | inr (n, set) ↦ by_violations set (ground (arith, set, h)) (
          wish-IsConfigured ctx how where_to (ground (arith, set, h)) (ground (arith, set, h)) on
            said)
    ]
wished-Asks ctx (workflow reason) how where_to h on said =
    by_workflow (wish-IsConfigured ctx how where_to (ground (arith, h)) (ground (arith, h)) on said)
wished-Asks ctx (external reason) how where_to h on said =
    by_system (wish-IsConfigured ctx how where_to (ground (arith, h)) (ground (arith, h)) on said)

Asks-wished :
    (ctx : DecisionContext) (trigger : TransferTrigger) (how : TransferType) (where_to : Text)
    → Asks ctx trigger how where_to
    → where_to ≢ []
    → (wished ctx trigger ≡ some (how, where_to)) × (is_on how ≡ true)
Asks-wished ctx _ how where_to (by_model on) said = (refl, ground (arith, on))
Asks-wished ctx _ how where_to (by_violations {count = count} {threshold = n} set past c) said =
    let (named, on) = Names-coerce how ctx.transfer_type c.type_named in
    (ground (arith, set, past, named, c.destination, said), on)
Asks-wished ctx _ how where_to (by_workflow c) said =
    let (named, on) = Names-coerce how ctx.transfer_type c.type_named in
    (ground (arith, named, c.destination, said), on)
Asks-wished ctx _ how where_to (by_system c) said =
    let (named, on) = Names-coerce how ctx.transfer_type c.type_named in
    (ground (arith, named, c.destination, said), on)

IsReady-iff :
    (ctx : DecisionContext) (trigger : TransferTrigger) (how : TransferType) (where_to : Text)
    → IsReady ctx trigger how where_to ↔ IsDue ctx trigger how where_to
IsReady-iff ctx trigger how where_to = (
  λ r. record {
    not_yet = r.not_yet;
    asked = wished-Asks ctx trigger how where_to r.ready r.on r.routable;
    routable = λ e. ground (arith, e, r.routable);
  },
  λ d.
      let (ready, on) = Asks-wished ctx trigger how where_to d.asked d.routable in
      record { not_yet = d.not_yet; ready = ready; on = on; routable = ground (arith, d.routable) },
)

-- A request, of a type and to a destination, is made exactly if none was made before, the destination is
-- not empty, the type is warm or cold, and they are what the model's directive names, or what is
-- configured for a workflow step or the system, or for more violations than the threshold that is set.
pub evaluate_lem :
    (fresh : Text) (ctx : DecisionContext) (trigger : TransferTrigger) (how : TransferType)
    (where_to : Text)
    → ((r : TransferRequest) × (evaluate fresh ctx trigger ≡ accepted r)
        × (r.transfer_type ≡ how)
        × (r.destination ≡ where_to))
      ↔ IsDue ctx trigger how where_to
evaluate_lem fresh ctx trigger how where_to = (
  λ (r, h, how_is, where_is).
      (IsReady-iff ctx trigger how where_to).0
        (let due = accepted-IsReady fresh ctx trigger r h in rw (sym how_is, sym where_is) due),
  λ due.
      IsReady-accepted fresh ctx trigger how where_to
        ((IsReady-iff ctx trigger how where_to).1 due),
)
