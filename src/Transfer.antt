-- ===== src/Transfer.antt =====
-- services/conversation/transfer_engine.py, the counter of guardrails.py, and what pipeline.py
-- keeps of transfers in a session. The sentences of `reason` stand as constructors with what they
-- name; the correlation id that the program draws at random is an argument.
mod Shapes
pub mod Ready
pub mod Engine
pub mod Sessions
pub mod Escalation
pub use Shapes.*
use yuviz.Base.{
  ℕ, suc, ◌+◌, String, string_eq, Bool, true, false, not, ◌&&◌, ◌||◌, Option, none, some, List, [],
  ◌∷◌, ◌++◌, leb, Text, text_eq, codes, ◌==◌, if◌then◌else◌,
}
use yuviz.Base.Dict.{insert, remove, get_or}
use yuviz.Directives.{TransferType, no_transfer, warm, cold, coerce_transfer_type}

-- the truth of a text, and `x or default`
abbrev pub is_said : Text → Bool
is_said [] = false
is_said (_ ∷ _) = true

abbrev pub text_or : Option Text → Text → Text
text_or none d = d
text_or (some t) d = if is_said t then t else d

-- `_resolve_caller_id`
unfoldable pub resolve_caller_id : DecisionContext → Text
resolve_caller_id ctx =
    let platform = text_or ctx.platform_did [] in
    let custom = text_or ctx.custom_caller_id [] in
    if ctx.caller_id_policy == codes "platform" && is_said platform
    then platform
    else if ctx.caller_id_policy == codes "custom" && is_said custom
    then custom
    else ctx.caller_number

-- what a trigger asks for, once its own checks have passed
pub record Wish : Type 0 where
  pub why : TransferReason
  pub how : TransferType
  pub where_to : Text
  pub free_reason : FreeReason

abbrev pub configured : DecisionContext → TransferReason → FreeReason → Wish
configured ctx why free_reason = record {
  why = why;
  how = coerce_transfer_type ctx.transfer_type;
  where_to = text_or ctx.transfer_destination [];
  free_reason = free_reason;
}

-- the request that is built for a wish
unfoldable pub request_for : Text → DecisionContext → Wish → TransferRequest
unfolding resolve_caller_id wire_trigger
request_for fresh ctx wish = record {
  session_id = ctx.session_id;
  tenant_id = ctx.tenant_id;
  call_id = ctx.call_id;
  transfer_type = wish.how;
  destination = wish.where_to;
  reason = wish.free_reason;
  trigger = wire_trigger wish.why;
  transfer_id = fresh;
  caller_id = resolve_caller_id ctx;
  waiting_experience = ctx.waiting_experience;
}

abbrev pub is_on : TransferType → Bool
is_on no_transfer = false
is_on _ = true

-- the end of `evaluate`, the same for every trigger
unfoldable pub settle : Text → DecisionContext → Wish → Decision
settle fresh ctx wish =
    if not (is_on wish.how)
    then rejected transfer_disabled
    else if not (is_said wish.where_to)
    then rejected no_destination_configured
    else accepted (request_for fresh ctx wish)

abbrev pub is_past : ℕ → Option ℕ → Bool
is_past count none = false
is_past count (some threshold) = not (leb count threshold)

-- the branches of `evaluate` by the type of the trigger
unfoldable pub consider : Text → DecisionContext → TransferTrigger → Decision
consider fresh ctx (llm_directive none) = rejected missing_directive_payload
consider fresh ctx (llm_directive (some d)) = settle fresh ctx (record {
  why = customer_request;
  how = d.transfer_type;
  where_to = d.destination;
  free_reason = said d.reason;
})
consider fresh ctx (escalation none) = rejected missing_violation_count
consider fresh ctx (escalation (some count)) =
    if is_past count ctx.threshold
    then settle fresh ctx (configured ctx escalation_threshold (threshold_exceeded count))
    else rejected threshold_not_reached
consider fresh ctx (workflow reason) =
    settle fresh ctx
      (configured ctx workflow_policy (said (text_or reason (codes "workflow_policy"))))
consider fresh ctx (external reason) =
    settle fresh ctx
      (configured ctx system_request (said (text_or reason (codes "system_request"))))

-- `TransferDecisionEngine.evaluate`
unfoldable pub evaluate : Text → DecisionContext → TransferTrigger → Decision
evaluate fresh ctx trigger =
    if ctx.already_requested then rejected already_transferring else consider fresh ctx trigger

-- `GuardrailCounter`: the consecutive violations of each session
abbrev pub GuardrailCounter : Type 0
GuardrailCounter = List (String × ℕ)

-- `current`
abbrev pub current : GuardrailCounter → String → ℕ
current counts session_id = get_or session_id counts 0

-- `increment`
unfoldable pub increment : GuardrailCounter → String → GuardrailCounter × ℕ
increment counts session_id =
    let count = current counts session_id + 1 in (insert session_id count counts, count)

-- `reset`, and its alias `forget`
unfoldable pub reset : GuardrailCounter → String → GuardrailCounter
reset counts session_id = remove session_id counts

-- The state of a session that transfers depend on. `config` holds the agent's policies;
-- `fabrications` is the counter of claims of a booking that was not made.
pub record TransferSession : Type 0 where
  pub config : DecisionContext
  pub counter : GuardrailCounter
  pub fabrications : GuardrailCounter
  pub fabrication_triggered_transfer : Bool
  pub transfer_requested : Bool
  pub pending_transfer : Option TransferRequest

-- `_decision_context`
abbrev pub decision_context : TransferSession → Option Text → DecisionContext
decision_context s destination_override = record s.config {
  transfer_destination =
      (if is_said (text_or destination_override [])
        then destination_override
        else s.config.transfer_destination);
  already_requested = s.transfer_requested;
}

-- `_evaluate_escalation`
unfoldable pub evaluate_escalation :
    Text → TransferSession → ℕ → TransferSession × Option TransferRequest
evaluate_escalation fresh s count =
    elim (evaluate fresh (decision_context s none) (escalation (some count))) [
      | rejected _ ↦ (s, none)
      | accepted request ↦
          (record s { transfer_requested = true; pending_transfer = some request }, some request)
    ]

-- `record_guardrail_violation`
unfoldable pub record_guardrail_violation : Text → TransferSession → TransferSession
unfolding increment
record_guardrail_violation fresh s =
    let (counts, count) = increment s.counter s.config.session_id in
    (evaluate_escalation fresh (record s { counter = counts }) count).0

-- `record_booking_fabrication`
unfoldable pub record_booking_fabrication : Text → TransferSession → TransferSession
unfolding increment
record_booking_fabrication fresh s =
    let (counts, count) = increment s.fabrications s.config.session_id in
    let (after, request) = evaluate_escalation fresh (record s { fabrications = counts }) count in
    elim request [ none ↦ after | some _ ↦ record after { fabrication_triggered_transfer = true } ]

-- the start of `_run_turn`, with whether the detector found a violation
unfoldable pub begin_turn : Text → Bool → TransferSession → TransferSession
unfolding record_guardrail_violation reset
begin_turn fresh violation s =
    if violation
    then record_guardrail_violation fresh s
    else record s { counter = reset s.counter s.config.session_id }

-- the model's directive of a turn
unfoldable pub ask_directive : Text → Option TransferDirective → TransferSession → Decision
ask_directive fresh none s = rejected missing_directive_payload
ask_directive fresh (some d) s = evaluate fresh (decision_context s none) (llm_directive (some d))

-- The transfer step that a turn has reached, `_workflow_transfer`: its rendered destination, which
-- `transfer_destination_problem` has let pass, and the reason that names it.
unfoldable pub ask_step : Text → Option (Text × Text) → TransferSession → Decision
ask_step fresh none s = rejected no_destination_configured
ask_step fresh (some (destination, why)) s =
    evaluate fresh (decision_context s (some destination)) (workflow (some why))

-- The end of `_run_turn`, which takes the request of the turn: the model's directive, then the
-- transfer step, then the pending escalation.
unfoldable pub take_request :
    Text
    → Bool
    → Option TransferDirective
    → Option (Text × Text)
    → TransferSession
    → TransferSession × Option TransferRequest
take_request fresh true directive step s = (s, none)
take_request fresh false directive step s = elim (ask_directive fresh directive s) [
  | accepted request ↦ (record s { transfer_requested = true }, some request)
  | rejected _ ↦ elim (ask_step fresh step s) [
    | accepted request ↦ (record s { transfer_requested = true }, some request)
    | rejected _ ↦ (record s { pending_transfer = none }, s.pending_transfer)
  ]
]

-- the request goes out, behind the announcement that a fabricated booking asks for
unfoldable pub end_turn :
    Text
    → Bool
    → Option TransferDirective
    → Option (Text × Text)
    → TransferSession
    → TransferSession × Option TransferRequest
unfolding take_request
end_turn fresh cancelled directive step s =
    let (after, request) = take_request fresh cancelled directive step s in
    elim request [
      | none ↦ (after, none)
      | some r ↦ (record after { fabrication_triggered_transfer = false }, some r)
    ]

-- `on_transfer_cancelled`
abbrev pub on_transfer_cancelled : TransferSession → TransferSession
on_transfer_cancelled s = record s { transfer_requested = false }

-- `on_transfer_failed`
abbrev pub transfer_failed : TransferSession → TransferSession
transfer_failed s = record s { transfer_requested = false }
