-- ===== src/Transfer/Shapes.antt =====
-- The requests and decisions of services/conversation/transfer_engine.py.
use yuviz.Base.{ℕ, String, string_eq, Bool, Option, Text, text_eq}
use yuviz.Directives.{TransferType}

pub data TransferReason : Type 0 where
  customer_request escalation_threshold workflow_policy system_request : TransferReason

-- `_WIRE_TRIGGER`
unfoldable pub wire_trigger : TransferReason → String
wire_trigger customer_request = "llm_directive"
wire_trigger escalation_threshold = "escalation_threshold"
wire_trigger workflow_policy = "workflow_policy"
wire_trigger system_request = "system_request"

pub record TransferDirective : Type 0 where
  pub transfer_type : TransferType
  pub destination : Text
  pub reason : Text

-- `TransferTrigger`: each type with the payload that belongs to it
pub data TransferTrigger : Type 0 where
  llm_directive : Option TransferDirective → TransferTrigger
  escalation : Option ℕ → TransferTrigger
  workflow : Option Text → TransferTrigger
  external : Option Text → TransferTrigger

pub record DecisionContext : Type 0 where
  pub session_id : String
  pub tenant_id : String
  pub call_id : String
  pub transfer_type : Text
  pub transfer_destination : Option Text
  pub threshold : Option ℕ
  pub already_requested : Bool
  pub caller_id_policy : Text
  pub platform_did : Option Text
  pub custom_caller_id : Option Text
  pub caller_number : Text
  pub waiting_experience : Text

-- the free text of a request
pub data FreeReason : Type 0 where
  said : Text → FreeReason
  threshold_exceeded : ℕ → FreeReason

pub record TransferRequest : Type 0 where
  pub session_id : String
  pub tenant_id : String
  pub call_id : String
  pub transfer_type : TransferType
  pub destination : Text
  pub reason : FreeReason
  pub trigger : String
  pub transfer_id : Text
  pub caller_id : Text
  pub waiting_experience : Text

pub data Rejection : Type 0 where
  already_transferring missing_directive_payload missing_violation_count : Rejection
  threshold_not_reached transfer_disabled no_destination_configured : Rejection

-- `Decision`
pub data Decision : Type 0 where
  accepted : TransferRequest → Decision
  rejected : Rejection → Decision
