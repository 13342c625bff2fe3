-- ===== src/Examples/Transfers.antt =====
-- Transfers of services/conversation/transfer_engine.py and pipeline.py at small inputs.
use yuviz.Base.{◌+◌, ◌≤◌, true, false, none, some, List, [], ◌∷◌, ◌≡◌, ◌↔◌, refl, codes, length}
use yuviz.Directives.{warm, coerce_transfer_type}
use yuviz.Transfer.{DecisionContext, workflow, TransferRequest, accepted, evaluate, TransferSession}
use yuviz.Transfer.Engine.{IsDue, evaluate_lem}
use yuviz.Transfer.Sessions.{
  TransferEvent, turn_begins, turn_ends, booking_is_fabricated, transfer_fails,
  transfer_is_cancelled, run_session, ended, requests_bounded,
}
use yuviz.Transfer.Escalation.{HasCounted}

abbrev context : DecisionContext
context = record {
  session_id = "s";
  tenant_id = "t";
  call_id = "c";
  transfer_type = codes "warm";
  transfer_destination = some (codes "100");
  threshold = some 2;
  already_requested = false;
  caller_id_policy = codes "original";
  platform_did = none;
  custom_caller_id = none;
  caller_number = codes "555";
  waiting_experience = codes "announcement_moh";
}

abbrev session : TransferSession
session = record {
  config = context;
  counter = [];
  fabrications = [];
  fabrication_triggered_transfer = false;
  transfer_requested = false;
  pending_transfer = none;
}

evaluate_lem_example :
    ((r : TransferRequest) × (evaluate (codes "id") context (workflow none) ≡ accepted r)
      × (r.transfer_type ≡ warm)
      × (r.destination ≡ codes "100"))
    ↔ IsDue context (workflow none) warm (codes "100")
evaluate_lem_example = evaluate_lem (codes "id") context (workflow none) warm (codes "100")

abbrev unhappy : List TransferEvent
unhappy =
    turn_begins (codes "1") true
    ∷ turn_begins (codes "2") true
    ∷ turn_begins (codes "3") true
    ∷ turn_ends (codes "4") false none none
    ∷ transfer_fails
    ∷ booking_is_fabricated (codes "5")
    ∷ transfer_is_cancelled
    ∷ []

requests_bounded_example : length (run_session unhappy session).1 ≤ ended unhappy + 1
requests_bounded_example = requests_bounded unhappy session refl

session-HasCounted : HasCounted 2 0 session
unfolding coerce_transfer_type
session-HasCounted = record {
  counted = refl;
  latched = refl;
  waits = refl;
  configuration = record { limit = refl; on = refl; routable = refl };
}
