-- ===== src/Examples/Captures.antt =====
-- A workflow whose starting point captures a name: libs/config_sdk/workflow.py.
use yuviz.Base.{
  true, false, Option, some, List, [], ◌∷◌, ◌++◌, ◌≡◌, ◌↔◌, refl, Text, text_eq, codes,
  if◌then◌else◌,
}
use yuviz.Base.Dict.{lookup}
use yuviz.Workflow.Words.{lower, strip, tool_name, is_space, squash, lstrip, rstrip, lower_char}
use yuviz.Workflow.Graph.{Node, Edge, start, end, WorkflowGraph, WorkflowError}
use yuviz.Workflow.Validate.{
  validate_and_build, collect_nodes, node_errors, graph_errors, name_errors, shape_errors,
  collect_edges, edge_errors, all_wiring_errors, wiring_errors, move_errors, first_start, attach,
}
use yuviz.Workflow.Validate.WellFormed.{IsWellFormed}
use yuviz.Workflow.Validate.Returned.{validate_and_build-IsWellFormed}
use yuviz.Workflow.Reachable.{has, reachable, reach}
use yuviz.Workflow.Templates.{match_placeholder, match_fallback, skip, run_of}
use yuviz.Workflow.Available.{variables_available_at, while_changed, visit_all, visit}
use yuviz.Workflow.Available.Ways.{Leads, led_start, led_move}
use yuviz.Workflow.Available.Kept.{captured}
use yuviz.Workflow.Available.Exact.{variables_available_at_iff}
use yuviz.Workflow.Warnings.{
  call_context_variables, graph_warnings, warn_nodes, warn_node, warn_templates, warn_speeches,
  malformed_templates, bad_chunks, template_variables, names_in,
}
use yuviz.Workflow.Warnings.Clear.{IsSupplied, graph_warnings_clear}
use yuviz.Examples.Workflows.{step_of, goodbye}

abbrev asks : List Edge → Node
asks out = record (step_of (codes "a") start out) {
  extraction = some (record {
    enabled = true;
    extraction_prompt = codes "Listen.";
    variables =
        record { var_name = codes "who"; var_type = codes "string"; var_prompt = codes "Name?" }
        ∷ [];
  });
}

abbrev says_bye : Node
says_bye = record (step_of (codes "b") end []) { prompt = codes "Bye {{who}}." }

abbrev steps : List (Option Node)
steps = some (asks []) ∷ some says_bye ∷ []

abbrev flow : WorkflowGraph
flow = record {
  nodes = (codes "a", asks (goodbye ∷ [])) ∷ (codes "b", says_bye) ∷ [];
  start_node_id = codes "a";
}

flow_built : validate_and_build steps (some goodbye ∷ []) ≡ ([], some flow)
unfolding validate_and_build collect_nodes node_errors graph_errors name_errors shape_errors
    collect_edges edge_errors all_wiring_errors wiring_errors move_errors first_start attach lower
    strip tool_name is_space squash lstrip rstrip lower_char
flow_built = refl

flow-IsWellFormed : IsWellFormed flow
flow-IsWellFormed = validate_and_build-IsWellFormed steps (some goodbye ∷ []) flow flow_built

to_b : Leads flow (codes "a" ∷ []) (codes "b")
to_b = led_move (codes "a") (codes "b") (asks (goodbye ∷ [])) led_start refl refl

variables_available_at_iff_example :
    (out : List Text) × (variables_available_at flow (codes "b") false ≡ some out)
    × ((x : Text)
        → (has out x ≡ true) ↔ (
            (left : List Text)
            → Leads flow left (codes "b")
            → captured flow x (if false then codes "b" ∷ left else left) ≡ true))
variables_available_at_iff_example =
    variables_available_at_iff flow (codes "b") false (codes "a" ∷ []) flow-IsWellFormed to_b

-- what is captured at `a` is there at `b`
found_at_b : variables_available_at flow (codes "b") false ≡ some (codes "who" ∷ [])
unfolding variables_available_at reachable reach while_changed visit_all visit
found_at_b = refl

no_warnings : graph_warnings flow [] ≡ some []
unfolding graph_warnings warn_nodes warn_node warn_templates warn_speeches malformed_templates
    bad_chunks template_variables names_in match_placeholder match_fallback skip run_of is_space
    variables_available_at reachable reach while_changed visit_all visit
no_warnings = refl

graph_warnings_clear_example :
    (out : List WorkflowError) × (graph_warnings flow [] ≡ some out)
    × (out ≡ []
        → (left : List Text) (k : Text) (n : Node) → Leads flow left k
        → lookup k flow.nodes ≡ some n
        → IsSupplied flow (call_context_variables ++ []) k n)
graph_warnings_clear_example = graph_warnings_clear flow [] flow-IsWellFormed
