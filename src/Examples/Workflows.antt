-- ===== src/Examples/Workflows.antt =====
-- A workflow of two steps: libs/config_sdk/workflow.py.
use yuviz.Base.{Option, none, some, List, [], ◌∷◌, ◌≡◌, refl, Text, text_eq, codes, ◌++◌, All}
use yuviz.Base.Dict.{lookup}
use yuviz.Workflow.Templates.{Variables, render}
use yuviz.Workflow.Templates.Filled.{placeholder, by_value, IsBlank, IsName, render-placeholder}
use yuviz.Runner.{WorkflowRunner, runner_at, begin, transition_tool_name, local_tools, transition}
use yuviz.Runner.Reached.{begun, Reached-local_tools}
use yuviz.Workflow.Words.{lower, strip, tool_name, is_space, squash, lstrip, rstrip, lower_char}
use yuviz.Workflow.Graph.{Node, Edge, NodeType, start, end, transfer, WorkflowGraph}
use yuviz.Workflow.Validate.{
  validate_and_build, collect_nodes, node_errors, graph_errors, name_errors, shape_errors,
  collect_edges, edge_errors, all_wiring_errors, wiring_errors, move_errors, first_start, attach,
}
use yuviz.Workflow.Validate.WellFormed.{IsWellFormed}
use yuviz.Workflow.Validate.Returned.{validate_and_build-IsWellFormed}

abbrev pub step_of : Text → NodeType → List Edge → Node
step_of id type out = record {
  id = id;
  type = type;
  name = id;
  prompt = codes "Talk.";
  greeting = none;
  delayed_start_ms = 0;
  tools = [];
  knowledge_base_ids = [];
  extraction = none;
  transfer_destination = none;
  disposition = none;
  out_edges = out;
}

abbrev pub goodbye : Edge
goodbye = record {
  edge_id = codes "e";
  source = codes "a";
  target = codes "b";
  label = codes "Bye now";
  condition = codes "Done.";
  transition_speech = none;
}

abbrev raw_steps : List (Option Node)
raw_steps = some (step_of (codes "a") start []) ∷ some (step_of (codes "b") end []) ∷ []

abbrev raw_moves : List (Option Edge)
raw_moves = some goodbye ∷ []

abbrev two_steps : WorkflowGraph
two_steps = record {
  nodes =
      (codes "a", step_of (codes "a") start (goodbye ∷ []))
      ∷ (codes "b", step_of (codes "b") end [])
      ∷ [];
  start_node_id = codes "a";
}

built : validate_and_build raw_steps raw_moves ≡ ([], some two_steps)
unfolding validate_and_build collect_nodes node_errors graph_errors name_errors shape_errors
    collect_edges edge_errors all_wiring_errors wiring_errors move_errors first_start attach lower
    strip tool_name is_space squash lstrip rstrip lower_char
built = refl

validate_and_build-IsWellFormed_example : IsWellFormed two_steps
validate_and_build-IsWellFormed_example =
    validate_and_build-IsWellFormed raw_steps raw_moves two_steps built

-- The runner on this workflow: services/conversation/workflow/runner.py.
abbrev first_step : Node
first_step = step_of (codes "a") start (goodbye ∷ [])

started : begin two_steps [] [] ≡ some (runner_at first_step two_steps [] [])
unfolding begin
started = refl

abbrev handover : Node
handover = step_of (codes "c") transfer []

Reached-local_tools_example :
    (lookup (codes "a") two_steps.nodes ≡ some first_step)
    × All
        (λ e.
          (lookup (transition_tool_name e) (local_tools (goodbye ∷ []) []) ≡ some e)
          × ((after : WorkflowRunner) × (transition e (runner_at first_step two_steps [] [])
                ≡ some after)
              × (after.node.id ≡ e.target)))
        (goodbye ∷ [])
Reached-local_tools_example =
    Reached-local_tools two_steps [] [] (runner_at first_step two_steps [] [])
      (validate_and_build-IsWellFormed raw_steps raw_moves two_steps built)
      (begun (runner_at first_step two_steps [] []) started)

abbrev known : Variables
known = (codes "who", some (codes "Ada")) ∷ []

who_IsName : IsName (codes "who")
who_IsName = (refl, (refl, (refl, tt)))

-- `{{ who | you }}`
abbrev you : Option Text
you = some (codes " you ")

abbrev greeting : Text
greeting = codes "Hi " ++ placeholder (codes " ") (codes "who") (codes " ") you (codes "!")

space_IsBlank : IsBlank (codes " ")
unfolding is_space
space_IsBlank = (refl, tt)

render-placeholder_example : render greeting known ≡ codes "Hi " ++ codes "Ada" ++ codes "!"
render-placeholder_example =
    render-placeholder known (codes "Hi ") (codes " ") (codes "who") (codes " ") you (codes "!")
      (codes "Ada") space_IsBlank who_IsName space_IsBlank
      (refl, (refl, (refl, (refl, (refl, tt))))) (by_value (refl, λ e. cc)) refl
