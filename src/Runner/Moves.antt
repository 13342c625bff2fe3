-- ===== src/Runner/Moves.antt =====
-- The moves of services/conversation/workflow/runner.py on a graph that was validated.
use yuviz.Base.{
  some, List, [], ◌∷◌, Text, text_eq, text_beq_iff, ◌≡◌, ◌≢◌, refl, sym, ap, ◌∙◌, arith, All,
  Bool-cases, inl, inr,
}
use yuviz.Base.Dict.{lookup, insert, lookup-insert}
use yuviz.Workflow.Graph.{Node, Edge, WorkflowGraph}
use yuviz.Workflow.Templates.{Variables}
use yuviz.Workflow.Validate.Distinct.{Distinct, move_key}
use yuviz.Workflow.Validate.Edges.{IsMove}
use yuviz.Workflow.Validate.Wiring.{All-lookup, AreSteps-lookup, LeadsTo}
use yuviz.Workflow.Validate.WellFormed.{IsWired, IsWellFormed}
use yuviz.Runner.{
  WorkflowRunner, begin, runner_at, transition_tool_name, local_tools, enter, transition,
}

tool_name_other :
    (tools : List (Text × Edge)) (e y : Edge)
    → move_key y ≢ move_key e
    → lookup (transition_tool_name e) (insert (transition_tool_name y) y tools)
      ≡ lookup (transition_tool_name e) tools
unfolding transition_tool_name
tool_name_other tools e y other = ground (
  arith,
  lookup-insert (transition_tool_name y) (transition_tool_name e) y tools,
  text_beq_iff (move_key y) (move_key e),
  other,
)

lookup-insert_own :
    (e : Edge) (tools : List (Text × Edge))
    → lookup (transition_tool_name e) (insert (transition_tool_name e) e tools) ≡ some e
lookup-insert_own e tools =
    let name = transition_tool_name e in
    ground (arith, lookup-insert name name e tools, text_beq_iff name name)

lookup-local_tools_other :
    (e : Edge) (es : List Edge) (tools : List (Text × Edge))
    → All (λ y. move_key y ≢ move_key e) es
    → lookup (transition_tool_name e) (local_tools es tools) ≡ lookup (transition_tool_name e) tools
unfolding local_tools
lookup-local_tools_other e [] tools h = refl
lookup-local_tools_other e (y ∷ es) tools h =
    lookup-local_tools_other e es (insert (transition_tool_name y) y tools) h.1
    ∙ tool_name_other tools e y h.0

-- The tools of connections whose moves have different names: each connection is taken by its tool,
-- and none is shadowed by another.
pub lookup-local_tools :
    (es : List Edge) (tools : List (Text × Edge))
    → Distinct move_key es
    → All (λ e. lookup (transition_tool_name e) (local_tools es tools) ≡ some e) es
unfolding local_tools
lookup-local_tools [] tools d = tt
lookup-local_tools (e ∷ es) tools d =
    let more = insert (transition_tool_name e) e tools in
    (
      lookup-local_tools_other e es more d.0 ∙ lookup-insert_own e tools,
      lookup-local_tools es more d.1,
    )

-- What holds of all connections holds of one that a tool takes.
local_tools-All :
    (P : Edge → Type 0) (name : Text) (e : Edge) (es : List Edge) (tools : List (Text × Edge))
    → All P es
    → ((f : Edge) → lookup name tools ≡ some f → P f)
    → lookup name (local_tools es tools) ≡ some e
    → P e
unfolding local_tools
local_tools-All P name e [] tools a k h = k e h
local_tools-All P name e (f ∷ es) tools a k h =
    let key = transition_tool_name f in
    local_tools-All P name e es (insert key f tools) a.1
      (λ g found. elim (Bool-cases (text_eq.is_same key name)) [
        | inl y ↦
            let same : f ≡ g = ground (arith, lookup-insert key name f tools, y, found) in
            rw (sym same) a.0
        | inr n ↦ k g (ground (arith, lookup-insert key name f tools, n, found))
      ])
      h

-- The runner stands at a step of a well-formed graph.
pub record IsAtStep (r : WorkflowRunner) : Type 0 where
  pub well_formed : IsWellFormed r.graph
  pub at_step : lookup r.node.id r.graph.nodes ≡ some r.node

-- On a well-formed graph the runner starts, at the starting point.
pub begin-IsAtStep :
    (g : WorkflowGraph) (suffix : Text) (variables : Variables)
    → IsWellFormed g
    → (r : WorkflowRunner) × (begin g suffix variables ≡ some r) × IsAtStep r
unfolding begin
begin-IsAtStep g suffix variables w =
    let n = w.start_node in
    let key = AreSteps-lookup g.start_node_id n g.nodes w.steps w.entered in
    (
      runner_at n g suffix variables,
      ground (arith, w.entered),
      record { well_formed = w; at_step = ap (λ (k : Text). lookup k g.nodes) key ∙ w.entered },
    )

enter_place :
    (e : Edge) (n : Node) (r : WorkflowRunner)
    → ((enter e n r).graph ≡ r.graph) × ((enter e n r).node ≡ n)
unfolding enter
enter_place e n r = ground arith

-- At a step of a well-formed graph, every tool that is offered there leads to a step of the graph:
-- the transition does not fail, and the runner is at the target of the connection.
pub transition-IsAtStep :
    (r : WorkflowRunner) (name : Text) (e : Edge)
    → IsAtStep r
    → lookup name (local_tools r.node.out_edges []) ≡ some e
    → (after : WorkflowRunner) × (transition e r ≡ some after)
      × (after.node.id ≡ e.target)
      × IsAtStep after
unfolding transition
transition-IsAtStep r name e at offered =
    let wired =
      All-lookup (IsWired r.graph.nodes) r.node.id r.node r.graph.nodes at.well_formed.wired
        at.at_step in
    let move =
      local_tools-All
        (λ f. IsMove r.graph.nodes f × (f.source ≡ r.node.id) × LeadsTo r.graph.nodes f.target) name
        e r.node.out_edges [] wired.moves (λ f none_there. ground arith) offered in
    let n = move.2.target_node in
    let key = AreSteps-lookup e.target n r.graph.nodes at.well_formed.steps move.2.found in
    let (graph, node) = enter_place e n r in
    (
      enter e n r,
      ground (arith, move.2.found),
      rw node key,
      record {
        well_formed = rw graph at.well_formed;
        at_step = rw (graph, node, key) move.2.found;
      },
    )
