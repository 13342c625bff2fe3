-- ===== src/Runner/Reached.antt =====
-- Every state that a call can bring a runner of services/conversation/workflow/runner.py to.
use yuviz.Base.{
  Bool, Option, none, some, List, [], Text, text_eq, ◌⊎◌, ◌≡◌, sym, subst, All-imp, ap, ◌∙◌, arith,
  All, Bool-cases, Option-cases, inl, inr,
}
use yuviz.Base.Dict.{lookup}
use yuviz.Workflow.Graph.{Node, Edge, WorkflowGraph, type_is_transfer}
use yuviz.Workflow.Templates.{Variables}
use yuviz.Workflow.Validate.Wiring.{All-lookup}
use yuviz.Workflow.Validate.WellFormed.{IsWired, IsWellFormed}
use yuviz.Runner.{
  WorkflowRunner, begin, runner_at, update_variables, transition_tool_name, local_tools, enter,
  transition, abandon_transfer,
}
use yuviz.Runner.Moves.{IsAtStep, begin-IsAtStep, transition-IsAtStep, lookup-local_tools}

-- the states of a runner, from `__init__` on: a transition by a tool that is offered, a transfer that
-- is rejected, variables that are extracted, and the flags that services/conversation/pipeline.py sets
pub data Reached (g : WorkflowGraph) (suffix : Text) (variables : Variables)
    : WorkflowRunner → Type 0 where
  begun : (r : WorkflowRunner) → begin g suffix variables ≡ some r → Reached g suffix variables r
  moved :
      (r : WorkflowRunner) (name : Text) (e : Edge) (after : WorkflowRunner)
      → Reached g suffix variables r
      → lookup name (local_tools r.node.out_edges []) ≡ some e
      → transition e r ≡ some after
      → Reached g suffix variables after
  abandoned :
      (r : WorkflowRunner)
      → Reached g suffix variables r
      → Reached g suffix variables (abandon_transfer r)
  extracted :
      (r : WorkflowRunner) (found : List (Text × Option Text))
      → Reached g suffix variables r
      → Reached g suffix variables (record r { variables = update_variables found r.variables })
  flagged :
      (r : WorkflowRunner) (speech : Option Text) (ended_off_graph : Bool) (handed : Option Node)
      → Reached g suffix variables r
      → Reached g suffix variables (record r {
        pending_speech = speech;
        ended_off_graph = ended_off_graph;
        pending_transfer = handed;
      })

-- At a step of the graph, and so is the step that a rejected transfer returns to.
pub record IsPlacedRunner (g : WorkflowGraph) (r : WorkflowRunner) : Type 0 where
  pub same_graph : r.graph ≡ g
  pub now : lookup r.node.id g.nodes ≡ some r.node
  pub before : (n : Node) → r.pre_transfer_node ≡ some n → lookup n.id g.nodes ≡ some n

enter_pre :
    (e : Edge) (n : Node) (r : WorkflowRunner) (source : Node)
    → (enter e n r).pre_transfer_node ≡ some source
    → r.node ≡ source
unfolding enter
enter_pre e n r source h = ground (arith, h)

enter_graph : (e : Edge) (n : Node) (r : WorkflowRunner) → (enter e n r).graph ≡ r.graph
unfolding enter
enter_graph e n r = ground arith

transition-enter :
    (e : Edge) (r after : WorkflowRunner)
    → transition e r ≡ some after
    → (n : Node) × (lookup e.target r.graph.nodes ≡ some n) × (enter e n r ≡ after)
unfolding transition
transition-enter e r after h = elim (Option-cases (lookup e.target r.graph.nodes)) [
  | inl missing ↦ absurd (ground (arith, missing, h))
  | inr (n, found) ↦ (n, found, ground (arith, found, h))
]

abandon_transfer_cases :
    (r : WorkflowRunner)
    → ((abandon_transfer r).graph ≡ r.graph)
      × ((((abandon_transfer r).node ≡ r.node)
            × ((abandon_transfer r).pre_transfer_node ≡ r.pre_transfer_node))
          ⊎ ((r.pre_transfer_node ≡ some (abandon_transfer r).node)
              × ((abandon_transfer r).pre_transfer_node ≡ none)))
unfolding abandon_transfer
abandon_transfer_cases r = elim (Bool-cases (type_is_transfer r.node.type)) [
  | inl y ↦ elim (Option-cases r.pre_transfer_node) [
    | inl missing ↦ ground (arith, y, missing)
    | inr (source, found) ↦ ground (arith, y, found)
  ]
  | inr n ↦ ground (arith, n)
]

begin_pre :
    (g : WorkflowGraph) (suffix : Text) (variables : Variables) (r : WorkflowRunner)
    → begin g suffix variables ≡ some r
    → (r.graph ≡ g) × (r.pre_transfer_node ≡ none)
unfolding begin
begin_pre g suffix variables r h = elim (Option-cases (lookup g.start_node_id g.nodes)) [
  | inl missing ↦ absurd (ground (arith, missing, h))
  | inr (n, found) ↦
      let same : runner_at n g suffix variables ≡ r = ground (arith, found, h) in
      (
        sym (ap (λ (s : WorkflowRunner). s.graph) same),
        sym (ap (λ (s : WorkflowRunner). s.pre_transfer_node) same),
      )
]

IsPlacedRunner-IsAtStep :
    (g : WorkflowGraph) (r : WorkflowRunner) → IsWellFormed g → IsPlacedRunner g r → IsAtStep r
IsPlacedRunner-IsAtStep g r w placed = record {
  well_formed = rw placed.same_graph w;
  at_step = rw placed.same_graph placed.now;
}

step_in :
    (g : WorkflowGraph) (r : WorkflowRunner)
    → IsAtStep r
    → r.graph ≡ g
    → lookup r.node.id g.nodes ≡ some r.node
step_in g r at same =
    subst (λ (o : WorkflowGraph). lookup r.node.id o.nodes ≡ some r.node) same at.at_step

moved_step :
    (g : WorkflowGraph) (m n : Node)
    → m ≡ n
    → lookup m.id g.nodes ≡ some m
    → lookup n.id g.nodes ≡ some n
moved_step g m n same h = subst (λ (o : Node). lookup o.id g.nodes ≡ some o) same h

begun_placed :
    (g : WorkflowGraph) (suffix : Text) (variables : Variables) (r : WorkflowRunner)
    → IsWellFormed g
    → begin g suffix variables ≡ some r
    → IsPlacedRunner g r
begun_placed g suffix variables r w h =
    let (s, started, at) = begin-IsAtStep g suffix variables w in
    let same : s ≡ r = ground (arith, started, h) in
    let (graph, pre) = begin_pre g suffix variables r h in
    record {
      same_graph = graph;
      now = step_in g r (subst (λ (o : WorkflowRunner). IsAtStep o) same at) graph;
      before = λ n found. absurd (ground (arith, pre, found));
    }

moved_placed :
    (g : WorkflowGraph) (r : WorkflowRunner) (name : Text) (e : Edge) (after : WorkflowRunner)
    → IsWellFormed g
    → IsPlacedRunner g r
    → lookup name (local_tools r.node.out_edges []) ≡ some e
    → transition e r ≡ some after
    → IsPlacedRunner g after
moved_placed g r name e after w placed offered h =
    let (s, done, target, at) =
      transition-IsAtStep r name e (IsPlacedRunner-IsAtStep g r w placed) offered in
    let same : s ≡ after = ground (arith, done, h) in
    let (n, found, entered) = transition-enter e r after h in
    let graph =
      sym (ap (λ (o : WorkflowRunner). o.graph) entered) ∙ enter_graph e n r ∙ placed.same_graph in
    record {
      same_graph = graph;
      now = step_in g after (subst (λ (o : WorkflowRunner). IsAtStep o) same at) graph;
      before = λ source p.
          moved_step g r.node source
            (enter_pre e n r source (ap (λ (o : WorkflowRunner). o.pre_transfer_node) entered ∙ p))
            placed.now;
    }

abandoned_placed :
    (g : WorkflowGraph) (r : WorkflowRunner)
    → IsPlacedRunner g r
    → IsPlacedRunner g (abandon_transfer r)
abandoned_placed g r placed =
    let back = abandon_transfer r in
    let (graph, choice) = abandon_transfer_cases r in
    elim choice [
      | inl (node, pre) ↦ record {
        same_graph = graph ∙ placed.same_graph;
        now = moved_step g r.node back.node (sym node) placed.now;
        before = λ source p. placed.before source (sym pre ∙ p);
      }
      | inr (source, empty) ↦ record {
        same_graph = graph ∙ placed.same_graph;
        now = placed.before back.node source;
        before = λ other p. absurd (ground (arith, empty, p));
      }
    ]

Reached-IsPlacedRunner :
    (g : WorkflowGraph) (suffix : Text) (variables : Variables) (r : WorkflowRunner)
    → IsWellFormed g
    → Reached g suffix variables r
    → IsPlacedRunner g r
Reached-IsPlacedRunner g suffix variables _ w (begun r h) = begun_placed g suffix variables r w h
Reached-IsPlacedRunner g suffix variables _ w (moved r name e after before offered h) =
    moved_placed g r name e after w (Reached-IsPlacedRunner g suffix variables r w before) offered h
Reached-IsPlacedRunner g suffix variables _ w (abandoned r before) =
    abandoned_placed g r (Reached-IsPlacedRunner g suffix variables r w before)
Reached-IsPlacedRunner g suffix variables _ w (extracted r found before) =
    let placed = Reached-IsPlacedRunner g suffix variables r w before in
    record { same_graph = placed.same_graph; now = placed.now; before = placed.before }
Reached-IsPlacedRunner g suffix variables _ w (flagged r speech ended handed before) =
    let placed = Reached-IsPlacedRunner g suffix variables r w before in
    record { same_graph = placed.same_graph; now = placed.now; before = placed.before }

-- On a graph that was validated, whatever moves, rejected transfers and extractions there are: the
-- runner is at a step of that graph, each connection that leaves the step is taken by the tool with
-- its own name, and the tool's transition does not fail but leads to the connection's target.
pub Reached-local_tools :
    (g : WorkflowGraph) (suffix : Text) (variables : Variables) (r : WorkflowRunner)
    → IsWellFormed g
    → Reached g suffix variables r
    → (lookup r.node.id g.nodes ≡ some r.node)
      × All
          (λ e.
            (lookup (transition_tool_name e) (local_tools r.node.out_edges []) ≡ some e)
            × ((after : WorkflowRunner) × (transition e r ≡ some after)
                × (after.node.id ≡ e.target)))
          r.node.out_edges
Reached-local_tools g suffix variables r w reached =
    let placed = Reached-IsPlacedRunner g suffix variables r w reached in
    let at = IsPlacedRunner-IsAtStep g r w placed in
    let wired =
      All-lookup (IsWired r.graph.nodes) r.node.id r.node r.graph.nodes at.well_formed.wired
        at.at_step in
    (
      placed.now,
      All-imp _ _ r.node.out_edges
          (λ e offered.
            let (after, done, target, _) =
              transition-IsAtStep r (transition_tool_name e) e at offered in
            (offered, (after, done, target)))
          (lookup-local_tools r.node.out_edges [] wired.told_apart),
    )
