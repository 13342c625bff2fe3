-- ===== src/Workflow/Available/Ways.antt =====
-- The ways from the starting point to a step of a workflow of libs/config_sdk/workflow.py, and the
-- predecessors that `_incoming` finds.
use yuviz.Base.{
  Bool, true, ◌&&◌, ◌||◌, none, some, List, [], ◌∷◌, any, Text, text_eq, text_beq, text_beq_iff,
  ◌==◌, ◌≡◌, ◌↔◌, inl, inr, refl, subst, All, All-imp, ◌∙◌, arith, Bool-cases,
}
use yuviz.Base.Dict.{lookup, DistinctKeys}
use yuviz.Workflow.Graph.{Node, Edge, Nodes, WorkflowGraph, values}
use yuviz.Workflow.Validate.Sound.{AreSteps}
use yuviz.Workflow.Validate.WellFormed.{IsWellFormed, IsWired}
use yuviz.Workflow.Reachable.{has}
use yuviz.Workflow.Reachable.Least.{IsClosed}
use yuviz.Workflow.Available.{sources_into, incoming}
use yuviz.Workflow.Available.Sets.{has-append}

-- some connection leads to the step
abbrev pub goes_to : Text → List Edge → Bool
goes_to id = any (λ e. e.target == id)

-- A way from the starting point to a step, with the steps that it leaves, the last one first.
pub data Leads (g : WorkflowGraph) : List Text → Text → Type 0 where
  led_start : Leads g [] g.start_node_id
  led_move :
      {left : List Text} (p k : Text) (n : Node)
      → Leads g left p
      → lookup p g.nodes ≡ some n
      → goes_to k n.out_edges ≡ true
      → Leads g (p ∷ left) k

pub All-goes_to :
    (P : Text → Type 0) (es : List Edge)
    → ((k : Text) → goes_to k es ≡ true → P k)
    → All (λ e. P e.target) es
All-goes_to P [] f = tt
All-goes_to P (e ∷ es) f = (
  f e.target (ground (arith, text_beq_iff e.target e.target)),
  All-goes_to P es (λ k h. f k (ground (arith, h))),
)

pub goes_to-All :
    (P : Text → Type 0) (k : Text) (es : List Edge)
    → All (λ e. P e.target) es
    → goes_to k es ≡ true
    → P k
goes_to-All P k [] a h = ground (arith, h)
goes_to-All P k (e ∷ es) a h = elim (Bool-cases (text_beq e.target k)) [
  | inl y ↦ subst P ((text_beq_iff e.target k).0 y) a.0
  | inr n ↦ goes_to-All P k es a.1 (ground (arith, n, h))
]

-- A way leads to what a closed set holds, and so to the steps that are found.
pub Leads-closed :
    (g : WorkflowGraph) (P : Text → Type 0) {left : List Text} {k : Text}
    → IsClosed g.nodes P
    → P g.start_node_id
    → Leads g left k
    → P k
Leads-closed g P closed start led_start = start
Leads-closed g P closed start (led_move p k n way known goes) =
    goes_to-All P k n.out_edges (closed p n known (Leads-closed g P closed start way)) goes

abbrev pub IsLed : WorkflowGraph → Text → Type 0
IsLed g k = (left : List Text) × Leads g left k

pub IsLed-closed : (g : WorkflowGraph) → IsClosed g.nodes (IsLed g)
IsLed-closed g p n known (left, way) =
    All-goes_to (IsLed g) n.out_edges (λ k goes. (p ∷ left, led_move p k n way known goes))

has-sources_into :
    (p k source : Text) (es : List Edge)
    → All (λ e. e.source ≡ source) es
    → has (sources_into k es) p ≡ goes_to k es && text_beq source p
has-sources_into p k source [] own = refl
has-sources_into p k source (e ∷ es) own =
    rw own.0 (ground (arith, has-sources_into p k source es own.1))

abbrev pub IsPredecessor : Nodes → Text → Text → Type 0
IsPredecessor nodes k p = (n : Node) × (lookup p nodes ≡ some n) × (goes_to k n.out_edges ≡ true)

-- `_incoming` finds the steps with a connection that leads to the step.
incoming_iff :
    (k p : Text) (nodes : Nodes)
    → DistinctKeys nodes
    → All (λ (e : Text × Node). All (λ m. m.source ≡ e.0) e.1.out_edges) nodes
    → (has (incoming (values nodes) k) p ≡ true) ↔ IsPredecessor nodes k p
incoming_iff k p [] d own =
    (λ h. absurd (ground (arith, h)), λ (n, known, goes). absurd (ground (arith, known)))
incoming_iff k p ((j, n) ∷ nodes) d own =
    let later = incoming_iff k p nodes d.1 own.1 in
    let split : has (incoming (values ((j, n) ∷ nodes)) k) p
        ≡ (goes_to k n.out_edges && text_beq j p) || has (incoming (values nodes) k) p =
      rw
        (
          has-append (sources_into k n.out_edges) (incoming (values nodes) k) p,
          has-sources_into p k j n.out_edges own.0,
        )
        refl in
    rw split (elim (Bool-cases (text_beq j p)) [
      | inl y ↦
          let key : j ≡ p = (text_beq_iff j p).0 y in
          let gone : lookup p nodes ≡ none = subst (λ (i : Text). lookup i nodes ≡ none) key d.0 in
          (
            λ h. elim (Bool-cases (goes_to k n.out_edges)) [
              | inl goes ↦ (n, rw y refl, goes)
              | inr m ↦
                  let (_, known, _) = later.0 (ground (arith, m, h)) in
                  absurd (ground (arith, known, gone))
            ],
            λ (m, known, goes).
                let same : n ≡ m = ground (arith, y, known) in
                let goes_n : goes_to k n.out_edges ≡ true = rw same goes in
                ground (arith, goes_n, y),
          )
      | inr x ↦ (
        λ h. let (m, known, goes) = later.0 (ground (arith, x, h)) in (m, rw x known, goes),
        λ (m, known, goes). ground (arith, x, later.1 (m, ground (arith, x, known), goes)),
      )
    ])

own_sources :
    (nodes all_nodes : Nodes)
    → All (IsWired all_nodes) (values nodes)
    → AreSteps nodes
    → All (λ (e : Text × Node). All (λ m. m.source ≡ e.0) e.1.out_edges) nodes
own_sources [] all_nodes wired steps = tt
own_sources ((j, n) ∷ nodes) all_nodes wired steps = (
  All-imp _ _ n.out_edges (λ e m. m.1 ∙ steps.0.keyed) wired.0.moves,
  own_sources nodes all_nodes wired.1 steps.1,
)

-- On a well-formed graph, the predecessors of a step are the steps with a connection to it.
pub incoming-IsPredecessor :
    (g : WorkflowGraph) (k p : Text)
    → IsWellFormed g
    → (has (incoming (values g.nodes) k) p ≡ true) ↔ IsPredecessor g.nodes k p
incoming-IsPredecessor g k p w =
    incoming_iff k p g.nodes w.distinct_ids (own_sources g.nodes g.nodes w.wired w.steps)
