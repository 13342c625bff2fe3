-- ===== src/Runner/Rejected.antt =====
-- A rejected transfer: `abandon_transfer` of services/conversation/workflow/runner.py.
use yuviz.Base.{
  true, none, some, List, [], ◌∷◌, ◌++◌, Text, text_eq, text_beq_iff, ◌==◌, ◌≡◌, ◌≢◌, refl, ap, ◌∙◌,
  arith, if◌then◌else◌,
}
use yuviz.Workflow.Graph.{Node, Edge, transfer, type_is_transfer}
use yuviz.Runner.{WorkflowRunner, enter, last_is, pop, abandon_transfer}

pop-append : (names : List Text) (name : Text) → pop (names ++ name ∷ []) ≡ names
pop-append [] name = refl
pop-append (x ∷ []) name = refl
pop-append (x ∷ y ∷ names) name = ap (λ (rest : List Text). x ∷ rest) (pop-append (y ∷ names) name)

last_is-append :
    (other : Text) (names : List Text) (name : Text)
    → last_is other (names ++ name ∷ []) ≡ (name == other)
last_is-append other [] name = refl
last_is-append other (x ∷ []) name = refl
last_is-append other (x ∷ y ∷ names) name = last_is-append other (y ∷ names) name

enter-transfer :
    (e : Edge) (n : Node) (r : WorkflowRunner)
    → n.type ≡ transfer
    → ((enter e n r).node ≡ n)
      × ((enter e n r).pre_transfer_node ≡ some r.node)
      × ((enter e n r).visited ≡ r.visited ++ n.name ∷ [])
      × ((enter e n r).pending_transfer ≡ some n)
unfolding enter
enter-transfer e n r h = ground (arith, h)

abandon_lem :
    (r : WorkflowRunner) (source : Node)
    → type_is_transfer r.node.type ≡ true
    → r.pre_transfer_node ≡ some source
    → (abandon_transfer r).node ≡ source
      × ((abandon_transfer r).pending_transfer ≡ none)
      × ((abandon_transfer r).visited
          ≡ (if last_is source.name r.visited then r.visited else pop r.visited))
unfolding abandon_transfer
abandon_lem r source t p = ground (arith, t, p)

-- A transfer step that was entered and is rejected leaves no trace: the runner is back at the step
-- that it came from, the list of the steps visited is what it was, and no transfer is pending, where
-- the two steps have different names.
pub abandon_transfer-enter :
    (e : Edge) (n : Node) (r : WorkflowRunner)
    → n.type ≡ transfer
    → n.name ≢ r.node.name
    → let back = abandon_transfer (enter e n r) in
      (back.node ≡ r.node) × (back.visited ≡ r.visited) × (back.pending_transfer ≡ none)
abandon_transfer-enter e n r t other =
    let (node, pre, visited, _) = enter-transfer e n r t in
    let (source, pending, names) = abandon_lem (enter e n r) r.node (rw (node, t) refl) pre in
    let kept =
      names
      ∙ ground (
        arith,
        visited,
        last_is-append r.node.name r.visited n.name,
        pop-append r.visited n.name,
        text_beq_iff n.name r.node.name,
        other,
      ) in
    (source, kept, pending)
