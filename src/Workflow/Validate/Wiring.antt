-- ===== src/Workflow/Validate/Wiring.antt =====
-- What the checks of the wiring in `_validate_and_build` guarantee of one step.
use yuviz.Base.{
  ◌≡◌, refl, sym, ◌∙◌, true, false, ◌||◌, some, List, [], ◌∷◌, Text, text_eq, All, All-imp, All-zip,
  arith, Bool-cases, Option-cases, inl, inr, text_beq_iff, beq_refl,
}
use yuviz.Base.Dict.{lookup}
use yuviz.Workflow.Words.{is_empty}
use yuviz.Workflow.Graph.{
  Node, Edge, Nodes, values, type_is_start, type_is_transfer, is_terminal, is_unwired,
}
use yuviz.Workflow.Validate.{
  destination, edges_from, edges_into, has_some, move_errors, wiring_errors, all_wiring_errors,
}
use yuviz.Workflow.Validate.Sound.{append-eq-nil, AreSteps}
use yuviz.Workflow.Validate.Edges.{IsMove, AreMoves}

-- The step's place among all the connections.
pub record IsPlaced (es : List Edge) (n : Node) : Type 0 where
  pub apart :
      is_unwired n ≡ true → has_some (edges_into n.id es) || has_some (edges_from n.id es) ≡ false
  pub entry : type_is_start n.type ≡ true → has_some (edges_into n.id es) ≡ false
  pub stops : is_terminal n ≡ true → has_some (edges_from n.id es) ≡ false
  pub goes_on : is_terminal n || is_unwired n ≡ false → has_some (edges_from n.id es) ≡ true
  pub handed_over : type_is_transfer n.type ≡ true → is_empty (destination n) ≡ false
  pub told_apart : is_unwired n ≡ false → move_errors [] (edges_from n.id es) ≡ []

wiring_errors-IsPlaced : (es : List Edge) (n : Node) → wiring_errors es n ≡ [] → IsPlaced es n
unfolding wiring_errors
wiring_errors-IsPlaced es n h = record {
  apart = λ u. ground arith;
  entry = λ s. ground arith;
  stops = λ t. ground arith;
  goes_on = λ t. ground arith;
  handed_over = λ t. ground arith;
  told_apart = λ u. ground arith;
}

all_wiring_errors-step :
    (es : List Edge) (n : Node) (ns : List Node)
    → all_wiring_errors es (n ∷ ns) ≡ []
    → (wiring_errors es n ≡ []) × (all_wiring_errors es ns ≡ [])
unfolding all_wiring_errors
all_wiring_errors-step es n ns h = append-eq-nil (wiring_errors es n) (all_wiring_errors es ns) h

-- If the loop over all steps reports nothing, then every step has its place.
pub all_wiring_errors-IsPlaced :
    (es : List Edge) (ns : List Node) → all_wiring_errors es ns ≡ [] → All (IsPlaced es) ns
all_wiring_errors-IsPlaced es [] h = tt
all_wiring_errors-IsPlaced es (n ∷ ns) h =
    let (own, rest) = all_wiring_errors-step es n ns h in
    (wiring_errors-IsPlaced es n own, all_wiring_errors-IsPlaced es ns rest)

edges_into_self : (es : List Edge) → All (λ e. has_some (edges_into e.target es) ≡ true) es
edges_into_self [] = tt
edges_into_self (e ∷ es) = (
  rw (beq_refl e.target) refl,
  All-imp (λ f. has_some (edges_into f.target es) ≡ true)
      (λ f. has_some (edges_into f.target (e ∷ es)) ≡ true) es (λ f h. ground (arith, h))
      (edges_into_self es),
)

-- What holds of every step holds of the one that a key leads to.
pub All-lookup :
    (P : Node → Type 0) (k : Text) (n : Node) (ns : Nodes)
    → All P (values ns)
    → lookup k ns ≡ some n
    → P n
All-lookup P k n [] h e = ground arith
All-lookup P k n ((j, m) ∷ ns) h e = elim (Bool-cases (text_eq.is_same j k)) [
  | inl y ↦ let same : m ≡ n = ground (arith, y, e) in rw (sym same) h.0
  | inr y ↦ All-lookup P k n ns h.1 (ground (arith, y, e))
]

-- A step is found under its own id.
pub AreSteps-lookup :
    (k : Text) (n : Node) (ns : Nodes) → AreSteps ns → lookup k ns ≡ some n → n.id ≡ k
AreSteps-lookup k n [] h e = ground arith
AreSteps-lookup k n ((j, m) ∷ ns) h e = elim (Bool-cases (text_eq.is_same j k)) [
  | inl y ↦
      let same : m ≡ n = ground (arith, y, e) in rw (sym same) (h.0.keyed ∙ (text_beq_iff j k).0 y)
  | inr y ↦ AreSteps-lookup k n ns h.1 (ground (arith, y, e))
]

-- The target of a connection is a step that can be entered.
pub record LeadsTo (nodes : Nodes) (k : Text) : Type 0 where
  pub target_node : Node
  pub found : lookup k nodes ≡ some target_node
  pub not_start : type_is_start target_node.type ≡ false
  pub not_global : is_unwired target_node ≡ false

IsPlaced-LeadsTo :
    (nodes : Nodes) (es : List Edge) (e : Edge)
    → AreSteps nodes
    → All (IsPlaced es) (values nodes)
    → IsMove nodes e
    → has_some (edges_into e.target es) ≡ true
    → LeadsTo nodes e.target
IsPlaced-LeadsTo nodes es e steps placed move entered =
    elim (Option-cases (lookup e.target nodes)) [
      | inl missing ↦ ground (arith, missing, move.to_known)
      | inr (n, found) ↦
          let place = All-lookup (IsPlaced es) e.target n nodes placed found in
          let key = AreSteps-lookup e.target n nodes steps found in
          let entered_n : has_some (edges_into n.id es) ≡ true = rw key entered in
          record {
            target_node = n;
            found = found;
            not_start = ground (arith, place.entry, entered_n);
            not_global = ground (arith, place.apart, entered_n);
          }
    ]

-- Every connection leads to a step that can be entered.
pub LeadsTo-edges :
    (nodes : Nodes) (es : List Edge)
    → AreSteps nodes
    → AreMoves nodes es
    → All (IsPlaced es) (values nodes)
    → All (λ e. LeadsTo nodes e.target) es
LeadsTo-edges nodes es steps moves placed =
    All-imp (λ e. IsMove nodes e × (has_some (edges_into e.target es) ≡ true))
      (λ e. LeadsTo nodes e.target) es
      (λ e (move, entered). IsPlaced-LeadsTo nodes es e steps placed move entered)
      (All-zip (IsMove nodes) (λ e. has_some (edges_into e.target es) ≡ true) es moves
        (edges_into_self es))
