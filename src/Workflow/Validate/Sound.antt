-- ===== src/Workflow/Validate/Sound.antt =====
-- What a validated graph of libs/config_sdk/workflow.py satisfies: the steps.
use yuviz.Base.{
  ◌≡◌, ◌≢◌, refl, ap, sym, ◌∙◌, true, false, ◌||◌, Option, none, some, is_some, List, [], ◌∷◌, ◌++◌,
  Text, text_eq, All, arith, Bool-cases, inl, inr, text_beq_iff,
}
use yuviz.Base.Dict.{lookup, insert, DistinctKeys, DistinctKeys-insert}
use yuviz.Workflow.Words.{is_empty}
use yuviz.Workflow.Graph.{Node, Nodes, WorkflowError, type_is_known}
use yuviz.Workflow.Validate.{node_errors, collect_nodes}

pub append-eq-nil {ℓ} : {A : Type ℓ} (xs ys : List A) → xs ++ ys ≡ [] → (xs ≡ []) × (ys ≡ [])
append-eq-nil [] ys e = (refl, e)
append-eq-nil (x ∷ xs) ys e = cc

-- An entry of the dictionary of steps: its key is the step's id, and the step has a known type and
-- a name.
pub record IsStep (k : Text) (n : Node) : Type 0 where
  pub keyed : n.id ≡ k
  pub has_id : is_empty k ≡ false
  pub known : type_is_known n.type ≡ true
  pub is_named : is_empty n.name ≡ false

abbrev pub AreSteps : Nodes → Type 0
AreSteps = All (λ e. IsStep e.0 e.1)

AreSteps-insert :
    (k : Text) (n : Node) (ns : Nodes) → IsStep k n → AreSteps ns → AreSteps (insert k n ns)
AreSteps-insert k n [] s h = (s, tt)
AreSteps-insert k n ((j, m) ∷ ns) s h = elim (Bool-cases (text_eq.is_same j k)) [
  | inl e ↦ rw e (rw ((text_beq_iff j k).0 e) (s, h.1))
  | inr e ↦ rw e (h.0, AreSteps-insert k n ns s h.1)
]

node_errors-nil :
    (n : Node) → node_errors n ≡ [] → (type_is_known n.type ≡ true) × (is_empty n.name ≡ false)
unfolding node_errors
node_errors-nil n e = ground arith

collect_nodes_new :
    (n : Node) (raw : List (Option Node)) (nodes : Nodes)
    → is_empty n.id ≡ false
    → lookup n.id nodes ≡ none
    → collect_nodes (some n ∷ raw) nodes ≡ (
      node_errors n ++ (collect_nodes raw (insert n.id n nodes)).0,
      (collect_nodes raw (insert n.id n nodes)).1,
    )
unfolding collect_nodes
collect_nodes_new n raw nodes f new = rw (f, new)

collect_nodes_end : (nodes : Nodes) → collect_nodes [] nodes ≡ ([], nodes)
unfolding collect_nodes
collect_nodes_end nodes = refl

collect_nodes-none :
    (raw : List (Option Node)) (nodes : Nodes) → (collect_nodes (none ∷ raw) nodes).0 ≢ []
unfolding collect_nodes
collect_nodes-none raw nodes e = cc

collect_nodes_skip :
    (n : Node) (raw : List (Option Node)) (nodes : Nodes)
    → (is_empty n.id || is_some (lookup n.id nodes)) ≡ true
    → (collect_nodes (some n ∷ raw) nodes).0 ≢ []
unfolding collect_nodes
collect_nodes_skip n raw nodes f e = ground arith

-- Steps that are collected without an error: every entry is a proper step under its own id, and no
-- id stands twice.
pub collect_nodes-AreSteps :
    (raw : List (Option Node)) (nodes : Nodes)
    → (collect_nodes raw nodes).0 ≡ []
    → AreSteps nodes
    → DistinctKeys nodes
    → AreSteps (collect_nodes raw nodes).1 × DistinctKeys (collect_nodes raw nodes).1
collect_nodes-AreSteps [] nodes e s d = rw (collect_nodes_end nodes) (s, d)
collect_nodes-AreSteps (none ∷ raw) nodes e s d = absurd (collect_nodes-none raw nodes e)
collect_nodes-AreSteps (some n ∷ raw) nodes e s d =
    elim (Bool-cases (is_empty n.id || is_some (lookup n.id nodes))) [
      | inl skip ↦ absurd (collect_nodes_skip n raw nodes skip e)
      | inr kept ↦
          let f : is_empty n.id ≡ false = ground arith in
          let new : lookup n.id nodes ≡ none = ground arith in
          let step = collect_nodes_new n raw nodes f new in
          let (own, rest) =
            append-eq-nil (node_errors n) (collect_nodes raw (insert n.id n nodes)).0
              (sym (ap (λ (r : List WorkflowError × Nodes). r.0) step) ∙ e) in
          let (known, is_named) = node_errors-nil n own in
          rw step (
            collect_nodes-AreSteps raw (insert n.id n nodes) rest
              (AreSteps-insert n.id n nodes
                (record { keyed = refl; has_id = f; known = known; is_named = is_named }) s)
              (DistinctKeys-insert n.id n nodes d))
    ]
