-- ===== src/Workflow/Validate/WellFormed.antt =====
-- What `_validate_and_build` of libs/config_sdk/workflow.py guarantees of a graph that it returns.
use yuviz.Base.{
  ◌≡◌, refl, true, false, ◌||◌, some, is_some, List, [], ◌∷◌, keep, any, length, ◌≤◌, Text, text_eq,
  ◌==◌, All, All-imp, All-zip, All-keep, arith, Bool-cases, Option-cases, inl, inr,
}
use yuviz.Base.Dict.{lookup, DistinctKeys}
use yuviz.Workflow.Words.{is_empty}
use yuviz.Workflow.Graph.{
  Node, Edge, Nodes, WorkflowGraph, values, type_is_start, type_is_end, type_is_transfer,
  is_terminal, is_unwired,
}
use yuviz.Workflow.Validate.{destination, edges_from, has_some, attached, attach}
use yuviz.Workflow.Validate.Sound.{AreSteps}
use yuviz.Workflow.Validate.Distinct.{Distinct, step_key, move_key, move_errors-Distinct}
use yuviz.Workflow.Validate.Edges.{IsMove, AreMoves, AreMoves-edges_from}
use yuviz.Workflow.Validate.Attach.{lookup-attach-some}
use yuviz.Workflow.Validate.Wiring.{IsPlaced, LeadsTo}

-- A step of a graph: its moves start at it, lead to steps that can be entered, have a condition
-- and different names; there is none at a terminal or a global step, and some at any other.
pub record IsWired (nodes : Nodes) (n : Node) : Type 0 where
  pub moves : All (λ e. IsMove nodes e × (e.source ≡ n.id) × LeadsTo nodes e.target) n.out_edges
  pub told_apart : Distinct move_key n.out_edges
  pub stops : is_terminal n || is_unwired n ≡ true → n.out_edges ≡ []
  pub goes_on : is_terminal n || is_unwired n ≡ false → has_some n.out_edges ≡ true
  pub handed_over : type_is_transfer n.type ≡ true → is_empty (destination n) ≡ false

pub record IsWellFormed (g : WorkflowGraph) : Type 0 where
  pub steps : AreSteps g.nodes
  pub distinct_ids : DistinctKeys g.nodes
  pub distinct_names : Distinct step_key (values g.nodes)
  pub one_start : length (keep (λ n. type_is_start n.type) (values g.nodes)) ≡ 1
  pub some_end : any (λ n. type_is_end n.type) (values g.nodes) ≡ true
  pub one_global : length (keep is_unwired (values g.nodes)) ≤ 1
  pub start_node : Node
  pub entered : lookup g.start_node_id g.nodes ≡ some start_node
  pub is_start : type_is_start start_node.type ≡ true
  pub wired : All (IsWired g.nodes) (values g.nodes)

is_some-attach :
    (es : List Edge) (k : Text) (nodes : Nodes)
    → is_some (lookup k nodes) ≡ true
    → is_some (lookup k (attach es nodes)) ≡ true
is_some-attach es k nodes h = elim (Option-cases (lookup k nodes)) [
  | inl missing ↦ ground (arith, missing, h)
  | inr (n, found) ↦ rw (lookup-attach-some es k n nodes found) refl
]

IsMove-attach :
    (es : List Edge) (nodes : Nodes) (e : Edge) → IsMove nodes e → IsMove (attach es nodes) e
IsMove-attach es nodes e h = record {
  from_known = is_some-attach es e.source nodes h.from_known;
  to_known = is_some-attach es e.target nodes h.to_known;
  labelled = h.labelled;
  usable = h.usable;
  conditioned = h.conditioned;
}

LeadsTo-attach :
    (es : List Edge) (nodes : Nodes) (k : Text) → LeadsTo nodes k → LeadsTo (attach es nodes) k
LeadsTo-attach es nodes k h = record {
  target_node = attached es h.target_node;
  found = lookup-attach-some es k h.target_node nodes h.found;
  not_start = h.not_start;
  not_global = h.not_global;
}

has_some-nil : (es : List Edge) → has_some es ≡ false → es ≡ []
has_some-nil [] h = refl
has_some-nil (e ∷ es) h = ground arith

-- Giving a step its connections makes it wired, if it has its place among all of them.
pub IsWired-attached :
    (es : List Edge) (nodes : Nodes) (n : Node)
    → AreMoves nodes es
    → All (λ e. LeadsTo nodes e.target) es
    → IsPlaced es n
    → IsWired (attach es nodes) (attached es n)
IsWired-attached es nodes n moves leads p =
    let own = edges_from n.id es in
    let usable : All (λ e. is_empty (move_key e) ≡ false) own =
      All-imp (IsMove nodes) (λ e. is_empty (move_key e) ≡ false) own (λ e m. m.usable)
        (All-keep (IsMove nodes) (λ e. e.source == n.id) es moves) in
    record {
      moves =
          All-imp (λ e. (IsMove nodes e × (e.source ≡ n.id)) × LeadsTo nodes e.target)
            (λ e.
              IsMove (attach es nodes) e × (e.source ≡ n.id) × LeadsTo (attach es nodes) e.target)
            own
            (λ e ((m, s), l). (IsMove-attach es nodes e m, s, LeadsTo-attach es nodes e.target l))
            (All-zip (λ e. IsMove nodes e × (e.source ≡ n.id)) (λ e. LeadsTo nodes e.target) own
              (AreMoves-edges_from nodes n.id es moves)
              (All-keep (λ e. LeadsTo nodes e.target) (λ e. e.source == n.id) es leads));
      told_apart = elim (Bool-cases (is_unwired n)) [
        | inl u ↦
            let none_left : own ≡ [] = has_some-nil own (ground (arith, p.apart u)) in
            rw none_left tt
        | inr w ↦ (move_errors-Distinct [] own usable (p.told_apart w)).1
      ];
      stops = λ h. has_some-nil own (ground (arith, h, p.stops, p.apart));
      goes_on = λ h. p.goes_on h;
      handed_over = p.handed_over;
    }
