-- ===== src/Workflow/Validate/Edges.antt =====
-- What `_validate_and_build` guarantees of the connections that it keeps.
use yuviz.Base.{
  ◌≡◌, ◌≢◌, refl, true, false, Option, none, some, is_some, List, [], ◌∷◌, ◌++◌, Text, text_eq, All,
  arith, Bool-cases, inl, inr, text_beq_iff,
}
use yuviz.Base.Dict.{lookup}
use yuviz.Workflow.Words.{tool_name, is_empty}
use yuviz.Workflow.Graph.{Edge, Nodes}
use yuviz.Workflow.Validate.{edge_errors, collect_edges, edges_from}
use yuviz.Workflow.Validate.Sound.{append-eq-nil}

-- A connection between known steps, with a label that gives a name, and a condition.
pub record IsMove (nodes : Nodes) (e : Edge) : Type 0 where
  pub from_known : is_some (lookup e.source nodes) ≡ true
  pub to_known : is_some (lookup e.target nodes) ≡ true
  pub labelled : is_empty e.label ≡ false
  pub usable : is_empty (tool_name e.label) ≡ false
  pub conditioned : is_empty e.condition ≡ false

abbrev pub AreMoves : Nodes → List Edge → Type 0
AreMoves nodes = All (IsMove nodes)

edge_errors-nil :
    (nodes : Nodes) (e : Edge)
    → is_some (lookup e.source nodes) ≡ true
    → is_some (lookup e.target nodes) ≡ true
    → edge_errors e ≡ []
    → IsMove nodes e
unfolding edge_errors
edge_errors-nil nodes e s t h = ground arith

collect_edges-none :
    (nodes : Nodes) (raw : List (Option Edge)) → (collect_edges nodes (none ∷ raw)).0 ≢ []
unfolding collect_edges
collect_edges-none nodes raw e = cc

collect_edges_step :
    (nodes : Nodes) (e : Edge) (raw : List (Option Edge))
    → (collect_edges nodes (some e ∷ raw)).0 ≡ []
    → (is_some (lookup e.source nodes) ≡ true)
      × (is_some (lookup e.target nodes) ≡ true)
      × (edge_errors e ++ (collect_edges nodes raw).0 ≡ [])
      × ((collect_edges nodes (some e ∷ raw)).1 ≡ e ∷ (collect_edges nodes raw).1)
unfolding collect_edges
collect_edges_step nodes e raw h = ground arith

collect_edges_end : (nodes : Nodes) → (collect_edges nodes []).1 ≡ []
unfolding collect_edges
collect_edges_end nodes = refl

-- Connections that are collected without an error are moves between known steps.
pub collect_edges-AreMoves :
    (nodes : Nodes) (raw : List (Option Edge))
    → (collect_edges nodes raw).0 ≡ []
    → AreMoves nodes (collect_edges nodes raw).1
collect_edges-AreMoves nodes [] h = rw (collect_edges_end nodes) tt
collect_edges-AreMoves nodes (none ∷ raw) h = absurd (collect_edges-none nodes raw h)
collect_edges-AreMoves nodes (some e ∷ raw) h =
    let (s, t, errors, out) = collect_edges_step nodes e raw h in
    let (own, rest) = append-eq-nil (edge_errors e) (collect_edges nodes raw).0 errors in
    rw out (edge_errors-nil nodes e s t own, collect_edges-AreMoves nodes raw rest)

-- The connections that leave a step are moves, and have it as their source.
pub AreMoves-edges_from :
    (nodes : Nodes) (id : Text) (es : List Edge)
    → AreMoves nodes es
    → All (λ e. IsMove nodes e × (e.source ≡ id)) (edges_from id es)
AreMoves-edges_from nodes id [] h = tt
AreMoves-edges_from nodes id (e ∷ es) h = elim (Bool-cases (text_eq.is_same e.source id)) [
  | inl y ↦ rw y ((h.0, (text_beq_iff e.source id).0 y), AreMoves-edges_from nodes id es h.1)
  | inr n ↦ rw n (AreMoves-edges_from nodes id es h.1)
]
