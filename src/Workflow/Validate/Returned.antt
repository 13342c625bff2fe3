-- ===== src/Workflow/Validate/Returned.antt =====
-- What `_validate_and_build` of libs/config_sdk/workflow.py returns: a well-formed graph, or errors.
use yuviz.Base.{
  List-cases, ◌⊎◌, ◌≡◌, refl, sym, ◌∙◌, Bool, true, false, Option, none, some, is_some, List, [],
  ◌∷◌, ◌++◌, keep, any, length, ◌≤◌, nat_beq_iff, Text, text_eq, All-imp, arith, Bool-cases,
  Option-cases, inl, inr, text_beq_iff,
}
use yuviz.Base.Dict.{lookup, DistinctKeys}
use yuviz.Workflow.Graph.{
  Node, Edge, Nodes, WorkflowGraph, WorkflowError, values, type_is_start, type_is_end, is_unwired,
}
use yuviz.Workflow.Validate.{
  name_errors, shape_errors, collect_nodes, collect_edges, all_wiring_errors, graph_errors,
  attached, attach, first_start, build, validate_and_build,
}
use yuviz.Workflow.Validate.Sound.{append-eq-nil, AreSteps, collect_nodes-AreSteps}
use yuviz.Workflow.Validate.Distinct.{name_errors-Distinct}
use yuviz.Workflow.Validate.Edges.{collect_edges-AreMoves}
use yuviz.Workflow.Validate.Attach.{
  lookup-attach-some, AreSteps-attach, DistinctKeys-attach, values-attach, All-attached,
  Distinct-attached, length-keep-attached, any-attached,
}
use yuviz.Workflow.Validate.Wiring.{IsPlaced, LeadsTo-edges, all_wiring_errors-IsPlaced}
use yuviz.Workflow.Validate.WellFormed.{IsWired, IsWellFormed, IsWired-attached}

length-keep-attach :
    (p : Node → Bool) (es : List Edge) (nodes : Nodes)
    → ((n : Node) → p (attached es n) ≡ p n)
    → length (keep p (values (attach es nodes))) ≡ length (keep p (values nodes))
length-keep-attach p es nodes h =
    rw (values-attach es nodes) (length-keep-attached p es (values nodes) h)

first_start_lem :
    (nodes : Nodes) (k : Text)
    → AreSteps nodes
    → DistinctKeys nodes
    → first_start (values nodes) ≡ some k
    → (n : Node) × (lookup k nodes ≡ some n) × (type_is_start n.type ≡ true)
unfolding first_start
first_start_lem [] k s d h = ground arith
first_start_lem ((j, n) ∷ nodes) k s d h = elim (Bool-cases (type_is_start n.type)) [
  | inl y ↦
      let same : j ≡ k = ground (arith, y, h, s.0.keyed) in
      let hit : text_eq.is_same j k ≡ true = (text_beq_iff j k).1 same in (n, rw hit refl, y)
  | inr x ↦
      let (m, found, st) = first_start_lem nodes k s.1 d.1 (ground (arith, x, h)) in
      let miss : text_eq.is_same j k ≡ false = ground (arith, text_beq_iff j k, found, d.0) in
      (m, rw miss found, st)
]

shape_errors-nil :
    (ns : List Node)
    → shape_errors ns ≡ []
    → (length (keep (λ n. type_is_start n.type) ns) ≡ 1)
      × (any (λ n. type_is_end n.type) ns ≡ true)
      × (length (keep is_unwired ns) ≤ 1)
unfolding shape_errors
shape_errors-nil ns h = ground (arith, nat_beq_iff (length (keep (λ n. type_is_start n.type) ns)) 1)

validate_and_build_inv :
    (raw_nodes : List (Option Node)) (raw_edges : List (Option Edge)) (g : WorkflowGraph)
    → validate_and_build raw_nodes raw_edges ≡ ([], some g)
    → ((collect_nodes raw_nodes []).0 ≡ [])
      × (graph_errors (collect_nodes raw_nodes []).1 raw_edges ≡ [])
      × (build
            (collect_nodes raw_nodes []).1
            (collect_edges (collect_nodes raw_nodes []).1 raw_edges).1
          ≡ some g)
unfolding validate_and_build
validate_and_build_inv raw_nodes raw_edges g h = ground arith

graph_errors_inv :
    (nodes : Nodes) (raw_edges : List (Option Edge))
    → graph_errors nodes raw_edges ≡ []
    → (name_errors [] (values nodes) ≡ [])
      × (shape_errors (values nodes) ≡ [])
      × ((collect_edges nodes raw_edges).0 ≡ [])
      × (all_wiring_errors (collect_edges nodes raw_edges).1 (values nodes) ≡ [])
unfolding graph_errors
graph_errors_inv nodes raw_edges h =
    let errors = (collect_edges nodes raw_edges).0 in
    let wiring = all_wiring_errors (collect_edges nodes raw_edges).1 (values nodes) in
    let shape = shape_errors (values nodes) in
    let names = name_errors [] (values nodes) in
    let (h1, d) = append-eq-nil (names ++ shape ++ errors) wiring h in
    let (h2, c) = append-eq-nil (names ++ shape) errors h1 in
    let (a, b) = append-eq-nil names shape h2 in (a, b, c, d)

build-IsWellFormed :
    (nodes : Nodes) (raw_edges : List (Option Edge)) (g : WorkflowGraph)
    → AreSteps nodes
    → DistinctKeys nodes
    → graph_errors nodes raw_edges ≡ []
    → build nodes (collect_edges nodes raw_edges).1 ≡ some g
    → IsWellFormed g
build-IsWellFormed nodes raw_edges g steps distinct h built =
    let es = (collect_edges nodes raw_edges).1 in
    let (names, shape, edges, wiring) = graph_errors_inv nodes raw_edges h in
    let moves = collect_edges-AreMoves nodes raw_edges edges in
    let placed = all_wiring_errors-IsPlaced es (values nodes) wiring in
    let leads = LeadsTo-edges nodes es steps moves placed in
    let (one, an_end, globals) = shape_errors-nil (values nodes) shape in
    elim (Option-cases (first_start (values nodes))) [
      | inl e ↦ ground (arith, e, built)
      | inr (k, e) ↦
          let (n, found, is_start) = first_start_lem nodes k steps distinct e in
          let same : record { nodes = attach es nodes; start_node_id = k } ≡ g =
            ground (arith, e, built) in
          rw (sym same) (record {
            steps = AreSteps-attach es nodes steps;
            distinct_ids = DistinctKeys-attach es nodes distinct;
            distinct_names = rw (values-attach es nodes) (
                Distinct-attached es (values nodes)
                  (name_errors-Distinct [] (values nodes) names).1);
            one_start = length-keep-attach (λ n. type_is_start n.type) es nodes (λ n. refl) ∙ one;
            some_end =
                rw (values-attach es nodes)
                  (any-attached (λ n. type_is_end n.type) es (values nodes) (λ n. refl) ∙ an_end);
            one_global = rw (length-keep-attach is_unwired es nodes (λ n. refl)) globals;
            start_node = attached es n;
            entered = lookup-attach-some es k n nodes found;
            is_start = is_start;
            wired = rw (values-attach es nodes) (
                All-attached (IsWired (attach es nodes)) es (values nodes) (
                  All-imp (IsPlaced es) (λ n. IsWired (attach es nodes) (attached es n))
                    (values nodes) (λ n p. IsWired-attached es nodes n moves leads p) placed));
          })
    ]

-- A graph that is returned is well formed.
pub validate_and_build-IsWellFormed :
    (raw_nodes : List (Option Node)) (raw_edges : List (Option Edge)) (g : WorkflowGraph)
    → validate_and_build raw_nodes raw_edges ≡ ([], some g)
    → IsWellFormed g
validate_and_build-IsWellFormed raw_nodes raw_edges g h =
    let (collected, no_errors, built) = validate_and_build_inv raw_nodes raw_edges g h in
    let (steps, distinct) = collect_nodes-AreSteps raw_nodes [] collected tt tt in
    build-IsWellFormed (collect_nodes raw_nodes []).1 raw_edges g steps distinct no_errors built

first_start-some :
    (ns : List Node)
    → length (keep (λ n. type_is_start n.type) ns) ≡ 1
    → is_some (first_start ns) ≡ true
unfolding first_start
first_start-some [] h = ground arith
first_start-some (n ∷ ns) h = elim (Bool-cases (type_is_start n.type)) [
  | inl y ↦ rw y refl
  | inr x ↦ rw x (first_start-some ns (ground (arith, x, h)))
]

-- There is a graph, and no error, or there are errors, and no graph.
pub validate_and_build_decides :
    (raw_nodes : List (Option Node)) (raw_edges : List (Option Edge))
    → ((g : WorkflowGraph) × (validate_and_build raw_nodes raw_edges ≡ ([], some g)))
      ⊎ ((e : WorkflowError) × (es : List WorkflowError) × (validate_and_build raw_nodes raw_edges
            ≡ (e ∷ es, none)))
unfolding validate_and_build
validate_and_build_decides raw_nodes raw_edges = elim (List-cases (collect_nodes raw_nodes []).0) [
  | inr (e, es, found) ↦ inr (e, es, rw found refl)
  | inl collected ↦
      let nodes = (collect_nodes raw_nodes []).1 in
      elim (List-cases (graph_errors nodes raw_edges)) [
        | inr (e, es, found) ↦ inr (e, es, rw (collected, found) refl)
        | inl no_errors ↦
            let (names, shape, edges, wiring) = graph_errors_inv nodes raw_edges no_errors in
            let one = (shape_errors-nil (values nodes) shape).0 in
            elim (Option-cases (first_start (values nodes))) [
              | inl e ↦ ground (arith, e, first_start-some (values nodes) one)
              | inr (k, e) ↦ inl (
                record {
                  nodes = attach (collect_edges nodes raw_edges).1 nodes;
                  start_node_id = k;
                },
                rw (collected, no_errors) (ground (arith, e)),
              )
            ]
      ]
]
