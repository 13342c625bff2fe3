-- ===== src/Workflow/Parse/Checked.antt =====
-- `parse_graph` of libs/config_sdk/workflow.py on any raw object.
use yuviz.Base.{
  Option, none, some, List, [], ◌∷◌, codes, ◌≡◌, refl, ◌∙◌, ◌⊎◌, inl, inr, ap, arith, Option-cases,
  IsIn, in_head, in_tail,
}
use yuviz.Workflow.Graph.{Node, Edge, WorkflowGraph, WorkflowError}
use yuviz.Workflow.Validate.{validate_and_build}
use yuviz.Workflow.Validate.WellFormed.{IsWellFormed}
use yuviz.Workflow.Validate.Returned.{validate_and_build-IsWellFormed, validate_and_build_decides}
use yuviz.Workflow.Raw.{
  Json, null, boolean, whole, decimal, not_finite, infinity, minus_infinity, nan, string, array,
  object, no_items, item, no_fields, field, Fields, Python, get, data_object, as_object, as_list,
  int_or_zero, delayed_start, node_from_raw,
}
use yuviz.Workflow.Parse.{
  Validated, prepend, coerced_nodes, coerced_edges, raw_edges_of, validate_raw, parsed, invalid,
  overflow, outcome, parse_graph,
}

abbrev pub IsInfinite : Json → Type 0
IsInfinite j = (j ≡ not_finite infinity) ⊎ (j ≡ not_finite minus_infinity)

-- A step's object whose data give an infinite `delayed_start_ms`.
abbrev pub IsEndlessDelay : Json → Type 0
IsEndlessDelay j =
    (step : Fields) × (as_object j ≡ some step)
    × IsInfinite (get (codes "delayed_start_ms") (data_object step))

-- An object with a list of steps, one of which gives an infinite `delayed_start_ms`.
abbrev pub HasEndlessDelay : Json → Type 0
HasEndlessDelay raw =
    (fields : Fields) × (as_object raw ≡ some fields)
    × ((steps : List Json) × (as_list (get (codes "nodes") fields) ≡ some steps)
        × ((j : Json) × IsIn j steps × IsEndlessDelay j))

int_or_zero-overflowed : (py : Python) (j : Json) → delayed_start py j ≡ none → IsInfinite j
unfolding delayed_start int_or_zero
int_or_zero-overflowed py null h = absurd (ground arith)
int_or_zero-overflowed py (boolean b) h = absurd (ground arith)
int_or_zero-overflowed py (whole negative n) h = absurd (ground arith)
int_or_zero-overflowed py (decimal is_zero negative n) h = absurd (ground arith)
int_or_zero-overflowed py (not_finite infinity) h = inl refl
int_or_zero-overflowed py (not_finite minus_infinity) h = inr refl
int_or_zero-overflowed py (not_finite nan) h = absurd (ground arith)
int_or_zero-overflowed py (string t) h = absurd (ground arith)
int_or_zero-overflowed py (array no_items) h = absurd (ground arith)
int_or_zero-overflowed py (array (item j items)) h = absurd (ground arith)
int_or_zero-overflowed py (object no_fields) h = absurd (ground arith)
int_or_zero-overflowed py (object (field k v _)) h = absurd (ground arith)

node_from_raw-none :
    (py : Python) (step : Fields)
    → node_from_raw py step ≡ none
    → IsInfinite (get (codes "delayed_start_ms") (data_object step))
unfolding node_from_raw
node_from_raw-none py step h =
    let given = get (codes "delayed_start_ms") (data_object step) in
    elim (Option-cases (delayed_start py given)) [
      | inl over ↦ int_or_zero-overflowed py given over
      | inr (delay, found) ↦ absurd (ground (arith, found, h))
    ]

prepend-none :
    (n : Option Node) (rest : Option (List (Option Node))) → prepend n rest ≡ none → rest ≡ none
prepend-none n none h = refl
prepend-none n (some ns) h = absurd (ground (arith, h))

abbrev HasEndlessStep : List Json → Type 0
HasEndlessStep raw = (j : Json) × IsIn j raw × IsEndlessDelay j

later : (j : Json) (raw : List Json) → HasEndlessStep raw → HasEndlessStep (j ∷ raw)
later j raw (k, inside, endless) = (k, in_tail inside, endless)

coerced_nodes-none :
    (py : Python) (raw : List Json) → coerced_nodes py raw ≡ none → HasEndlessStep raw
unfolding coerced_nodes
coerced_nodes-none py [] h = absurd (ground (arith, h))
coerced_nodes-none py (j ∷ raw) h = elim (Option-cases (as_object j)) [
  | inl other ↦ later j raw (
      coerced_nodes-none py raw
        (prepend-none none (coerced_nodes py raw) (ground (arith, other, h))))
  | inr (step, is_step) ↦ elim (Option-cases (node_from_raw py step)) [
    | inl over ↦ (j, in_head refl, (step, is_step, node_from_raw-none py step over))
    | inr (n, made) ↦ later j raw (
        coerced_nodes-none py raw
          (prepend-none (some n) (coerced_nodes py raw) (ground (arith, is_step, made, h))))
  ]
]

-- a graph that is well formed and no error, or some error and no graph
abbrev IsDecided : Validated → Type 0
IsDecided o =
    ((g : WorkflowGraph) × (o ≡ ([], some g)) × IsWellFormed g)
    ⊎ ((e : WorkflowError) × (es : List WorkflowError) × (o ≡ (e ∷ es, none)))

validate_and_build-IsDecided :
    (ns : List (Option Node)) (es : List (Option Edge)) → IsDecided (validate_and_build ns es)
validate_and_build-IsDecided ns es = elim (validate_and_build_decides ns es) [
  | inl (g, h) ↦ inl (g, h, validate_and_build-IsWellFormed ns es g h)
  | inr failed ↦ inr failed
]

-- a decision, or the `OverflowError` of a step
abbrev IsChecked : Json → Option Validated → Type 0
IsChecked raw r =
    ((o : Validated) × (r ≡ some o) × IsDecided o) ⊎ ((r ≡ none) × HasEndlessDelay raw)

validate_raw-IsChecked : (py : Python) (raw : Json) → IsChecked raw (validate_raw py raw)
unfolding validate_raw
validate_raw-IsChecked py raw = elim (Option-cases (as_object raw)) [
  | inl not_object ↦ rw (validate_raw, not_object) (inl (_, refl, inr (_, [], refl)))
  | inr (fields, is_object) ↦ elim (Option-cases (as_list (get (codes "nodes") fields))) [
    | inl no_list ↦ rw (validate_raw, is_object, no_list) (inl (_, refl, inr (_, [], refl)))
    | inr ([], listed) ↦ rw (validate_raw, is_object, listed) (inl (_, refl, inr (_, [], refl)))
    | inr (n ∷ raw_nodes, listed) ↦
        elim (Option-cases (raw_edges_of (get (codes "edges") fields))) [
          | inl no_list ↦
              rw (validate_raw, is_object, listed, no_list) (inl (_, refl, inr (_, [], refl)))
          | inr (raw_edges, edges) ↦ elim (Option-cases (coerced_nodes py (n ∷ raw_nodes))) [
            | inl over ↦
                let endless = coerced_nodes-none py (n ∷ raw_nodes) over in
                rw (validate_raw, is_object, listed, edges, over)
                  (inr (refl, (fields, refl, (n ∷ raw_nodes, listed, endless))))
            | inr (nodes, made) ↦
                rw (validate_raw, is_object, listed, edges, made)
                  (inl (_, refl, validate_and_build-IsDecided nodes (coerced_edges py raw_edges)))
          ]
        ]
  ]
]

-- `parse_graph` returns a graph that is well formed, or raises with the errors that it found, of which
-- there is one at least; or an `OverflowError` escapes from it, and then some step of the raw object
-- gives an infinite `delayed_start_ms`. The assertion in it never fails.
pub parse_graph_decides :
    (py : Python) (raw : Json)
    → ((g : WorkflowGraph) × (parse_graph py raw ≡ parsed g) × IsWellFormed g)
      ⊎ (((e : WorkflowError) × (es : List WorkflowError) × (parse_graph py raw ≡ invalid (e ∷ es)))
          ⊎ ((parse_graph py raw ≡ overflow) × HasEndlessDelay raw))
unfolding parse_graph
parse_graph_decides py raw = elim (validate_raw-IsChecked py raw) [
  | inr (over, endless) ↦ inr (inr (ap outcome over, endless))
  | inl (o, made, inl (g, h, w)) ↦
      inl (g, ap outcome made ∙ ap (λ (v : Validated). outcome (some v)) h, w)
  | inl (o, made, inr (e, es, h)) ↦
      inr (inl (e, es, ap outcome made ∙ ap (λ (v : Validated). outcome (some v)) h))
]
