-- ===== src/Workflow/Parse.antt =====
-- `parse_graph` and `starter_graph` of libs/config_sdk/workflow.py.
pub mod Starter
pub mod Checked
use yuviz.Base.{
  ℕ, String, Bool, true, false, not, Option, none, some, List, [], ◌∷◌, map, Text, codes,
  if◌then◌else◌,
}
use yuviz.Workflow.Graph.{
  Node, Edge, WorkflowGraph, WorkflowError, workflow, Message, not_an_object, no_nodes,
  edges_not_list,
}
use yuviz.Workflow.Validate.{validate_and_build, err_if, has_some}
use yuviz.Workflow.Raw.{
  Json, null, whole, string, array, object, Items, no_items, item, Fields, no_fields, field, Python,
  is_truthy, get, to_list, as_object, as_list, node_from_raw, edge_from_raw,
}

abbrev pub prepend : Option Node → Option (List (Option Node)) → Option (List (Option Node))
prepend n none = none
prepend n (some ns) = some (n ∷ ns)

-- the steps that are objects, coerced, with `none` for an `OverflowError`
unfoldable pub coerced_nodes : Python → List Json → Option (List (Option Node))
unfolding node_from_raw
coerced_nodes py [] = some []
coerced_nodes py (j ∷ raw) =
    let rest = coerced_nodes py raw in
    elim (as_object j) [
      | none ↦ prepend none rest
      | some fields ↦ elim (node_from_raw py fields) [
        | none ↦ none
        | some n ↦ prepend (some n) rest
      ]
    ]

-- the connections that are objects, coerced
unfoldable pub coerced_edges : Python → List Json → List (Option Edge)
unfolding edge_from_raw
coerced_edges py [] = []
coerced_edges py (j ∷ raw) =
    elim (as_object j) [ none ↦ none | some fields ↦ some (edge_from_raw py fields) ]
    ∷ coerced_edges py raw

-- the connections that are read: `raw.get("edges") or []`, where that is a list
abbrev pub raw_edges_of : Json → Option (List Json)
raw_edges_of j = if is_truthy j then as_list j else some []

-- what `_validate_and_build` returns
abbrev pub Validated : Type 0
Validated = List WorkflowError × Option WorkflowGraph

-- `_validate_and_build` on the raw object, with `none` for an `OverflowError`
unfoldable pub validate_raw : Python → Json → Option Validated
unfolding get coerced_nodes coerced_edges
validate_raw py raw = elim (as_object raw) [
  | none ↦ some (err_if true workflow none none not_an_object, none)
  | some fields ↦ elim (as_list (get (codes "nodes") fields)) [
    | none ↦ some (err_if true workflow none (some "nodes") no_nodes, none)
    | some [] ↦ some (err_if true workflow none (some "nodes") no_nodes, none)
    | some (n ∷ raw_nodes) ↦ elim (raw_edges_of (get (codes "edges") fields)) [
      | none ↦ some (err_if true workflow none (some "edges") edges_not_list, none)
      | some raw_edges ↦ elim (coerced_nodes py (n ∷ raw_nodes)) [
        | none ↦ none
        | some nodes ↦ some (validate_and_build nodes (coerced_edges py raw_edges))
      ]
    ]
  ]
]

-- what `parse_graph` returns or raises
pub data Parsed : Type 0 where
  parsed : WorkflowGraph → Parsed
  invalid : List WorkflowError → Parsed
  assertion_failed : Parsed
  overflow : Parsed

-- the end of `parse_graph`
abbrev pub outcome : Option Validated → Parsed
outcome none = overflow
outcome (some ([], none)) = assertion_failed
outcome (some ([], some g)) = parsed g
outcome (some (e ∷ es, _)) = invalid (e ∷ es)

-- `parse_graph`
unfoldable pub parse_graph : Python → Json → Parsed
unfolding validate_raw
parse_graph py raw = outcome (validate_raw py raw)

-- `list(names or [])`
abbrev pub names_list : List Text → Items
names_list [] = no_items
names_list (name ∷ names) = item (string name) (names_list names)

abbrev pub position : ℕ → ℕ → Json
position x y =
    object (field (codes "x") (whole false x) (field (codes "y") (whole false y) no_fields))

-- a step as `starter_graph` writes it
abbrev pub raw_step : Text → Text → ℕ → ℕ → Fields → Json
raw_step id type x y inner = object (
    field (codes "id") (string id) (
      field (codes "type") (string type)
        (field (codes "position") (position x y) (field (codes "data") (object inner) no_fields))))

-- the connection that `starter_graph` writes
abbrev pub starter_move : Json
starter_move = object (
    field (codes "id") (string (codes "e-start-end")) (
      field (codes "source") (string (codes "start")) (
        field (codes "target") (string (codes "end")) (
          field (codes "data")
            (object (
              field (codes "label") (string (codes "conversation finished")) (
                field (codes "condition") (string (codes "The caller has no further questions."))
                  no_fields)))
            no_fields))))

-- `starter_graph`
unfoldable pub starter_graph : Text → Text → List Text → List Text → Json
starter_graph greeting system_prompt tools knowledge_base_ids =
    let always = raw_step (codes "global") (codes "global") 330 0 (
      field (codes "name") (string (codes "always applies"))
        (field (codes "prompt") (string system_prompt) no_fields)) in
    let first = raw_step (codes "start") (codes "start") 0 0 (
      field (codes "name") (string (codes "greeting")) (
        field (codes "prompt") (string (codes "Greet the caller and find out what they need.")) (
          field (codes "greeting") (string greeting) (
            field (codes "tools") (array (names_list tools)) (
              field (codes "knowledge_base_ids") (array (names_list knowledge_base_ids))
                no_fields))))) in
    let last = raw_step (codes "end") (codes "end") 0 230 (
      field (codes "name") (string (codes "goodbye")) (
        field (codes "prompt") (string (codes "Confirm anything outstanding and close warmly."))
          (field (codes "disposition") (string (codes "completed")) no_fields))) in
    object (
      field (codes "version") (whole false 1) (
        field (codes "nodes") (array (item always (item first (item last no_items))))
          (field (codes "edges") (array (item starter_move no_items)) no_fields)))
