-- ===== src/Workflow/Validate.antt =====
-- `_validate_and_build` of libs/config_sdk/workflow.py, on the steps and connections as they are
-- coerced: `none` stands for an entry that is not an object.
pub mod Sound
pub mod Distinct
pub mod Edges
pub mod Wiring
pub mod Attach
pub mod WellFormed
pub mod Returned
use yuviz.Base.{
  ℕ, ◌+◌, String, Bool, true, false, not, ◌&&◌, ◌||◌, Option, none, some, is_some, List, [], ◌∷◌,
  ◌++◌, map, any, keep, length, nat_beq, ltb, Text, text_eq, ◌==◌, if◌then◌else◌,
}
use yuviz.Base.Dict.{lookup, insert}
use yuviz.Workflow.Words.{strip, lower, tool_name, is_empty}
use yuviz.Workflow.Graph.{
  Node, Edge, Nodes, WorkflowGraph, WorkflowError, ErrorKind, node, edge, workflow, Message,
  step_not_object, missing_id, duplicate_id, unknown_type, unnamed, name_taken, start_count, no_end,
  many_globals, connection_not_object, unknown_source, unknown_target, not_set_up, no_label,
  unusable_label, no_condition, global_connected, into_start, no_destination, out_of_terminal,
  no_way_out, same_move, values, type_is_start, type_is_end, type_is_transfer, type_is_known,
  is_terminal, is_unwired,
}

-- the local function `err`, where its condition holds
abbrev pub err_if : Bool → ErrorKind → Option Text → Option String → Message → List WorkflowError
err_if b kind at field message =
    if b then record { kind = kind; at = at; field = field; message = message } ∷ [] else []

-- what the loop over `raw_nodes` reports of a step that it keeps
unfoldable pub node_errors : Node → List WorkflowError
node_errors n =
    err_if (not (type_is_known n.type)) node (some n.id) (some "type") unknown_type
    ++ err_if (is_empty n.name) node (some n.id) (some "name") unnamed

-- the loop over `raw_nodes`: the errors in order, and the dictionary `nodes`
unfoldable pub collect_nodes : List (Option Node) → Nodes → List WorkflowError × Nodes
unfolding node_errors
collect_nodes [] nodes = ([], nodes)
collect_nodes (none ∷ raw) nodes =
    let (errors, out) = collect_nodes raw nodes in
    (err_if true workflow none (some "nodes") step_not_object ++ errors, out)
collect_nodes (some n ∷ raw) nodes =
    let skip = is_empty n.id || is_some (lookup n.id nodes) in
    let (errors, out) = collect_nodes raw (if skip then nodes else insert n.id n nodes) in
    (
      (if is_empty n.id
            then err_if true node none (some "id") missing_id
            else if is_some (lookup n.id nodes)
            then err_if true node (some n.id) (some "id") duplicate_id
            else node_errors n)
          ++ errors,
      out,
    )

-- the loop with `seen_names`
unfoldable pub name_errors : List (Text × Text) → List Node → List WorkflowError
unfolding lower
name_errors seen [] = []
name_errors seen (n ∷ ns) =
    err_if (is_some (lookup (lower n.name) seen)) node (some n.id) (some "name") (name_taken n.name)
    ++ name_errors (insert (lower n.name) n.id seen) ns

-- the checks of `starts`, of an end, and of `globals_`
unfoldable pub shape_errors : List Node → List WorkflowError
shape_errors ns =
    let starts = length (keep (λ n. type_is_start n.type) ns) in
    let globals = length (keep is_unwired ns) in
    err_if (not (nat_beq starts 1)) workflow none none (start_count starts)
    ++ err_if (not (any (λ n. type_is_end n.type) ns)) workflow none none no_end
    ++ err_if (ltb 1 globals) workflow none none (many_globals globals)

-- what the loop over `raw_edges` reports of a connection that it keeps
unfoldable pub edge_errors : Edge → List WorkflowError
unfolding tool_name
edge_errors e =
    if is_empty e.label && is_empty e.condition
    then err_if true edge (some e.edge_id) (some "condition") not_set_up
    else ((if is_empty e.label
          then err_if true edge (some e.edge_id) (some "label") no_label
          else err_if (is_empty (tool_name e.label)) edge (some e.edge_id) (some "label")
              unusable_label)
        ++ err_if (is_empty e.condition) edge (some e.edge_id) (some "condition") no_condition)

-- the loop over `raw_edges`: the errors in order, and the list `edges`
unfoldable pub collect_edges : Nodes → List (Option Edge) → List WorkflowError × List Edge
unfolding edge_errors
collect_edges nodes [] = ([], [])
collect_edges nodes (none ∷ raw) =
    let (errors, out) = collect_edges nodes raw in
    (err_if true workflow none (some "edges") connection_not_object ++ errors, out)
collect_edges nodes (some e ∷ raw) =
    let (errors, out) = collect_edges nodes raw in
    if not (is_some (lookup e.source nodes))
    then (err_if true edge (some e.edge_id) (some "source") unknown_source ++ errors, out)
    else if not (is_some (lookup e.target nodes))
    then (err_if true edge (some e.edge_id) (some "target") unknown_target ++ errors, out)
    else (edge_errors e ++ errors, e ∷ out)

-- `out_edges[id]` and `in_count[id]`
abbrev pub edges_from : Text → List Edge → List Edge
edges_from id es = keep (λ e. e.source == id) es

abbrev pub edges_into : Text → List Edge → List Edge
edges_into id es = keep (λ e. e.target == id) es

abbrev pub has_some {ℓ} : {A : Type ℓ} → List A → Bool
has_some [] = false
has_some (_ ∷ _) = true

-- the loop with `by_tool_name` over a step's connections
unfoldable pub move_errors : List (Text × Edge) → List Edge → List WorkflowError
unfolding tool_name
move_errors by_tool_name [] = []
move_errors by_tool_name (e ∷ es) =
    let name = tool_name e.label in
    (if is_empty name then [] else elim (lookup name by_tool_name) [
      | none ↦ []
      | some clash ↦ err_if true edge (some e.edge_id) (some "label") (same_move clash.label)
    ])
    ++ move_errors (if is_empty name then by_tool_name else insert name e by_tool_name) es

-- `(node.transfer_destination or "").strip()`
abbrev pub destination : Node → Text
destination n = elim n.transfer_destination [ none ↦ [] | some d ↦ strip d ]

-- the body of the loop over `nodes.values()` that checks the wiring
unfoldable pub wiring_errors : List Edge → Node → List WorkflowError
unfolding move_errors strip
wiring_errors es n =
    let outs = edges_from n.id es in
    let ins = edges_into n.id es in
    if is_unwired n
    then err_if (has_some ins || has_some outs) node (some n.id) none global_connected
    else (err_if (type_is_start n.type && has_some ins) node (some n.id) none into_start
        ++ err_if (type_is_transfer n.type && is_empty (destination n)) node (some n.id)
            (some "transfer_destination") no_destination
        ++ err_if (is_terminal n && has_some outs) node (some n.id) none out_of_terminal
        ++ err_if (not (is_terminal n) && not (has_some outs)) node (some n.id) none no_way_out
        ++ move_errors [] outs)

unfoldable pub all_wiring_errors : List Edge → List Node → List WorkflowError
all_wiring_errors es [] = []
all_wiring_errors es (n ∷ ns) = wiring_errors es n ++ all_wiring_errors es ns

-- `node.out_edges = list(out_edges[node.id])`
abbrev pub attached : List Edge → Node → Node
attached es n = record n { out_edges = edges_from n.id es }

-- the same for every step
unfoldable pub attach : List Edge → Nodes → Nodes
attach es [] = []
attach es ((id, n) ∷ ns) = (id, attached es n) ∷ attach es ns

-- `next(n.id for n in nodes.values() if n.type == "start")`
unfoldable pub first_start : List Node → Option Text
first_start [] = none
first_start (n ∷ ns) = if type_is_start n.type then some n.id else first_start ns

-- the errors that are reported once the steps are collected without one
unfoldable pub graph_errors : Nodes → List (Option Edge) → List WorkflowError
graph_errors nodes raw_edges =
    let (errors, es) = collect_edges nodes raw_edges in
    name_errors [] (values nodes)
    ++ shape_errors (values nodes)
    ++ errors
    ++ all_wiring_errors es (values nodes)

-- The end of the function: `next` has a start to find, since `starts` was checked.
abbrev pub build : Nodes → List Edge → Option WorkflowGraph
build nodes es = elim (first_start (values nodes)) [
  | none ↦ none
  | some id ↦ some (record { nodes = attach es nodes; start_node_id = id })
]

-- `_validate_and_build`, behind the checks of `raw` itself
unfoldable pub validate_and_build :
    List (Option Node) → List (Option Edge) → List WorkflowError × Option WorkflowGraph
validate_and_build raw_nodes raw_edges =
    let (node_errs, nodes) = collect_nodes raw_nodes [] in
    if has_some node_errs
    then (node_errs, none)
    else (let errors = graph_errors nodes raw_edges in
        if has_some errors
        then (errors, none)
        else ([], build nodes (collect_edges nodes raw_edges).1))
