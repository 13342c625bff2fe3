-- ===== src/Workflow/Reachable.antt =====
-- `WorkflowGraph.reachable` of libs/config_sdk/workflow.py.
pub mod Least
pub mod Checked
use yuviz.Base.{
  ℕ, zero, suc, ◌+◌, Bool, true, false, Option, none, some, List, [], ◌∷◌, ◌||◌, length, Text,
  text_eq, ◌==◌, if◌then◌else◌,
}
use yuviz.Base.Dict.{lookup}
use yuviz.Workflow.Graph.{Node, Edge, Nodes, WorkflowGraph}

-- `node_id in seen`
abbrev pub has : List Text → Text → Bool
has [] k = false
has (id ∷ seen) k = (id == k) || has seen k

-- `stack.extend(e.target for e in out_edges)`, with the top of the stack at the head
abbrev pub push : List Edge → List Text → List Text
push [] stack = stack
push (e ∷ es) stack = push es (e.target ∷ stack)

-- the loop of `reachable`, with fuel for its rounds; `none` is the `KeyError`, or no fuel
unfoldable pub reach : ℕ → Nodes → List Text → List Text → Option (List Text)
reach n nodes seen [] = some seen
reach zero nodes seen (id ∷ stack) = none
reach (suc n) nodes seen (id ∷ stack) = elim (has seen id) [
  | true ↦ reach n nodes seen stack
  | false ↦ elim (lookup id nodes) [
    | none ↦ none
    | some node ↦ reach n nodes (id ∷ seen) (push node.out_edges stack)
  ]
]

-- the connections that leave the steps not yet seen
abbrev pub edges_left : List Text → Nodes → ℕ
edges_left seen [] = 0
edges_left seen ((k, n) ∷ nodes) =
    (if has seen k then 0 else length n.out_edges) + edges_left seen nodes

-- `reachable`: a round for the starting point, and one for each connection at most
unfoldable pub reachable : WorkflowGraph → Option (List Text)
unfolding reach
reachable g = reach (suc (edges_left [] g.nodes)) g.nodes [] (g.start_node_id ∷ [])
