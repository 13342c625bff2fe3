-- ===== src/Workflow/Reachable/Checked.antt =====
-- `reachable` of libs/config_sdk/workflow.py on a graph that was validated.
use yuviz.Base.{suc, true, some, is_some, List, [], ◌∷◌, Text, text_eq, ◌≡◌, refl, arith, All-imp}
use yuviz.Base.Dict.{lookup}
use yuviz.Workflow.Graph.{WorkflowGraph}
use yuviz.Workflow.Validate.Wiring.{All-lookup}
use yuviz.Workflow.Validate.WellFormed.{IsWired, IsWellFormed}
use yuviz.Workflow.Reachable.{has, reachable, edges_left}
use yuviz.Workflow.Reachable.Least.{IsClosed, reach-Finds}

targets_known :
    (g : WorkflowGraph) → IsWellFormed g → IsClosed g.nodes (λ k. is_some (lookup k g.nodes) ≡ true)
targets_known g w k n at known =
    let wired = All-lookup (IsWired g.nodes) k n g.nodes w.wired at in
    All-imp _ _ n.out_edges (λ e move. move.0.to_known) wired.moves

-- On a well-formed graph the search ends without an error, and finds the steps that can be reached:
-- the starting point is found, the connections of a step that is found lead to steps that are found,
-- and what is found is in every set of steps with these two properties.
pub reachable-IsClosed :
    (g : WorkflowGraph)
    → IsWellFormed g
    → (out : List Text) × (reachable g ≡ some out)
      × (has out g.start_node_id ≡ true)
      × IsClosed g.nodes (λ k. has out k ≡ true)
      × ((P : Text → Type 0)
          → IsClosed g.nodes P
          → P g.start_node_id
          → (k : Text) → has out k ≡ true
          → P k)
unfolding reachable
reachable-IsClosed g w =
    let (out, done, (kept, found, closed, least)) =
      reach-Finds (suc (edges_left [] g.nodes)) g.nodes [] (g.start_node_id ∷ [])
        (targets_known g w) (rw w.entered refl, tt) (omega arith) in
    (
      out,
      done,
      found.0,
      (λ k n at yes. closed k n yes refl at),
      λ P c start. least P c (start, tt) (λ k none_seen. absurd (ground (arith, none_seen))),
    )
