-- ===== src/Workflow/Available.antt =====
-- `WorkflowGraph._variables_available_at` of libs/config_sdk/workflow.py. A set of names is a list
-- that is read with `has`; the order in which a loop goes through the set of reachable steps is that
-- of the list.
pub mod Sets
pub mod Ways
pub mod Rounds
pub mod Shrinking
pub mod Kept
pub mod Guess
pub mod Exact
use yuviz.Base.{
  ℕ, zero, suc, ◌+◌, ◌*◌, Bool, true, false, not, ◌&&◌, ◌||◌, Option, none, some, List, [], ◌∷◌,
  ◌++◌, map, all, keep, length, Text, text_eq, ◌==◌, if◌then◌else◌,
}
use yuviz.Base.Dict.{get_or, insert}
use yuviz.Workflow.Graph.{Node, Edge, Nodes, WorkflowGraph, values, Extraction}
use yuviz.Workflow.Reachable.{has, reachable}

-- a dictionary of sets of names
abbrev pub NameSets : Type 0
NameSets = List (Text × List Text)

abbrev pub names_at : NameSets → Text → List Text
names_at sets id = get_or id sets []

-- the names that leaving a step captures
abbrev pub names_of : Node → List Text
names_of n = elim n.extraction [
  | none ↦ []
  | some x ↦ if x.enabled then map (λ v. v.var_name) x.variables else []
]

-- `_declared_by`
abbrev pub declared_by : WorkflowGraph → NameSets
declared_by g = map (λ n. (n.id, names_of n)) (values g.nodes)

-- the sources of the connections that lead to a step
abbrev pub sources_into : Text → List Edge → List Text
sources_into id [] = []
sources_into id (e ∷ es) =
    let rest = sources_into id es in if e.target == id then e.source ∷ rest else rest

-- `_incoming`, at a step
abbrev pub incoming : List Node → Text → List Text
incoming [] id = []
incoming (n ∷ ns) id = sources_into id n.out_edges ++ incoming ns id

-- the union of `declared.values()`
abbrev pub universe : NameSets → List Text
universe [] = []
universe ((id, names) ∷ sets) = names ++ universe sets

abbrev pub same_set : List Text → List Text → Bool
same_set a b = all (has b) a && all (has a) b

-- `out_pred`: what is available behind a step
abbrev pub leaving_with : NameSets → NameSets → Text → List Text
leaving_with declared available id = names_at available id ++ names_at declared id

-- `new_in & out_pred`, for each further predecessor
abbrev pub meet_all : (Text → List Text) → List Text → List Text → List Text
meet_all out names [] = names
meet_all out names (p ∷ ps) = meet_all out (keep (has (out p)) names) ps

-- `new_in`, from the predecessors
abbrev pub meet : (Text → List Text) → List Text → List Text
meet out [] = []
meet out (p ∷ ps) = meet_all out (out p) ps

module _ (g : WorkflowGraph) (reached : List Text) where
  abbrev pub predecessors : Text → List Text
  predecessors id = keep (has reached) (incoming (values g.nodes) id)

  abbrev pub new_in : NameSets → Text → List Text
  new_in available id = meet (leaving_with (declared_by g) available) (predecessors id)

  -- one step of the loop over the reachable steps, with `changed`
  unfoldable pub visit : Text → NameSets × Bool → NameSets × Bool
  visit id (available, changed) =
      if id == g.start_node_id
      then (available, changed)
      else if same_set (new_in available id) (names_at available id)
      then (available, changed)
      else (insert id (new_in available id) available, true)

  unfoldable pub visit_all : List Text → NameSets × Bool → NameSets × Bool
  visit_all [] state = state
  visit_all (id ∷ ids) state = visit_all ids (visit id state)

  -- the loop `while changed`, with fuel for its rounds
  unfoldable pub while_changed : ℕ → NameSets → Option NameSets
  while_changed zero available = none
  while_changed (suc fuel) available =
      let (after, changed) = visit_all reached (available, false) in
      let rest = while_changed fuel after in if changed then rest else some after

  -- `available_in` before the loop
  abbrev pub first_guess : NameSets
  first_guess = insert g.start_node_id [] (map (λ id. (id, universe (declared_by g))) reached)

-- `_variables_available_at`: each round but the last takes a name from a step. `none` is an error, or
-- no fuel.
unfoldable pub variables_available_at : WorkflowGraph → Text → Bool → Option (List Text)
variables_available_at g id leaving = elim (reachable g) [
  | none ↦ none
  | some reached ↦
      let fuel = suc (length reached * length (universe (declared_by g))) in
      if not (has reached id)
      then some []
      else elim (while_changed g reached fuel (first_guess g reached)) [
        | none ↦ none
        | some available ↦ some (
            if leaving
            then names_at available id ++ names_at (declared_by g) id
            else names_at available id)
      ]
]
