-- ===== src/Workflow/Warnings.antt =====
-- `graph_warnings` of libs/config_sdk/workflow.py, with the names that `template_variables` finds in a
-- text and the braces that `malformed_templates` finds. A sentence stands as a constructor with the
-- placeholder that it names.
pub mod Fuel
pub mod Nil
pub mod Clear
use yuviz.Base.{
  ℕ, zero, suc, ◌+◌, Bool, true, false, not, ◌&&◌, ◌||◌, Option, none, some, List, [], ◌∷◌, ◌++◌,
  map, keep, length, drop, nat_beq, ltb, String, Text, text_eq, codes, ◌==◌, if◌then◌else◌,
}
use yuviz.Workflow.Graph.{
  Node, Edge, WorkflowGraph, values, is_unwired, ErrorKind, node, edge, Message, bad_placeholder,
  too_late_for_all, not_on_every_path, never_captured, no_path, WorkflowError,
}
use yuviz.Workflow.Reachable.{has, reachable}
use yuviz.Workflow.Templates.{
  is_double, is_not_closing, skip, run_of, match_placeholder, drop_closing,
}
use yuviz.Workflow.Available.{names_of, variables_available_at}

-- `CALL_CONTEXT_VARIABLES`
abbrev pub call_context_variables : List Text
call_context_variables = map codes (
    "caller_number" ∷ "called_number" ∷ "direction" ∷ "agent_name" ∷ "current_date" ∷ "current_time"
    ∷ "business_name" ∷ [])

-- the names in a text, with fuel for the characters left
unfoldable pub names_in : ℕ → Text → List Text
names_in zero s = []
names_in (suc n) [] = []
names_in (suc n) (c ∷ s) =
    let later = names_in n s in
    if is_double b'{' (c ∷ s)
    then elim (match_placeholder (drop 1 s)) [
      | none ↦ later
      | some (name, _, rest) ↦ name ∷ names_in n rest
    ]
    else later

-- `template_variables`
unfoldable pub template_variables : Text → List Text
template_variables text = names_in (length text) text

-- up to two closing braces at the head
abbrev pub closing_braces : Text → Text
closing_braces [] = []
closing_braces (c ∷ []) = if nat_beq c b'}' then c ∷ [] else []
closing_braces (c ∷ d ∷ s) =
    if nat_beq c b'}' then (if nat_beq d b'}' then c ∷ d ∷ [] else c ∷ []) else []

-- `_TEMPLATE_RE.fullmatch`, behind the `{{` of a chunk
abbrev pub is_whole : Text → Bool
is_whole s = elim (match_placeholder s) [ none ↦ false | some (_, _, rest) ↦ rest == [] ]

-- the matches of `_ANY_BRACES_RE` that are no placeholder, with fuel for the characters left
unfoldable pub bad_chunks : ℕ → Text → List Text
bad_chunks zero s = []
bad_chunks (suc n) [] = []
bad_chunks (suc n) (c ∷ s) =
    let later = bad_chunks n s in
    let inner = run_of is_not_closing (drop 1 s) in
    let after = skip is_not_closing (drop 1 s) in
    let body = inner ++ closing_braces after in
    let others = bad_chunks n (drop_closing after) in
    if is_double b'{' (c ∷ s)
    then (if is_whole body then others else (b'{' ∷ b'{' ∷ body) ∷ others)
    else later

-- `malformed_templates`
unfoldable pub malformed_templates : Text → List Text
malformed_templates text = bad_chunks (length text) text

-- the order of Python's strings
abbrev pub comes_before : Text → Text → Bool
comes_before s [] = false
comes_before [] (d ∷ t) = true
comes_before (c ∷ s) (d ∷ t) = ltb c d || (nat_beq c d && comes_before s t)

-- `sorted` of a set, a name at a time
abbrev pub insert_sorted : Text → List Text → List Text
insert_sorted x [] = x ∷ []
insert_sorted x (y ∷ ys) =
    if x == y then y ∷ ys else if comes_before x y then x ∷ y ∷ ys else y ∷ insert_sorted x ys

abbrev pub sorted_set : List Text → List Text
sorted_set [] = []
sorted_set (x ∷ xs) = insert_sorted x (sorted_set xs)

-- where a text stands
pub record Place : Type 0 where
  pub kind : ErrorKind
  pub id : Text
  pub field_name : String
  pub always_on : Bool

abbrev pub warning_at : Place → Message → WorkflowError
warning_at p message = record {
  kind = p.kind;
  at = some p.id;
  field = some p.field_name;
  message = message;
}

-- the sentence for a name that is not available
abbrev pub missing_message : Bool → List Text → Text → Message
missing_message always_on declared name =
    if always_on
    then too_late_for_all name
    else if has declared name
    then not_on_every_path name
    else never_captured name

-- `_warn_templates`
unfoldable pub warn_templates : Place → Text → List Text → List Text → List WorkflowError
unfolding template_variables malformed_templates
warn_templates p text available declared =
    map (λ chunk. warning_at p (bad_placeholder chunk)) (malformed_templates text)
    ++ map (λ name. warning_at p (missing_message p.always_on declared name))
        (sorted_set (keep (λ name. not (has available name)) (template_variables text)))

-- `text or ""`
abbrev pub or_blank : Option Text → Text
or_blank none = []
or_blank (some t) = t

-- `declared_variables`
abbrev pub declared_variables : List Node → List Text
declared_variables [] = []
declared_variables (n ∷ ns) = names_of n ++ declared_variables ns

abbrev pub place_of_speech : Edge → Place
place_of_speech e = record {
  kind = edge;
  id = e.edge_id;
  field_name = "transition_speech";
  always_on = false;
}

unfoldable pub warn_speeches : List Edge → List Text → List Text → List WorkflowError
unfolding warn_templates
warn_speeches [] available declared = []
warn_speeches (e ∷ es) available declared =
    warn_templates (place_of_speech e) (or_blank e.transition_speech) available declared
    ++ warn_speeches es available declared

abbrev pub place_of : Node → String → Bool → Place
place_of n field always_on = record {
  kind = node;
  id = n.id;
  field_name = field;
  always_on = always_on;
}

module _ (g : WorkflowGraph) (always declared reached : List Text) where
  -- what the loop of `graph_warnings` adds for a step
  unfoldable pub warn_node : Node → Option (List WorkflowError)
  unfolding warn_templates warn_speeches variables_available_at
  warn_node n =
      if is_unwired n
      then some (warn_templates (place_of n "prompt" true) n.prompt always declared)
      else if not (has reached n.id)
      then some (record { kind = node; at = some n.id; field = none; message = no_path } ∷ [])
      else elim (variables_available_at g n.id false) [
        | none ↦ none
        | some entering ↦ elim (variables_available_at g n.id true) [
          | none ↦ none
          | some leaving ↦ some (
              warn_templates (place_of n "prompt" false) n.prompt (always ++ entering) declared
              ++ warn_templates (place_of n "greeting" false) (or_blank n.greeting)
                  (always ++ entering) declared
              ++ warn_speeches n.out_edges (always ++ leaving) declared)
        ]
      ]

  unfoldable pub warn_nodes : List Node → Option (List WorkflowError)
  warn_nodes [] = some []
  warn_nodes (n ∷ ns) =
      let rest = warn_nodes ns in
      elim (warn_node n) [
        | none ↦ none
        | some found ↦ elim rest [ none ↦ none | some more ↦ some (found ++ more) ]
      ]

-- `graph_warnings`; `none` is an error, or no fuel
unfoldable pub graph_warnings : WorkflowGraph → List Text → Option (List WorkflowError)
graph_warnings g known = elim (reachable g) [
  | none ↦ none
  | some reached ↦
      warn_nodes g (call_context_variables ++ known) (declared_variables (values g.nodes)) reached
        (values g.nodes)
]
