-- ===== src/Runner/Resolve.antt =====
-- Which graph a call runs on: `resolve_graph` and `_fallback_graph` of
-- services/conversation/workflow/runner.py. `none` is a `TypeError` that is not caught.
use yuviz.Base.{
  ℕ, Bool, true, false, not, ◌&&◌, Option, none, some, List, [], ◌∷◌, ◌++◌, map, any, Text, codes,
  text_eq, ◌==◌, if◌then◌else◌,
}
use yuviz.Workflow.Words.{is_empty}
use yuviz.Workflow.Graph.{WorkflowGraph}
use yuviz.Workflow.Validate.{has_some}
use yuviz.Workflow.Raw.{
  Json, null, boolean, whole, decimal, not_finite, string, array, object, Fields, no_fields, field,
  Python, is_truthy, get, to_list, as_object, data_object,
}
use yuviz.Workflow.Parse.{
  Parsed, parsed, invalid, assertion_failed, overflow, parse_graph, starter_graph,
}
use yuviz.Runner.{GraphCache, cache_get, cache_put}

-- what `resolve_graph` reads of a `RuntimeConfig`; `key` stands for `_cache_key`
pub record RuntimeConfig : Type 0 where
  pub key : ℕ
  pub version : ℕ
  pub greeting : Option Text
  pub system_prompt : Option Text
  pub tool_names : List Text
  pub workflow : Json
  pub workflow_draft : Json

abbrev pub keys : Fields → List Json
keys no_fields = []
keys (field k v fields) = string k ∷ keys fields

-- what `for x in value or []` goes through
unfoldable pub iterate : Json → Option (List Json)
iterate null = some []
iterate (boolean b) = if b then none else some []
iterate (whole negative n) = if is_truthy (whole negative n) then none else some []
iterate (decimal is_zero negative n) = if is_zero then some [] else none
iterate (not_finite _) = none
iterate (string t) = some (map (λ c. string (c ∷ [])) t)
iterate (array items) = some (to_list items)
iterate (object fields) = some (keys fields)

-- the inner loop of `_str_names_from_raw`; `seen` holds what `names` does
unfoldable pub add_names : List Json → List Text → List Text
add_names [] names = names
add_names (string t ∷ items) names =
    add_names items
      (if not (is_empty t) && not (any (λ name. name == t) names) then names ++ t ∷ [] else names)
add_names (_ ∷ items) names = add_names items names

-- the outer loop
unfoldable pub scrape : Text → List Json → List Text → Option (List Text)
unfolding get data_object iterate add_names
scrape field_name [] names = some names
scrape field_name (j ∷ nodes) names = elim (as_object j) [
  | none ↦ scrape field_name nodes names
  | some raw_node ↦ elim (iterate (get field_name (data_object raw_node))) [
    | none ↦ none
    | some items ↦ scrape field_name nodes (add_names items names)
  ]
]

-- `_str_names_from_raw`
unfoldable pub str_names_from_raw : Option Fields → Text → Option (List Text)
unfolding get iterate scrape
str_names_from_raw none field_name = some []
str_names_from_raw (some raw) field_name = elim (iterate (get (codes "nodes") raw)) [
  | none ↦ none
  | some nodes ↦ scrape field_name nodes []
]

abbrev pub or_empty : Option Text → Text
or_empty none = []
or_empty (some t) = t

-- the tools of `_fallback_graph`
unfoldable pub fallback_tools : RuntimeConfig → Option Fields → Option (List Text)
unfolding str_names_from_raw
fallback_tools config raw =
    if has_some config.tool_names
    then some config.tool_names
    else str_names_from_raw raw (codes "tools")

-- the graph that `parse_graph` returns
abbrev pub returned : Parsed → Option WorkflowGraph
returned (parsed g) = some g
returned (invalid errors) = none
returned assertion_failed = none
returned overflow = none

-- `_fallback_graph`
unfoldable pub fallback_graph : Python → RuntimeConfig → Option Fields → Option WorkflowGraph
unfolding fallback_tools str_names_from_raw parse_graph starter_graph
fallback_graph py config raw = elim (fallback_tools config raw) [
  | none ↦ none
  | some tools ↦ elim (str_names_from_raw raw (codes "knowledge_base_ids")) [
    | none ↦ none
    | some kb_ids ↦ returned (
        parse_graph py
          (starter_graph (or_empty config.greeting) (or_empty config.system_prompt) tools kb_ids))
  ]
]

-- a graph, whether an invalid draft forced the published one, and the cache
abbrev pub Resolved : Type 0
Resolved = WorkflowGraph × Bool × GraphCache

-- a graph that is the fallback, if that does not raise
abbrev pub fell : (WorkflowGraph → GraphCache) → Option WorkflowGraph → Option Resolved
fell cache_after none = none
fell cache_after (some g) = some (g, false, cache_after g)

-- `resolve_graph` with `draft=False`
unfoldable pub resolve_published : Python → RuntimeConfig → GraphCache → Option Resolved
unfolding cache_get cache_put parse_graph fallback_graph
resolve_published py config cache =
    let store : WorkflowGraph → GraphCache = λ g. cache_put config.key config.version g cache in
    if not (is_truthy config.workflow)
    then fell (λ g. cache) (fallback_graph py config none)
    else elim (cache_get config.key config.version cache) [
      | some g ↦ some (g, false, cache)
      | none ↦ elim (parse_graph py config.workflow) [
        | parsed g ↦ some (g, false, store g)
        | invalid errors ↦ fell store (fallback_graph py config (as_object config.workflow))
        | assertion_failed ↦ fell store (fallback_graph py config (as_object config.workflow))
        | overflow ↦ fell store (fallback_graph py config (as_object config.workflow))
      ]
    ]

abbrev pub forced : Option Resolved → Option Resolved
forced none = none
forced (some (g, _, cache)) = some (g, true, cache)

-- `resolve_graph`
unfoldable pub resolve_graph : Python → Bool → RuntimeConfig → GraphCache → Option Resolved
unfolding parse_graph fallback_graph resolve_published
resolve_graph py false config cache = resolve_published py config cache
resolve_graph py true config cache =
    let raw = if is_truthy config.workflow_draft then config.workflow_draft else config.workflow in
    if not (is_truthy raw)
    then fell (λ g. cache) (fallback_graph py config none)
    else elim (parse_graph py raw) [
      | parsed g ↦ some (g, false, cache)
      | invalid errors ↦ forced (resolve_published py config cache)
      | assertion_failed ↦ fell (λ g. cache) (fallback_graph py config (as_object raw))
      | overflow ↦ fell (λ g. cache) (fallback_graph py config (as_object raw))
    ]
