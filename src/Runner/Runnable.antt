-- ===== src/Runner/Runnable.antt =====
-- What `resolve_graph` of services/conversation/workflow/runner.py gives, where it falls back and where
-- it does not.
use yuviz.Base.{
  ℕ, suc, Bool, true, false, Option, none, some, [], ◌∷◌, Text, codes, ◌≡◌, refl, ap, ◌∙◌, arith,
  Bool-cases, Option-cases, inl, inr, if◌then◌else◌,
}
use yuviz.Workflow.Graph.{WorkflowGraph, workflow, no_nodes}
use yuviz.Workflow.Validate.WellFormed.{IsWellFormed}
use yuviz.Workflow.Validate.{has_some}
use yuviz.Workflow.Raw.{
  Json, whole, object, Fields, no_fields, field, Python, is_truthy, as_object, get,
}
use yuviz.Workflow.Parse.{invalid, overflow, parse_graph, validate_raw}
use yuviz.Workflow.Parse.Checked.{parse_graph_decides}
use yuviz.Runner.{GraphCache, cache_get, cache_put}
use yuviz.Runner.Resolve.{
  RuntimeConfig, str_names_from_raw, fallback_tools, fallback_graph, fell, forced,
  resolve_published, resolve_graph, iterate,
}
use yuviz.Runner.Resolved.{
  IsCache, CanScrape, IsRunnable, cache_put-IsCache, cache_get-IsWellFormed, fallback_graph-some,
}

fell-IsRunnable :
    (py : Python) (config : RuntimeConfig) (raw : Option Fields)
    (store : WorkflowGraph → GraphCache)
    → CanScrape config raw
    → ((g : WorkflowGraph) → IsWellFormed g → IsCache (store g))
    → IsRunnable (fell store (fallback_graph py config raw))
fell-IsRunnable py config raw store h kept =
    let (g, done, w) = fallback_graph-some py config raw h in
    (g, false, store g, ap (fell store) done, w, kept g w)

CanScrape-none : (config : RuntimeConfig) → CanScrape config none
unfolding fallback_tools str_names_from_raw
CanScrape-none config = elim (Bool-cases (has_some config.tool_names)) [
  | inl y ↦ (ground (arith, y), refl)
  | inr n ↦ (ground (arith, n), refl)
]

-- A published workflow gives a graph to run on, whether it parses or not, and the cache stays as it
-- should be.
resolve_published-IsRunnable :
    (py : Python) (config : RuntimeConfig) (cache : GraphCache)
    → CanScrape config (as_object config.workflow)
    → IsCache cache
    → IsRunnable (resolve_published py config cache)
unfolding resolve_published
resolve_published-IsRunnable py config cache h c =
    let store : WorkflowGraph → GraphCache = λ g. cache_put config.key config.version g cache in
    let kept = λ (g : WorkflowGraph) (w : IsWellFormed g).
      cache_put-IsCache config.key config.version g cache w c in
    elim (Bool-cases (is_truthy config.workflow)) [
      | inr missing ↦
          rw (resolve_published, missing)
            (fell-IsRunnable py config none (λ g. cache) (CanScrape-none config) (λ g w. c))
      | inl given ↦ elim (Option-cases (cache_get config.key config.version cache)) [
        | inr (g, found) ↦ (
          g,
          false,
          cache,
          rw (resolve_published, given, found) refl,
          cache_get-IsWellFormed config.key config.version g cache c found,
          c,
        )
        | inl new ↦ elim (parse_graph_decides py config.workflow) [
          | inl (g, done, w) ↦
              (g, false, store g, rw (resolve_published, given, new, done) refl, w, kept g w)
          | inr (inl (e, es, failed)) ↦
              rw (resolve_published, given, new, failed)
                (fell-IsRunnable py config (as_object config.workflow) store h kept)
          | inr (inr (over, _)) ↦
              rw (resolve_published, given, new, over)
                (fell-IsRunnable py config (as_object config.workflow) store h kept)
        ]
      ]
    ]

-- the raw object that a test of the draft parses
abbrev pub chosen_draft : RuntimeConfig → Json
chosen_draft config =
    if is_truthy config.workflow_draft then config.workflow_draft else config.workflow

-- A call always gets a well-formed graph: the draft, the published one or the fallback, whether the
-- cache holds it or not; and the cache that is left holds only well-formed graphs, and not more than
-- its limit. The condition is that the lists of names in a published workflow can be gone through, and,
-- where an `OverflowError` escapes from the parse of the draft, those in the draft too.
pub resolve_graph-IsRunnable :
    (py : Python) (draft : Bool) (config : RuntimeConfig) (cache : GraphCache)
    → CanScrape config (as_object config.workflow)
    → (parse_graph py (chosen_draft config) ≡ overflow
        → CanScrape config (as_object (chosen_draft config)))
    → IsCache cache
    → IsRunnable (resolve_graph py draft config cache)
unfolding resolve_graph
resolve_graph-IsRunnable py false config cache h d c =
    resolve_published-IsRunnable py config cache h c
resolve_graph-IsRunnable py true config cache h d c =
    let raw = chosen_draft config in
    elim (Bool-cases (is_truthy raw)) [
      | inr missing ↦
          rw (resolve_graph, missing)
            (fell-IsRunnable py config none (λ g. cache) (CanScrape-none config) (λ g w. c))
      | inl given ↦ elim (parse_graph_decides py raw) [
        | inl (g, done, w) ↦ (g, false, cache, rw (resolve_graph, given, done) refl, w, c)
        | inr (inr (over, _)) ↦
            rw (resolve_graph, given, over)
              (fell-IsRunnable py config (as_object raw) (λ g. cache) (d over) (λ g w. c))
        | inr (inl (e, es, failed)) ↦
            let (g, _, after, done, w, kept) = resolve_published-IsRunnable py config cache h c in
            (g, true, after, rw (resolve_graph, given, failed) (ap forced done), w, kept)
      ]
    ]

-- an object whose `nodes` is a number other than zero
abbrev pub nodes_number : ℕ → Fields
nodes_number n = field (codes "nodes") (whole false (suc n)) no_fields

number_unparsed :
    (py : Python) (n : ℕ)
    → parse_graph py (object (nodes_number n))
      ≡ invalid
          (record { kind = workflow; at = none; field = some "nodes"; message = no_nodes } ∷ [])
unfolding parse_graph validate_raw get
number_unparsed py n = refl

names_raise : (n : ℕ) (name : Text) → str_names_from_raw (some (nodes_number n)) name ≡ none
unfolding str_names_from_raw get iterate
names_raise n name = ground arith

fallback_raises :
    (py : Python) (config : RuntimeConfig) (n : ℕ)
    → fallback_graph py config (some (nodes_number n)) ≡ none
unfolding fallback_graph
fallback_raises py config n = elim (Option-cases (fallback_tools config (some (nodes_number n)))) [
  | inl missing ↦ rw (fallback_graph, missing) refl
  | inr (tools, found) ↦ rw (fallback_graph, found, names_raise n (codes "knowledge_base_ids")) refl
]

-- `graph_for` raises, against its word, on a published workflow whose `nodes` is a number other than
-- zero: it does not parse, and the names cannot be read off it.
pub resolve_graph_raises :
    (py : Python) (config : RuntimeConfig) (cache : GraphCache) (n : ℕ)
    → config.workflow ≡ object (nodes_number n)
    → cache_get config.key config.version cache ≡ none
    → resolve_graph py false config cache ≡ none
unfolding resolve_graph resolve_published
resolve_graph_raises py config cache n published new =
    let given = ap is_truthy published in
    let failed = ap (parse_graph py) published ∙ number_unparsed py n in
    let raised =
      ap (λ j. fallback_graph py config (as_object j)) published ∙ fallback_raises py config n in
    rw (resolve_graph, resolve_published, given, new, failed, raised) refl
