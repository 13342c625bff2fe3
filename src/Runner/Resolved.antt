-- ===== src/Runner/Resolved.antt =====
-- A call always gets a graph that it can run on: `resolve_graph` of
-- services/conversation/workflow/runner.py.
use yuviz.Base.{
  ℕ, ◌≤◌, Bool, true, not, ◌&&◌, Option, some, is_some, [], ◌∷◌, drop, length, leb, codes, nat_eq,
  ◌≡◌, ap, subst, arith, All, Bool-cases, Option-cases, inl, inr,
}
use yuviz.Base.Dict.{lookup, insert}
use yuviz.Workflow.Graph.{WorkflowGraph}
use yuviz.Workflow.Validate.WellFormed.{IsWellFormed}
use yuviz.Workflow.Raw.{Json, Fields, Python}
use yuviz.Workflow.Parse.{parsed, parse_graph, starter_graph}
use yuviz.Workflow.Parse.Checked.{parse_graph_decides}
use yuviz.Workflow.Parse.Starter.{parse_graph-starter_graph}
use yuviz.Runner.{GraphCache, graph_cache_max, cache_get, cache_put}
use yuviz.Runner.Cache.{length-cache_put}
use yuviz.Runner.Resolve.{
  RuntimeConfig, or_empty, str_names_from_raw, fallback_tools, returned, fallback_graph, Resolved,
}

-- every graph of the cache is well formed, and there are not too many
pub record IsCache (cache : GraphCache) : Type 0 where
  pub graphs : All (λ e. IsWellFormed e.1.1) cache
  pub bounded : length cache ≤ graph_cache_max

-- The names can be read off an object that does not parse.
abbrev pub CanScrape : RuntimeConfig → Option Fields → Type 0
CanScrape config raw =
    (is_some (fallback_tools config raw) ≡ true)
    × (is_some (str_names_from_raw raw (codes "knowledge_base_ids")) ≡ true)

-- a well-formed graph, and a cache as it should be
abbrev pub IsRunnable : Option Resolved → Type 0
IsRunnable o =
    (g : WorkflowGraph) × (fell_back : Bool) × (after : GraphCache) × (o
      ≡ some (g, fell_back, after))
    × IsWellFormed g
    × IsCache after

drop-All :
    (cache : GraphCache)
    → All (λ e. IsWellFormed e.1.1) cache
    → All (λ e. IsWellFormed e.1.1) (drop 1 cache)
drop-All [] h = tt
drop-All (e ∷ cache) h = h.1

insert-All :
    (key version : ℕ) (g : WorkflowGraph) (cache : GraphCache)
    → IsWellFormed g
    → All (λ e. IsWellFormed e.1.1) cache
    → All (λ e. IsWellFormed e.1.1) (insert key (version, g) cache)
insert-All key version g [] w h = (w, tt)
insert-All key version g ((k, held) ∷ cache) w h = elim (Bool-cases (nat_eq.is_same k key)) [
  | inl y ↦ rw y (w, h.1)
  | inr n ↦ rw n (h.0, insert-All key version g cache w h.1)
]

pub cache_put-IsCache :
    (key version : ℕ) (g : WorkflowGraph) (cache : GraphCache)
    → IsWellFormed g
    → IsCache cache
    → IsCache (cache_put key version g cache)
unfolding cache_put
cache_put-IsCache key version g cache w c = record {
  graphs =
      elim (Bool-cases (not (is_some (lookup key cache)) && leb graph_cache_max (length cache))) [
        | inl full ↦ rw full (insert-All key version g (drop 1 cache) w (drop-All cache c.graphs))
        | inr room ↦ rw room (insert-All key version g cache w c.graphs)
      ];
  bounded = length-cache_put key version g cache c.bounded;
}

lookup-IsWellFormed :
    (key version : ℕ) (g : WorkflowGraph) (cache : GraphCache)
    → All (λ e. IsWellFormed e.1.1) cache
    → lookup key cache ≡ some (version, g)
    → IsWellFormed g
lookup-IsWellFormed key version g [] h found = absurd (ground (arith, found))
lookup-IsWellFormed key version g ((k, (v, o)) ∷ cache) h found =
    elim (Bool-cases (nat_eq.is_same k key)) [
      | inl y ↦
          let same : o ≡ g = ground (arith, y, found) in
          subst (λ (o : WorkflowGraph). IsWellFormed o) same h.0
      | inr n ↦ lookup-IsWellFormed key version g cache h.1 (ground (arith, n, found))
    ]

pub cache_get-IsWellFormed :
    (key version : ℕ) (g : WorkflowGraph) (cache : GraphCache)
    → IsCache cache
    → cache_get key version cache ≡ some g
    → IsWellFormed g
unfolding cache_get
cache_get-IsWellFormed key version g cache c found = elim (Option-cases (lookup key cache)) [
  | inl missing ↦ absurd (ground (arith, missing, found))
  | inr ((v, o), held) ↦
      let same : o ≡ g = ground (arith, held, found) in
      subst (λ (o : WorkflowGraph). IsWellFormed o) same
        (lookup-IsWellFormed key v o cache c.graphs held)
]

pub parsed-IsWellFormed :
    (py : Python) (raw : Json) (g : WorkflowGraph) → parse_graph py raw ≡ parsed g → IsWellFormed g
parsed-IsWellFormed py raw g h = elim (parse_graph_decides py raw) [
  | inl (o, found, w) ↦
      let same : o ≡ g = ground (arith, found, h) in
      subst (λ (o : WorkflowGraph). IsWellFormed o) same w
  | inr (inl (e, es, found)) ↦ absurd (ground (arith, found, h))
  | inr (inr (over, _)) ↦ absurd (ground (arith, over, h))
]

pub fallback_graph-some :
    (py : Python) (config : RuntimeConfig) (raw : Option Fields)
    → CanScrape config raw
    → (g : WorkflowGraph) × (fallback_graph py config raw ≡ some g) × IsWellFormed g
unfolding fallback_graph
fallback_graph-some py config raw h = elim (Option-cases (fallback_tools config raw)) [
  | inl missing ↦ absurd (ground (arith, missing, h.0))
  | inr (tools, t) ↦ elim (Option-cases (str_names_from_raw raw (codes "knowledge_base_ids"))) [
    | inl missing ↦ absurd (ground (arith, missing, h.1))
    | inr (kb_ids, k) ↦
        let (g, done, _, _, _) =
          parse_graph-starter_graph py (or_empty config.greeting) (or_empty config.system_prompt)
            tools kb_ids in
        (
          g,
          rw (fallback_graph, t, k) (ap returned done),
          parsed-IsWellFormed py
              (starter_graph (or_empty config.greeting) (or_empty config.system_prompt) tools
                kb_ids)
              g done,
        )
  ]
]
