-- ===== src/Runner/Cache.antt =====
-- The cache of graphs of services/conversation/workflow/runner.py.
use yuviz.Base.{
  ℕ, ◌≤◌, not, ◌&&◌, none, some, is_some, length, drop, length-drop, leb, nat_beq_iff, nat_eq, ◌≡◌,
  ◌≢◌, arith, Option-cases, inl, inr, if◌then◌else◌,
}
use yuviz.Base.Dict.{lookup, lookup-insert, length-insert-le, length-insert_present}
use yuviz.Workflow.Graph.{WorkflowGraph}
use yuviz.Runner.{graph_cache_max, GraphCache, cache_get, cache_put}

pub length-cache_put :
    (key version : ℕ) (g : WorkflowGraph) (cache : GraphCache)
    → length cache ≤ graph_cache_max
    → length (cache_put key version g cache) ≤ graph_cache_max
unfolding cache_put
length-cache_put key version g cache small = elim (Option-cases (lookup key cache)) [
  | inl new ↦ ground (
    arith,
    new,
    small,
    length-insert-le key (version, g) cache,
    length-insert-le key (version, g) (drop 1 cache),
    length-drop 1 cache,
  )
  | inr (old, found) ↦
      ground (arith, found, small, length-insert_present key (version, g) old cache found)
]

-- A graph that was stored is found under its version, and no graph is found under another version;
-- and the cache never holds more graphs than its limit.
pub cache_get-cache_put :
    (key version : ℕ) (g : WorkflowGraph) (cache : GraphCache)
    → length cache ≤ graph_cache_max
    → (cache_get key version (cache_put key version g cache) ≡ some g)
      × ((other : ℕ) → version ≢ other → cache_get key other (cache_put key version g cache) ≡ none)
      × (length (cache_put key version g cache) ≤ graph_cache_max)
unfolding cache_get cache_put
cache_get-cache_put key version g cache small =
    let room =
      (if not (is_some (lookup key cache)) && leb graph_cache_max (length cache)
        then drop 1 cache
        else cache) in
    let found = lookup-insert key key (version, g) room in
    (
      ground (arith, found, nat_beq_iff key key, nat_beq_iff version version),
      (λ other new. ground (arith, found, nat_beq_iff key key, nat_beq_iff version other, new)),
      length-cache_put key version g cache small,
    )
