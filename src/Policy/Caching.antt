-- ===== src/Policy/Caching.antt =====
-- The cache of `enabled_tools` in policy_resolver.py.
use yuviz.Base.{
  ℕ, ◌-◌, String, ◌≡◌, ◌≢◌, Bool, true, ◌&&◌, ◌||◌, Option, none, some, List, [], ◌∷◌, All, arith,
  string_eq, if◌then◌else◌, ltb, ◌==◌, beq_refl, beq_false, refl, ap, ◌∙◌,
}
use yuviz.Base.Dict.{lookup, lookup-insert}
use yuviz.Tools.{ToolRegistry}
use yuviz.Policy.{
  PolicyRow, ResolvedToolPolicy, ToolPolicyResolver, resolve_rows, add_auto_derived_companions,
  contains, narrow, from_cache, refresh,
}
use yuviz.Policy.Narrowing.{has_tool, has_tool-narrow}
use yuviz.Policy.Companions.{IsCoherent, rows_grant, has_tool-granted}

-- Everything that the rows grant, before narrowing.
abbrev granted : ToolRegistry → List PolicyRow → List ResolvedToolPolicy
granted registry rows = add_auto_derived_companions registry (resolve_rows registry rows)

-- A query that has come back, with the rows, the moment and the agent.
pub record Query : Type 0 where
  pub agent_id : String
  pub rows : List PolicyRow
  pub stored_at : ℕ
  pub only : Option (List String)

-- the resolver after the queries, one after another
unfoldable pub refresh_all : List Query → ToolPolicyResolver → ToolPolicyResolver
refresh_all [] r = r
refresh_all (q ∷ queries) r = refresh_all queries (refresh q.rows q.stored_at q.agent_id q.only r).0

-- What a call names, or implies by naming `book_appointment`; all tools if it names none.
abbrev pub is_wanted : Option (List String) → String → Bool
is_wanted none n = true
is_wanted (some only) n =
    contains only n
    || (contains only "book_appointment"
        && ("cancel_appointment" == n || "reschedule_appointment" == n))

wanted_tools :
    (registry : ToolRegistry)
    → IsCoherent registry
    → (rows : List PolicyRow) (only : Option (List String)) (n : String)
    → has_tool n (narrow (granted registry rows) only)
      ≡ (rows_grant registry rows n && is_wanted only n)
unfolding narrow
wanted_tools registry coherent rows none n =
    ground (arith, has_tool-granted registry coherent rows n)
wanted_tools registry coherent rows (some only) n = ground (
  arith,
  has_tool-narrow (granted registry rows) only n,
  has_tool-granted registry coherent rows n,
)

-- The entry of an agent is untouched by the queries for others, and so is what a resolver is made with.
refresh_all-entry :
    (agent : String) (queries : List Query) (r : ToolPolicyResolver)
    → All (λ q. q.agent_id ≢ agent) queries
    → (lookup agent (refresh_all queries r).cache ≡ lookup agent r.cache)
      × ((refresh_all queries r).cache_ttl ≡ r.cache_ttl)
      × ((refresh_all queries r).connected ≡ r.connected)
unfolding refresh_all refresh
refresh_all-entry agent [] r h = ground arith
refresh_all-entry agent (q ∷ queries) r h =
    let after = (refresh q.rows q.stored_at q.agent_id q.only r).0 in
    let new : ℕ × List ResolvedToolPolicy = (q.stored_at, granted r.registry q.rows) in
    let (entry, ttl, on) = refresh_all-entry agent queries after h.1 in
    (
      entry
          ∙ (lookup-insert q.agent_id agent new r.cache ∙ rw (beq_false q.agent_id agent h.0) refl),
      ttl,
      on,
    )

from_cache_lem :
    (now at : ℕ) (agent : String) (only : Option (List String)) (r : ToolPolicyResolver)
    (resolved : List ResolvedToolPolicy)
    → r.connected ≡ true
    → agent ≢ ""
    → lookup agent r.cache ≡ some (at, resolved)
    → from_cache now agent only r
      ≡ (if ltb (now - at) r.cache_ttl then some (narrow resolved only) else none)
unfolding from_cache
from_cache_lem now at agent only r resolved on named e =
    ground (arith, string_eq.is_same_iff agent "", on, e)

-- Once the rows of an agent have been read and stored, and as long as no other query for the agent comes
-- back, queries for other agents or not, a connected resolver whose registry stores each definition under
-- its own name answers every call for the agent without a query, for the time to live and no longer, and
-- whatever the database holds meanwhile: with the tools that those rows grant and the call asks for.
pub enabled_tools_cached :
    (r : ToolPolicyResolver) (agent : String) (rows : List PolicyRow) (stored_at : ℕ)
    (only : Option (List String)) (others : List Query) (now : ℕ) (asked : Option (List String))
    → IsCoherent r.registry
    → r.connected ≡ true
    → agent ≢ ""
    → All (λ q. q.agent_id ≢ agent) others
    → let after = refresh_all others (refresh rows stored_at agent only r).0 in
      (ps : List ResolvedToolPolicy) × (from_cache now agent asked after
        ≡ (if ltb (now - stored_at) r.cache_ttl then some ps else none))
      × ((n : String) → has_tool n ps ≡ (rows_grant r.registry rows n && is_wanted asked n))
unfolding refresh
enabled_tools_cached r agent rows stored_at only others now asked coherent on named apart =
    let stored = (refresh rows stored_at agent only r).0 in
    let after = refresh_all others stored in
    let (entry, ttl, still_on) = refresh_all-entry agent others stored apart in
    let resolved = granted r.registry rows in
    let found : lookup agent after.cache ≡ some (stored_at, resolved) =
      entry
      ∙ (lookup-insert agent agent (stored_at, resolved) r.cache ∙ rw (beq_refl agent) refl) in
    (
      narrow resolved asked,
      from_cache_lem now stored_at agent asked after resolved (still_on ∙ on) named found
          ∙ ap (λ (t : ℕ). if ltb (now - stored_at) t then some (narrow resolved asked) else none)
              ttl,
      wanted_tools r.registry coherent rows asked,
    )
