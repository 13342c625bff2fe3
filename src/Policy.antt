-- ===== src/Policy.antt =====
-- services/conversation/tools/policy_resolver.py: which tools an agent may use. The rows of the
-- database query and the readings of the clock are arguments; `extra` is only passed on, and stands
-- as its JSON text. Times are whole milliseconds.
pub mod Narrowing
pub mod Companions
pub mod Caching
use yuviz.Base.{
  ℕ, ◌-◌, String, Bool, not, ◌||◌, map, Option, none, some, List, [], ◌∷◌, ◌++◌, ltb, any, keep,
  ◌==◌, string_eq, if◌then◌else◌,
}
use yuviz.Base.Dict.{lookup, insert}
use yuviz.Tools.{ToolDefinition, ToolRegistry, resolve}

-- `_DEFAULT_CACHE_TTL_S`
abbrev pub default_cache_ttl : ℕ
default_cache_ttl = 30000

-- `_AUTO_DERIVED_COMPANIONS`
abbrev pub auto_derived_companions : List (String × List String)
auto_derived_companions =
    ("book_appointment", "cancel_appointment" ∷ "reschedule_appointment" ∷ []) ∷ []

pub record ResolvedToolPolicy : Type 0 where
  pub definition : ToolDefinition
  pub tool_provider_config_id : String
  pub engine : String
  pub api_key_ref : Option String
  pub extra : String
  pub timeout_ms : Option ℕ
  pub max_calls_per_turn : Option ℕ

-- A row of the query in `enabled_tools`.
pub record PolicyRow : Type 0 where
  pub tool_name : String
  pub provider_config_id : String
  pub row_engine : String
  pub row_api_key_ref : Option String
  pub row_extra : String
  pub row_timeout_ms : Option ℕ
  pub row_max_calls_per_turn : Option ℕ

abbrev pub tool_name_of : ResolvedToolPolicy → String
tool_name_of p = p.definition.name

-- `name in names`
abbrev pub contains : List String → String → Bool
contains names name = any (λ n. n == name) names

-- `next(p for p in resolved if p.definition.name == source_name)`
unfoldable pub find_policy : String → List ResolvedToolPolicy → Option ResolvedToolPolicy
find_policy name [] = none
find_policy name (p ∷ ps) = if tool_name_of p == name then some p else find_policy name ps

-- the loop over `rows` in `enabled_tools`: a row with an unknown tool is skipped
unfoldable pub resolve_rows : ToolRegistry → List PolicyRow → List ResolvedToolPolicy
unfolding resolve
resolve_rows registry [] = []
resolve_rows registry (row ∷ rows) =
    let rest = resolve_rows registry rows in
    elim (resolve registry row.tool_name) [
      | none ↦ rest
      | some d ↦
          record {
            definition = d;
            tool_provider_config_id = row.provider_config_id;
            engine = row.row_engine;
            api_key_ref = row.row_api_key_ref;
            extra = row.row_extra;
            timeout_ms = row.row_timeout_ms;
            max_calls_per_turn = row.row_max_calls_per_turn;
          }
          ∷ rest
    ]

-- the inner loop of `_add_auto_derived_companions`, over the set `present` (as a list) and the
-- policies; a name that is present, or that the registry lacks, is skipped
unfoldable pub derive_companions :
    ToolRegistry
    → ResolvedToolPolicy
    → List String
    → List String
    → List ResolvedToolPolicy
    → List String × List ResolvedToolPolicy
unfolding resolve
derive_companions registry source [] present resolved = (present, resolved)
derive_companions registry source (name ∷ names) present resolved =
    let skip = derive_companions registry source names present resolved in
    if contains present name then skip else elim (resolve registry name) [
      | none ↦ skip
      | some d ↦
          derive_companions registry source names (name ∷ present)
            (resolved ++ record source { definition = d } ∷ [])
    ]

-- the outer loop of `_add_auto_derived_companions`
unfoldable pub derive_all :
    ToolRegistry
    → List (String × List String)
    → List String
    → List ResolvedToolPolicy
    → List ResolvedToolPolicy
unfolding find_policy derive_companions
derive_all registry [] present resolved = resolved
derive_all registry ((source_name, names) ∷ more) present resolved =
    let skip = derive_all registry more present resolved in
    if contains present source_name
    then elim (find_policy source_name resolved) [
      | none ↦ skip
      | some source ↦
          (let (present', resolved') = derive_companions registry source names present resolved in
            derive_all registry more present' resolved')
    ]
    else skip

-- `_add_auto_derived_companions`
unfoldable pub add_auto_derived_companions :
    ToolRegistry → List ResolvedToolPolicy → List ResolvedToolPolicy
unfolding derive_all
add_auto_derived_companions registry resolved =
    derive_all registry auto_derived_companions (map tool_name_of resolved) resolved

-- the loop of `_narrow` over the companions: the set `allowed`, as a list
unfoldable pub allow_companions : List (String × List String) → List String → List String
allow_companions [] allowed = allowed
allow_companions ((source_name, names) ∷ more) allowed =
    allow_companions more (if contains allowed source_name then allowed ++ names else allowed)

-- `_narrow`
unfoldable pub narrow : List ResolvedToolPolicy → Option (List String) → List ResolvedToolPolicy
unfolding allow_companions
narrow resolved none = resolved
narrow resolved (some only) =
    keep (λ p. contains (allow_companions auto_derived_companions only) (tool_name_of p)) resolved

pub record ToolPolicyResolver : Type 0 where
  pub connected : Bool
  pub registry : ToolRegistry
  pub cache_ttl : ℕ
  pub cache : List (String × (ℕ × List ResolvedToolPolicy))

-- `enabled_tools` up to the query: the answer, if there is one without it. `now` is the reading that the
-- age of the entry is taken at. The query is awaited, so that calls for the same agent can overlap.
unfoldable pub from_cache :
    ℕ → String → Option (List String) → ToolPolicyResolver → Option (List ResolvedToolPolicy)
unfolding narrow
from_cache now agent_id only r =
    if agent_id == "" || not r.connected then some [] else elim (lookup agent_id r.cache) [
      | none ↦ none
      | some (at, resolved) ↦
          if ltb (now - at) r.cache_ttl then some (narrow resolved only) else none
    ]

-- `enabled_tools` from the query's answer on: resolve, derive, store, at the reading `stored_at`, and
-- narrow
unfoldable pub refresh :
    List PolicyRow
    → ℕ
    → String
    → Option (List String)
    → ToolPolicyResolver
    → ToolPolicyResolver × List ResolvedToolPolicy
unfolding resolve_rows add_auto_derived_companions narrow
refresh rows stored_at agent_id only r =
    let resolved = add_auto_derived_companions r.registry (resolve_rows r.registry rows) in
    (record r { cache = insert agent_id (stored_at, resolved) r.cache }, narrow resolved only)
