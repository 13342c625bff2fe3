-- ===== src/Examples/Tools.antt =====
-- The tool framework of services/conversation/tools at small inputs.
use yuviz.Base.{
  ℕ, String, string_eq, ◌+◌, ◌-◌, ◌≤◌, ◌<◌, true, ◌&&◌, none, some, List, [], ◌∷◌, ◌≡◌, refl, arith,
  if◌then◌else◌, ltb,
}
use yuviz.Base.Dict.{lookup}
use yuviz.Tools.{success, failed, unavailable, result_of, ToolDefinition, ToolRegistry, resolve}
use yuviz.Policy.{
  ResolvedToolPolicy, PolicyRow, ToolPolicyResolver, from_cache, refresh,
  add_auto_derived_companions, resolve_rows,
}
use yuviz.Policy.Narrowing.{has_tool}
use yuviz.Policy.Companions.{IsCoherent, rows_grant, has_tool-granted}
use yuviz.Policy.Caching.{Query, refresh_all, is_wanted, enabled_tools_cached}
use yuviz.Middleware.{
  Executor, with_retry, CircuitBreaker, default_breaker, call_tool, with_timeout, retry_loop,
}
use yuviz.Middleware.Breaker.{IsValid}
use yuviz.Middleware.Opening.{ToolCall, run_calls, call, Fails, opens_after_failures}

abbrev tool : String → ToolDefinition
tool name = record {
  name = name;
  description = "";
  parameters_schema = "{}";
  category = "booking";
  llm_visible = true;
  companion_tool_name = none;
}

abbrev row_of : String → PolicyRow
row_of name = record {
  tool_name = name;
  provider_config_id = "1";
  row_engine = "cal_com";
  row_api_key_ref = none;
  row_extra = "{}";
  row_timeout_ms = none;
  row_max_calls_per_turn = none;
}

abbrev rows : List PolicyRow
rows = row_of "book_appointment" ∷ row_of "search" ∷ []

abbrev registry : ToolRegistry
registry =
    ("book_appointment", tool "book_appointment")
    ∷ ("cancel_appointment", tool "cancel_appointment")
    ∷ []

registry-IsCoherent : IsCoherent registry
unfolding resolve
registry-IsCoherent = record {
  named = λ name d e. ground (
    arith,
    e,
    string_eq.is_same_iff "book_appointment" name,
    string_eq.is_same_iff "cancel_appointment" name,
  );
}

has_tool-granted_example :
    has_tool "cancel_appointment"
      (add_auto_derived_companions registry (resolve_rows registry rows))
    ≡ rows_grant registry rows "cancel_appointment"
has_tool-granted_example = has_tool-granted registry registry-IsCoherent rows "cancel_appointment"

is_granted : rows_grant registry rows "cancel_appointment" ≡ true
unfolding resolve
is_granted = refl

abbrev resolver : ToolPolicyResolver
resolver = record { connected = true; registry = registry; cache_ttl = 30000; cache = [] }

-- a query for another agent, between the query and the next call
abbrev other_query : Query
other_query = record { agent_id = "other"; rows = []; stored_at = 12; only = none }

abbrev later_resolver : ToolPolicyResolver
later_resolver = refresh_all (other_query ∷ []) (refresh rows 11 "agent" none resolver).0

enabled_tools_cached_example :
    (ps : List ResolvedToolPolicy) × (from_cache 20 "agent" (some ("search" ∷ [])) later_resolver
      ≡ (if ltb (20 - 11) 30000 then some ps else none))
    × ((n : String)
        → has_tool n ps ≡ (rows_grant registry rows n && is_wanted (some ("search" ∷ [])) n))
enabled_tools_cached_example =
    enabled_tools_cached resolver "agent" rows 11 none (other_query ∷ []) 20 (some ("search" ∷ []))
      registry-IsCoherent refl (λ e. cc)
      ((λ e. ground (arith, (string_eq.is_same_iff "other" "agent").1 e)), tt)

abbrev down : Executor
down n = some (result_of failed none)

abbrev up : Executor
up n = some (result_of success none)

default-IsValid : IsValid default_breaker
default-IsValid = record { earned = λ key at e. cc }

abbrev outage : ToolCall
outage = record { run = down; now = 10; later = 20 }

abbrev touchy : CircuitBreaker
touchy = record { fails_before_open = 2; cooldown = 100; consecutive_failures = []; opened_at = [] }

outage-Fails : Fails 0 "search" outage
unfolding with_retry with_timeout retry_loop
outage-Fails = refl

opens_after_failures_example :
    (lookup "search" (run_calls 0 "search" (outage ∷ []) touchy).opened_at ≡ none)
    × (lookup "search"
          (call 0 "search" outage (run_calls 0 "search" (outage ∷ []) touchy)).opened_at
        ≡ some 20)
    × ((run : Executor) (now later : ℕ)
        → 20 ≤ now
        → now < 20 + 100
        → let (b', r, attempts) =
            call_tool 0 run "search" now later
              (call 0 "search" outage (run_calls 0 "search" (outage ∷ []) touchy)) in
          (r.status ≡ unavailable) × (attempts ≡ 0))
opens_after_failures_example =
    opens_after_failures 0 "search" (outage ∷ []) outage touchy refl (outage-Fails, tt) outage-Fails
      refl
