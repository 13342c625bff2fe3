-- ===== src/Latency.antt =====
-- services/conversation/tool_latency.py: how long the tools of a tenant take. A reading of the clock is
-- in whole milliseconds. A duration, a float in the source, is a number of some unit that is fine
-- enough, and a mean is the sum and the number that it is the quotient of.
pub mod Kept
pub mod Recording
pub mod Averages
pub mod Means
pub mod Tenants
use yuviz.Base.{
  ℕ, zero, suc, ◌+◌, ◌-◌, ◌%◌, Bool, true, false, not, ◌&&◌, ◌||◌, Option, none, some, List, [],
  ◌∷◌, ◌++◌, length, take, drop, map, ltb, leb, nat_beq, Text, text_eq, pair_eq, if◌then◌else◌,
}
use yuviz.Base.Dict.{lookup, insert, remove, get_or}
use yuviz.Base.Ordered.{move_to_end, pop_first}
use yuviz.Workflow.Words.{is_empty, strip, is_space}

-- `_WINDOW`, `_MIN_SAMPLES`, `_MAX_AGE_S`, `_MAX_KEYS_PER_TENANT`, `_SWEEP_EVERY`, `_SWEEP_SCAN` and
-- `_MAX_TENANTS`
abbrev pub window : ℕ
window = 50

abbrev pub min_samples : ℕ
min_samples = 3

abbrev pub max_age : ℕ
max_age = 900000

abbrev pub max_keys_per_tenant : ℕ
max_keys_per_tenant = 200

abbrev pub sweep_every : ℕ
sweep_every = 64

abbrev pub sweep_scan : ℕ
sweep_scan = 32

abbrev pub max_tenants : ℕ
max_tenants = 2000

-- the moment, and the duration
abbrev pub Sample : Type 0
Sample = ℕ × ℕ

abbrev pub AgentToolKey : Type 0
AgentToolKey = Text × Text

abbrev pub TenantMap : Type 0
TenantMap = List (AgentToolKey × List Sample)

-- the argument `elapsed_ms`
pub data Elapsed : Type 0 where
  not_finite : Elapsed
  below_zero : ℕ → Elapsed
  finite : ℕ → Elapsed

pub record ToolLatencyStore : Type 0 where
  pub tenants : List (Text × TenantMap)
  pub record_count : ℕ

pub record Mean : Type 0 where
  pub total : ℕ
  pub count : ℕ

-- `ToolLatencyStore.__init__`
abbrev pub empty_store : ToolLatencyStore
empty_store = record { tenants = []; record_count = 0 }

-- `not tenant_id or not tenant_id.strip() or not agent_id or not agent_id.strip()`
unfoldable pub is_unnamed : Text → Text → Bool
is_unnamed tenant_id agent_id =
    is_empty tenant_id
    || is_empty (strip tenant_id)
    || is_empty agent_id
    || is_empty (strip agent_id)

-- `not math.isfinite(elapsed_ms) or elapsed_ms <= 0`, and the duration otherwise
abbrev pub duration : Elapsed → Option ℕ
duration not_finite = none
duration (below_zero _) = none
duration (finite zero) = none
duration (finite (suc n)) = some (suc n)

-- `samples.append`, of a deque of at most `_WINDOW`
abbrev pub push_sample : Sample → List Sample → List Sample
push_sample x samples =
    let pushed = samples ++ x ∷ [] in if ltb window (length pushed) then drop 1 pushed else pushed

-- `if samples is None: tenant_map[key] = deque()`
abbrev pub with_key : AgentToolKey → TenantMap → TenantMap
with_key key d = elim (lookup key d) [ none ↦ insert key [] d | some _ ↦ d ]

-- the tenant's map is there, as the newest
unfoldable pub open_tenant : Text → List (Text × TenantMap) → List (Text × TenantMap)
open_tenant tenant_id tenants = move_to_end tenant_id (elim (lookup tenant_id tenants) [
  | none ↦
      let grown = insert tenant_id [] tenants in
      if ltb max_tenants (length grown) then pop_first grown else grown
  | some _ ↦ tenants
])

-- the sample is kept under its key, as the newest
unfoldable pub add_sample : AgentToolKey → Sample → TenantMap → TenantMap
add_sample key x tenant_map =
    let touched = move_to_end key (with_key key tenant_map) in
    let added = insert key (push_sample x (get_or key touched [])) touched in
    if ltb max_keys_per_tenant (length added) then pop_first added else added

-- whether a list of samples has its last at `cutoff` or later
abbrev pub is_recent : ℕ → List Sample → Bool
is_recent cutoff [] = false
is_recent cutoff ((at, _) ∷ []) = leb cutoff at
is_recent cutoff (_ ∷ x ∷ samples) = is_recent cutoff (x ∷ samples)

-- `_tenant_is_reclaimable`
unfoldable pub tenant_is_reclaimable : TenantMap → ℕ → Bool
tenant_is_reclaimable [] cutoff = true
tenant_is_reclaimable ((_, samples) ∷ tenant_map) cutoff =
    not (is_recent cutoff samples) && tenant_is_reclaimable tenant_map cutoff

-- the loop of `_sweep`
unfoldable pub sweep_tenants : ℕ → List Text → List (Text × TenantMap) → List (Text × TenantMap)
sweep_tenants cutoff [] tenants = tenants
sweep_tenants cutoff (tenant_id ∷ names) tenants =
    sweep_tenants cutoff names (elim (lookup tenant_id tenants) [
      | none ↦ tenants
      | some tenant_map ↦
          if tenant_is_reclaimable tenant_map cutoff
          then remove tenant_id tenants
          else move_to_end tenant_id tenants
    ])

-- `_sweep`
unfoldable pub sweep : ℕ → List (Text × TenantMap) → List (Text × TenantMap)
unfolding sweep_tenants
sweep now tenants = sweep_tenants (now - max_age) (take sweep_scan (map (λ e. e.0) tenants)) tenants

-- `record`, with its two readings of the clock
unfoldable pub record_elapsed :
    Text → Text → Text → Elapsed → ℕ → ℕ → ToolLatencyStore → ToolLatencyStore
record_elapsed tenant_id agent_id tool_name elapsed_ms at later s =
    if is_unnamed tenant_id agent_id then s else elim (duration elapsed_ms) [
      | none ↦ s
      | some ms ↦
          let opened = open_tenant tenant_id s.tenants in
          let noted =
            insert tenant_id
              (add_sample (agent_id, tool_name) (at, ms) (get_or tenant_id opened [])) opened in
          record {
            tenants =
                if nat_beq ((s.record_count + 1) % sweep_every) 0 then sweep later noted else noted;
            record_count = s.record_count + 1;
          }
    ]

-- `while samples and samples[0][0] < cutoff: samples.popleft()`
abbrev pub drop_stale : ℕ → List Sample → List Sample
drop_stale cutoff [] = []
drop_stale cutoff ((at, ms) ∷ samples) =
    let rest = drop_stale cutoff samples in if ltb at cutoff then rest else (at, ms) ∷ samples

-- `sum(ms for _, ms in samples)`
abbrev pub total_of : List Sample → ℕ
total_of [] = 0
total_of ((_, ms) ∷ samples) = ms + total_of samples

-- `average_ms`
unfoldable pub average_ms :
    Text → Text → Text → ℕ → ToolLatencyStore → ToolLatencyStore × Option Mean
average_ms tenant_id agent_id tool_name now s =
    if is_unnamed tenant_id agent_id then (s, none) else elim (lookup tenant_id s.tenants) [
      | none ↦ (s, none)
      | some tenant_map ↦
          let moved = move_to_end tenant_id s.tenants in
          let key : AgentToolKey = (agent_id, tool_name) in
          elim (lookup key tenant_map) [
            | none ↦ (record s { tenants = moved }, none)
            | some samples ↦
                let touched = move_to_end key tenant_map in
                elim (drop_stale (now - max_age) samples) [
                  | [] ↦
                      let left = remove key touched in
                      (
                        record s {
                          tenants = elim left [
                            | [] ↦ remove tenant_id moved
                            | first ∷ more ↦ insert tenant_id (first ∷ more) moved
                          ];
                        },
                        none,
                      )
                  | x ∷ rest ↦ (
                    record s { tenants = insert tenant_id (insert key (x ∷ rest) touched) moved },
                    (if ltb (length (x ∷ rest)) min_samples
                        then none
                        else some
                            (record { total = total_of (x ∷ rest); count = length (x ∷ rest) })),
                  )
                ]
          ]
    ]
