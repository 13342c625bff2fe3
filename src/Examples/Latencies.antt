-- ===== src/Examples/Latencies.antt =====
-- The store of latencies at small inputs.
use yuviz.Base.{
  ℕ, ◌-◌, ◌≤◌, none, some, List, [], ◌∷◌, ◌++◌, length, All, Text, text_eq, pair_eq, codes, ◌≡◌,
  refl, ◌⊎◌, arith,
}
use yuviz.Base.Dict.{lookup}
use yuviz.Workflow.Words.{strip}
use yuviz.Latency.{
  max_tenants, max_age, window, min_samples, finite, Sample, TenantMap, ToolLatencyStore,
  empty_store, Mean, total_of, is_unnamed, open_tenant, add_sample, record_elapsed, average_ms,
}
use yuviz.Latency.Kept.{samples_of, IsKept}
use yuviz.Latency.Averages.{Op, recorded, asked, apply_all, entries_of, apply_all-IsKept}
use yuviz.Latency.Means.{InOrder, samples, average_ms_lem}
use yuviz.Latency.Tenants.{IsStale, IsOldest, record_elapsed_leaves}

abbrev acme : Text
acme = codes "acme"

abbrev other : Text
other = codes "other"

abbrev agent : Text
agent = codes "agent"

abbrev search : Text
search = codes "search"

abbrev took : ℕ → ℕ → Op
took at ms = recorded acme agent search (finite ms) at at

abbrev ops : List Op
ops = took 10 20 ∷ took 30 40 ∷ took 50 60 ∷ asked other agent search 70 ∷ []

apply_all-IsKept_example : IsKept (entries_of ops) (apply_all ops empty_store).tenants
apply_all-IsKept_example = apply_all-IsKept ops

abbrev mean : Mean
mean = record { total = 120; count = 3 }

ops-InOrder : InOrder (samples (entries_of ops))
unfolding is_unnamed strip
ops-InOrder = ((omega arith, (omega arith, tt)), ((omega arith, tt), (tt, tt)))

answered : (average_ms acme agent search 80 (apply_all ops empty_store)).1 ≡ some mean
unfolding average_ms record_elapsed is_unnamed open_tenant add_sample strip
answered = refl

average_ms_lem_example :
    (before newest : List Sample) × (samples_of acme (agent, search) (entries_of ops)
      ≡ before ++ newest)
    × All (λ x. 80 - max_age ≤ x.0) newest
    × (min_samples ≤ length newest)
    × (length newest ≤ window)
    × (mean ≡ record { total = total_of newest; count = length newest })
average_ms_lem_example = average_ms_lem ops acme agent search 80 mean ops-InOrder answered

abbrev kept : TenantMap
kept = ((agent, search), (10, 20) ∷ []) ∷ []

abbrev store : ToolLatencyStore
store = record { tenants = (acme, kept) ∷ []; record_count = 1 }

record_elapsed_leaves_example :
    (lookup acme (record_elapsed other agent search (finite 5) 90 91 store).tenants ≡ some kept)
    ⊎ IsStale 91 kept
    ⊎ ((max_tenants ≤ 1) × IsOldest acme store.tenants × (lookup other store.tenants ≡ none))
record_elapsed_leaves_example =
    record_elapsed_leaves acme kept other agent search (finite 5) 90 91 store
      (ground (arith, text_eq.is_same_iff other acme)) refl
