-- ===== src/Latency/Recording.antt =====
-- `record` of services/conversation/tool_latency.py, against the list of all that was recorded.
use yuviz.Base.{
  ℕ, ◌+◌, ◌-◌, ◌%◌, none, some, List, [], ◌∷◌, ◌++◌, length, take, map, ltb, nat_beq, Text, text_eq,
  pair_eq, beq_refl, if◌then◌else◌, ◌≡◌, refl, sym, subst, ◌∙◌, append-nil, arith, Bool-cases,
  Option-cases, inl, inr,
}
use yuviz.Base.Dict.{lookup, insert, remove, get_or, get_or-lookup, lookup-insert}
use yuviz.Base.Ordered.{
  move_to_end, pop_first, lookup-move_to_end, lookup-pop_first-insert, IsBounded, IsBounded-nil,
  IsBounded-move_to_end, IsBounded-remove, IsBounded-insert, IsBounded-pop_first, IsBounded-update,
}
use yuviz.Latency.{
  max_age, max_keys_per_tenant, max_tenants, sweep_every, sweep_scan, Sample, AgentToolKey,
  TenantMap, Elapsed, ToolLatencyStore, is_unnamed, duration, open_tenant, add_sample,
  tenant_is_reclaimable, sweep_tenants, sweep, record_elapsed,
}
use yuviz.Latency.Kept.{Entry, IsSamples, IsTenant, IsKept, IsTenant-other, add_sample-IsTenant}

-- the entry of a call of `record` that is accepted
abbrev pub entry_of : Text → Text → Text → Elapsed → ℕ → List Entry
entry_of tenant_id agent_id tool_name ms at =
    if is_unnamed tenant_id agent_id then [] else elim (duration ms) [
      | none ↦ []
      | some n ↦
          record { tenant_id = tenant_id; key = (agent_id, tool_name); sample = (at, n) } ∷ []
    ]

open_tenant-IsBounded :
    (P : Text → TenantMap → Type 0) (t : Text) (ts : List (Text × TenantMap))
    → P t []
    → IsBounded max_tenants P ts
    → IsBounded max_tenants P (open_tenant t ts)
unfolding open_tenant
open_tenant-IsBounded P t ts new b = elim (Option-cases (lookup t ts)) [
  | inl none_of ↦
      rw (open_tenant, none_of)
        (IsBounded-move_to_end max_tenants P t
          (if ltb max_tenants (length (insert t [] ts))
            then pop_first (insert t [] ts)
            else insert t [] ts)
          (IsBounded-pop_first max_tenants P (insert t [] ts)
            (IsBounded-insert max_tenants P t [] ts b new)))
  | inr (m, some_of) ↦ rw (open_tenant, some_of) (IsBounded-move_to_end max_tenants P t ts b)
]

abbrev settled : Text → List (Text × TenantMap) → List (Text × TenantMap)
settled t ts =
    if ltb max_tenants (length (insert t [] ts)) then pop_first (insert t [] ts) else insert t [] ts

settled-there :
    (t : Text) (ts : List (Text × TenantMap))
    → lookup t ts ≡ none
    → lookup t (settled t ts) ≡ some []
settled-there t ts new = elim (Bool-cases (ltb max_tenants (length (insert t [] ts)))) [
  | inl over ↦ rw (settled, over) (lookup-pop_first-insert t [] ts new (ground (arith, over)))
  | inr within ↦ rw (settled, within, lookup-insert t t [] ts, beq_refl t) refl
]

open_tenant-there :
    (t : Text) (ts : List (Text × TenantMap))
    → (m : TenantMap) × (lookup t (open_tenant t ts) ≡ some m)
unfolding open_tenant
open_tenant-there t ts = elim (Option-cases (lookup t ts)) [
  | inl none_of ↦ (
    [],
    rw (open_tenant, none_of) (lookup-move_to_end t t (settled t ts) ∙ settled-there t ts none_of),
  )
  | inr (m, some_of) ↦ (m, rw (open_tenant, some_of) (lookup-move_to_end t t ts ∙ some_of))
]

sweep_tenants-IsBounded :
    (P : Text → TenantMap → Type 0) (cutoff : ℕ) (names : List Text) (ts : List (Text × TenantMap))
    → IsBounded max_tenants P ts
    → IsBounded max_tenants P (sweep_tenants cutoff names ts)
unfolding sweep_tenants
sweep_tenants-IsBounded P cutoff [] ts b = b
sweep_tenants-IsBounded P cutoff (t ∷ names) ts b = elim (Option-cases (lookup t ts)) [
  | inl none_of ↦ rw none_of (sweep_tenants-IsBounded P cutoff names ts b)
  | inr (m, some_of) ↦ rw some_of (
      sweep_tenants-IsBounded P cutoff names
        (if tenant_is_reclaimable m cutoff then remove t ts else move_to_end t ts)
        (elim (Bool-cases (tenant_is_reclaimable m cutoff)) [
          | inl stale ↦ rw stale (IsBounded-remove max_tenants P t ts b)
          | inr used ↦ rw used (IsBounded-move_to_end max_tenants P t ts b)
        ]))
]

sweep-IsBounded :
    (P : Text → TenantMap → Type 0) (now : ℕ) (ts : List (Text × TenantMap))
    → IsBounded max_tenants P ts
    → IsBounded max_tenants P (sweep now ts)
unfolding sweep
sweep-IsBounded P now ts b =
    sweep_tenants-IsBounded P (now - max_age) (take sweep_scan (map (λ e. e.0) ts)) ts b

add_entry-IsKept :
    (entries : List Entry) (t : Text) (key : AgentToolKey) (x : Sample)
    (ts : List (Text × TenantMap))
    → IsKept entries ts
    → IsKept
        (entries ++ record { tenant_id = t; key = key; sample = x } ∷ [])
        (insert t (add_sample key x (get_or t (open_tenant t ts) [])) (open_tenant t ts))
add_entry-IsKept entries t key x ts b =
    let e : Entry = record { tenant_id = t; key = key; sample = x } in
    let opened =
      open_tenant-IsBounded (IsTenant entries) t ts
        (IsBounded-nil max_keys_per_tenant (IsSamples entries t)) b in
    let (m, there) = open_tenant-there t ts in
    subst
      (λ (old : TenantMap).
        IsKept (entries ++ e ∷ []) (insert t (add_sample key x old) (open_tenant t ts)))
      (sym (get_or-lookup t (open_tenant t ts) [] m there))
      (IsBounded-update max_tenants (IsTenant entries) (IsTenant (entries ++ e ∷ [])) t
        (add_sample key x m) m (open_tenant t ts) there opened
        (λ u n other h. IsTenant-other entries e u n other h)
        (add_sample-IsTenant entries t key x m (opened.each t m there)))

pub record_elapsed-IsKept :
    (entries : List Entry) (t a n : Text) (ms : Elapsed) (at later : ℕ) (s : ToolLatencyStore)
    → IsKept entries s.tenants
    → IsKept (entries ++ entry_of t a n ms at) (record_elapsed t a n ms at later s).tenants
unfolding record_elapsed
record_elapsed-IsKept entries t a n ms at later s b = elim (Bool-cases (is_unnamed t a)) [
  | inl unnamed ↦ rw (record_elapsed, unnamed, append-nil entries) b
  | inr named ↦ elim (Option-cases (duration ms)) [
    | inl refused ↦ rw (record_elapsed, named, refused, append-nil entries) b
    | inr (d, accepted) ↦
        let kept = add_entry-IsKept entries t (a, n) (at, d) s.tenants b in
        elim (Bool-cases (nat_beq ((s.record_count + 1) % sweep_every) 0)) [
          | inl sweeps ↦
              rw (record_elapsed, named, accepted, sweeps)
                (sweep-IsBounded
                  (IsTenant
                    (entries ++ record { tenant_id = t; key = (a, n); sample = (at, d) } ∷ []))
                  later
                  (insert t (add_sample (a, n) (at, d) (get_or t (open_tenant t s.tenants) []))
                    (open_tenant t s.tenants))
                  kept)
          | inr rests ↦ rw (record_elapsed, named, accepted, rests) kept
        ]
  ]
]
