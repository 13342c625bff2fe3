-- ===== src/Latency/Tenants.antt =====
-- What recording for one tenant does to the others, in services/conversation/tool_latency.py.
use yuviz.Base.{
  ℕ, ◌+◌, ◌-◌, ◌≤◌, ◌%◌, true, false, none, some, List, [], ◌∷◌, length, take, map, ltb, nat_beq,
  Text, text_eq, pair_eq, beq_false, ◌==◌, ◌≡◌, ◌≢◌, refl, ap, subst, ◌∙◌, arith, Bool-cases,
  Option-cases, inl, inr, ◌⊎◌, All, ◌<◌, ◌++◌, false,
}
use yuviz.Base.Dict.{lookup, insert, remove, get_or, lookup-insert, lookup-remove, length-insert-le}
use yuviz.Base.Ordered.{move_to_end, pop_first, lookup-move_to_end}
use yuviz.Latency.{
  max_age, max_tenants, is_recent, Sample, sweep_every, sweep_scan, TenantMap, Elapsed,
  ToolLatencyStore, is_unnamed, duration, open_tenant, add_sample, tenant_is_reclaimable,
  sweep_tenants, sweep, record_elapsed,
}

-- Of every key, the last sample, if there is one, was taken more than 15 minutes before.
abbrev pub IsStale : ℕ → TenantMap → Type 0
IsStale later m =
    All
      (λ e.
        (before : List Sample) (at ms : ℕ) → e.1 ≡ before ++ (at, ms) ∷ [] → at + max_age < later)
      m

stale_samples :
    (later : ℕ) (samples before : List Sample) (at ms : ℕ)
    → is_recent (later - max_age) samples ≡ false
    → samples ≡ before ++ (at, ms) ∷ []
    → at + max_age < later
stale_samples later [] [] at ms h e = ground arith
stale_samples later [] (y ∷ before) at ms h e = ground arith
stale_samples later (x ∷ []) [] at ms h e = ground (arith, h, e)
stale_samples later (x ∷ []) (y ∷ []) at ms h e = ground (arith, h, e)
stale_samples later (x ∷ []) (y ∷ z ∷ before) at ms h e = ground (arith, h, e)
stale_samples later (x ∷ z ∷ samples) [] at ms h e = ground (arith, h, e)
stale_samples later (x ∷ z ∷ samples) (y ∷ before) at ms h e =
    stale_samples later (z ∷ samples) before at ms h (ground (arith, e))

reclaimable-IsStale :
    (later : ℕ) (m : TenantMap) → tenant_is_reclaimable m (later - max_age) ≡ true → IsStale later m
unfolding tenant_is_reclaimable
reclaimable-IsStale later [] h = tt
reclaimable-IsStale later ((key, samples) ∷ m) h = (
  λ before at ms. stale_samples later samples before at ms (ground (arith, h)),
  reclaimable-IsStale later m (ground (arith, h)),
)

-- the oldest entry is the tenant's
abbrev pub IsOldest : Text → List (Text × TenantMap) → Type 0
IsOldest u ts = (m : TenantMap) × (rest : List (Text × TenantMap)) × (ts ≡ (u, m) ∷ rest)

module _ (u : Text) (m : TenantMap) where
  pop_first_leaves :
      (t : Text) (ts : List (Text × TenantMap))
      → t ≢ u
      → lookup t ts ≡ none
      → lookup u ts ≡ some m
      → (lookup u (pop_first (insert t [] ts)) ≡ some m) ⊎ IsOldest u ts
  pop_first_leaves t [] other new h = inl h
  pop_first_leaves t ((k, n) ∷ ts) other new h = elim (Bool-cases (k == u)) [
    | inl same ↦ inr (n, ts, ap (λ (j : Text). (j, n) ∷ ts) ((text_eq.is_same_iff k u).0 same))
    | inr differs ↦
        let not_t : (k == t) ≡ false = ground (arith, new) in
        let rest : lookup u ts ≡ some m = ground (arith, h, differs) in
        inl (rw not_t (lookup-insert t u [] ts ∙ rw (beq_false t u other) rest))
  ]

  open_tenant_leaves :
      (t : Text) (ts : List (Text × TenantMap))
      → t ≢ u
      → lookup u ts ≡ some m
      → (lookup u (open_tenant t ts) ≡ some m)
        ⊎ ((max_tenants ≤ length ts) × IsOldest u ts × (lookup t ts ≡ none))
  unfolding open_tenant
  open_tenant_leaves t ts other h = elim (Option-cases (lookup t ts)) [
    | inr (n, some_of) ↦ inl (rw (open_tenant, some_of) (lookup-move_to_end t u ts ∙ h))
    | inl new ↦ elim (Bool-cases (ltb max_tenants (length (insert t [] ts)))) [
      | inl over ↦ elim (pop_first_leaves t ts other new h) [
        | inl kept ↦ inl (
            rw (open_tenant, new, over)
              (lookup-move_to_end t u (pop_first (insert t [] ts)) ∙ kept))
        | inr oldest ↦ inr (ground (arith, over, length-insert-le t [] ts), oldest, new)
      ]
      | inr within ↦ inl (
          rw (open_tenant, new, within)
            (lookup-move_to_end t u (insert t [] ts)
              ∙ lookup-insert t u [] ts
              ∙ rw (beq_false t u other) h))
    ]
  ]

  sweep_tenants_leaves :
      (cutoff : ℕ) (names : List Text) (ts : List (Text × TenantMap))
      → lookup u ts ≡ some m
      → (lookup u (sweep_tenants cutoff names ts) ≡ some m)
        ⊎ (tenant_is_reclaimable m cutoff ≡ true)
  unfolding sweep_tenants
  sweep_tenants_leaves cutoff [] ts h = inl h
  sweep_tenants_leaves cutoff (t ∷ names) ts h = elim (Option-cases (lookup t ts)) [
    | inl none_of ↦ rw none_of (sweep_tenants_leaves cutoff names ts h)
    | inr (n, some_of) ↦ elim (Bool-cases (tenant_is_reclaimable n cutoff)) [
      | inr used ↦
          rw (some_of, used)
            (sweep_tenants_leaves cutoff names (move_to_end t ts) (lookup-move_to_end t u ts ∙ h))
      | inl stale ↦ elim (Bool-cases (t == u)) [
        | inl same ↦
            let is_u : t ≡ u = (text_eq.is_same_iff t u).0 same in
            let is_m : n ≡ m = cc in
            inr (subst (λ (x : TenantMap). tenant_is_reclaimable x cutoff ≡ true) is_m stale)
        | inr differs ↦
            rw (some_of, stale)
              (sweep_tenants_leaves cutoff names (remove t ts)
                (lookup-remove t u ts ∙ rw differs h))
      ]
    ]
  ]

  note_leaves :
      (t : Text) (new : TenantMap) (ts : List (Text × TenantMap))
      → t ≢ u
      → lookup u (insert t new ts) ≡ lookup u ts
  note_leaves t new ts other = lookup-insert t u new ts ∙ rw (beq_false t u other) refl

  -- Recording for a tenant leaves what is kept for another as it is, unless the last sample of each
  -- of that one's keys was taken more than 15 minutes before the sweep, or it is the oldest of 2000
  -- tenants or more, and the one that is recorded for is new.
  pub record_elapsed_leaves :
      (t a n : Text) (ms : Elapsed) (at later : ℕ) (s : ToolLatencyStore)
      → t ≢ u
      → lookup u s.tenants ≡ some m
      → (lookup u (record_elapsed t a n ms at later s).tenants ≡ some m)
        ⊎ IsStale later m
        ⊎ ((max_tenants ≤ length s.tenants) × IsOldest u s.tenants × (lookup t s.tenants ≡ none))
  unfolding record_elapsed sweep
  record_elapsed_leaves t a n ms at later s other h = elim (Bool-cases (is_unnamed t a)) [
    | inl unnamed ↦ inl (rw (record_elapsed, unnamed) h)
    | inr named ↦ elim (Option-cases (duration ms)) [
      | inl refused ↦ inl (rw (record_elapsed, named, refused) h)
      | inr (d, accepted) ↦ elim (open_tenant_leaves t s.tenants other h) [
        | inr evicted ↦ inr (inr evicted)
        | inl opened ↦
            let ts =
              insert t (add_sample (a, n) (at, d) (get_or t (open_tenant t s.tenants) []))
                (open_tenant t s.tenants) in
            let noted : lookup u ts ≡ some m =
              note_leaves t (add_sample (a, n) (at, d) (get_or t (open_tenant t s.tenants) []))
                (open_tenant t s.tenants) other
              ∙ opened in
            elim (Bool-cases (nat_beq ((s.record_count + 1) % sweep_every) 0)) [
              | inr rests ↦ inl (rw (record_elapsed, named, accepted, rests) noted)
              | inl sweeps ↦
                  elim (sweep_tenants_leaves (later - max_age) (take sweep_scan (map (λ e. e.0) ts))
                    ts noted) [
                      | inl kept ↦ inl (rw (record_elapsed, named, accepted, sweeps) kept)
                      | inr stale ↦ inr (inl (reclaimable-IsStale later m stale))
                    ]
            ]
      ]
    ]
  ]
