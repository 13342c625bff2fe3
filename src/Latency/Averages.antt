-- ===== src/Latency/Averages.antt =====
-- services/conversation/tool_latency.py against a list of all that was recorded: the store holds the
-- newest samples of some tenants, and never more than its limits.
use yuviz.Base.{
  ℕ, ◌-◌, false, some, List, [], ◌∷◌, ◌++◌, length, length-append, ltb, Text, text_eq, pair_eq, ◌≡◌,
  refl, sym, ap, subst, ◌∙◌, append-nil, append_assoc, arith, Bool-cases, Option-cases, List-cases,
  inl, inr,
}
use yuviz.Base.Dict.{lookup, insert, remove}
use yuviz.Base.Ordered.{
  move_to_end, lookup-move_to_end, IsBounded-nil, IsBounded-move_to_end, IsBounded-remove,
  IsBounded-update,
}
use yuviz.Latency.{
  max_age, max_keys_per_tenant, max_tenants, Sample, AgentToolKey, TenantMap, Elapsed,
  ToolLatencyStore, empty_store, is_unnamed, record_elapsed, drop_stale, average_ms,
}
use yuviz.Latency.Kept.{Entry, IsSamples, IsTenant, IsKept}
use yuviz.Latency.Recording.{entry_of, record_elapsed-IsKept}

-- a call of a method of the store, with the readings of the clock
pub data Op : Type 0 where
  recorded : Text → Text → Text → Elapsed → ℕ → ℕ → Op
  asked : Text → Text → Text → ℕ → Op

abbrev pub apply : Op → ToolLatencyStore → ToolLatencyStore
apply (recorded tenant_id agent_id tool_name ms at later) s =
    record_elapsed tenant_id agent_id tool_name ms at later s
apply (asked tenant_id agent_id tool_name now) s = (average_ms tenant_id agent_id tool_name now s).0

abbrev pub apply_all : List Op → ToolLatencyStore → ToolLatencyStore
apply_all [] s = s
apply_all (op ∷ ops) s = apply_all ops (apply op s)

-- the list of all that was recorded
abbrev pub entries_of : List Op → List Entry
entries_of [] = []
entries_of (recorded tenant_id agent_id tool_name ms at later ∷ ops) =
    entry_of tenant_id agent_id tool_name ms at ++ entries_of ops
entries_of (asked tenant_id agent_id tool_name now ∷ ops) = entries_of ops

-- what is dropped stood in front
pub drop_stale_front :
    (cutoff : ℕ) (samples : List Sample)
    → (gone : List Sample) × (samples ≡ gone ++ drop_stale cutoff samples)
drop_stale_front cutoff [] = ([], refl)
drop_stale_front cutoff ((at, ms) ∷ samples) = elim (Bool-cases (ltb at cutoff)) [
  | inl old ↦
      let (gone, e) = drop_stale_front cutoff samples in
      ((at, ms) ∷ gone, rw old (ap (λ (xs : List Sample). (at, ms) ∷ xs) e))
  | inr new ↦ ([], rw new refl)
]

pub drop_stale-IsSamples :
    (entries : List Entry) (t : Text) (key : AgentToolKey) (cutoff : ℕ) (samples : List Sample)
    → IsSamples entries t key samples
    → IsSamples entries t key (drop_stale cutoff samples)
drop_stale-IsSamples entries t key cutoff samples h =
    let (gone, e) = drop_stale_front cutoff samples in
    record {
      few = omega (arith, h.few, ap length e, length-append gone (drop_stale cutoff samples));
      before = h.before ++ gone;
      newest =
          h.newest
          ∙ ap (λ (xs : List Sample). h.before ++ xs) e
          ∙ sym (append_assoc h.before gone (drop_stale cutoff samples));
    }

put-IsKept :
    (entries : List Entry) (t : Text) (m new : TenantMap) (ts : List (Text × TenantMap))
    → lookup t ts ≡ some m
    → IsTenant entries t new
    → IsKept entries ts
    → IsKept entries (insert t new ts)
put-IsKept entries t m new ts there h b =
    IsBounded-update max_tenants (IsTenant entries) (IsTenant entries) t new m ts there b
      (λ u n other kept. kept) h

put-IsTenant :
    (entries : List Entry) (t : Text) (key : AgentToolKey) (samples new : List Sample)
    (m : TenantMap)
    → lookup key m ≡ some samples
    → IsSamples entries t key new
    → IsTenant entries t m
    → IsTenant entries t (insert key new m)
put-IsTenant entries t key samples new m there h b =
    IsBounded-update max_keys_per_tenant (IsSamples entries t) (IsSamples entries t) key new samples
      m there b (λ u n other kept. kept) h

-- the part of `average_ms` behind the two look-ups
read_samples-IsKept :
    (entries : List Entry) (t a n : Text) (now : ℕ) (s : ToolLatencyStore) (m : TenantMap)
    (samples : List Sample)
    → is_unnamed t a ≡ false
    → lookup t s.tenants ≡ some m
    → lookup (a, n) m ≡ some samples
    → IsKept entries s.tenants
    → IsKept entries (average_ms t a n now s).0.tenants
unfolding average_ms
read_samples-IsKept entries t a n now s m samples named some_of found b =
    let key : AgentToolKey = (a, n) in
    let moved = IsBounded-move_to_end max_tenants (IsTenant entries) t s.tenants b in
    let there : lookup t (move_to_end t s.tenants) ≡ some m =
      lookup-move_to_end t t s.tenants ∙ some_of in
    let old = b.each t m some_of in
    let touched = IsBounded-move_to_end max_keys_per_tenant (IsSamples entries t) key m old in
    let here : lookup key (move_to_end key m) ≡ some samples =
      lookup-move_to_end key key m ∙ found in
    let fresh =
      drop_stale-IsSamples entries t key (now - max_age) samples (old.each key samples found) in
    elim (List-cases (drop_stale (now - max_age) samples)) [
      | inl nothing ↦ elim (List-cases (remove key (move_to_end key m))) [
        | inl last ↦
            rw (average_ms, named, some_of, found, nothing, last)
              (IsBounded-remove max_tenants (IsTenant entries) t (move_to_end t s.tenants) moved)
        | inr (first, more, left) ↦
            rw (average_ms, named, some_of, found, nothing, left)
              (put-IsKept entries t m (first ∷ more) (move_to_end t s.tenants) there
                (subst (IsTenant entries t) left (
                  IsBounded-remove max_keys_per_tenant (IsSamples entries t) key (move_to_end key m)
                    touched))
                moved)
      ]
      | inr (x, rest, kept) ↦
          rw (average_ms, named, some_of, found, kept)
            (put-IsKept entries t m (insert key (x ∷ rest) (move_to_end key m))
              (move_to_end t s.tenants) there
              (put-IsTenant entries t key samples (x ∷ rest) (move_to_end key m) here
                (subst (IsSamples entries t key) kept fresh) touched)
              moved)
    ]

average_ms-IsKept :
    (entries : List Entry) (t a n : Text) (now : ℕ) (s : ToolLatencyStore)
    → IsKept entries s.tenants
    → IsKept entries (average_ms t a n now s).0.tenants
unfolding average_ms
average_ms-IsKept entries t a n now s b = elim (Bool-cases (is_unnamed t a)) [
  | inl unnamed ↦ rw (average_ms, unnamed) b
  | inr named ↦ elim (Option-cases (lookup t s.tenants)) [
    | inl none_of ↦ rw (average_ms, named, none_of) b
    | inr (m, some_of) ↦ elim (Option-cases (lookup (a, n) m)) [
      | inl no_samples ↦
          rw (average_ms, named, some_of, no_samples)
            (IsBounded-move_to_end max_tenants (IsTenant entries) t s.tenants b)
      | inr (samples, found) ↦
          read_samples-IsKept entries t a n now s m samples named some_of found b
    ]
  ]
]

apply_all_from :
    (entries : List Entry) (ops : List Op) (s : ToolLatencyStore)
    → IsKept entries s.tenants
    → IsKept (entries ++ entries_of ops) (apply_all ops s).tenants
apply_all_from entries [] s b = rw (append-nil entries) b
apply_all_from entries (recorded t a n ms at later ∷ ops) s b =
    subst
      (λ (all : List Entry).
        IsKept all (apply_all ops (record_elapsed t a n ms at later s)).tenants)
      (append_assoc entries (entry_of t a n ms at) (entries_of ops))
      (apply_all_from (entries ++ entry_of t a n ms at) ops (record_elapsed t a n ms at later s)
        (record_elapsed-IsKept entries t a n ms at later s b))
apply_all_from entries (asked t a n now ∷ ops) s b =
    apply_all_from entries ops (average_ms t a n now s).0 (average_ms-IsKept entries t a n now s b)

-- Whatever is recorded and asked, and in whatever order: the store has at most 2000 tenants, each with
-- at most 200 keys and no key twice, and under each key it holds the newest of all the samples that
-- were recorded for that tenant under that key, and at most 50 of them.
pub apply_all-IsKept : (ops : List Op) → IsKept (entries_of ops) (apply_all ops empty_store).tenants
apply_all-IsKept ops = apply_all_from [] ops empty_store (IsBounded-nil max_tenants (IsTenant []))
