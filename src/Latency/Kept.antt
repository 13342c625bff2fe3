-- ===== src/Latency/Kept.antt =====
-- What services/conversation/tool_latency.py keeps, against the list of all that was recorded.
use yuviz.Base.{
  suc, ◌≤◌, Bool, true, false, ◌&&◌, some, List, [], ◌∷◌, ◌++◌, length, length-append, length-drop,
  take-append-drop, append-nil, take, drop, ltb, Text, text_eq, pair_eq, beq_refl, beq_false, ◌==◌,
  if◌then◌else◌, ◌≡◌, ◌≢◌, refl, sym, ap, subst, ◌∙◌, append_assoc, arith, Bool-cases, Option-cases,
  inl, inr,
}
use yuviz.Base.Dict.{lookup, insert, get_or-lookup, lookup-insert}
use yuviz.Base.Ordered.{
  move_to_end, pop_first, lookup-move_to_end, IsBounded, IsBounded-move_to_end, IsBounded-insert,
  IsBounded-pop_first, IsBounded-update,
}
use yuviz.Latency.{
  window, max_keys_per_tenant, max_tenants, Sample, AgentToolKey, TenantMap, push_sample, with_key,
  add_sample,
}

-- what was recorded, and for whom
pub record Entry : Type 0 where
  pub tenant_id : Text
  pub key : AgentToolKey
  pub sample : Sample

-- whether an entry is for a tenant and under a key
unfoldable pub is_for : Text → AgentToolKey → Entry → Bool
is_for tenant_id key e = (e.tenant_id == tenant_id) && (e.key == key)

-- all that was recorded for a tenant under a key
abbrev pub samples_of : Text → AgentToolKey → List Entry → List Sample
samples_of tenant_id key [] = []
samples_of tenant_id key (e ∷ entries) =
    let rest = samples_of tenant_id key entries in
    if is_for tenant_id key e then e.sample ∷ rest else rest

-- the newest of the samples, and no more than the window holds
pub record IsSamples (entries : List Entry) (tenant_id : Text) (key : AgentToolKey)
    (samples : List Sample) : Type 0 where
  pub few : length samples ≤ window
  pub before : List Sample
  pub newest : samples_of tenant_id key entries ≡ before ++ samples

abbrev pub IsTenant : List Entry → Text → TenantMap → Type 0
IsTenant entries tenant_id = IsBounded max_keys_per_tenant (IsSamples entries tenant_id)

abbrev pub IsKept : List Entry → List (Text × TenantMap) → Type 0
IsKept entries = IsBounded max_tenants (IsTenant entries)

samples_of-append :
    (t : Text) (key : AgentToolKey) (entries : List Entry) (e : Entry)
    → samples_of t key (entries ++ e ∷ [])
      ≡ samples_of t key entries ++ (if is_for t key e then e.sample ∷ [] else [])
samples_of-append t key [] e = refl
samples_of-append t key (f ∷ entries) e = elim (Bool-cases (is_for t key f)) [
  | inl own ↦ rw own (ap (λ (xs : List Sample). f.sample ∷ xs) (samples_of-append t key entries e))
  | inr other ↦ rw other (samples_of-append t key entries e)
]

is_for_own :
    (t : Text) (key : AgentToolKey) (x : Sample)
    → is_for t key (record { tenant_id = t; key = key; sample = x }) ≡ true
unfolding is_for
is_for_own t key x = rw (beq_refl t, beq_refl key.0, beq_refl key.1) refl

push_sample-IsSamples :
    (entries : List Entry) (t : Text) (key : AgentToolKey) (x : Sample) (samples : List Sample)
    → IsSamples entries t key samples
    → IsSamples
        (entries ++ record { tenant_id = t; key = key; sample = x } ∷ [])
        t
        key
        (push_sample x samples)
push_sample-IsSamples entries t key x samples s =
    let e : Entry = record { tenant_id = t; key = key; sample = x } in
    let grown : samples_of t key (entries ++ e ∷ []) ≡ s.before ++ (samples ++ x ∷ []) =
      rw (samples_of-append t key entries e, is_for_own t key x, s.newest)
        (append_assoc s.before samples (x ∷ [])) in
    elim (Bool-cases (ltb window (length (samples ++ x ∷ [])))) [
      | inl over ↦
          rw (push_sample, over)
            (record {
              few =
                  omega (
                    arith,
                    length-drop 1 (samples ++ x ∷ []),
                    length-append samples (x ∷ []),
                    s.few,
                  );
              before = s.before ++ take 1 (samples ++ x ∷ []);
              newest =
                  rw
                    (
                      grown,
                      append_assoc s.before (take 1 (samples ++ x ∷ []))
                          (drop 1 (samples ++ x ∷ [])),
                      take-append-drop 1 (samples ++ x ∷ []),
                    )
                    refl;
            })
      | inr within ↦
          rw (push_sample, within)
            (record { few = ground (arith, within); before = s.before; newest = grown })
    ]

-- an entry for others
IsSamples-other :
    (entries : List Entry) (e : Entry) (t : Text) (key : AgentToolKey) (samples : List Sample)
    → is_for t key e ≡ false
    → IsSamples entries t key samples
    → IsSamples (entries ++ e ∷ []) t key samples
IsSamples-other entries e t key samples other s = record {
  few = s.few;
  before = s.before;
  newest =
      rw (samples_of-append t key entries e, other, append-nil (samples_of t key entries)) s.newest;
}

pub IsTenant-other :
    (entries : List Entry) (e : Entry) (t : Text) (tenant_map : TenantMap)
    → e.tenant_id ≢ t
    → IsTenant entries t tenant_map
    → IsTenant (entries ++ e ∷ []) t tenant_map
unfolding is_for
IsTenant-other entries e t tenant_map other b = record {
  few = b.few;
  distinct = b.distinct;
  each = λ key samples h.
      IsSamples-other entries e t key samples
        (ground (arith, other, text_eq.is_same_iff e.tenant_id t)) (b.each key samples h);
}

nothing-IsSamples :
    (entries : List Entry) (t : Text) (key : AgentToolKey) → IsSamples entries t key []
nothing-IsSamples entries t key = record {
  few = omega arith;
  before = samples_of t key entries;
  newest = sym (append-nil (samples_of t key entries));
}

with_key-there :
    (key : AgentToolKey) (m : TenantMap)
    → (samples : List Sample) × (lookup key (with_key key m) ≡ some samples)
with_key-there key m = elim (Option-cases (lookup key m)) [
  | inl new ↦ ([], rw (with_key, new, lookup-insert key key [] m, beq_refl key) refl)
  | inr (samples, h) ↦ (samples, rw (with_key, h) h)
]

with_key-IsBounded :
    (entries : List Entry) (t : Text) (key : AgentToolKey) (m : TenantMap)
    → IsTenant entries t m
    → IsBounded (suc max_keys_per_tenant) (IsSamples entries t) (with_key key m)
with_key-IsBounded entries t key m b = elim (Option-cases (lookup key m)) [
  | inl new ↦
      rw (with_key, new)
        (IsBounded-insert max_keys_per_tenant (IsSamples entries t) key [] m b
          (nothing-IsSamples entries t key))
  | inr (samples, h) ↦
      rw (with_key, h) (record { few = omega (arith, b.few); distinct = b.distinct; each = b.each })
]

not_for :
    (t : Text) (key : AgentToolKey) (x : Sample) (j : AgentToolKey)
    → key ≢ j
    → is_for t j (record { tenant_id = t; key = key; sample = x }) ≡ false
unfolding is_for
not_for t key x j other = rw (beq_refl t, beq_false key j other) refl

pub add_sample-IsTenant :
    (entries : List Entry) (t : Text) (key : AgentToolKey) (x : Sample) (m : TenantMap)
    → IsTenant entries t m
    → IsTenant
        (entries ++ record { tenant_id = t; key = key; sample = x } ∷ [])
        t
        (add_sample key x m)
unfolding add_sample
add_sample-IsTenant entries t key x m b =
    let e : Entry = record { tenant_id = t; key = key; sample = x } in
    let (samples, there) = with_key-there key m in
    let touched = move_to_end key (with_key key m) in
    let found : lookup key touched ≡ some samples =
      lookup-move_to_end key key (with_key key m) ∙ there in
    let bounded =
      IsBounded-move_to_end (suc max_keys_per_tenant) (IsSamples entries t) key (with_key key m)
        (with_key-IsBounded entries t key m b) in
    subst
      (λ (old : List Sample).
        let added = insert key (push_sample x old) touched in
        IsTenant (entries ++ e ∷ []) t
          (if ltb max_keys_per_tenant (length added) then pop_first added else added))
      (sym (get_or-lookup key touched [] samples found))
      (IsBounded-pop_first max_keys_per_tenant (IsSamples (entries ++ e ∷ []) t)
        (insert key (push_sample x samples) touched)
        (IsBounded-update (suc max_keys_per_tenant) (IsSamples entries t)
          (IsSamples (entries ++ e ∷ []) t) key (push_sample x samples) samples touched found
          bounded (λ j u other s. IsSamples-other entries e t j u (not_for t key x j other) s)
          (push_sample-IsSamples entries t key x samples (bounded.each key samples found))))
