-- ===== src/Latency/Means.antt =====
-- What `average_ms` of services/conversation/tool_latency.py answers.
use yuviz.Base.{
  ℕ, ◌-◌, ◌≤◌, Bool, Option, none, some, List, [], ◌∷◌, ◌++◌, length, map, ltb, Text, text_eq,
  pair_eq, if◌then◌else◌, ◌≡◌, ◌≢◌, refl, sym, subst, ◌∙◌, All, All-imp, arith, Bool-cases,
  Option-cases, List-cases, inl, inr,
}
use yuviz.Base.Dict.{lookup}
use yuviz.Latency.{
  window, min_samples, max_age, Sample, AgentToolKey, TenantMap, ToolLatencyStore, empty_store,
  Mean, is_unnamed, drop_stale, total_of, average_ms,
}
use yuviz.Latency.Kept.{Entry, is_for, samples_of}
use yuviz.Latency.Averages.{Op, apply_all, entries_of, drop_stale-IsSamples, apply_all-IsKept}

-- the readings of the clock do not go down
abbrev pub InOrder : List Sample → Type 0
InOrder [] = Unit
InOrder (x ∷ xs) = All (λ y. x.0 ≤ y.0) xs × InOrder xs

InOrder-back : (front back : List Sample) → InOrder (front ++ back) → InOrder back
InOrder-back [] back h = h
InOrder-back (x ∷ front) back h = InOrder-back front back h.1

-- the moments of all entries
abbrev pub samples : List Entry → List Sample
samples entries = map (λ e. e.sample) entries

All-samples_of :
    (P : Sample → Type 0) (t : Text) (key : AgentToolKey) (entries : List Entry)
    → All P (samples entries)
    → All P (samples_of t key entries)
All-samples_of P t key [] h = tt
All-samples_of P t key (e ∷ entries) h = elim (Bool-cases (is_for t key e)) [
  | inl own ↦ rw own (h.0, All-samples_of P t key entries h.1)
  | inr other ↦ rw other (All-samples_of P t key entries h.1)
]

InOrder-samples_of :
    (t : Text) (key : AgentToolKey) (entries : List Entry)
    → InOrder (samples entries)
    → InOrder (samples_of t key entries)
InOrder-samples_of t key [] h = tt
InOrder-samples_of t key (e ∷ entries) h = elim (Bool-cases (is_for t key e)) [
  | inl own ↦ rw own (
    All-samples_of (λ y. e.sample.0 ≤ y.0) t key entries h.0,
    InOrder-samples_of t key entries h.1,
  )
  | inr other ↦ rw other (InOrder-samples_of t key entries h.1)
]

-- what is left behind a stale front is fresh
drop_stale-IsFresh :
    (cutoff : ℕ) (xs : List Sample) → InOrder xs → All (λ x. cutoff ≤ x.0) (drop_stale cutoff xs)
drop_stale-IsFresh cutoff [] h = tt
drop_stale-IsFresh cutoff ((at, ms) ∷ xs) h = elim (Bool-cases (ltb at cutoff)) [
  | inl old ↦ rw old (drop_stale-IsFresh cutoff xs h.1)
  | inr new ↦
      rw new (ground (arith, new), All-imp _ _ xs (λ y later. ground (arith, new, later)) h.0)
]

silent : (o : Option Mean) (mean : Mean) → o ≡ none → o ≢ some mean
silent o mean e = λ h. cc

some_is : (a b : Mean) → some a ≡ some b → a ≡ b
some_is a b h = cc

abbrev mean_of : List Sample → Mean
mean_of xs = record { total = total_of xs; count = length xs }

abbrev answer : Bool → List Sample → Option Mean
answer short xs = if short then none else some (mean_of xs)

enough :
    (xs : List Sample) (mean : Mean)
    → answer (ltb (length xs) min_samples) xs ≡ some mean
    → (min_samples ≤ length xs) × (mean ≡ mean_of xs)
enough xs mean h = elim (Bool-cases (ltb (length xs) min_samples)) [
  | inl short ↦
      absurd (silent (answer (ltb (length xs) min_samples) xs) mean (rw (answer, short) refl) h)
  | inr long ↦
      let same : mean_of xs ≡ mean = some_is (mean_of xs) mean (sym (rw (answer, long) refl) ∙ h) in
      (ground (arith, long), sym same)
]

-- the samples that a mean is made of
mean_cases :
    (t a n : Text) (now : ℕ) (s : ToolLatencyStore) (mean : Mean)
    → (average_ms t a n now s).1 ≡ some mean
    → (m : TenantMap) × (held : List Sample) × (lookup t s.tenants ≡ some m)
      × (lookup (a, n) m ≡ some held)
      × (min_samples ≤ length (drop_stale (now - max_age) held))
      × (mean ≡ record {
        total = total_of (drop_stale (now - max_age) held);
        count = length (drop_stale (now - max_age) held);
      })
unfolding average_ms
mean_cases t a n now s mean h = elim (Bool-cases (is_unnamed t a)) [
  | inl unnamed ↦ absurd (silent (average_ms t a n now s).1 mean (rw (average_ms, unnamed) refl) h)
  | inr named ↦ elim (Option-cases (lookup t s.tenants)) [
    | inl none_of ↦
        absurd (silent (average_ms t a n now s).1 mean (rw (average_ms, named, none_of) refl) h)
    | inr (m, some_of) ↦ elim (Option-cases (lookup (a, n) m)) [
      | inl no_samples ↦ absurd (
          silent (average_ms t a n now s).1 mean (rw (average_ms, named, some_of, no_samples) refl)
            h)
      | inr (held, found) ↦ elim (List-cases (drop_stale (now - max_age) held)) [
        | inl nothing ↦ absurd (
            silent (average_ms t a n now s).1 mean
              (rw (average_ms, named, some_of, found, nothing) refl) h)
        | inr (x, rest, kept) ↦
            let ds = drop_stale (now - max_age) held in
            let said : (average_ms t a n now s).1 ≡ answer (ltb (length ds) min_samples) ds =
              rw (average_ms, named, some_of, found, kept) refl in
            let (many, is_mean) = enough ds mean (sym said ∙ h) in
            (m, held, some_of, found, many, is_mean)
      ]
    ]
  ]
]

-- A mean that is answered is of three samples or more, and of no more than the window holds: the newest
-- of all that were recorded for that tenant, agent and tool, and each of the last 15 minutes; those of
-- other tenants do not count. The readings of the clock are taken not to go down.
pub average_ms_lem :
    (ops : List Op) (t a n : Text) (now : ℕ) (mean : Mean)
    → InOrder (samples (entries_of ops))
    → (average_ms t a n now (apply_all ops empty_store)).1 ≡ some mean
    → (before newest : List Sample) × (samples_of t (a, n) (entries_of ops) ≡ before ++ newest)
      × All (λ x. now - max_age ≤ x.0) newest
      × (min_samples ≤ length newest)
      × (length newest ≤ window)
      × (mean ≡ record { total = total_of newest; count = length newest })
average_ms_lem ops t a n now mean ordered h =
    let (m, held, some_of, found, many, is_mean) =
      mean_cases t a n now (apply_all ops empty_store) mean h in
    let own = ((apply_all-IsKept ops).each t m some_of).each (a, n) held found in
    let fresh = drop_stale-IsSamples (entries_of ops) t (a, n) (now - max_age) held own in
    let sorted =
      InOrder-back own.before held
        (subst InOrder own.newest (InOrder-samples_of t (a, n) (entries_of ops) ordered)) in
    (
      fresh.before,
      drop_stale (now - max_age) held,
      fresh.newest,
      drop_stale-IsFresh (now - max_age) held sorted,
      many,
      fresh.few,
      is_mean,
    )
