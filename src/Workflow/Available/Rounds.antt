-- ===== src/Workflow/Available/Rounds.antt =====
-- The loop `while changed` of `_variables_available_at` in libs/config_sdk/workflow.py: it ends where
-- nothing changes, if each change makes something smaller.
use yuviz.Base.{
  ℕ, zero, suc, ◌≤◌, ◌<◌, Bool, true, false, some, List, [], ◌∷◌, Text, text_eq, text_beq,
  text_beq_iff, ◌==◌, ◌≡◌, ◌⊎◌, inl, inr, refl, subst, arith, Bool-cases,
}
use yuviz.Base.Dict.{insert}
use yuviz.Workflow.Graph.{WorkflowGraph}
use yuviz.Workflow.Reachable.{has}
use yuviz.Workflow.Available.{NameSets, names_at, same_set, new_in, visit, visit_all, while_changed}

module _ (g : WorkflowGraph) (reached : List Text) where
  -- visiting the step changes nothing
  abbrev pub IsSettled : NameSets → Text → Type 0
  IsSettled a k =
      (k == g.start_node_id) ≡ false → same_set (new_in g reached a k) (names_at a k) ≡ true

  -- nothing changes in a round
  abbrev pub IsStable : NameSets → Type 0
  IsStable a = (k : Text) → has reached k ≡ true → IsSettled a k

  -- A step stays as it is, or gets a new set.
  visit_cases :
      (a : NameSets) (c : Bool) (k : Text)
      → ((visit g reached k (a, c) ≡ (a, c)) × IsSettled a k)
        ⊎ (((k == g.start_node_id) ≡ false)
            × (same_set (new_in g reached a k) (names_at a k) ≡ false)
            × (visit g reached k (a, c) ≡ (insert k (new_in g reached a k) a, true)))
  unfolding visit
  visit_cases a c k = elim (Bool-cases (k == g.start_node_id)) [
    | inl y ↦ inl (rw y refl, λ n. ground (arith, y, n))
    | inr n ↦ elim (Bool-cases (same_set (new_in g reached a k) (names_at a k))) [
      | inl y ↦ inl (rw (n, y) refl, λ _. y)
      | inr m ↦ inr (n, m, rw (n, m) refl)
    ]
  ]

  visit_all_changed :
      (ids : List Text) (a : NameSets) → (visit_all g reached ids (a, true)).1 ≡ true
  unfolding visit_all
  visit_all_changed [] a = refl
  visit_all_changed (k ∷ ids) a = elim (visit_cases a true k) [
    | inl (e, _) ↦ rw (visit_all, e) (visit_all_changed ids a)
    | inr (_, _, e) ↦ rw (visit_all, e) (visit_all_changed ids (insert k (new_in g reached a k) a))
  ]

  module _ (Kept : NameSets → Type 0) (size : NameSets → ℕ)
      (step : (a : NameSets) (k : Text)
        → has reached k ≡ true
        → (k == g.start_node_id) ≡ false
        → same_set (new_in g reached a k) (names_at a k) ≡ false
        → Kept a
        → Kept (insert k (new_in g reached a k) a)
          × (size (insert k (new_in g reached a k) a) < size a)) where
    -- A round keeps what each change keeps. Either it changes nothing, or it makes things smaller.
    visit_all_lem :
        (ids : List Text) (a : NameSets) (c : Bool)
        → ((k : Text) → has ids k ≡ true → has reached k ≡ true)
        → Kept a
        → let (after, changed) = visit_all g reached ids (a, c) in
          Kept after
          × (size after ≤ size a)
          × (c ≡ false → changed ≡ true → size after < size a)
          × (changed ≡ false → (after ≡ a) × ((k : Text) → has ids k ≡ true → IsSettled a k))
    unfolding visit_all
    visit_all_lem [] a c inside kept = (
      kept,
      omega arith,
      (λ e f. ground (arith, e, f)),
      λ e. (refl, λ k h. absurd (ground (arith, h))),
    )
    visit_all_lem (i ∷ ids) a c inside kept = elim (visit_cases a c i) [
      | inl (e, still) ↦
          let (k, less, fewer, same) =
            visit_all_lem ids a c (λ j h. inside j (ground (arith, h))) kept in
          rw (visit_all, e)
            (
              k,
              less,
              fewer,
              λ f.
                  let (after, rest) = same f in
                  (
                    after,
                    λ j h n. elim (Bool-cases (text_beq i j)) [
                      | inl y ↦ subst (IsSettled a) ((text_beq_iff i j).0 y) still n
                      | inr x ↦ rest j (ground (arith, x, h)) n
                    ],
                  ),
            )
      | inr (n, m, e) ↦
          let (k, less) = step a i (inside i (ground (arith, text_beq_iff i i))) n m kept in
          let (l, lesser, _, _) =
            visit_all_lem ids (insert i (new_in g reached a i) a) true
              (λ j h. inside j (ground (arith, h))) k in
          rw (visit_all, e)
            (
              l,
              omega (arith, less, lesser),
              (λ _ _. omega (arith, less, lesser)),
              λ f.
                  absurd
                    (ground (arith, f, visit_all_changed ids (insert i (new_in g reached a i) a))),
            )
    ]

    -- With fuel for as many rounds as there is to take away, the loop ends where nothing changes.
    pub settle_ends :
        (fuel : ℕ) (a : NameSets)
        → Kept a
        → size a < fuel
        → (out : NameSets) × (while_changed g reached fuel a ≡ some out) × Kept out × IsStable out
    unfolding while_changed
    settle_ends zero a kept enough = absurd (omega (arith, enough))
    settle_ends (suc fuel) a kept enough =
        let (k, _, fewer, same) = visit_all_lem reached a false (λ j h. h) kept in
        let (after, changed) = visit_all g reached reached (a, false) in
        elim (Bool-cases changed) [
          | inl y ↦
              let (out, e, l, rest) =
                settle_ends fuel after k (omega (arith, fewer refl y, enough)) in
              (out, rw y e, l, rest)
          | inr n ↦ let (e, stable) = same n in (a, rw (n, e) refl, kept, stable)
        ]
