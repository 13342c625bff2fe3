-- ===== src/Base/Ordered.antt =====
-- Python's `OrderedDict`, as an association list from the oldest entry to the newest.
use Prim.Native.Nat.{ℕ, suc, ◌+◌, ◌≤◌}
use mathlib.Core.Path.{◌≡◌, refl, sym, subst, ◌∙◌}
use mathlib.Core.List.{List, [], ◌∷◌, ◌++◌}
use mathlib.Core.Option.{none, some}
use native.Mathlib.Omega.{arith}
use mathlib.Core.Logic.{◌≢◌, inl, inr}
use yuviz.Base.Tests.{ltb, if◌then◌else◌, Bool-cases, Option-cases}
use yuviz.Base.Lists.{length, drop, length-append, length-drop}
use yuviz.Base.Keys.{Eq}
use yuviz.Base.Dict.{
  lookup, insert, remove, lookup-insert, lookup-remove, length-insert-le, length-insert_present,
  length-remove-le, DistinctKeys, DistinctKeys-remove, DistinctKeys-insert,
}

module _ {ℓ} {K V : Type ℓ} ⦃e : Eq K⦄ where
  -- `d.move_to_end(k)`, for a key that it has
  abbrev pub move_to_end : K → List (K × V) → List (K × V)
  move_to_end k d = elim (lookup k d) [ none ↦ d | some v ↦ remove k d ++ (k, v) ∷ [] ]

  -- `d.popitem(last=False)`, for a dictionary that is not empty
  abbrev pub pop_first : List (K × V) → List (K × V)
  pop_first d = drop 1 d

  pub lookup-append :
      (j : K) (d more : List (K × V))
      → lookup j (d ++ more) ≡ (elim (lookup j d) [ none ↦ lookup j more | some v ↦ some v ])
  lookup-append j [] more = refl
  lookup-append j ((i, w) ∷ d) more = ground (arith, lookup-append j d more)

  pub lookup-move_to_end : (k j : K) (d : List (K × V)) → lookup j (move_to_end k d) ≡ lookup j d
  lookup-move_to_end k j d = elim (Option-cases (lookup k d)) [
    | inl h ↦ rw (move_to_end, h) refl
    | inr (v, h) ↦
        rw (move_to_end, h, lookup-append j (remove k d) ((k, v) ∷ []), lookup-remove k j d)
          (ground (arith, h, e.is_same_iff k j))
  ]

  length-remove_present :
      (k : K) (v : V) (d : List (K × V)) → lookup k d ≡ some v → length (remove k d) + 1 ≤ length d
  length-remove_present k v [] h = ground arith
  length-remove_present k v ((i, w) ∷ d) h = elim (Bool-cases (e.is_same i k)) [
    | inl same ↦ rw same (omega (arith, length-remove-le k d))
    | inr other ↦ rw other (omega (arith, length-remove_present k v d (ground (arith, h, other))))
  ]

  pub length-move_to_end-le : (k : K) (d : List (K × V)) → length (move_to_end k d) ≤ length d
  length-move_to_end-le k d = elim (Option-cases (lookup k d)) [
    | inl h ↦ rw (move_to_end, h) (omega arith)
    | inr (v, h) ↦
        rw (move_to_end, h)
          (omega (arith, length-append (remove k d) ((k, v) ∷ []), length-remove_present k v d h))
  ]

  pub DistinctKeys-append :
      (k : K) (v : V) (d : List (K × V))
      → DistinctKeys d
      → lookup k d ≡ none
      → DistinctKeys (d ++ (k, v) ∷ [])
  DistinctKeys-append k v [] h new = (refl, tt)
  DistinctKeys-append k v ((i, w) ∷ d) h new = (
    ground (arith, lookup-append i d ((k, v) ∷ []), h.0, new, e.is_same_iff k i, e.is_same_iff i k),
    DistinctKeys-append k v d h.1 (ground (new, arith)),
  )

  pub DistinctKeys-move_to_end :
      (k : K) (d : List (K × V)) → DistinctKeys d → DistinctKeys (move_to_end k d)
  DistinctKeys-move_to_end k d h = elim (Option-cases (lookup k d)) [
    | inl none_of ↦ rw (move_to_end, none_of) h
    | inr (v, some_of) ↦
        rw (move_to_end, some_of)
          (DistinctKeys-append k v (remove k d) (DistinctKeys-remove k d h)
            (ground (arith, lookup-remove k k d, e.is_same_iff k k)))
  ]

  pub DistinctKeys-pop_first : (d : List (K × V)) → DistinctKeys d → DistinctKeys (pop_first d)
  DistinctKeys-pop_first [] h = h
  DistinctKeys-pop_first ((k, v) ∷ d) h = h.1

  -- a key that is new survives when the oldest entry goes
  pub lookup-pop_first-insert :
      (k : K) (v : V) (d : List (K × V))
      → lookup k d ≡ none
      → 2 ≤ length (insert k v d)
      → lookup k (pop_first (insert k v d)) ≡ some v
  lookup-pop_first-insert k v [] new long = absurd (omega (arith, long))
  lookup-pop_first-insert k v ((i, w) ∷ d) new long =
      ground (arith, lookup-insert k k v d, e.is_same_iff k k, new)

module _ {ℓ κ} {K V : Type ℓ} ⦃e : Eq K⦄ (P : K → V → Type κ) where
  -- what holds of each key and its value
  abbrev pub OfAll : List (K × V) → Type (ℓ ⊔ κ)
  OfAll d = (k : K) (v : V) → lookup k d ≡ some v → P k v

  pub OfAll-move_to_end : (k : K) (d : List (K × V)) → OfAll d → OfAll (move_to_end k d)
  OfAll-move_to_end k d held j v h = held j v (sym (lookup-move_to_end k j d) ∙ h)

  pub OfAll-pop_first : (d : List (K × V)) → DistinctKeys d → OfAll d → OfAll (pop_first d)
  OfAll-pop_first [] distinct held j v h = held j v h
  OfAll-pop_first ((i, w) ∷ d) distinct held j v h =
      held j v (ground (arith, h, distinct.0, e.is_same_iff i j))

  pub OfAll-remove : (k : K) (d : List (K × V)) → OfAll d → OfAll (remove k d)
  OfAll-remove k d held j v h = held j v (ground (arith, h, lookup-remove k j d))

module _ {ℓ κ ρ} {K V : Type ℓ} ⦃e : Eq K⦄ (P : K → V → Type κ) (Q : K → V → Type ρ) where
  -- An entry that is set has its own reason, and the others keep theirs.
  pub OfAll-insert :
      (k : K) (v : V) (d : List (K × V))
      → OfAll P d
      → ((j : K) (w : V) → k ≢ j → P j w → Q j w)
      → Q k v
      → OfAll Q (insert k v d)
  OfAll-insert k v d held others new j w h = elim (Bool-cases (e.is_same k j)) [
    | inl same ↦
        let is_k : k ≡ j = (e.is_same_iff k j).0 same in
        let is_v : v ≡ w = ground (arith, h, same, lookup-insert k j v d) in
        subst (λ (i : K). Q i w) is_k (subst (Q k) is_v new)
    | inr other ↦
        others j w (ground (arith, other, e.is_same_iff k j))
          (held j w (ground (arith, h, other, lookup-insert k j v d)))
  ]

-- A dictionary of at most `n` entries, of each of which something holds.
pub record IsBounded {ℓ κ} {K V : Type ℓ} ⦃e : Eq K⦄ (n : ℕ) (P : K → V → Type κ) (d : List (K × V))
    : Type (ℓ ⊔ κ) where
  pub few : length d ≤ n
  pub distinct : DistinctKeys d
  pub each : OfAll P d

module _ {ℓ κ} {K V : Type ℓ} ⦃e : Eq K⦄ (n : ℕ) (P : K → V → Type κ) where
  pub IsBounded-nil : IsBounded n P []
  IsBounded-nil = record {
    few = omega arith;
    distinct = tt;
    each = λ k v h. absurd (ground (arith, h));
  }

  pub IsBounded-move_to_end :
      (k : K) (d : List (K × V)) → IsBounded n P d → IsBounded n P (move_to_end k d)
  IsBounded-move_to_end k d b = record {
    few = omega (arith, length-move_to_end-le k d, b.few);
    distinct = DistinctKeys-move_to_end k d b.distinct;
    each = OfAll-move_to_end P k d b.each;
  }

  pub IsBounded-remove : (k : K) (d : List (K × V)) → IsBounded n P d → IsBounded n P (remove k d)
  IsBounded-remove k d b = record {
    few = omega (arith, length-remove-le k d, b.few);
    distinct = DistinctKeys-remove k d b.distinct;
    each = OfAll-remove P k d b.each;
  }

  pub IsBounded-insert :
      (k : K) (v : V) (d : List (K × V))
      → IsBounded n P d
      → P k v
      → IsBounded (suc n) P (insert k v d)
  IsBounded-insert k v d b new = record {
    few = omega (arith, length-insert-le k v d, b.few);
    distinct = DistinctKeys-insert k v d b.distinct;
    each = OfAll-insert P P k v d b.each (λ j w other held. held) new;
  }

  -- the oldest entry goes when there is one too many
  pub IsBounded-pop_first :
      (d : List (K × V))
      → IsBounded (suc n) P d
      → IsBounded n P (if ltb n (length d) then pop_first d else d)
  IsBounded-pop_first d b = elim (Bool-cases (ltb n (length d))) [
    | inl over ↦ rw over (record {
      few = omega (arith, length-drop 1 d, b.few);
      distinct = DistinctKeys-pop_first d b.distinct;
      each = OfAll-pop_first P d b.distinct b.each;
    })
    | inr within ↦
        rw within (record { few = ground (arith, within); distinct = b.distinct; each = b.each })
  ]

module _ {ℓ κ ρ} {K V : Type ℓ} ⦃e : Eq K⦄ (n : ℕ) (P : K → V → Type κ) (Q : K → V → Type ρ) where
  -- An entry that is there is set, and the others keep what holds of them.
  pub IsBounded-update :
      (k : K) (v w : V) (d : List (K × V))
      → lookup k d ≡ some w
      → IsBounded n P d
      → ((j : K) (u : V) → k ≢ j → P j u → Q j u)
      → Q k v
      → IsBounded n Q (insert k v d)
  IsBounded-update k v w d there b others new = record {
    few = omega (arith, length-insert_present k v w d there, b.few);
    distinct = DistinctKeys-insert k v d b.distinct;
    each = OfAll-insert P Q k v d b.each others new;
  }
