-- ===== src/Base/Dict.antt =====
-- Python's `dict`, which keeps the order of insertion, as an association list.
use Prim.Native.Nat.{◌+◌, ◌≤◌}
use mathlib.Core.Path.{◌≡◌, refl}
use mathlib.Core.List.{List, [], ◌∷◌}
use mathlib.Core.Option.{Option, none, some}
use native.Mathlib.Omega.{arith}
use mathlib.Core.Logic.{inl, inr}
use yuviz.Base.Tests.{if◌then◌else◌, Bool-cases}
use yuviz.Base.Lists.{length}
use yuviz.Base.Keys.{Eq}

module _ {ℓ} {K V : Type ℓ} ⦃e : Eq K⦄ where
  -- `d.get(k)`
  abbrev pub lookup : K → List (K × V) → Option V
  lookup k [] = none
  lookup k ((j, v) ∷ d) = if e.is_same j k then some v else lookup k d

  -- `d[k] = v`: in place, or at the end
  abbrev pub insert : K → V → List (K × V) → List (K × V)
  insert k v [] = (k, v) ∷ []
  insert k v ((j, w) ∷ d) = if e.is_same j k then (j, v) ∷ d else (j, w) ∷ insert k v d

  -- `d.pop(k, None)`
  abbrev pub remove : K → List (K × V) → List (K × V)
  remove k [] = []
  remove k ((j, w) ∷ d) = let rest = remove k d in if e.is_same j k then rest else (j, w) ∷ rest

  -- `d.get(k, default)`
  abbrev pub get_or : K → List (K × V) → V → V
  get_or k d v = elim (lookup k d) [ none ↦ v | some w ↦ w ]

  pub lookup-insert :
      (k j : K) (v : V) (d : List (K × V))
      → lookup j (insert k v d) ≡ (if e.is_same k j then some v else lookup j d)
  lookup-insert k j v [] = refl
  lookup-insert k j v ((i, w) ∷ d) =
      ground (arith, e.is_same_iff k j, e.is_same_iff i k, e.is_same_iff i j, lookup-insert k j v d)

  pub get_or-lookup : (k : K) (d : List (K × V)) (v w : V) → lookup k d ≡ some w → get_or k d v ≡ w
  get_or-lookup k d v w h = rw (get_or, h) refl

  pub get_or-insert :
      (k j : K) (v w : V) (d : List (K × V))
      → get_or j (insert k v d) w ≡ (if e.is_same k j then v else get_or j d w)
  get_or-insert k j v w d = elim (Bool-cases (e.is_same k j)) [
    | inl same ↦ rw (get_or, lookup-insert k j v d, same) refl
    | inr other ↦ rw (get_or, lookup-insert k j v d, other) refl
  ]

  pub lookup-remove :
      (k j : K) (d : List (K × V))
      → lookup j (remove k d) ≡ (if e.is_same k j then none else lookup j d)
  lookup-remove k j [] = ground arith
  lookup-remove k j ((i, w) ∷ d) =
      ground (arith, e.is_same_iff k j, e.is_same_iff i k, e.is_same_iff i j, lookup-remove k j d)

  pub length-insert-le : (k : K) (v : V) (d : List (K × V)) → length (insert k v d) ≤ length d + 1
  length-insert-le k v [] = omega arith
  length-insert-le k v ((i, w) ∷ d) = ground (arith, length-insert-le k v d)

  pub length-insert_present :
      (k : K) (v w : V) (d : List (K × V)) → lookup k d ≡ some w → length (insert k v d) ≡ length d
  length-insert_present k v w [] h = ground arith
  length-insert_present k v w ((i, u) ∷ d) h = ground (arith, length-insert_present k v w d)

  pub length-remove-le : (k : K) (d : List (K × V)) → length (remove k d) ≤ length d
  length-remove-le k [] = omega arith
  length-remove-le k ((i, w) ∷ d) = ground (arith, length-remove-le k d)

module _ {ℓ} {K V : Type ℓ} ⦃e : Eq K⦄ where
  -- No key stands twice.
  abbrev pub DistinctKeys : List (K × V) → Type ℓ
  DistinctKeys [] = Unit
  DistinctKeys ((k, v) ∷ d) = (lookup k d ≡ none) × DistinctKeys d

  pub DistinctKeys-insert :
      (k : K) (v : V) (d : List (K × V)) → DistinctKeys d → DistinctKeys (insert k v d)
  DistinctKeys-insert k v [] h = (refl, tt)
  DistinctKeys-insert k v ((j, w) ∷ d) h = elim (Bool-cases (e.is_same j k)) [
    | inl same ↦ rw same h
    | inr other ↦ rw other (
      ground (arith, lookup-insert k j v d, e.is_same_iff j k, e.is_same_iff k j, h.0),
      DistinctKeys-insert k v d h.1,
    )
  ]

  pub DistinctKeys-remove : (k : K) (d : List (K × V)) → DistinctKeys d → DistinctKeys (remove k d)
  DistinctKeys-remove k [] h = h
  DistinctKeys-remove k ((j, w) ∷ d) h = elim (Bool-cases (e.is_same j k)) [
    | inl same ↦ rw same (DistinctKeys-remove k d h.1)
    | inr other ↦ rw other (ground (arith, lookup-remove k j d, h.0), DistinctKeys-remove k d h.1)
  ]
