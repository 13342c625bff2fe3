-- ===== src/Workflow/Available/Shrinking.antt =====
-- The sets that the loop of `_variables_available_at` in libs/config_sdk/workflow.py starts from, and
-- how a round makes them smaller.
use yuviz.Base.{
  ℕ, ◌+◌, ◌*◌, ◌≤◌, ◌<◌, true, List, [], ◌∷◌, map, all, length, Text, text_eq, text_beq,
  text_beq_iff, ◌==◌, if◌then◌else◌, ◌≡◌, inl, inr, refl, sym, subst, arith, Bool-cases,
}
use yuviz.Base.Dict.{insert, get_or-insert}
use yuviz.Workflow.Reachable.{has}
use yuviz.Workflow.Available.{NameSets, names_at, universe, meet}
use yuviz.Workflow.Available.Sets.{
  has-append, has-meet_all, has_of_all, all_of_has, held, held-le, held_part,
}

-- What is in the meeting of sets is in each; what is in each of some sets is in their meeting.
pub each_of_meet :
    (out : Text → List Text) (ps : List Text) (x : Text)
    → has (meet out ps) x ≡ true
    → (p : Text) → has ps p ≡ true
    → has (out p) x ≡ true
each_of_meet out [] x h p k = ground (arith, k)
each_of_meet out (q ∷ ps) x h p k =
    has_of_all (λ r. has (out r) x) (q ∷ ps) p (ground (arith, h, has-meet_all out (out q) ps x)) k

pub has-meet :
    (out : Text → List Text) (ps : List Text) (x q : Text)
    → has ps q ≡ true
    → ((p : Text) → has ps p ≡ true → has (out p) x ≡ true)
    → has (meet out ps) x ≡ true
has-meet out [] x q h f = ground (arith, h)
has-meet out (r ∷ ps) x q h f =
    let each : all (λ p. has (out p) x) (r ∷ ps) ≡ true = all_of_has _ (r ∷ ps) f in
    rw (has-meet_all out (out r) ps x) each

pub meet_from :
    (out : Text → List Text) (ps : List Text) (x : Text)
    → has (meet out ps) x ≡ true
    → (p : Text) × (has (out p) x ≡ true)
meet_from out [] x h = absurd (ground (arith, h))
meet_from out (q ∷ ps) x h = (q, each_of_meet out (q ∷ ps) x h q (ground (arith, text_beq_iff q q)))

pub meet_part :
    (out more : Text → List Text) (ps : List Text) (x : Text)
    → ((p : Text) → has (out p) x ≡ true → has (more p) x ≡ true)
    → has (meet out ps) x ≡ true
    → has (meet more ps) x ≡ true
meet_part out more [] x f h = ground (arith, h)
meet_part out more (q ∷ ps) x f h =
    has-meet more (q ∷ ps) x q (ground (arith, text_beq_iff q q))
      (λ p k. f p (each_of_meet out (q ∷ ps) x h p k))

pub universe-has :
    (sets : NameSets) (k x : Text) → has (names_at sets k) x ≡ true → has (universe sets) x ≡ true
universe-has [] k x h = ground (arith, h)
universe-has ((j, names) ∷ sets) k x h =
    rw (has-append names (universe sets) x) (elim (Bool-cases (text_beq j k)) [
      | inl y ↦ ground (arith, y, h)
      | inr n ↦ ground (arith, n, universe-has sets k x (ground (arith, n, h)))
    ])

pub names_at-map :
    (names ids : List Text) (k : Text)
    → names_at (map (λ id. (id, names)) ids) k ≡ (if has ids k then names else [])
names_at-map names [] k = refl
names_at-map names (i ∷ ids) k = ground (arith, names_at-map names ids k)

pub names_at-insert :
    (k j : Text) (names : List Text) (a : NameSets)
    → names_at (insert k names a) j ≡ (if k == j then names else names_at a j)
names_at-insert k j names a = get_or-insert k j names [] a

-- what the sets of some steps hold of the names
abbrev pub size_of : List Text → List Text → NameSets → ℕ
size_of names [] a = 0
size_of names (k ∷ ids) a = held names (names_at a k) + size_of names ids a

abbrev pub IsPart : NameSets → NameSets → Type 0
IsPart a b = (k x : Text) → has (names_at a k) x ≡ true → has (names_at b k) x ≡ true

held_le_part :
    (names a b : List Text)
    → ((x : Text) → has a x ≡ true → has b x ≡ true)
    → held names a ≤ held names b
held_le_part names a b f = elim (held_part names a b f) [
  | inl less ↦ omega (arith, less)
  | inr (e, _) ↦ omega (arith, e)
]

size_of-le :
    (names ids : List Text) (a b : NameSets)
    → IsPart a b
    → size_of names ids a ≤ size_of names ids b
size_of-le names [] a b f = omega arith
size_of-le names (k ∷ ids) a b f =
    omega
      (arith, size_of-le names ids a b f, held_le_part names (names_at a k) (names_at b k) (f k))

pub size_of-lt :
    (names ids : List Text) (a b : NameSets) (k : Text)
    → IsPart a b
    → has ids k ≡ true
    → held names (names_at a k) < held names (names_at b k)
    → size_of names ids a < size_of names ids b
size_of-lt names [] a b k f h less = ground (arith, h)
size_of-lt names (i ∷ ids) a b k f h less = elim (Bool-cases (text_beq i k)) [
  | inl y ↦
      let same : i ≡ k = (text_beq_iff i k).0 y in
      let less_i : held names (names_at a i) < held names (names_at b i) =
        subst (λ (j : Text). held names (names_at a j) < held names (names_at b j)) (sym same)
          less in
      omega (arith, less_i, size_of-le names ids a b f)
  | inr n ↦ omega (
    arith,
    size_of-lt names ids a b k f (ground (arith, h, n)) less,
    held_le_part names (names_at a i) (names_at b i) (f i),
  )
]

pub size_of_bound :
    (names ids : List Text) (a : NameSets) → size_of names ids a ≤ length ids * length names
size_of_bound names [] a = omega arith
size_of_bound names (k ∷ ids) a =
    omega (arith, held-le names (names_at a k), size_of_bound names ids a)
