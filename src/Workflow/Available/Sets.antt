-- ===== src/Workflow/Available/Sets.antt =====
-- Sets of names for libs/config_sdk/workflow.py, as lists that are read with `has`.
use yuviz.Base.{
  ℕ, ◌+◌, ◌≤◌, ◌<◌, Bool, true, false, ◌&&◌, ◌||◌, List, [], ◌∷◌, ◌++◌, all, keep, length, Text,
  text_eq, text_beq, text_beq_iff, if◌then◌else◌, ◌≡◌, ◌⊎◌, inl, inr, refl, sym, ◌∙◌, subst, All,
  arith, Bool-cases,
}
use yuviz.Workflow.Reachable.{has}
use yuviz.Workflow.Available.{meet_all, same_set}

pub has-append : (a b : List Text) (x : Text) → has (a ++ b) x ≡ has a x || has b x
has-append [] b x = refl
has-append (y ∷ a) b x = ground (arith, has-append a b x)

pub has-keep : (p : Text → Bool) (a : List Text) (x : Text) → has (keep p a) x ≡ has a x && p x
has-keep p [] x = refl
has-keep p (y ∷ a) x = elim (Bool-cases (text_beq y x)) [
  | inl e ↦
      let same : y ≡ x = (text_beq_iff y x).0 e in
      let here : p y ≡ p x = subst (λ (z : Text). p y ≡ p z) same refl in
      ground (arith, e, here, has-keep p a x)
  | inr n ↦ ground (arith, n, has-keep p a x)
]

pub has-meet_all :
    (out : Text → List Text) (names ps : List Text) (x : Text)
    → has (meet_all out names ps) x ≡ has names x && all (λ p. has (out p) x) ps
has-meet_all out names [] x = ground arith
has-meet_all out names (p ∷ ps) x =
    ground (arith, has-meet_all out (keep (has (out p)) names) ps x, has-keep (has (out p)) names x)

pub all_of_has :
    (p : Text → Bool) (a : List Text) → ((x : Text) → has a x ≡ true → p x ≡ true) → all p a ≡ true
all_of_has p [] h = refl
all_of_has p (y ∷ a) h =
    rw (h y (ground (arith, text_beq_iff y y))) (all_of_has p a (λ x k. h x (ground (arith, k))))

pub has_of_all :
    (p : Text → Bool) (a : List Text) (x : Text) → all p a ≡ true → has a x ≡ true → p x ≡ true
has_of_all p [] x h k = ground (arith, k)
has_of_all p (y ∷ a) x h k = elim (Bool-cases (text_beq y x)) [
  | inl e ↦
      let same : y ≡ x = (text_beq_iff y x).0 e in
      subst (λ (z : Text). p z ≡ true) same (ground (arith, h))
  | inr n ↦ has_of_all p a x (ground (arith, h)) (ground (arith, n, k))
]

-- Sets that are found equal hold the same names.
pub same_set-has : (a b : List Text) (x : Text) → same_set a b ≡ true → has a x ≡ has b x
same_set-has a b x h = elim (Bool-cases (has a x)) [
  | inl y ↦ rw (y, has_of_all (has b) a x (ground (arith, h)) y) refl
  | inr n ↦ elim (Bool-cases (has b x)) [
    | inl y ↦ rw (has_of_all (has a) b x (ground (arith, h)) y, y) refl
    | inr m ↦ rw (n, m) refl
  ]
]

-- how many of the names a set holds
abbrev pub held : List Text → List Text → ℕ
held [] a = 0
held (x ∷ names) a = (if has a x then 1 else 0) + held names a

pub held-le : (names a : List Text) → held names a ≤ length names
held-le [] a = omega arith
held-le (x ∷ names) a = ground (arith, held-le names a)

-- A part of a set holds fewer names, or the same.
pub held_part :
    (names a b : List Text)
    → ((x : Text) → has a x ≡ true → has b x ≡ true)
    → (held names a < held names b)
      ⊎ ((held names a ≡ held names b) × All (λ x. has b x ≡ has a x) names)
held_part [] a b h = inr (refl, tt)
held_part (x ∷ names) a b h = elim (held_part names a b h) [
  | inl less ↦ inl (ground (arith, h x, less))
  | inr (e, same) ↦ elim (Bool-cases (has a x)) [
    | inl y ↦ inr (ground (arith, y, h x y, e), (rw (y, h x y) refl, same))
    | inr n ↦ elim (Bool-cases (has b x)) [
      | inl y ↦ inl (ground (arith, y, n, e))
      | inr m ↦ inr (ground (arith, m, n, e), (rw (n, m) refl, same))
    ]
  ]
]

pub has-All :
    (P : Text → Type 0) (names : List Text) (x : Text) → All P names → has names x ≡ true → P x
has-All P [] x a h = ground (arith, h)
has-All P (y ∷ names) x a h = elim (Bool-cases (text_beq y x)) [
  | inl e ↦ subst P ((text_beq_iff y x).0 e) a.0
  | inr n ↦ has-All P names x a.1 (ground (arith, n, h))
]

-- A part of a set within some names holds fewer of them, or is the same set.
pub held_lt :
    (names a b : List Text)
    → ((x : Text) → has a x ≡ true → has b x ≡ true)
    → ((x : Text) → has b x ≡ true → has names x ≡ true)
    → same_set a b ≡ false
    → held names a < held names b
held_lt names a b part within other = elim (held_part names a b part) [
  | inl less ↦ less
  | inr (_, same) ↦
      let back =
        all_of_has (has a) b
          (λ x h. sym (has-All (λ y. has b y ≡ has a y) names x same (within x h)) ∙ h) in
      absurd (ground (arith, other, all_of_has (has b) a part, back))
]
