-- ===== src/Workflow/Warnings/Nil.antt =====
-- Texts of which `_warn_templates` of libs/config_sdk/workflow.py finds nothing to say.
use yuviz.Base.{
  Bool, true, not, List, [], ◌∷◌, ◌++◌, map, keep, Text, text_eq, text_beq, text_beq_iff, ◌≡◌, inl,
  inr, refl, subst, All, arith, Bool-cases,
}
use yuviz.Workflow.Graph.{Edge}
use yuviz.Workflow.Reachable.{has}
use yuviz.Workflow.Warnings.{
  template_variables, insert_sorted, sorted_set, Place, warn_templates, place_of_speech, or_blank,
  warn_speeches,
}

pub append_nil {ℓ} : {A : Type ℓ} (xs ys : List A) → xs ++ ys ≡ [] → (xs ≡ []) × (ys ≡ [])
append_nil [] ys h = (refl, h)
append_nil (x ∷ xs) ys h = absurd (ground (arith, h))

map_nil {ℓ κ} : {A : Type ℓ} {B : Type κ} (f : A → B) (xs : List A) → map f xs ≡ [] → xs ≡ []
map_nil f [] h = refl
map_nil f (x ∷ xs) h = absurd (ground (arith, h))

insert_sorted_some : (x : Text) (ys : List Text) → insert_sorted x ys ≡ [] → ⊥
insert_sorted_some x [] h = ground (arith, h)
insert_sorted_some x (y ∷ ys) h = ground (arith, h)

sorted_nil : (xs : List Text) → sorted_set xs ≡ [] → xs ≡ []
sorted_nil [] h = refl
sorted_nil (x ∷ xs) h = absurd (insert_sorted_some x (sorted_set xs) h)

keep_nil :
    (p : Text → Bool) (xs : List Text) (x : Text)
    → keep (λ y. not (p y)) xs ≡ []
    → has xs x ≡ true
    → p x ≡ true
keep_nil p [] x h k = ground (arith, k)
keep_nil p (y ∷ xs) x h k = elim (Bool-cases (p y)) [
  | inl y_p ↦ elim (Bool-cases (text_beq y x)) [
    | inl e ↦ subst (λ (z : Text). p z ≡ true) ((text_beq_iff y x).0 e) y_p
    | inr n ↦ keep_nil p xs x (ground (arith, y_p, h)) (ground (arith, n, k))
  ]
  | inr n_p ↦ absurd (ground (arith, n_p, h))
]

-- Where a text gets no warning, all names in it are available.
pub warn_templates_nil :
    (p : Place) (text : Text) (available declared : List Text)
    → warn_templates p text available declared ≡ []
    → (x : Text) → has (template_variables text) x ≡ true
    → has available x ≡ true
unfolding warn_templates
warn_templates_nil p text available declared h x k =
    let (_, missing) = append_nil (map _ _) (map _ _) h in
    keep_nil (has available) (template_variables text) x (sorted_nil _ (map_nil _ _ missing)) k

pub warn_speeches_nil :
    (es : List Edge) (available declared : List Text)
    → warn_speeches es available declared ≡ []
    → All
        (λ e.
          (x : Text)
          → has (template_variables (or_blank e.transition_speech)) x ≡ true
          → has available x ≡ true)
        es
unfolding warn_speeches
warn_speeches_nil [] available declared h = tt
warn_speeches_nil (e ∷ es) available declared h =
    let (now, later) = append_nil _ _ h in
    (
      warn_templates_nil (place_of_speech e) (or_blank e.transition_speech) available declared now,
      warn_speeches_nil es available declared later,
    )
