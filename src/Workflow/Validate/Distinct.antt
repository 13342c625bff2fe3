-- ===== src/Workflow/Validate/Distinct.antt =====
-- The two loops of `_validate_and_build` that look for a name that was there before: the names of
-- the steps, and the moves of a step.
use yuviz.Base.{
  ◌≡◌, ◌≢◌, false, none, List, [], ◌∷◌, Text, text_eq, All, arith, Option-cases, inl, inr,
  text_beq_iff,
}
use yuviz.Base.Dict.{lookup, insert, lookup-insert}
use yuviz.Workflow.Words.{lower, tool_name, is_empty}
use yuviz.Workflow.Graph.{Node, Edge}
use yuviz.Workflow.Validate.{name_errors, move_errors}

-- No two of the items have the same key.
abbrev pub Distinct {ℓ} : {A : Type ℓ} → (A → Text) → List A → Type ℓ
Distinct key [] = Unit
Distinct key (x ∷ xs) = All (λ y. key y ≢ key x) xs × Distinct key xs

module _ {V : Type 0} {A : Type 0} (key : A → Text) where
  -- The key of every item is new to a dictionary.
  abbrev pub IsFresh : List (Text × V) → List A → Type 0
  IsFresh seen = All (λ y. lookup (key y) seen ≡ none)

  IsFresh-insert :
      (k : Text) (v : V) (seen : List (Text × V)) (ys : List A)
      → IsFresh (insert k v seen) ys
      → IsFresh seen ys × All (λ y. key y ≢ k) ys
  IsFresh-insert k v seen [] h = (tt, tt)
  IsFresh-insert k v seen (y ∷ ys) h =
      let (fresh, other) = IsFresh-insert k v seen ys h.1 in
      (
        (ground (arith, lookup-insert k (key y) v seen, text_beq_iff k (key y), h.0), fresh),
        (λ e. ground (arith, lookup-insert k (key y) v seen, text_beq_iff k (key y), h.0), other),
      )

abbrev pub step_key : Node → Text
step_key n = lower n.name

abbrev pub move_key : Edge → Text
move_key e = tool_name e.label

name_errors_step :
    (seen : List (Text × Text)) (n : Node) (ns : List Node)
    → name_errors seen (n ∷ ns) ≡ []
    → (lookup (step_key n) seen ≡ none) × (name_errors (insert (step_key n) n.id seen) ns ≡ [])
unfolding name_errors
name_errors_step seen n ns e = elim (Option-cases (lookup (step_key n) seen)) [
  | inl new ↦ (new, ground arith)
  | inr (m, old) ↦ ground arith
]

-- The loop reports nothing only if the names differ, in lower case.
pub name_errors-Distinct :
    (seen : List (Text × Text)) (ns : List Node)
    → name_errors seen ns ≡ []
    → IsFresh step_key seen ns × Distinct step_key ns
name_errors-Distinct seen [] e = (tt, tt)
name_errors-Distinct seen (n ∷ ns) e =
    let (new, rest) = name_errors_step seen n ns e in
    let (fresh, distinct) = name_errors-Distinct (insert (step_key n) n.id seen) ns rest in
    let (kept, other) = IsFresh-insert step_key (step_key n) n.id seen ns fresh in
    ((new, kept), (other, distinct))

move_errors_step :
    (seen : List (Text × Edge)) (e : Edge) (es : List Edge)
    → is_empty (move_key e) ≡ false
    → move_errors seen (e ∷ es) ≡ []
    → (lookup (move_key e) seen ≡ none) × (move_errors (insert (move_key e) e seen) es ≡ [])
unfolding move_errors
move_errors_step seen e es usable h = elim (Option-cases (lookup (move_key e) seen)) [
  | inl new ↦ (new, ground arith)
  | inr (m, old) ↦ ground arith
]

-- The loop reports nothing only if the moves have different names, where all names are usable.
pub move_errors-Distinct :
    (seen : List (Text × Edge)) (es : List Edge)
    → All (λ e. is_empty (move_key e) ≡ false) es
    → move_errors seen es ≡ []
    → IsFresh move_key seen es × Distinct move_key es
move_errors-Distinct seen [] u h = (tt, tt)
move_errors-Distinct seen (e ∷ es) u h =
    let (new, rest) = move_errors_step seen e es u.0 h in
    let (fresh, distinct) = move_errors-Distinct (insert (move_key e) e seen) es u.1 rest in
    let (kept, other) = IsFresh-insert move_key (move_key e) e seen es fresh in
    ((new, kept), (other, distinct))
