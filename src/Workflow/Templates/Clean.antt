-- ===== src/Workflow/Templates/Clean.antt =====
-- No opening braces are left in what `render` of libs/config_sdk/workflow.py returns.
use yuviz.Base.{
  ℕ, zero, suc, ◌≤◌, Bool, true, false, ◌&&◌, ◌||◌, [], ◌∷◌, nat_beq, length, length-drop, drop,
  Text, ◌≡◌, refl, arith, Bool-cases, inl, inr,
}
use yuviz.Workflow.Templates.{
  Variables, skip, is_double, is_not_closing, drop_closing, remove_braces, substitute, render,
}

-- whether `{{` stands somewhere in a text
abbrev pub has_braces : Text → Bool
has_braces [] = false
has_braces (c ∷ s) = is_double b'{' (c ∷ s) || has_braces s

abbrev opens : Text → Bool
opens [] = false
opens (c ∷ s) = nat_beq c b'{'

is_double_lem : (c : ℕ) (s : Text) → is_double b'{' (c ∷ s) ≡ (nat_beq c b'{' && opens s)
is_double_lem c [] = ground arith
is_double_lem c (d ∷ s) = refl

pub length-drop-le : (n : ℕ) (s : Text) → length (drop n s) ≤ length s
length-drop-le n s = omega (arith, length-drop n s)

pub length-skip-le : (p : ℕ → Bool) (s : Text) → length (skip p s) ≤ length s
unfolding skip
length-skip-le p [] = omega arith
length-skip-le p (c ∷ s) = ground (arith, length-skip-le p s)

pub length-drop_closing-le : (s : Text) → length (drop_closing s) ≤ length s
length-drop_closing-le [] = omega arith
length-drop_closing-le (c ∷ []) = ground arith
length-drop_closing-le (c ∷ d ∷ s) = ground arith

pub remove_step :
    (n c : ℕ) (s : Text)
    → is_double b'{' (c ∷ s) ≡ false
    → remove_braces (suc n) (c ∷ s) ≡ c ∷ remove_braces n s
unfolding remove_braces
remove_step n c s h = ground (arith, h)

remove_tag :
    (n c : ℕ) (s : Text)
    → is_double b'{' (c ∷ s) ≡ true
    → remove_braces (suc n) (c ∷ s)
      ≡ remove_braces n (drop_closing (skip is_not_closing (drop 1 s)))
unfolding remove_braces
remove_tag n c s h = ground (arith, h)

pub remove_end : (n : ℕ) → remove_braces n [] ≡ []
unfolding remove_braces
remove_end zero = refl
remove_end (suc n) = refl

-- A text that does not start with a brace is returned without one at its start.
opens-remove_braces :
    (n : ℕ) (s : Text) → length s ≤ n → opens s ≡ false → opens (remove_braces n s) ≡ false
opens-remove_braces n [] h o = rw (remove_end n) refl
opens-remove_braces zero (c ∷ s) h o = absurd (omega (arith, h))
opens-remove_braces (suc n) (c ∷ s) h o =
    rw (remove_step n c s (ground (arith, is_double_lem c s, o))) o

has_braces-remove_braces :
    (n : ℕ) (s : Text) → length s ≤ n → has_braces (remove_braces n s) ≡ false
has_braces-remove_braces n [] h = rw (remove_end n) refl
has_braces-remove_braces zero (c ∷ s) h = absurd (omega (arith, h))
has_braces-remove_braces (suc n) (c ∷ s) h = elim (Bool-cases (is_double b'{' (c ∷ s))) [
  | inl y ↦
      let rest = drop_closing (skip is_not_closing (drop 1 s)) in
      rw (remove_tag n c s y) (
        has_braces-remove_braces n rest (
          omega (
            arith,
            h,
            length-drop_closing-le (skip is_not_closing (drop 1 s)),
            length-skip-le is_not_closing (drop 1 s),
            length-drop-le 1 s,
          )))
  | inr x ↦
      let clean = has_braces-remove_braces n s (omega (arith, h)) in
      let head : opens s ≡ false → opens (remove_braces n s) ≡ false =
        λ o. opens-remove_braces n s (omega (arith, h)) o in
      rw (remove_step n c s x)
        (ground (arith, clean, head, x, is_double_lem c s, is_double_lem c (remove_braces n s)))
]

-- Whatever the text and the variables are, and whatever the values hold, no `{{` is left in the
-- rendered text.
pub has_braces-render :
    (text : Text) (variables : Variables) → has_braces (render text variables) ≡ false
unfolding render
has_braces-render text variables =
    let filled = substitute (length text) variables text in
    has_braces-remove_braces (length filled) filled (omega arith)
