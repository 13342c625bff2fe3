-- ===== src/Workflow/Warnings/Fuel.antt =====
-- The fuel of `names_in` and `bad_chunks`, for `template_variables` and `malformed_templates` of
-- libs/config_sdk/workflow.py.
use yuviz.Base.{
  ℕ, zero, suc, ◌≤◌, [], ◌∷◌, ◌++◌, length, drop, Text, ◌≡◌, refl, ap, sym, ◌∙◌, arith, Bool-cases,
  Option-cases, inl, inr,
}
use yuviz.Workflow.Templates.{
  skip, run_of, is_double, is_not_closing, match_placeholder, drop_closing,
}
use yuviz.Workflow.Templates.Clean.{length-skip-le, length-drop-le, length-drop_closing-le}
use yuviz.Workflow.Templates.Fuel.{length-match_placeholder-le}
use yuviz.Workflow.Warnings.{names_in, bad_chunks, is_whole, closing_braces}

names_in_end : (n : ℕ) → names_in n [] ≡ []
unfolding names_in
names_in_end zero = refl
names_in_end (suc n) = refl

-- All fuel that reaches over the text finds the same names.
pub names_in_enough :
    (m n : ℕ) (s : Text) → length s ≤ m → length s ≤ n → names_in m s ≡ names_in n s
unfolding names_in
names_in_enough m n [] h k = names_in_end m ∙ sym (names_in_end n)
names_in_enough zero n (c ∷ s) h k = absurd (omega (arith, h))
names_in_enough (suc m) zero (c ∷ s) h k = absurd (omega (arith, k))
names_in_enough (suc m) (suc n) (c ∷ s) h k =
    let later = names_in_enough m n s (omega (arith, h)) (omega (arith, k)) in
    elim (Bool-cases (is_double b'{' (c ∷ s))) [
      | inr x ↦ rw (names_in, x) later
      | inl y ↦ elim (Option-cases (match_placeholder (drop 1 s))) [
        | inl missing ↦ rw (names_in, y, missing) later
        | inr ((name, fallback, rest), found) ↦
            let short = length-match_placeholder-le (drop 1 s) name fallback rest found in
            let more =
              names_in_enough m n rest (omega (arith, short, h, length-drop-le 1 s))
                (omega (arith, short, k, length-drop-le 1 s)) in
            rw (names_in, y, found) (ap (◌∷◌ name) more)
      ]
    ]

bad_chunks_end : (n : ℕ) → bad_chunks n [] ≡ []
unfolding bad_chunks
bad_chunks_end zero = refl
bad_chunks_end (suc n) = refl

-- All fuel that reaches over the text finds the same braces.
pub bad_chunks_enough :
    (m n : ℕ) (s : Text) → length s ≤ m → length s ≤ n → bad_chunks m s ≡ bad_chunks n s
unfolding bad_chunks
bad_chunks_enough m n [] h k = bad_chunks_end m ∙ sym (bad_chunks_end n)
bad_chunks_enough zero n (c ∷ s) h k = absurd (omega (arith, h))
bad_chunks_enough (suc m) zero (c ∷ s) h k = absurd (omega (arith, k))
bad_chunks_enough (suc m) (suc n) (c ∷ s) h k =
    let later = bad_chunks_enough m n s (omega (arith, h)) (omega (arith, k)) in
    let after = skip is_not_closing (drop 1 s) in
    let body = run_of is_not_closing (drop 1 s) ++ closing_braces after in
    let short = length-drop_closing-le after in
    let skipped = length-skip-le is_not_closing (drop 1 s) in
    let others =
      bad_chunks_enough m n (drop_closing after)
        (omega (arith, short, skipped, h, length-drop-le 1 s))
        (omega (arith, short, skipped, k, length-drop-le 1 s)) in
    elim (Bool-cases (is_double b'{' (c ∷ s))) [
      | inr x ↦ rw (bad_chunks, x) later
      | inl y ↦ elim (Bool-cases (is_whole body)) [
        | inl p ↦ rw (bad_chunks, y, p) others
        | inr q ↦ rw (bad_chunks, y, q) (ap (◌∷◌ (b'{' ∷ b'{' ∷ body)) others)
      ]
    ]
