-- ===== src/Workflow/Templates/Fuel.antt =====
-- The fuel of `substitute`, for `_TEMPLATE_RE.sub` of libs/config_sdk/workflow.py.
use yuviz.Base.{
  ℕ, zero, suc, ◌≤◌, true, Option, some, [], ◌∷◌, ◌++◌, nat_beq, length, drop, Text, ◌≡◌, refl, ap,
  sym, ◌∙◌, arith, Bool-cases, Option-cases, List-cases, inl, inr,
}
use yuviz.Workflow.Words.{is_space}
use yuviz.Workflow.Templates.{
  is_word, Variables, skip, run_of, is_double, is_not_closing, match_fallback, match_placeholder,
  value_of, substitute,
}
use yuviz.Workflow.Templates.Clean.{length-skip-le, length-drop-le}
use yuviz.Workflow.Templates.Plain.{keep_plain, keep_unmatched}

length-match_fallback-le : (s : Text) → length (match_fallback s).1 ≤ length s
unfolding match_fallback
length-match_fallback-le [] = omega arith
length-match_fallback-le (c ∷ s) = elim (Bool-cases (nat_beq c b'|')) [
  | inl y ↦ rw (match_fallback, y) (omega (arith, length-skip-le is_not_closing s))
  | inr n ↦ rw (match_fallback, n) (omega arith)
]

pub length-match_placeholder-le :
    (s name : Text) (fallback : Option Text) (rest : Text)
    → match_placeholder s ≡ some (name, fallback, rest)
    → length rest ≤ length s
unfolding match_placeholder
length-match_placeholder-le s name fallback rest h =
    let inner = skip is_space s in
    let after = skip is_space (skip is_word inner) in
    elim (List-cases (run_of is_word inner)) [
      | inl empty ↦ absurd (ground (arith, empty, h))
      | inr (first, more, found) ↦
          let cut : drop 2 (match_fallback after).1 ≡ rest = ground (arith, found, h) in
          rw (sym cut) (
            omega (
              arith,
              length-drop-le 2 (match_fallback after).1,
              length-match_fallback-le after,
              length-skip-le is_space (skip is_word inner),
              length-skip-le is_word inner,
              length-skip-le is_space s,
            ))
    ]

substitute_end : (n : ℕ) (variables : Variables) → substitute n variables [] ≡ []
unfolding substitute
substitute_end zero variables = refl
substitute_end (suc n) variables = refl

fill :
    (n c : ℕ) (variables : Variables) (s name : Text) (fallback : Option Text) (rest : Text)
    → is_double b'{' (c ∷ s) ≡ true
    → match_placeholder (drop 1 s) ≡ some (name, fallback, rest)
    → substitute (suc n) variables (c ∷ s)
      ≡ value_of variables name fallback ++ substitute n variables rest
unfolding substitute
fill n c variables s name fallback rest y found = ground (arith, y, found)

-- All fuel that reaches over the text gives the same result.
substitute_enough :
    (m n : ℕ) (variables : Variables) (s : Text)
    → length s ≤ m
    → length s ≤ n
    → substitute m variables s ≡ substitute n variables s
unfolding substitute
substitute_enough m n variables [] h k =
    substitute_end m variables ∙ sym (substitute_end n variables)
substitute_enough zero n variables (c ∷ s) h k = absurd (omega (arith, h))
substitute_enough (suc m) zero variables (c ∷ s) h k = absurd (omega (arith, k))
substitute_enough (suc m) (suc n) variables (c ∷ s) h k =
    let kept =
      ap (λ (t : Text). c ∷ t)
        (substitute_enough m n variables s (omega (arith, h)) (omega (arith, k))) in
    elim (Bool-cases (is_double b'{' (c ∷ s))) [
      | inr x ↦ keep_plain m c variables s x ∙ kept ∙ sym (keep_plain n c variables s x)
      | inl y ↦ elim (Option-cases (match_placeholder (drop 1 s))) [
        | inl missing ↦
            keep_unmatched m c variables s missing
            ∙ kept
            ∙ sym (keep_unmatched n c variables s missing)
        | inr ((name, fallback, rest), found) ↦
            let short = length-match_placeholder-le (drop 1 s) name fallback rest found in
            let more =
              substitute_enough m n variables rest (omega (arith, short, h, length-drop-le 1 s))
                (omega (arith, short, k, length-drop-le 1 s)) in
            fill m c variables s name fallback rest y found
            ∙ ap (λ (t : Text). value_of variables name fallback ++ t) more
            ∙ sym (fill n c variables s name fallback rest y found)
      ]
    ]
