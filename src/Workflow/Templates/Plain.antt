-- ===== src/Workflow/Templates/Plain.antt =====
-- Texts without `{{` that `render` of libs/config_sdk/workflow.py leaves as they are.
use yuviz.Base.{
  ℕ, zero, suc, false, none, [], ◌∷◌, length, drop, text_eq, Text, ◌≡◌, refl, ap, ◌∙◌, arith,
}
use yuviz.Workflow.Templates.{
  Variables, is_double, match_placeholder, substitute, remove_braces, render,
}
use yuviz.Workflow.Templates.Clean.{has_braces, remove_step, has_braces-render}

pub keep_plain :
    (n c : ℕ) (variables : Variables) (s : Text)
    → is_double b'{' (c ∷ s) ≡ false
    → substitute (suc n) variables (c ∷ s) ≡ c ∷ substitute n variables s
unfolding substitute
keep_plain n c variables s h = ground (arith, h)

pub keep_unmatched :
    (n c : ℕ) (variables : Variables) (s : Text)
    → match_placeholder (drop 1 s) ≡ none
    → substitute (suc n) variables (c ∷ s) ≡ c ∷ substitute n variables s
unfolding substitute
keep_unmatched n c variables s h = ground (arith, h)

pub substitute_plain :
    (n : ℕ) (variables : Variables) (s : Text) → has_braces s ≡ false → substitute n variables s ≡ s
unfolding substitute
substitute_plain zero variables s h = refl
substitute_plain (suc n) variables [] h = refl
substitute_plain (suc n) variables (c ∷ s) h =
    keep_plain n c variables s (ground (arith, h))
    ∙ ap (λ (t : Text). c ∷ t) (substitute_plain n variables s (ground (arith, h)))

pub remove_braces_plain : (n : ℕ) (s : Text) → has_braces s ≡ false → remove_braces n s ≡ s
unfolding remove_braces
remove_braces_plain zero s h = refl
remove_braces_plain (suc n) [] h = refl
remove_braces_plain (suc n) (c ∷ s) h =
    remove_step n c s (ground (arith, h))
    ∙ ap (λ (t : Text). c ∷ t) (remove_braces_plain n s (ground (arith, h)))

render_plain :
    (text : Text) (variables : Variables) → has_braces text ≡ false → render text variables ≡ text
unfolding render
render_plain text variables h =
    rw (substitute_plain (length text) variables text h) (remove_braces_plain (length text) text h)

-- What was rendered once is not changed by rendering it again, with the same variables or others:
-- the value of a variable is never read as a placeholder.
pub render-render :
    (text : Text) (variables others : Variables)
    → render (render text variables) others ≡ render text variables
render-render text variables others =
    render_plain (render text variables) others (has_braces-render text variables)
