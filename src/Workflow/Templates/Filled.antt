-- ===== src/Workflow/Templates/Filled.antt =====
-- Placeholders that `render` of libs/config_sdk/workflow.py fills.
use yuviz.Base.{
  length-append, ℕ, zero, suc, ◌≤◌, Bool, true, false, none, some, [], ◌∷◌, ◌++◌, ◌≢◌, length,
  Option, Option-cases, text_eq, nat_beq, inl, inr, Text, ◌≡◌, refl, ap, ◌∙◌, arith, All, All-imp,
}
use yuviz.Base.Dict.{lookup}
use yuviz.Workflow.Words.{is_space, strip}
use yuviz.Workflow.Templates.{
  is_letter, is_word, is_not_closing, Variables, skip, run_of, match_fallback, match_placeholder,
  value_of, fallback_text, substitute, render,
}
use yuviz.Workflow.Templates.Clean.{has_braces}
use yuviz.Workflow.Templates.Plain.{
  keep_plain, keep_unmatched, substitute_plain, remove_braces_plain,
}

-- A placeholder in front of a text: `{{`, spaces, the name, spaces, a fallback behind `|`, if there is
-- one, and `}}`.
abbrev pub closing : Option Text → Text → Text
closing none post = b'}' ∷ b'}' ∷ post
closing (some t) post = b'|' ∷ t ++ b'}' ∷ b'}' ∷ post

abbrev pub placeholder : Text → Text → Text → Option Text → Text → Text
placeholder lead name mid fallback post =
    b'{' ∷ b'{' ∷ (lead ++ (name ++ (mid ++ closing fallback post)))

-- a text of spaces, and a fallback that `}` does not end early
abbrev pub IsBlank : Text → Type 0
IsBlank s = All (λ c. is_space c ≡ true) s

abbrev pub IsFallback : Option Text → Type 0
IsFallback none = Unit
IsFallback (some t) = All (λ c. nat_beq c b'}' ≡ false) t

-- A variable with a value that is not empty.
abbrev pub IsGiven : Variables → Text → Text → Type 0
IsGiven variables name value = (lookup name variables ≡ some (some value)) × (value ≢ [])

-- What a placeholder stands for: the value of its variable, as it is, and, where that is missing, `None`
-- or empty, the fallback without the spaces around it, or nothing.
pub data Fills (variables : Variables) (name : Text) : Option Text → Text → Type 0 where
  by_value :
      {fallback : Option Text} {value : Text}
      → IsGiven variables name value
      → Fills variables name fallback value
  by_fallback :
      {t : Text}
      → ((value : Text) → ¬ IsGiven variables name value)
      → Fills variables name (some t) (strip t)
  by_nothing : ((value : Text) → ¬ IsGiven variables name value) → Fills variables name none []

-- the name of a variable, as the pattern wants it
abbrev pub IsName : Text → Type 0
IsName [] = ⊥
IsName (c ∷ name) = (is_letter c ≡ true) × All (λ d. is_word d ≡ true) name

-- the text does not go on with a character that passes the test
abbrev Ends : (ℕ → Bool) → Text → Type 0
Ends p [] = Unit
Ends p (c ∷ _) = p c ≡ false

skip_stops : (p : ℕ → Bool) (rest : Text) → Ends p rest → skip p rest ≡ rest
unfolding skip
skip_stops p [] h = refl
skip_stops p (c ∷ rest) h = ground (arith, h)

run_of_stops : (p : ℕ → Bool) (rest : Text) → Ends p rest → run_of p rest ≡ []
unfolding run_of
run_of_stops p [] h = refl
run_of_stops p (c ∷ rest) h = ground (arith, h)

module _ (p : ℕ → Bool) (rest : Text) (ends : Ends p rest) where
  run_of_passing : (s : Text) → All (λ c. p c ≡ true) s → run_of p (s ++ rest) ≡ s
  unfolding run_of
  run_of_passing [] h = run_of_stops p rest ends
  run_of_passing (c ∷ s) h = ground (arith, h.0, run_of_passing s h.1)

  skip_passing : (s : Text) → All (λ c. p c ≡ true) s → skip p (s ++ rest) ≡ rest
  unfolding skip
  skip_passing [] h = skip_stops p rest ends
  skip_passing (c ∷ s) h = ground (arith, h.0, skip_passing s h.1)

is_space_word : (c : ℕ) → is_word c ≡ true → is_space c ≡ false
unfolding is_space
is_space_word c h = ground (arith, h)

word_is_not_space : (c : ℕ) → is_space c ≡ true → is_word c ≡ false
unfolding is_space
word_is_not_space c h = ground (arith, h)

closing_is_not_space :
    (fallback : Option Text) (post : Text) → Ends is_space (closing fallback post)
unfolding is_space
closing_is_not_space none post = refl
closing_is_not_space (some t) post = refl

mid_is_no_word :
    (mid : Text) (fallback : Option Text) (post : Text)
    → IsBlank mid
    → Ends is_word (mid ++ closing fallback post)
mid_is_no_word [] none post h = refl
mid_is_no_word [] (some t) post h = refl
mid_is_no_word (c ∷ mid) fallback post h = word_is_not_space c h.0

match_fallback-closing :
    (fallback : Option Text) (post : Text)
    → IsFallback fallback
    → match_fallback (closing fallback post) ≡ (fallback, b'}' ∷ b'}' ∷ post)
unfolding match_fallback
match_fallback-closing none post h = refl
match_fallback-closing (some t) post h =
    let inside : All (λ c. is_not_closing c ≡ true) t =
      All-imp (λ c. nat_beq c b'}' ≡ false) (λ c. is_not_closing c ≡ true) t (λ c e. rw e refl) h in
    rw
      (
        run_of_passing is_not_closing (b'}' ∷ b'}' ∷ post) refl t inside,
        skip_passing is_not_closing (b'}' ∷ b'}' ∷ post) refl t inside,
      )
      refl

keep_head : (p : ℕ → Bool) (c : ℕ) (s : Text) → p c ≡ false → skip p (c ∷ s) ≡ c ∷ s
unfolding skip
keep_head p c s h = ground (arith, h)

open_not_space : is_space b'{' ≡ false
unfolding is_space
open_not_space = refl

match_placeholder-placeholder :
    (lead name mid : Text) (fallback : Option Text) (post : Text)
    → IsBlank lead
    → IsName name
    → IsBlank mid
    → IsFallback fallback
    → match_placeholder (lead ++ (name ++ (mid ++ closing fallback post)))
      ≡ some (name, fallback, post)
unfolding match_placeholder
match_placeholder-placeholder lead [] mid fallback post l h m f = absurd h
match_placeholder-placeholder lead (c ∷ name) mid fallback post l h m f =
    let letters : All (λ d. is_word d ≡ true) (c ∷ name) = (ground (arith, h.0), h.1) in
    let end = closing fallback post in
    let no_word = mid_is_no_word mid fallback post m in
    let start =
      skip_passing is_space ((c ∷ name) ++ (mid ++ end)) (is_space_word c letters.0) lead l in
    rw
      (
        match_placeholder,
        start,
        run_of_passing is_word (mid ++ end) no_word (c ∷ name) letters,
        start,
        skip_passing is_word (mid ++ end) no_word (c ∷ name) letters,
        skip_passing is_space end (closing_is_not_space fallback post) mid m,
        match_fallback-closing fallback post f,
      )
      (ground (arith, h.0))

missing_value :
    (variables : Variables) (name : Text) (fallback : Option Text)
    → ((value : Text) → ¬ IsGiven variables name value)
    → value_of variables name fallback ≡ fallback_text fallback
unfolding value_of
missing_value variables name fallback missing = elim (Option-cases (lookup name variables)) [
  | inl e ↦ ground (arith, e)
  | inr (none, e) ↦ ground (arith, e)
  | inr (some [], e) ↦ ground (arith, e)
  | inr (some (c ∷ value), e) ↦ absurd (missing (c ∷ value) (e, λ k. ground (arith, k)))
]

-- what the code makes of a placeholder
Fills-value_of :
    (variables : Variables) (name : Text) (fallback : Option Text) (value : Text)
    → Fills variables name fallback value
    → value_of variables name fallback ≡ value
unfolding value_of
Fills-value_of variables name fallback value (by_value given) = ground (arith, given.0, given.1)
Fills-value_of variables name (some t) _ (by_fallback missing) =
    missing_value variables name (some t) missing
Fills-value_of variables name none _ (by_nothing missing) =
    missing_value variables name none missing

has_braces-append : (s t : Text) → has_braces (s ++ t) ≡ false → has_braces t ≡ false
has_braces-append [] t h = h
has_braces-append (c ∷ s) t h = has_braces-append s t (ground (arith, h))

brace_unmatched : (s : Text) → match_placeholder (b'{' ∷ s) ≡ none
unfolding match_placeholder run_of
brace_unmatched s = ground (arith, keep_head is_space b'{' s open_not_space)

module _ (variables : Variables) (lead name mid : Text) (fallback : Option Text) (post value : Text)
    (l : IsBlank lead) (h : IsName name) (m : IsBlank mid) (f : IsFallback fallback)
    (v : value_of variables name fallback ≡ value) where
  substitute-placeholder :
      (n : ℕ) (pre : Text)
      → suc (length pre) ≤ n
      → has_braces (pre ++ value ++ post) ≡ false
      → substitute n variables (pre ++ placeholder lead name mid fallback post)
        ≡ pre ++ value ++ post
  unfolding substitute
  substitute-placeholder zero pre enough plain = absurd (omega (arith, enough))
  substitute-placeholder (suc n) [] enough plain =
      rw (match_placeholder-placeholder lead name mid fallback post l h m f, v)
        (ap (λ (t : Text). value ++ t)
          (substitute_plain n variables post (has_braces-append value post plain)))
  substitute-placeholder (suc n) (c ∷ []) enough plain =
      keep_unmatched n c variables (placeholder lead name mid fallback post)
        (brace_unmatched (lead ++ (name ++ (mid ++ closing fallback post))))
      ∙ ap (λ (t : Text). c ∷ t)
          (substitute-placeholder n [] (omega (arith, enough)) (ground (arith, plain)))
  substitute-placeholder (suc n) (c ∷ d ∷ pre) enough plain =
      keep_plain n c variables (d ∷ pre ++ placeholder lead name mid fallback post)
        (ground (arith, plain))
      ∙ ap (λ (t : Text). c ∷ t)
          (substitute-placeholder n (d ∷ pre) (omega (arith, enough)) (ground (arith, plain)))

-- A placeholder, with spaces around its name or not, and with a fallback or not, stands for the value of
-- its variable; where that is missing, `None` or empty, for the fallback without the spaces around it, or
-- for nothing. The text around it is kept, where the text that comes out holds no `{{`.
pub render-placeholder :
    (variables : Variables) (pre lead name mid : Text) (fallback : Option Text) (post value : Text)
    → IsBlank lead
    → IsName name
    → IsBlank mid
    → IsFallback fallback
    → Fills variables name fallback value
    → has_braces (pre ++ value ++ post) ≡ false
    → render (pre ++ placeholder lead name mid fallback post) variables ≡ pre ++ value ++ post
unfolding render
render-placeholder variables pre lead name mid fallback post value l h m f v plain =
    let whole = pre ++ placeholder lead name mid fallback post in
    rw
      (substitute-placeholder variables lead name mid fallback post value l h m f
        (Fills-value_of variables name fallback value v) (length whole) pre
        (omega (arith, length-append pre (placeholder lead name mid fallback post))) plain)
      (remove_braces_plain (length (pre ++ value ++ post)) (pre ++ value ++ post) plain)
