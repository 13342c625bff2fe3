-- ===== src/Workflow/Templates.antt =====
-- `render` of libs/config_sdk/workflow.py: the placeholders of a text. Python's `re` is modelled for
-- the two patterns of the file, in which no part can give back what it has taken.
pub mod Clean
pub mod Plain
pub mod Filled
pub mod Fuel
use yuviz.Base.{
  ℕ, zero, suc, ◌+◌, Bool, true, false, not, ◌&&◌, ◌||◌, Option, none, some, List, [], ◌∷◌, ◌++◌,
  nat_beq, leb, length, drop, Text, text_eq, ◌==◌, if◌then◌else◌,
}
use yuviz.Base.Dict.{lookup}
use yuviz.Workflow.Words.{is_space, strip}

abbrev pub is_letter : ℕ → Bool
is_letter c = (leb b'A' c && leb c b'Z') || (leb b'a' c && leb c b'z') || nat_beq c b'_'

abbrev pub is_word : ℕ → Bool
is_word c = is_letter c || (leb b'0' c && leb c b'9')

-- what is left behind the characters that pass the test, and these
unfoldable pub skip : (ℕ → Bool) → Text → Text
skip p [] = []
skip p (c ∷ s) = let rest = skip p s in if p c then rest else c ∷ s

unfoldable pub run_of : (ℕ → Bool) → Text → Text
run_of p [] = []
run_of p (c ∷ s) = let more = run_of p s in if p c then c ∷ more else []

-- two of the same character at the head
abbrev pub is_double : ℕ → Text → Bool
is_double b (c ∷ d ∷ s) = nat_beq c b && nat_beq d b
is_double b _ = false

abbrev pub is_not_closing : ℕ → Bool
is_not_closing c = not (nat_beq c b'}')

-- the optional part `\|([^}]*)`: the fallback, and what follows
unfoldable pub match_fallback : Text → Option Text × Text
unfolding skip run_of
match_fallback [] = (none, [])
match_fallback (c ∷ s) =
    if nat_beq c b'|'
    then (some (run_of is_not_closing s), skip is_not_closing s)
    else (none, c ∷ s)

-- A match of `_TEMPLATE_RE` behind its `{{`: the name, the fallback, and what follows the match.
unfoldable pub match_placeholder : Text → Option (Text × Option Text × Text)
unfolding skip run_of is_space match_fallback
match_placeholder s =
    let inner = skip is_space s in
    let name = run_of is_word inner in
    let (fallback, end) = match_fallback (skip is_space (skip is_word inner)) in
    elim name [
      | [] ↦ none
      | first ∷ more ↦
          if is_letter first && is_double b'}' end
          then some (first ∷ more, fallback, drop 2 end)
          else none
    ]

-- the values of the variables as texts; `none` is Python's `None`
abbrev pub Variables : Type 0
Variables = List (Text × Option Text)

-- `(m.group(2) or "").strip()`
abbrev pub fallback_text : Option Text → Text
fallback_text none = []
fallback_text (some t) = strip t

-- `_sub`
unfoldable pub value_of : Variables → Text → Option Text → Text
value_of variables name fallback = elim (lookup name variables) [
  | none ↦ fallback_text fallback
  | some none ↦ fallback_text fallback
  | some (some []) ↦ fallback_text fallback
  | some (some (c ∷ value)) ↦ c ∷ value
]

-- `_TEMPLATE_RE.sub(_sub, text)`, with fuel for the characters left
unfoldable pub substitute : ℕ → Variables → Text → Text
unfolding match_placeholder value_of
substitute zero variables s = s
substitute (suc n) variables [] = []
substitute (suc n) variables (c ∷ s) =
    let keep_one = c ∷ substitute n variables s in
    if is_double b'{' (c ∷ s)
    then elim (match_placeholder (drop 1 s)) [
      | none ↦ keep_one
      | some (name, fallback, rest) ↦
          value_of variables name fallback ++ substitute n variables rest
    ]
    else keep_one

-- `\}{0,2}`
abbrev pub drop_closing : Text → Text
drop_closing [] = []
drop_closing (c ∷ []) = if nat_beq c b'}' then [] else c ∷ []
drop_closing (c ∷ d ∷ s) =
    if nat_beq c b'}' then (if nat_beq d b'}' then s else d ∷ s) else c ∷ d ∷ s

-- `_ANY_BRACES_RE.sub("", text)`, with fuel for the characters left
unfoldable pub remove_braces : ℕ → Text → Text
unfolding skip
remove_braces zero s = s
remove_braces (suc n) [] = []
remove_braces (suc n) (c ∷ s) =
    if is_double b'{' (c ∷ s)
    then remove_braces n (drop_closing (skip is_not_closing (drop 1 s)))
    else c ∷ remove_braces n s

-- `render`
unfoldable pub render : Text → Variables → Text
render text variables =
    let filled = substitute (length text) variables text in remove_braces (length filled) filled
