-- ===== src/Workflow/Words.antt =====
-- The string methods that libs/config_sdk/workflow.py uses, on lists of code points. `lower` is read
-- over ASCII; `strip` removes the white space of Unicode.
use yuviz.Base.{
  ℕ, ◌+◌, Bool, true, false, not, ◌&&◌, ◌||◌, [], ◌∷◌, leb, nat_beq, Text, if◌then◌else◌,
}

-- `c.isspace()`
unfoldable pub is_space : ℕ → Bool
is_space c =
    (leb 9 c && leb c 13)
    || (leb 28 c && leb c 32)
    || nat_beq c 0x85
    || nat_beq c 0xa0
    || nat_beq c 0x1680
    || (leb 0x2000 c && leb c 0x200a)
    || nat_beq c 0x2028
    || nat_beq c 0x2029
    || nat_beq c 0x202f
    || nat_beq c 0x205f
    || nat_beq c 0x3000

unfoldable pub lower_char : ℕ → ℕ
lower_char c = if leb b'A' c && leb c b'Z' then c + 32 else c

-- `s.lower()`
unfoldable pub lower : Text → Text
unfolding lower_char
lower [] = []
lower (c ∷ s) = lower_char c ∷ lower s

abbrev pub is_empty : Text → Bool
is_empty [] = true
is_empty (_ ∷ _) = false

unfoldable pub lstrip : (ℕ → Bool) → Text → Text
lstrip p [] = []
lstrip p (c ∷ s) = let rest = lstrip p s in if p c then rest else c ∷ s

unfoldable pub rstrip : (ℕ → Bool) → Text → Text
rstrip p [] = []
rstrip p (c ∷ s) = let rest = rstrip p s in if p c && is_empty rest then [] else c ∷ rest

-- `s.strip()`
unfoldable pub strip : Text → Text
unfolding lstrip rstrip is_space
strip s = rstrip is_space (lstrip is_space s)

-- `[a-z0-9]`
abbrev pub is_name_char : ℕ → Bool
is_name_char c = (leb b'a' c && leb c b'z') || (leb b'0' c && leb c b'9')

-- `re.sub(r"[^a-z0-9]+", "_", s)`: the flag says that the character before was replaced
unfoldable pub squash : Bool → Text → Text
squash in_run [] = []
squash in_run (c ∷ s) =
    let good = is_name_char c in
    let rest = squash (not good) s in
    if good then c ∷ rest else if in_run then rest else b'_' ∷ rest

abbrev pub is_underscore : ℕ → Bool
is_underscore c = nat_beq c b'_'

-- the property `Edge.tool_name`
unfoldable pub tool_name : Text → Text
unfolding lower squash lstrip rstrip
tool_name label = rstrip is_underscore (lstrip is_underscore (squash false (lower label)))
