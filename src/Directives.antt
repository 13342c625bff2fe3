-- ===== src/Directives.antt =====
-- services/conversation/directives.py: the directive tags in the model's text. A text is the list of
-- its code points. Python's `re` is modelled for the three patterns that the file uses: `\w` is read
-- over ASCII. A tag's attributes come as a dictionary.
pub mod Stream
pub mod Tags
pub mod Splitting
use yuviz.Base.{
  ℕ, zero, suc, ◌+◌, String, Bool, true, false, not, ◌&&◌, ◌||◌, Option, none, some, List, [], ◌∷◌,
  ◌++◌, ltb, leb, nat_beq, Text, codes, text_eq, ◌==◌, take, drop, keep, length, if◌then◌else◌,
}
use yuviz.Base.Dict.{lookup, insert, get_or}

-- the class `[*_`#]` of `_MARKDOWN_CHARS_RE`
abbrev pub is_markdown : ℕ → Bool
is_markdown c = nat_beq c b'*' || nat_beq c b'_' || nat_beq c b'`' || nat_beq c b'#'

-- `strip_markdown_chars`
unfoldable pub strip_markdown_chars : Text → Text
strip_markdown_chars = keep (λ c. not (is_markdown c))

pub data TransferType : Type 0 where
  warm cold no_transfer : TransferType

-- `coerce_transfer_type`
unfoldable pub coerce_transfer_type : Text → TransferType
coerce_transfer_type raw =
    if raw == codes "warm" then warm else if raw == codes "cold" then cold else no_transfer

abbrev pub Attrs : Type 0
Attrs = List (Text × Text)

pub data Directive : Type 0 where
  end_call : Directive
  transfer : TransferType → Text → Text → Directive
  unknown : Text → Attrs → Directive

-- `DirectiveParser._build`
unfoldable pub build : Text → Attrs → Directive
unfolding coerce_transfer_type
build name attrs =
    if name == codes "END_CALL"
    then end_call
    else if name == codes "TRANSFER"
    then transfer (coerce_transfer_type (get_or (codes "type") attrs (codes "none")))
        (get_or (codes "destination") attrs []) (get_or (codes "reason") attrs [])
    else unknown name attrs

-- the longest prefix of characters that pass the test, and the rest
unfoldable pub span : (ℕ → Bool) → Text → Text × Text
span p [] = ([], [])
span p (c ∷ s) = let (run, rest) = span p s in if p c then (c ∷ run, rest) else ([], c ∷ s)

abbrev pub is_tag_char : ℕ → Bool
is_tag_char c = (leb b'A' c && leb c b'Z') || nat_beq c b'_'

abbrev pub is_word_char : ℕ → Bool
is_word_char c =
    (leb b'A' c && leb c b'Z')
    || (leb b'a' c && leb c b'z')
    || (leb b'0' c && leb c b'9')
    || nat_beq c b'_'

abbrev pub is_nonempty : Text → Bool
is_nonempty [] = false
is_nonempty (_ ∷ _) = true

-- `]]` at the head: what follows it
abbrev after_close : Text → Option Text
after_close (c ∷ d ∷ s) = if nat_beq c b']' && nat_beq d b']' then some s else none
after_close _ = none

-- A match of `_TAG_RE` at the head of the text, behind its `[[`: the name, the attributes' text, and
-- what follows the match. `[^\]]*` takes whatever the name leaves, so the name is the longest.
unfoldable pub match_tag_body : Text → Option (Text × Text × Text)
unfolding span
match_tag_body s =
    let (name, s') = span is_tag_char s in
    let (attrs, s'') = span (λ c. not (nat_beq c b']')) s' in
    if is_nonempty name
    then elim (after_close s'') [ none ↦ none | some rest ↦ some (name, attrs, rest) ]
    else none

-- A match of `_TAG_RE` at the head of the text.
unfoldable pub match_tag : Text → Option (Text × Text × Text)
unfolding match_tag_body
match_tag (c ∷ d ∷ s) = if nat_beq c b'[' && nat_beq d b'[' then match_tag_body s else none
match_tag _ = none

-- the value up to its closing quote, and what follows that
unfoldable pub attr_value : Text → Text → Option (Text × Text × Text)
unfolding span
attr_value name (c ∷ d ∷ s) =
    let (value, rest) = span (λ x. not (nat_beq x b'"')) s in
    if nat_beq c b'=' && nat_beq d b'"' && is_nonempty rest
    then some (name, value, drop 1 rest)
    else none
attr_value name _ = none

-- A match of `_ATTR_RE` at the head: the name, the value and what follows.
unfoldable pub match_attr : Text → Option (Text × Text × Text)
unfolding span attr_value
match_attr s =
    let (name, rest) = span is_word_char s in
    if is_nonempty name then attr_value name rest else none

-- `dict(_ATTR_RE.findall(text))`, with fuel for the characters left: a match has at least four
unfoldable pub find_attrs : ℕ → Text → Attrs → Attrs
unfolding match_attr
find_attrs zero s attrs = attrs
find_attrs (suc n) [] attrs = attrs
find_attrs (suc n) (c ∷ s) attrs = elim (match_attr (c ∷ s)) [
  | none ↦ find_attrs n s attrs
  | some (name, value, rest) ↦ find_attrs n rest (insert name value attrs)
]

-- `_TAG_RE.sub(_record, text)`: the text without the tags, and the directives in order
unfoldable pub sub_tags : ℕ → Text → Text × List Directive
sub_tags zero s = (s, [])
sub_tags (suc n) [] = ([], [])
sub_tags (suc n) (c ∷ s) = elim (match_tag (c ∷ s)) [
  | none ↦ let (text, found) = sub_tags n s in (c ∷ text, found)
  | some (name, attrs, rest) ↦
      let (text, found) = sub_tags n rest in
      (text, build name (find_attrs (length attrs) attrs []) ∷ found)
]

-- `DirectiveParser.parse`
unfoldable pub parse : Text → Text × List Directive
unfolding sub_tags strip_markdown_chars
parse text = let (clean, found) = sub_tags (length text) text in (strip_markdown_chars clean, found)

abbrev is_pair : ℕ → Text → Bool
is_pair b (c ∷ d ∷ s) = nat_beq c b && nat_beq d b
is_pair b _ = false

-- `s.rfind("[[")`, and whether the text holds `]]`
unfoldable pub rfind_open : Text → Option ℕ
rfind_open [] = none
rfind_open (c ∷ s) = elim (rfind_open s) [
  | some i ↦ some (suc i)
  | none ↦ if is_pair b'[' (c ∷ s) then some 0 else none
]

unfoldable pub has_close : Text → Bool
has_close [] = false
has_close (c ∷ s) = is_pair b']' (c ∷ s) || has_close s

-- `StreamBuffer.feed`: the text that is safe to parse, and the new `_pending`
unfoldable pub feed : Text → Text → Text × Text
unfolding rfind_open has_close
feed pending chunk =
    let p = pending ++ chunk in
    elim (rfind_open p) [
      | none ↦ (p, [])
      | some i ↦ if has_close (drop i p) then (p, []) else (take i p, drop i p)
    ]

-- The chunks of a stream fed one after the other: the safe texts in order, and what `flush` returns
-- at the end.
unfoldable pub feed_all : Text → List Text → List Text × Text
unfolding feed
feed_all pending [] = ([], pending)
feed_all pending (chunk ∷ chunks) =
    let (safe, pending') = feed pending chunk in
    let (more, rest) = feed_all pending' chunks in (safe ∷ more, rest)
