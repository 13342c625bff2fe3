-- ===== src/Directives/Tags.antt =====
-- `DirectiveParser.parse` of directives.py.
use yuviz.Base.{
  ℕ, zero, suc, ◌≡◌, ◌+◌, ◌≤◌, ◌∙◌, ap, refl, Bool, false, not, none, some, List, [], ◌∷◌, ◌++◌,
  Text, codes, keep-append, keep-keep, length, arith, Option-cases, inl, inr, All, nat_beq,
}
use yuviz.Directives.{
  Directive, end_call, is_pair, is_markdown, strip_markdown_chars, span, after_close, is_tag_char,
  match_tag_body, match_tag, build, find_attrs, sub_tags, parse, rfind_open,
}

-- A tag opens with `[[`.
match_tag_closed : (s : Text) → is_pair b'[' s ≡ false → match_tag s ≡ none
unfolding match_tag
match_tag_closed [] e = refl
match_tag_closed (c ∷ []) e = refl
match_tag_closed (c ∷ d ∷ s) e = rw e

sub_tags_closed : (n : ℕ) (s : Text) → rfind_open s ≡ none → sub_tags n s ≡ (s, [])
unfolding sub_tags rfind_open
sub_tags_closed zero s e = refl
sub_tags_closed (suc n) [] e = refl
sub_tags_closed (suc n) (c ∷ s) e = elim (Option-cases (rfind_open s)) [
  | inl f ↦ ground (arith, match_tag_closed (c ∷ s), sub_tags_closed n s f)
  | inr (i, f) ↦ ground arith
]

-- A text with no `[[` is parsed to no directive.
pub parse_closed : (s : Text) → rfind_open s ≡ none → (parse s).1 ≡ []
unfolding parse
parse_closed s e = rw (sub_tags_closed (length s) s e)

-- A character that is not `[` is ordinary text.
abbrev pub IsPlain : Text → Type 0
IsPlain = All (λ c. nat_beq c b'[' ≡ false)

match_tag_plain : (c : ℕ) (s : Text) → nat_beq c b'[' ≡ false → match_tag (c ∷ s) ≡ none
unfolding match_tag
match_tag_plain c [] e = refl
match_tag_plain c (d ∷ s) e = rw e

-- Fuel beyond the length of the text changes nothing.
sub_tags-append :
    (t s : Text)
    → IsPlain t
    → sub_tags (length (t ++ s)) (t ++ s)
      ≡ (t ++ (sub_tags (length s) s).0, (sub_tags (length s) s).1)
unfolding sub_tags
sub_tags-append [] s p = refl
sub_tags-append (c ∷ t) s p = ground (arith, match_tag_plain c (t ++ s), sub_tags-append t s p.1)

abbrev pub end_call_tag : Text
end_call_tag = codes "[[END_CALL]]"

length-span : (p : ℕ → Bool) (s : Text) → length (span p s).1 ≤ length s
unfolding span
length-span p [] = omega arith
length-span p (c ∷ s) = ground (arith, length-span p s)

after_close-length : (s r : Text) → after_close s ≡ some r → length r + 2 ≤ length s
after_close-length [] r e = cc
after_close-length (c ∷ []) r e = cc
after_close-length (c ∷ d ∷ s) r e = ground arith

match_tag_body-length :
    (s name attrs rest : Text)
    → match_tag_body s ≡ some (name, attrs, rest)
    → length rest + 2 ≤ length s
unfolding match_tag_body
match_tag_body-length s name attrs rest e =
    let (run, s') = span is_tag_char s in
    let (body, s'') = span (λ c. not (nat_beq c b']')) s' in
    ground (
      arith,
      length-span is_tag_char s,
      length-span (λ (c : ℕ). not (nat_beq c b']')) s',
      after_close-length s'' rest,
    )

match_tag-length :
    (c : ℕ) (s name attrs rest : Text)
    → match_tag (c ∷ s) ≡ some (name, attrs, rest)
    → length rest ≤ length s
unfolding match_tag
match_tag-length c [] name attrs rest e = cc
match_tag-length c (d ∷ s) name attrs rest e =
    ground (arith, match_tag_body-length s name attrs rest)

-- Any fuel that is not below the length of the text gives the same result: the fuel never runs out.
sub_tags_enough : (n m : ℕ) (s : Text) → length s ≤ n → length s ≤ m → sub_tags n s ≡ sub_tags m s
unfolding sub_tags
sub_tags_enough zero zero s h k = refl
sub_tags_enough zero (suc m) [] h k = refl
sub_tags_enough (suc n) zero [] h k = refl
sub_tags_enough (suc n) (suc m) [] h k = refl
sub_tags_enough (suc n) (suc m) (c ∷ s) h k = elim (Option-cases (match_tag (c ∷ s))) [
  | inl e ↦ ground (arith, sub_tags_enough n m s)
  | inr ((name, attrs, rest), e) ↦
      ground (arith, match_tag-length c s name attrs rest e, sub_tags_enough n m rest)
]
sub_tags_enough n m s h k = absurd (omega arith)

match_end_call : (s : Text) → match_tag (end_call_tag ++ s) ≡ some (codes "END_CALL", [], s)
unfolding match_tag
match_end_call s = refl

sub_tags_tag :
    (n c : ℕ) (s name attrs rest : Text)
    → match_tag (c ∷ s) ≡ some (name, attrs, rest)
    → sub_tags (suc n) (c ∷ s)
      ≡ ((sub_tags n rest).0, build name (find_attrs (length attrs) attrs []) ∷ (sub_tags n rest).1)
unfolding sub_tags
sub_tags_tag n c s name attrs rest e = ground arith

build_end_call : build (codes "END_CALL") (find_attrs 0 [] []) ≡ end_call
unfolding build
build_end_call = refl

sub_tags_end_call :
    (n : ℕ) (s : Text)
    → length s ≤ n
    → sub_tags (suc n) (end_call_tag ++ s)
      ≡ ((sub_tags (length s) s).0, end_call ∷ (sub_tags (length s) s).1)
sub_tags_end_call n s h =
    sub_tags_tag n b'[' (codes "[END_CALL]]" ++ s) (codes "END_CALL") [] s (match_end_call s)
    ∙ ap (λ (d : Directive). ((sub_tags n s).0, d ∷ (sub_tags n s).1)) build_end_call
    ∙ ap (λ (r : Text × List Directive). (r.0, end_call ∷ r.1))
        (sub_tags_enough n (length s) s h (omega arith))

-- Every such tag in plain text is found and cut out, wherever it stands: parsing
-- `t [[END_CALL]] s`, with no `[` in `t`, gives the directive and then those of `s`, and the clean
-- texts of `t` and `s`.
pub parse_end_call :
    (t s : Text)
    → IsPlain t
    → parse (t ++ (end_call_tag ++ s))
      ≡ (strip_markdown_chars t ++ (parse s).0, end_call ∷ (parse s).1)
unfolding parse strip_markdown_chars
parse_end_call t s p =
    rw
      (
        sub_tags-append t (end_call_tag ++ s) p,
        sub_tags_end_call (length (codes "[END_CALL]]" ++ s)) s (omega arith),
      )
      (ap (λ (k : Text). (k, end_call ∷ (sub_tags (length s) s).1))
        (keep-append (λ c. not (is_markdown c)) t (sub_tags (length s) s).0))

-- The clean text holds none of the markdown characters, so stripping it again changes nothing.
pub strip-parse : (s : Text) → strip_markdown_chars (parse s).0 ≡ (parse s).0
unfolding parse strip_markdown_chars
strip-parse s = keep-keep (λ c. not (is_markdown c)) (sub_tags (length s) s).0
