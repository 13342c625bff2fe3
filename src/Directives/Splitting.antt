-- ===== src/Directives/Splitting.antt =====
-- A tag whose two opening brackets arrive in different chunks (directives.py).
use yuviz.Base.{◌≡◌, [], ◌∷◌, ◌++◌, none, Text, codes, arith, map}
use yuviz.Directives.{end_call, rfind_open, feed, feed_all, parse}
use yuviz.Directives.Tags.{IsPlain, end_call_tag, parse_closed, parse_end_call}

feed_closed : (s : Text) → rfind_open s ≡ none → feed [] s ≡ (s, [])
unfolding feed
feed_closed s e = ground arith

-- Where a stream is cut between the two brackets of `[[`, and holds no other `[[`, both chunks are
-- released at once and neither yields a directive, although the whole text holds one: with no `[`
-- in `t`, END_CALL is found in `t [[END_CALL]] s` and missed in its two chunks.
pub split_tag_missed :
    (t s : Text)
    → IsPlain t
    → rfind_open (t ++ codes "[") ≡ none
    → rfind_open (codes "[END_CALL]]" ++ s) ≡ none
    → let chunks = (t ++ codes "[") ∷ (codes "[END_CALL]]" ++ s) ∷ [] in
      (feed_all [] chunks ≡ (chunks, []))
      × (map (λ c. (parse c).1) (feed_all [] chunks).0 ≡ [] ∷ [] ∷ [])
      × ((parse (t ++ (end_call_tag ++ s))).1 ≡ end_call ∷ (parse s).1)
unfolding feed_all
split_tag_missed t s plain e f = (
  rw (feed_closed (t ++ codes "[") e, feed_closed (codes "[END_CALL]]" ++ s) f),
  rw (
    feed_closed (t ++ codes "[") e,
    feed_closed (codes "[END_CALL]]" ++ s) f,
    parse_closed (t ++ codes "[") e,
    parse_closed (codes "[END_CALL]]" ++ s) f,
  ),
  rw (parse_end_call t s plain),
)
