-- ===== src/Examples/Texts.antt =====
-- Directive tags in a stream of services/conversation/directives.py, and chunks of
-- services/knowledge/chunking.py.
use yuviz.Base.{◌≤◌, none, List, [], ◌∷◌, ◌++◌, ◌≡◌, refl, arith, Text, codes, length, map, All}
use yuviz.Directives.{end_call, parse, rfind_open, feed_all}
use yuviz.Directives.Stream.{concat, feed_all-append}
use yuviz.Directives.Tags.{end_call_tag}
use yuviz.Directives.Splitting.{split_tag_missed}
use yuviz.Chunking.{Words, chunk_text}
use yuviz.Chunking.Sizes.{chunk_text-fits}
use yuviz.Chunking.Kept.{IsWithin, joined, chunk_text-IsWithin}

abbrev stream : List Text
stream = codes "Bye [[END" ∷ codes "_CALL]]" ∷ []

feed_all-append_example :
    concat (feed_all [] stream).0 ++ (feed_all [] stream).1 ≡ [] ++ concat stream
feed_all-append_example = feed_all-append [] stream

no_open :
    (rfind_open (codes "Bye" ++ codes "[") ≡ none)
    × (rfind_open (codes "[END_CALL]]" ++ codes "!") ≡ none)
unfolding rfind_open
no_open = (refl, refl)

split_tag_missed_example :
    let chunks = (codes "Bye" ++ codes "[") ∷ (codes "[END_CALL]]" ++ codes "!") ∷ [] in
    (feed_all [] chunks ≡ (chunks, []))
    × (map (λ c. (parse c).1) (feed_all [] chunks).0 ≡ [] ∷ [] ∷ [])
    × ((parse (codes "Bye" ++ (end_call_tag ++ codes "!"))).1 ≡ end_call ∷ (parse (codes "!")).1)
split_tag_missed_example =
    split_tag_missed (codes "Bye") (codes "!") (refl, (refl, (refl, tt))) no_open.0 no_open.1

abbrev paragraphs : List Words
paragraphs = (codes "a" ∷ codes "b" ∷ []) ∷ (codes "c" ∷ codes "d" ∷ codes "e" ∷ []) ∷ []

chunk_text-fits_example : All (λ c. length c ≤ 3) (chunk_text 3 1 paragraphs)
chunk_text-fits_example = chunk_text-fits 3 1 paragraphs (omega arith)

chunk_text-IsWithin_example : IsWithin (joined paragraphs) (joined (chunk_text 3 1 paragraphs))
chunk_text-IsWithin_example = chunk_text-IsWithin 3 1 paragraphs
