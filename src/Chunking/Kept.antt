-- ===== src/Chunking/Kept.antt =====
-- `chunk_text` of services/knowledge/chunking.py loses no word and changes no order.
use yuviz.Base.{
  ℕ, zero, suc, ◌+◌, ◌&&◌, List, [], ◌∷◌, ◌++◌, length, take, drop, ltb, ◌≡◌, refl, sym, Bool-cases,
  inl, inr, append-nil, append_assoc, List-cases, Text, take-append-drop,
}
use yuviz.Chunking.{Words, tail, split_long, has_words, extend, pack, chunk_text}
use yuviz.Chunking.Sizes.{split_long-step, split_long-stop, ltb-cases}

-- The words of the first list stand in the second, in their order.
pub data IsWithin : Words → Words → Type 0 where
  none_left : (ys : Words) → IsWithin [] ys
  same : (w : Text) {xs ys : Words} → IsWithin xs ys → IsWithin (w ∷ xs) (w ∷ ys)
  extra : (w : Text) {xs ys : Words} → IsWithin xs ys → IsWithin xs (w ∷ ys)

abbrev pub joined : List Words → Words
joined [] = []
joined (c ∷ cs) = c ++ joined cs

joined-append : (cs ds : List Words) → joined (cs ++ ds) ≡ joined cs ++ joined ds
joined-append [] ds = refl
joined-append (c ∷ cs) ds = rw (joined-append cs ds) (sym (append_assoc c (joined cs) (joined ds)))

IsWithin-refl : (xs : Words) → IsWithin xs xs
IsWithin-refl [] = none_left []
IsWithin-refl (x ∷ xs) = same x (IsWithin-refl xs)

IsWithin-append_left : (zs xs ys : Words) → IsWithin xs ys → IsWithin xs (zs ++ ys)
IsWithin-append_left [] xs ys h = h
IsWithin-append_left (z ∷ zs) xs ys h = extra z (IsWithin-append_left zs xs ys h)

IsWithin-append : (zs xs ys : Words) → IsWithin xs ys → IsWithin (zs ++ xs) (zs ++ ys)
IsWithin-append [] xs ys h = h
IsWithin-append (z ∷ zs) xs ys h = same z (IsWithin-append zs xs ys h)

IsWithin-uncons : (z : Text) (xs ys : Words) → IsWithin (z ∷ xs) ys → IsWithin xs ys
IsWithin-uncons z xs [] h = elim h [ ]
IsWithin-uncons z xs (_ ∷ ys) (same _ h) = extra z h
IsWithin-uncons z xs (y ∷ ys) (extra _ h) = extra y (IsWithin-uncons z xs ys h)

IsWithin-unappend : (zs xs ys : Words) → IsWithin (zs ++ xs) ys → IsWithin xs ys
IsWithin-unappend [] xs ys h = h
IsWithin-unappend (z ∷ zs) xs ys h = IsWithin-unappend zs xs ys (IsWithin-uncons z (zs ++ xs) ys h)

IsWithin-append_right : (xs ys zs : Words) → IsWithin xs ys → IsWithin (xs ++ zs) (ys ++ zs)
IsWithin-append_right _ ys zs (none_left _) = IsWithin-append_left ys zs zs (IsWithin-refl zs)
IsWithin-append_right (_ ∷ xs) (_ ∷ ys) zs (same w h) = same w (IsWithin-append_right xs ys zs h)
IsWithin-append_right xs (_ ∷ ys) zs (extra w h) = extra w (IsWithin-append_right xs ys zs h)

IsWithin-trans : (xs ys zs : Words) → IsWithin xs ys → IsWithin ys zs → IsWithin xs zs
IsWithin-trans xs ys (_ ∷ zs) g (extra w h) = extra w (IsWithin-trans xs ys zs g h)
IsWithin-trans _ ys zs (none_left _) h = none_left zs
IsWithin-trans _ _ [] (same w g) h = elim h [ ]
IsWithin-trans xs _ [] (extra w g) h = elim h [ ]
IsWithin-trans (_ ∷ xs) (_ ∷ ys) (_ ∷ zs) (same w g) (same _ h) =
    same w (IsWithin-trans xs ys zs g h)
IsWithin-trans xs (_ ∷ ys) (_ ∷ zs) (extra w g) (same _ h) = extra w (IsWithin-trans xs ys zs g h)

split_long-empty :
    (size overlap : ℕ) (words : Words) → split_long zero size overlap words ≡ ([], words)
unfolding split_long
split_long-empty size overlap words = refl

split_long-IsWithin :
    (fuel size overlap : ℕ) (words : Words)
    → IsWithin words
        (joined (split_long fuel size overlap words).0 ++ (split_long fuel size overlap words).1)
split_long-IsWithin zero size overlap words =
    rw (split_long-empty size overlap words) (IsWithin-refl words)
split_long-IsWithin (suc fuel) size overlap words = elim (ltb-cases size (length words)) [
  | inr short ↦ rw (split_long-stop (suc fuel) size overlap words short) (IsWithin-refl words)
  | inl long ↦
      let head = take size words in
      let left = tail overlap head in
      let more = drop size words in
      let (chunks, rest) = split_long fuel size overlap (left ++ more) in
      let in_rest : IsWithin more (joined chunks ++ rest) =
        IsWithin-unappend left more (joined chunks ++ rest)
          (split_long-IsWithin fuel size overlap (left ++ more)) in
      let parts : IsWithin words (head ++ more) =
        rw (take-append-drop size words) (IsWithin-refl words) in
      let whole : IsWithin words (head ++ (joined chunks ++ rest)) =
        IsWithin-trans words (head ++ more) (head ++ (joined chunks ++ rest)) parts
          (IsWithin-append head more (joined chunks ++ rest) in_rest) in
      rw (split_long-step fuel size overlap words long)
        (rw (append_assoc head (joined chunks) rest) whole)
]

extend-IsWithin :
    (size overlap : ℕ) (current para : Words)
    → IsWithin
        (current ++ para)
        (joined (extend size overlap current para).0 ++ (extend size overlap current para).1)
unfolding extend
extend-IsWithin size overlap current para =
    elim (Bool-cases (has_words current && ltb size (length current + length para))) [
      | inr n ↦ rw n (IsWithin-refl (current ++ para))
      | inl y ↦
          rw (y, append-nil current)
            (IsWithin-append current para (tail overlap current ++ para)
              (IsWithin-append_left (tail overlap current) para para (IsWithin-refl para)))
    ]

pack-IsWithin :
    (size overlap : ℕ) (paras : List Words) (current : Words)
    → IsWithin (current ++ joined paras) (joined (pack size overlap paras current))
unfolding pack
pack-IsWithin size overlap [] current = elim (List-cases current) [
  | inl e ↦ rw e (none_left [])
  | inr (w, ws, e) ↦ rw e (IsWithin-refl ((w ∷ ws) ++ []))
]
pack-IsWithin size overlap (para ∷ paras) current =
    let (closed, words) = extend size overlap current para in
    let (chunks, rest) = split_long (length words) size overlap words in
    let packed = pack size overlap paras rest in
    let all = joined paras in
    let opened : IsWithin ((current ++ para) ++ all) ((joined closed ++ words) ++ all) =
      IsWithin-append_right (current ++ para) (joined closed ++ words) all
        (extend-IsWithin size overlap current para) in
    let split : IsWithin (words ++ all) ((joined chunks ++ rest) ++ all) =
      IsWithin-append_right words (joined chunks ++ rest) all
        (split_long-IsWithin (length words) size overlap words) in
    let packs : IsWithin (joined chunks ++ (rest ++ all)) (joined chunks ++ joined packed) =
      IsWithin-append (joined chunks) (rest ++ all) (joined packed)
        (pack-IsWithin size overlap paras rest) in
    let inner : IsWithin (words ++ all) (joined chunks ++ joined packed) =
      IsWithin-trans (words ++ all) ((joined chunks ++ rest) ++ all)
        (joined chunks ++ joined packed) split (rw (append_assoc (joined chunks) rest all) packs) in
    let outer : IsWithin ((joined closed ++ words) ++ all)
        (joined closed ++ (joined chunks ++ joined packed)) =
      rw (append_assoc (joined closed) words all)
        (IsWithin-append (joined closed) (words ++ all) (joined chunks ++ joined packed) inner) in
    rw
      (
        joined-append (closed ++ chunks) packed,
        joined-append closed chunks,
        append_assoc (joined closed) (joined chunks) (joined packed),
        sym (append_assoc current para all),
      )
      (IsWithin-trans ((current ++ para) ++ all) ((joined closed ++ words) ++ all)
        (joined closed ++ (joined chunks ++ joined packed)) opened outer)

-- Every word of the text is in the chunks, and the words keep their order.
pub chunk_text-IsWithin :
    (size overlap : ℕ) (paras : List Words)
    → IsWithin (joined paras) (joined (chunk_text size overlap paras))
unfolding chunk_text
chunk_text-IsWithin size overlap paras = pack-IsWithin size overlap paras []
