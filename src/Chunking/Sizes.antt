-- ===== src/Chunking/Sizes.antt =====
-- `chunk_text` of services/knowledge/chunking.py: the inner loop ends, and no chunk is too long.
use yuviz.Base.{
  ℕ, zero, suc, ◌+◌, ◌-◌, ◌≤◌, ◌<◌, ◌&&◌, List, [], ◌∷◌, ◌++◌, length, take, drop, ltb, nat_beq_iff,
  ◌≡◌, ◌⊎◌, refl, arith, All, All-append, length-append, length-take, length-drop, Bool-cases, inl,
  inr,
}
use yuviz.Chunking.{Words, tail, split_long, has_words, extend, pack, chunk_text}

pub length-tail : (overlap : ℕ) (words : Words) → length (tail overlap words) ≤ overlap
unfolding tail
length-tail overlap words =
    ground (arith, nat_beq_iff overlap 0, length-drop (length words - overlap) words)

-- the words left after a round of the inner loop
next_length :
    (size overlap : ℕ) (words : Words)
    → overlap < size
    → size < length words
    → length (tail overlap (take size words) ++ drop size words) < length words
next_length size overlap words o s = omega (
  arith,
  o,
  s,
  length-append (tail overlap (take size words)) (drop size words),
  length-tail overlap (take size words),
  length-drop size words,
)

pub split_long-step :
    (fuel size overlap : ℕ) (words : Words)
    → size < length words
    → split_long (suc fuel) size overlap words ≡ (
      take size words
          ∷ (split_long fuel size overlap (tail overlap (take size words) ++ drop size words)).0,
      (split_long fuel size overlap (tail overlap (take size words) ++ drop size words)).1,
    )
unfolding split_long
split_long-step fuel size overlap words s = ground (arith, s)

pub split_long-stop :
    (fuel size overlap : ℕ) (words : Words)
    → length words ≤ size
    → split_long fuel size overlap words ≡ ([], words)
unfolding split_long
split_long-stop zero size overlap words s = refl
split_long-stop (suc fuel) size overlap words s = ground (arith, s)

pub ltb-cases : (a b : ℕ) → (a < b) ⊎ (b ≤ a)
ltb-cases a b = ground arith

-- With an overlap below the size, as much fuel as there are words ends the loop: the words that are
-- left fit, and so does every chunk.
pub split_long-fits :
    (fuel size overlap : ℕ) (words : Words)
    → overlap < size
    → length words ≤ fuel
    → (length (split_long fuel size overlap words).1 ≤ size)
      × All (λ c. length c ≤ size) (split_long fuel size overlap words).0
split_long-fits zero size overlap words o f =
    rw (split_long-stop zero size overlap words (omega (arith, f))) (omega (arith, f), tt)
split_long-fits (suc fuel) size overlap words o f = elim (ltb-cases size (length words)) [
  | inr short ↦ rw (split_long-stop (suc fuel) size overlap words short) (short, tt)
  | inl long ↦
      let next = tail overlap (take size words) ++ drop size words in
      let (fits, all_fit) =
        split_long-fits fuel size overlap next o
          (omega (arith, f, next_length size overlap words o long)) in
      rw (split_long-step fuel size overlap words long)
        (fits, (omega (arith, length-take size words), all_fit))
]

extend-fits :
    (size overlap : ℕ) (current para : Words)
    → length current ≤ size
    → All (λ c. length c ≤ size) (extend size overlap current para).0
unfolding extend
extend-fits size overlap current para h =
    elim (Bool-cases (has_words current && ltb size (length current + length para))) [
      | inl y ↦ rw y (h, tt)
      | inr n ↦ rw n tt
    ]

pub pack-fits :
    (size overlap : ℕ) (paras : List Words) (current : Words)
    → overlap < size
    → length current ≤ size
    → All (λ c. length c ≤ size) (pack size overlap paras current)
unfolding pack
pack-fits size overlap [] current o h = elim (Bool-cases (has_words current)) [
  | inl y ↦ rw y (h, tt)
  | inr n ↦ rw n tt
]
pack-fits size overlap (para ∷ paras) current o h =
    let (closed, words) = extend size overlap current para in
    let split = split_long (length words) size overlap words in
    let (fits, all_fit) = split_long-fits (length words) size overlap words o (omega arith) in
    All-append (λ c. length c ≤ size) (closed ++ split.0) (pack size overlap paras split.1)
      (All-append (λ c. length c ≤ size) closed split.0 (extend-fits size overlap current para h)
        all_fit)
      (pack-fits size overlap paras split.1 o fits)

-- With an overlap below the size, no chunk has more words than the size.
pub chunk_text-fits :
    (size overlap : ℕ) (paras : List Words)
    → overlap < size
    → All (λ c. length c ≤ size) (chunk_text size overlap paras)
unfolding chunk_text
chunk_text-fits size overlap paras o = pack-fits size overlap paras [] o (omega arith)
