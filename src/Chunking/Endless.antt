-- ===== src/Chunking/Endless.antt =====
-- `chunk_text` of services/knowledge/chunking.py, where the overlap is not below the size.
use yuviz.Base.{
  ℕ, zero, suc, ◌-◌, ◌≤◌, ◌<◌, [], ◌∷◌, ◌++◌, length, take, drop, nat_beq_iff, ◌≡◌, refl, arith,
  length-take, take-append-drop,
}
use yuviz.Chunking.{Words, tail, split_long}
use yuviz.Chunking.Sizes.{split_long-step}

drop_none : (n : ℕ) (words : Words) → n ≡ 0 → drop n words ≡ words
drop_none n words h = rw h refl

tail_whole : (overlap : ℕ) (words : Words) → length words ≤ overlap → tail overlap words ≡ words
unfolding tail
tail_whole overlap [] h = ground arith
tail_whole overlap (w ∷ words) h =
    ground (arith, nat_beq_iff overlap 0, drop_none (length (w ∷ words) - overlap) (w ∷ words))

split_long-start : (size overlap : ℕ) (words : Words) → (split_long 0 size overlap words).1 ≡ words
unfolding split_long
split_long-start size overlap words = refl

-- With an overlap of the size or more, the inner loop of `chunk_text` leaves a list of words that is
-- longer than the size as it is, round after round, and does not end.
pub split_long_endless :
    (fuel size overlap : ℕ) (words : Words)
    → size ≤ overlap
    → size < length words
    → (split_long fuel size overlap words).1 ≡ words
split_long_endless zero size overlap words o s = split_long-start size overlap words
split_long_endless (suc fuel) size overlap words o s =
    let again : tail overlap (take size words) ++ drop size words ≡ words =
      rw (tail_whole overlap (take size words) (omega (arith, o, length-take size words)))
        (take-append-drop size words) in
    rw (split_long-step fuel size overlap words s, again)
      (split_long_endless fuel size overlap words o s)
