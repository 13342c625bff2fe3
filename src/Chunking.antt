-- ===== src/Chunking.antt =====
-- services/knowledge/chunking.py: `chunk_text`, from the point where the text is split into
-- paragraphs with a word, and each of these into its words.
pub mod Sizes
pub mod Kept
pub mod Endless
use yuviz.Base.{
  ℕ, zero, suc, ◌+◌, ◌-◌, Bool, true, false, not, ◌&&◌, List, [], ◌∷◌, ◌++◌, length, take, drop,
  ltb, nat_beq, Text, if◌then◌else◌,
}

-- a list of words; a `Chunk` is its words, and `token_count` their number
abbrev pub Words : Type 0
Words = List Text

abbrev pub token_count : Words → ℕ
token_count c = length c

-- `words[-overlap:] if overlap else []`
unfoldable pub tail : ℕ → Words → Words
tail overlap words = if nat_beq overlap 0 then [] else drop (length words - overlap) words

-- The loop `while len(current_words) > chunk_size`, with fuel: the chunks, and the words left.
unfoldable pub split_long : ℕ → ℕ → ℕ → Words → List Words × Words
split_long zero size overlap words = ([], words)
split_long (suc fuel) size overlap words =
    let head = take size words in
    let (chunks, rest) = split_long fuel size overlap (tail overlap head ++ drop size words) in
    if ltb size (length words) then (head ∷ chunks, rest) else ([], words)

abbrev pub has_words : Words → Bool
has_words [] = false
has_words (_ ∷ _) = true

-- the start of the loop over the paragraphs: the chunk that is closed, and the current words
unfoldable pub extend : ℕ → ℕ → Words → Words → List Words × Words
extend size overlap current para =
    if has_words current && ltb size (length current + length para)
    then (current ∷ [], tail overlap current ++ para)
    else ([], current ++ para)

-- The loop over the paragraphs. Each round of the inner loop takes a word off at least, so that as
-- much fuel as there are words is enough.
unfoldable pub pack : ℕ → ℕ → List Words → Words → List Words
pack size overlap [] current = if has_words current then current ∷ [] else []
pack size overlap (para ∷ paras) current =
    let (closed, words) = extend size overlap current para in
    let (chunks, rest) = split_long (length words) size overlap words in
    closed ++ chunks ++ pack size overlap paras rest

-- `chunk_text`
unfoldable pub chunk_text : ℕ → ℕ → List Words → List Words
chunk_text size overlap paras = pack size overlap paras []
