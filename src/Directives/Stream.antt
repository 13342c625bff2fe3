-- ===== src/Directives/Stream.antt =====
-- `StreamBuffer` of directives.py.
use yuviz.Base.{
  ℕ, zero, suc, ◌≡◌, ◌∙◌, ◌⊎◌, inl, inr, ap, sym, refl, true, false, some, List, [], ◌∷◌, ◌++◌,
  append_assoc, append-nil, Text, drop, take-append-drop, arith, Option-cases, Bool-cases,
}
use yuviz.Directives.{is_pair, rfind_open, has_close, feed, feed_all}

-- The texts, joined.
abbrev pub concat : List Text → Text
concat [] = []
concat (t ∷ ts) = t ++ concat ts

feed-append :
    (pending chunk : Text) → (feed pending chunk).0 ++ (feed pending chunk).1 ≡ pending ++ chunk
unfolding feed
feed-append pending chunk = elim (Option-cases (rfind_open (pending ++ chunk))) [
  | inl e ↦ rw (e, feed) (append-nil (pending ++ chunk))
  | inr (i, e) ↦
      rw (e, feed)
        (elim (Bool-cases (has_close (drop i (pending ++ chunk)))) [
          | inl c ↦ rw c (append-nil (pending ++ chunk))
          | inr c ↦ rw c (take-append-drop i (pending ++ chunk))
        ])
]

-- Nothing of a stream is lost, repeated or reordered: the safe texts, joined, and the text that
-- `flush` returns make up the pending text and all chunks.
pub feed_all-append :
    (pending : Text) (chunks : List Text)
    → concat (feed_all pending chunks).0 ++ (feed_all pending chunks).1 ≡ pending ++ concat chunks
unfolding feed_all
feed_all-append pending [] = sym (append-nil pending)
feed_all-append pending (chunk ∷ chunks) =
    let (safe, pending') = feed pending chunk in
    append_assoc safe (concat (feed_all pending' chunks).0) (feed_all pending' chunks).1
    ∙ ap (λ (t : Text). safe ++ t) (feed_all-append pending' chunks)
    ∙ sym (append_assoc safe pending' (concat chunks))
    ∙ ap (λ (t : Text). t ++ concat chunks) (feed-append pending chunk)
    ∙ append_assoc pending chunk (concat chunks)

rfind_open-is_pair : (s : Text) (i : ℕ) → rfind_open s ≡ some i → is_pair b'[' (drop i s) ≡ true
unfolding rfind_open
rfind_open-is_pair [] i e = cc
rfind_open-is_pair (c ∷ s) zero e = elim (Option-cases (rfind_open s)) [
  | inl n ↦ ground arith
  | inr (j, f) ↦ ground arith
]
rfind_open-is_pair (c ∷ s) (suc i) e = elim (Option-cases (rfind_open s)) [
  | inl n ↦ ground arith
  | inr (j, f) ↦ rfind_open-is_pair s i (ground arith)
]

-- What `feed` holds back is nothing, or a text that opens with `[[` and has no `]]`; the next call
-- of `feed` or `flush` starts from that.
pub feed_holds_open_tag :
    (pending chunk : Text)
    → let held = (feed pending chunk).1 in
      (held ≡ []) ⊎ ((is_pair b'[' held ≡ true) × (has_close held ≡ false))
unfolding feed
feed_holds_open_tag pending chunk = elim (Option-cases (rfind_open (pending ++ chunk))) [
  | inl e ↦ rw (e, feed) (inl refl)
  | inr (i, e) ↦
      rw (e, feed)
        (elim (Bool-cases (has_close (drop i (pending ++ chunk)))) [
          | inl c ↦ rw c (inl refl)
          | inr c ↦ rw c (inr (rfind_open-is_pair (pending ++ chunk) i e, c))
        ])
]
