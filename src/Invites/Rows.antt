-- ===== src/Invites/Rows.antt =====
-- Rows of `user_invites` by their ids, for services/config/invites.py.
use yuviz.Base.{
  ℕ, nat_beq, nat_beq_iff, Bool, true, false, some, List, [], ◌∷◌, ◌++◌, text_eq, ◌≡◌, ◌≢◌, inl,
  inr, sym, All, All-imp, All-append, none, refl, ap, arith, Bool-cases,
}
use yuviz.Invites.{Invite, is_pending, find, by_id, update_invite}

-- No row clashes with a later one.
abbrev pub Free : (Invite → Invite → Bool) → List Invite → Type 0
Free clash [] = Unit
Free clash (i ∷ is) = All (λ j. clash i j ≡ false) is × Free clash is

-- No two rows have the same id, the primary key.
abbrev pub DistinctIds : List Invite → Type 0
DistinctIds = Free (λ i j. nat_beq i.invite_id j.invite_id)

pub All-update :
    {P : Invite → Type 0} (id : ℕ) (f : Invite → Invite) (rows : List Invite)
    → ((j : Invite) → P j → P (f j))
    → All P rows
    → All P (update_invite id f rows)
unfolding update_invite
All-update id f [] keeps a = tt
All-update id f (r ∷ rows) keeps a = elim (Bool-cases (nat_beq r.invite_id id)) [
  | inl y ↦ rw y (keeps r a.0, All-update id f rows keeps a.1)
  | inr n ↦ rw n (a.0, All-update id f rows keeps a.1)
]

-- An update that makes no new clash leaves the rows free of clashes.
pub Free-update :
    (clash : Invite → Invite → Bool) (id : ℕ) (f : Invite → Invite) (rows : List Invite)
    → ((i j : Invite) → clash i j ≡ false → clash (f i) j ≡ false)
    → ((i j : Invite) → clash i j ≡ false → clash i (f j) ≡ false)
    → Free clash rows
    → Free clash (update_invite id f rows)
unfolding update_invite
Free-update clash id f [] before behind a = tt
Free-update clash id f (r ∷ rows) before behind a =
    let later = All-update id f rows (behind r) a.0 in
    let rest = Free-update clash id f rows before behind a.1 in
    elim (Bool-cases (nat_beq r.invite_id id)) [
      | inl y ↦
          rw y
            (All-imp (λ j. clash r j ≡ false) (λ j. clash (f r) j ≡ false) _ (before r) later, rest)
      | inr n ↦ rw n (later, rest)
    ]

pub Free-append :
    (clash : Invite → Invite → Bool) (rows : List Invite) (row : Invite)
    → Free clash rows
    → All (λ i. clash i row ≡ false) rows
    → Free clash (rows ++ row ∷ [])
Free-append clash [] row a n = (tt, tt)
Free-append clash (r ∷ rows) row a n = (
  All-append (λ j. clash r j ≡ false) rows (row ∷ []) a.0 (n.0, tt),
  Free-append clash rows row a.1 n.1,
)

pub every_miss :
    (p : Invite → Bool) (rows : List Invite) → find p rows ≡ none → All (λ j. p j ≡ false) rows
every_miss p [] h = tt
every_miss p (r ∷ rows) h = elim (Bool-cases (p r)) [
  | inl y ↦ ground (arith, y, h)
  | inr n ↦ (n, every_miss p rows (ground (arith, n, h)))
]

pub find_misses :
    (p : Invite → Bool) (rows : List Invite) → All (λ j. p j ≡ false) rows → find p rows ≡ none
find_misses p [] a = refl
find_misses p (r ∷ rows) a = rw a.0 (find_misses p rows a.1)

All-find :
    (P : Invite → Type 0) (p : Invite → Bool) (x : Invite) (rows : List Invite)
    → All P rows
    → find p rows ≡ some x
    → P x
All-find P p x [] a h = ground arith
All-find P p x (r ∷ rows) a h = elim (Bool-cases (p r)) [
  | inl y ↦ let same : r ≡ x = ground (arith, y, h) in rw (sym same) a.0
  | inr n ↦ All-find P p x rows a.1 (ground (arith, n, h))
]

pub find-by_id :
    (p : Invite → Bool) (x : Invite) (rows : List Invite)
    → DistinctIds rows
    → find p rows ≡ some x
    → by_id x.invite_id rows ≡ some x
find-by_id p x [] d h = ground arith
find-by_id p x (r ∷ rows) d h = elim (Bool-cases (p r)) [
  | inl y ↦
      let same : r ≡ x = ground (arith, y, h) in
      ground (arith, same, nat_beq_iff r.invite_id x.invite_id)
  | inr n ↦
      let later : find p rows ≡ some x = ground (arith, n, h) in
      rw (All-find (λ j. nat_beq r.invite_id j.invite_id ≡ false) p x rows d.0 later)
        (find-by_id p x rows d.1 later)
]

update-other :
    (k id : ℕ) (f : Invite → Invite) (i : Invite) (rows : List Invite)
    → ((j : Invite) → j.invite_id ≡ id → (f j).invite_id ≡ id)
    → k ≢ id
    → by_id k rows ≡ some i
    → by_id k (update_invite id f rows) ≡ some i
unfolding update_invite
update-other k id f i [] ok other h = ground arith
update-other k id f i (r ∷ rows) ok other h = ground (
  arith,
  ok r,
  nat_beq_iff r.invite_id id,
  nat_beq_iff r.invite_id k,
  nat_beq_iff (f r).invite_id k,
  update-other k id f i rows ok other,
)

-- An update of a pending row leaves a row alone that is not pending.
pub settled_update :
    (k id : ℕ) (f : Invite → Invite) (i j : Invite) (rows : List Invite)
    → ((j : Invite) → j.invite_id ≡ id → (f j).invite_id ≡ id)
    → by_id k rows ≡ some i
    → is_pending i.status ≡ false
    → by_id id rows ≡ some j
    → is_pending j.status ≡ true
    → by_id k (update_invite id f rows) ≡ some i
settled_update k id f i j rows ok h s g p =
    update-other k id f i rows ok (λ e. ground (arith, e, h, s, g, p)) h

pub by_id-append :
    (k : ℕ) (i : Invite) (rows more : List Invite)
    → by_id k rows ≡ some i
    → by_id k (rows ++ more) ≡ some i
by_id-append k i [] more h = ground arith
by_id-append k i (r ∷ rows) more h = ground (arith, h, by_id-append k i rows more)

update-absent :
    (id : ℕ) (f : Invite → Invite) (rows : List Invite)
    → All (λ j. nat_beq id j.invite_id ≡ false) rows
    → update_invite id f rows ≡ rows
unfolding update_invite
update-absent id f [] a = refl
update-absent id f (r ∷ rows) a =
    ground
      (arith, a, nat_beq_iff id r.invite_id, nat_beq_iff r.invite_id id, update-absent id f rows)

-- Of rows with distinct ids an update changes one, so that only its image matters.
pub update_once :
    (id : ℕ) (f g : Invite → Invite) (old : Invite) (rows : List Invite)
    → DistinctIds rows
    → by_id id rows ≡ some old
    → f old ≡ g old
    → update_invite id f rows ≡ update_invite id g rows
unfolding update_invite
update_once id f g old [] d h e = refl
update_once id f g old (r ∷ rows) d h e = elim (Bool-cases (nat_beq r.invite_id id)) [
  | inl y ↦
      let same : r ≡ old = ground (arith, y, h) in
      let key : r.invite_id ≡ id = (nat_beq_iff r.invite_id id).0 y in
      let apart : All (λ j. nat_beq id j.invite_id ≡ false) rows = rw key at d.0 in
      rw (y, update-absent id f rows apart, update-absent id g rows apart, same, e) refl
  | inr n ↦ rw n (ap (◌∷◌ r) (update_once id f g old rows d.1 (ground (arith, n, h)) e))
]
