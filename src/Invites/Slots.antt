-- ===== src/Invites/Slots.antt =====
-- The pending rows of services/config/invites.py: one for a tenant and an address at the most, which
-- is what the index `user_invites_pending_email_idx` asks for, and what `create_invite` makes of it.
use yuviz.Base.{
  ℕ, nat_beq, nat_beq_iff, ap, leb, Bool, true, false, ◌&&◌, Option, none, some, List, [], ◌∷◌,
  ◌++◌, any, is_some, Text, text_eq, text_beq_iff, ◌==◌, ◌≡◌, ◌↔◌, inl, inr, refl, All, All-imp,
  arith, Bool-cases, Option-cases, subst, IsIn, any-IsIn, IsIn-any,
}
use yuviz.Workflow.Words.{lower, lower_char}
use yuviz.Invites.{
  Role, Invite, User, Tenant, Tables, done, keys_hold, revoked, is_pending, same_tenant, may_invite,
  may_grant, find, update_invite, pending_slot, reclaim, create_invite, invite_created, new_invite,
  get_user_by_email,
}
use yuviz.Invites.Matrix.{same_tenant_iff}
use yuviz.Invites.Rows.{Free, DistinctIds, All-update, find_misses, Free-update}

-- two rows that the index does not let stand together
abbrev pub same_slot : Invite → Invite → Bool
same_slot i j =
    is_pending i.status
    && (is_pending j.status
        && (same_tenant i.tenant_id j.tenant_id && lower i.email == lower j.email))

pub record IsKept (rows : List Invite) : Type 0 where
  pub distinct : DistinctIds rows
  pub slots : Free same_slot rows

pub lower_idem : (s : Text) → lower (lower s) ≡ lower s
unfolding lower lower_char
lower_idem [] = refl
lower_idem (c ∷ s) = ground (arith, lower_idem s)

-- what `pending_slot` looks for
abbrev pub fills : Option ℕ → Text → Invite → Bool
fills t email i = is_pending i.status && same_tenant i.tenant_id t && lower i.email == email

-- Rows that fill one slot clash.
fills-same_slot :
    (t : Option ℕ) (email : Text) (i j : Invite)
    → fills t email i ≡ true
    → same_slot i j ≡ false
    → fills t email j ≡ false
fills-same_slot t email i j p c = ground (
  arith,
  p,
  c,
  same_tenant_iff i.tenant_id t,
  same_tenant_iff j.tenant_id t,
  same_tenant_iff i.tenant_id j.tenant_id,
  text_beq_iff (lower i.email) email,
  text_beq_iff (lower j.email) email,
  text_beq_iff (lower i.email) (lower j.email),
)

abbrev pub revoke_row : Invite → Invite
revoke_row i = record i { status = revoked }

-- Once the row that fills a slot is revoked, the slot is free.
pub slot_freed :
    (t : Option ℕ) (email : Text) (slot : Invite) (rows : List Invite)
    → Free same_slot rows
    → find (fills t email) rows ≡ some slot
    → find (fills t email) (update_invite slot.invite_id revoke_row rows) ≡ none
unfolding update_invite
slot_freed t email slot [] f h = refl
slot_freed t email slot (r ∷ rows) f h = elim (Bool-cases (fills t email r)) [
  | inl y ↦
      let same : r ≡ slot = ground (arith, y, h) in
      let rest = find_misses (fills t email) (update_invite slot.invite_id revoke_row rows) (
        All-update slot.invite_id revoke_row rows (λ j n. ground arith)
          (All-imp (λ j. same_slot r j ≡ false) (λ j. fills t email j ≡ false) rows
            (λ j. fills-same_slot t email r j y) f.0)) in
      rw ((nat_beq_iff r.invite_id slot.invite_id).1 (ap (λ i. i.invite_id) same)) rest
  | inr n ↦
      let rest = slot_freed t email slot rows f.1 (ground (arith, n, h)) in
      elim (Bool-cases (nat_beq r.invite_id slot.invite_id)) [
        | inl y ↦ rw y rest
        | inr m ↦ rw (m, n) rest
      ]
]

-- Whether an invite for the slot can be created: the slot is free, or its invite has expired and is
-- one that the actor could revoke.
abbrev pub slot_is_open : ℕ → User → Option Invite → Bool
slot_is_open now actor none = true
slot_is_open now actor (some slot) = leb slot.expires_at now && may_grant actor slot

pub revoke-IsKept :
    (id : ℕ) (f : Invite → Invite) (rows : List Invite)
    → ((i : Invite) → (f i).invite_id ≡ i.invite_id)
    → ((i : Invite) → is_pending (f i).status ≡ false)
    → IsKept rows
    → IsKept (update_invite id f rows)
revoke-IsKept id f rows same gone k = record {
  distinct = Free-update _ id f rows (λ i j n. rw (same i) n) (λ i j n. rw (same j) n) k.distinct;
  slots =
      Free-update same_slot id f rows (λ i j n. rw (gone i) refl) (λ i j n. ground (arith, gone j))
        k.slots;
}

any-update :
    (hash : Text) (id : ℕ) (rows : List Invite)
    → any (λ i. i.token_hash == hash) (update_invite id revoke_row rows)
      ≡ any (λ i. i.token_hash == hash) rows
unfolding update_invite
any-update hash id [] = refl
any-update hash id (r ∷ rows) = ground (arith, any-update hash id rows)

module _ (now : ℕ) (actor : User) (t : Option ℕ) (email : Text) (db : Tables) where
  abbrev pub cleared : Tables
  cleared = reclaim now actor (pending_slot t email db.invites) db

  -- What holds of the rows, with and without the row of the slot revoked, holds once it is cleared.
  reclaim-elim :
      (P : List Invite → Type 0)
      → ((slot : Invite) → P (update_invite slot.invite_id revoke_row db.invites))
      → P db.invites
      → P cleared.invites
  unfolding reclaim
  reclaim-elim P gone k = elim (Option-cases (pending_slot t email db.invites)) [
    | inl e ↦ rw e k
    | inr (slot, e) ↦ elim (Bool-cases (leb slot.expires_at now && may_grant actor slot)) [
      | inl y ↦ rw (e, y) (gone slot)
      | inr n ↦ rw (e, n) k
    ]
  ]

  slot_iff :
      IsKept db.invites
      → (is_some (pending_slot t email cleared.invites) ≡ false)
        ↔ (slot_is_open now actor (pending_slot t email db.invites) ≡ true)
  unfolding pending_slot reclaim
  slot_iff k = elim (Option-cases (find (fills t email) db.invites)) [
    | inl e ↦ rw (e, e) (ground arith)
    | inr (slot, e) ↦ elim (Bool-cases (leb slot.expires_at now && may_grant actor slot)) [
      | inl y ↦ rw (e, y, slot_freed t email slot db.invites k.slots e) (ground arith)
      | inr n ↦ rw (e, n, e) (ground arith)
    ]
  ]

  hash_cleared :
      (hash : Text)
      → any (λ i. i.token_hash == hash) cleared.invites ≡ any (λ i. i.token_hash == hash) db.invites
  hash_cleared hash =
      reclaim-elim
        (λ rows. any (λ i. i.token_hash == hash) rows ≡ any (λ i. i.token_hash == hash) db.invites)
        (λ slot. any-update hash slot.invite_id db.invites) refl

  pub reclaim-IsKept : IsKept db.invites → IsKept cleared.invites
  reclaim-IsKept k =
      reclaim-elim IsKept
        (λ slot. revoke-IsKept slot.invite_id revoke_row db.invites (λ i. refl) (λ i. refl) k) k

  pub reclaim-fresh :
      (id : ℕ)
      → All (λ i. nat_beq i.invite_id id ≡ false) db.invites
      → All (λ i. nat_beq i.invite_id id ≡ false) cleared.invites
  reclaim-fresh id fresh =
      reclaim-elim (All (λ i. nat_beq i.invite_id id ≡ false))
        (λ slot. All-update slot.invite_id revoke_row db.invites (λ i n. n) fresh) fresh

-- the tenant of a new invite, if it has one, and the actor have rows
pub record HasKeys (t : Option ℕ) (actor : User) (db : Tables) : Type 0 where
  pub tenant : (id : ℕ) → t ≡ some id → (row : Tenant) × IsIn row db.tenants × (row.tenant_id ≡ id)
  pub sender : (row : User) × IsIn row db.users × (row.user_id ≡ actor.user_id)

-- the check of the keys, and what it stands for
keys_iff :
    (t : Option ℕ) (actor : User) (db : Tables)
    → (keys_hold t actor.user_id db ≡ true) ↔ HasKeys t actor db
keys_iff t actor db = (
  λ h. record {
    tenant = λ id e.
        let (row, held, is_it) =
          any-IsIn (λ r. nat_beq r.tenant_id id) db.tenants
            (elim (Option-cases t) [
              | inl n ↦ ground (arith, n, e)
              | inr (j, s) ↦
                  let same : j ≡ id = ground (arith, s, e) in
                  let hit : any (λ r. nat_beq r.tenant_id j) db.tenants ≡ true =
                    ground (arith, s, h) in
                  subst (λ (i : ℕ). any (λ r. nat_beq r.tenant_id i) db.tenants ≡ true) same hit
            ]) in
        (row, held, (nat_beq_iff row.tenant_id id).0 is_it);
    sender =
        let (row, held, is_it) =
          any-IsIn (λ u. nat_beq u.user_id actor.user_id) db.users (ground (arith, h)) in
        (row, held, (nat_beq_iff row.user_id actor.user_id).0 is_it);
  },
  λ k.
      let (sender, held, same) = k.sender in
      let sent =
        IsIn-any (λ u. nat_beq u.user_id actor.user_id) db.users sender held
          ((nat_beq_iff sender.user_id actor.user_id).1 same) in
      elim (Option-cases t) [
        | inl none_of ↦ rw (none_of, sent) refl
        | inr (id, some_of) ↦
            let (row, at, is_it) = k.tenant id some_of in
            let has =
              IsIn-any (λ r. nat_beq r.tenant_id id) db.tenants row at
                ((nat_beq_iff row.tenant_id id).1 is_it) in
            rw (some_of, has, sent) refl
      ],
)

-- An invite is created exactly if the actor may grant it, the address has no account, the token is
-- new, the tenant, if one is given, and the actor have rows, and the slot of the tenant and the address
-- is free, or held by an invite that has expired and that the actor could revoke.
pub create_invite_iff :
    (now id : ℕ) (hash address : Text) (role : Role) (t : Option ℕ) (team : Option Text)
    (actor : User) (db : Tables)
    → IsKept db.invites
    → ((after : Tables) × (create_invite now id hash address role t team actor db
          ≡ done (new_invite now id hash (lower address) role t team actor, after)))
      ↔ ((may_invite actor.role actor.tenant_id role t ≡ true)
          × (get_user_by_email (lower address) db.users ≡ none)
          × (any (λ i. i.token_hash == hash) db.invites ≡ false)
          × HasKeys t actor db
          × (slot_is_open now actor (pending_slot t (lower address) db.invites) ≡ true))
unfolding create_invite
create_invite_iff now id hash address role t team actor db k =
    let slot = slot_iff now actor t (lower address) db k in
    let db1 = cleared now actor t (lower address) db in
    let token = hash_cleared now actor t (lower address) db hash in
    let keys = keys_iff t actor db in
    elim (Option-cases (get_user_by_email (lower address) db.users)) [
      | inl e ↦ (
        λ (after, h).
            let held : keys_hold t actor.user_id db ≡ true = ground (arith, e, h, slot, token) in
            ground (arith, e, h, slot, token, keys.0 held),
        λ (m, u, n, f, o). (
          record db1 {
            invites = db1.invites ++ new_invite now id hash (lower address) role t team actor ∷ [];
            audits = db1.audits ++ invite_created id actor.user_id ∷ [];
          },
          rw (m, u, slot.1 o, token, n, keys.1 f) refl,
        ),
      )
      | inr (u, e) ↦ ground (arith, e)
    ]
