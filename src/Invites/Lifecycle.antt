-- ===== src/Invites/Lifecycle.antt =====
-- The life of an invite in services/config/invites.py: every operation needs the right to grant the
-- invite, and one that was accepted or revoked stays as it is.
use yuviz.Base.{
  ℕ, nat_beq, nat_beq_iff, leb, true, false, ◌&&◌, Option, some, List, [], ◌∷◌, ◌++◌, Text, text_eq,
  ◌==◌, ◌≡◌, inl, inr, refl, ◌+◌, arith, Bool-cases, Option-cases,
}
use yuviz.Workflow.Words.{lower}
use yuviz.Invites.{
  Role, Invite, User, Tables, Outcome, done, raised, accepted, revoked, is_pending, same_tenant,
  by_id, update_invite, may_grant, pending_slot, reclaim, create_invite, resend_invite,
  revoke_invite, accept_invite, get_user_by_email, cools_down, invite_ttl,
}
use yuviz.Invites.Accepting.{
  find_passes, classify-done, insert_user-done, accept-inv, Outcome-cases,
}
use yuviz.Invites.Rows.{DistinctIds, find-by_id, settled_update, by_id-append}

-- What `create_invite`, `resend_invite` and `revoke_invite` need and do, where they do not raise.
pub create-done :
    (now id : ℕ) (hash address : Text) (role : Role) (t : Option ℕ) (team : Option Text)
    (actor : User) (db : Tables) (row : Invite) (after : Tables)
    → create_invite now id hash address role t team actor db ≡ done (row, after)
    → (may_grant actor row ≡ true)
      × (after.invites
          ≡ (reclaim now actor (pending_slot t (lower address) db.invites) db).invites ++ row ∷ [])
unfolding create_invite
create-done now id hash address role t team actor db row after h =
    elim (Option-cases (get_user_by_email (lower address) db.users)) [
      | inl e ↦ ground (arith, e, h)
      | inr (u, e) ↦ ground (arith, e, h)
    ]

pub resend-done :
    (now id : ℕ) (hash : Text) (actor : User) (db : Tables) (row : Invite) (after : Tables)
    → resend_invite now id hash actor db ≡ done (row, after)
    → (old : Invite) × (by_id id db.invites ≡ some old)
      × (may_grant actor old ≡ true)
      × (is_pending old.status ≡ true)
      × (cools_down now old.last_sent_at ≡ false)
      × (row ≡ record old {
        token_hash = hash;
        last_sent_at = some now;
        expires_at = now + invite_ttl;
      })
      × (after.invites ≡ update_invite id (λ _. row) db.invites)
unfolding resend_invite
resend-done now id hash actor db row after h = elim (Option-cases (by_id id db.invites)) [
  | inl e ↦ ground (arith, e, h)
  | inr (old, e) ↦
      let same : row ≡ record old {
        token_hash = hash;
        last_sent_at = some now;
        expires_at = now + invite_ttl;
      } =
        ground (arith, e, h) in
      (
        old,
        e,
        ground (arith, e, h),
        ground (arith, e, h),
        ground (arith, e, h),
        same,
        rw same (ground (arith, e, h)),
      )
]

pub revoke-done :
    (id : ℕ) (actor : User) (db : Tables) (row : Invite) (after : Tables)
    → revoke_invite id actor db ≡ done (row, after)
    → (old : Invite) × (by_id id db.invites ≡ some old)
      × (may_grant actor old ≡ true)
      × (is_pending old.status ≡ true)
      × (row ≡ record old { status = revoked })
      × (after.invites ≡ update_invite id (λ _. row) db.invites)
unfolding revoke_invite
revoke-done id actor db row after h = elim (Option-cases (by_id id db.invites)) [
  | inl e ↦ ground (arith, e, h)
  | inr (old, e) ↦
      let same : row ≡ record old { status = revoked } = ground (arith, e, h) in
      (old, e, ground (arith, e, h), ground (arith, e, h), same, rw same (ground (arith, e, h)))
]

-- A request to the service, at its time and with what is drawn for it.
pub data Request : Type 0 where
  create : ℕ → ℕ → Text → Text → Role → Option ℕ → Option Text → User → Request
  resend : ℕ → ℕ → Text → User → Request
  revoke : ℕ → User → Request
  accept : ℕ → ℕ → Text → Request

-- The tables after a transaction: as they were, if it raised.
abbrev pub committed {ℓ} : {A : Type ℓ} → Outcome (A × Tables) → Tables → Tables
committed (done (_, after)) db = after
committed (raised _) db = db

unfoldable pub perform : Request → Tables → Tables
perform (create now id hash address role t team actor) db =
    committed (create_invite now id hash address role t team actor db) db
perform (resend now id hash actor) db = committed (resend_invite now id hash actor db) db
perform (revoke id actor) db = committed (revoke_invite id actor db) db
perform (accept now id hash) db = committed (accept_invite now id hash db) db

slot-pending :
    (t : Option ℕ) (email : Text) (rows : List Invite) (slot : Invite)
    → pending_slot t email rows ≡ some slot
    → DistinctIds rows
    → (is_pending slot.status ≡ true) × (by_id slot.invite_id rows ≡ some slot)
unfolding pending_slot
slot-pending t email rows slot h d =
    let passes =
      find_passes (λ i. is_pending i.status && same_tenant i.tenant_id t && lower i.email == email)
        slot rows h in
    (
      ground (arith, passes),
      find-by_id (λ i. is_pending i.status && same_tenant i.tenant_id t && lower i.email == email)
          slot rows d h,
    )

reclaim-stays :
    (now k : ℕ) (actor : User) (t : Option ℕ) (email : Text) (db : Tables) (i : Invite)
    → DistinctIds db.invites
    → by_id k db.invites ≡ some i
    → is_pending i.status ≡ false
    → by_id k (reclaim now actor (pending_slot t email db.invites) db).invites ≡ some i
unfolding reclaim
reclaim-stays now k actor t email db i d h s =
    elim (Option-cases (pending_slot t email db.invites)) [
      | inl e ↦ rw e h
      | inr (slot, e) ↦
          let (p, found) = slot-pending t email db.invites slot e d in
          let stays =
            settled_update k slot.invite_id (λ j. record j { status = revoked }) i slot db.invites
              (λ j same. same) h s found p in
          rw e (elim (Bool-cases (leb slot.expires_at now && may_grant actor slot)) [
            | inl y ↦ rw y stays
            | inr n ↦ rw n h
          ])
    ]

create-stays :
    (now id : ℕ) (hash address : Text) (role : Role) (t : Option ℕ) (team : Option Text)
    (actor : User) (db : Tables) (k : ℕ) (i : Invite)
    → DistinctIds db.invites
    → by_id k db.invites ≡ some i
    → is_pending i.status ≡ false
    → by_id k (committed (create_invite now id hash address role t team actor db) db).invites
      ≡ some i
create-stays now id hash address role t team actor db k i d h s =
    elim (Outcome-cases (create_invite now id hash address role t team actor db)) [
      | inl (e, r) ↦ rw r h
      | inr ((row, after), r) ↦
          let (_, rows) = create-done now id hash address role t team actor db row after r in
          rw (r, rows)
            (by_id-append k i _ _ (reclaim-stays now k actor t (lower address) db i d h s))
    ]

resend-stays :
    (now id : ℕ) (hash : Text) (actor : User) (db : Tables) (k : ℕ) (i : Invite)
    → by_id k db.invites ≡ some i
    → is_pending i.status ≡ false
    → by_id k (committed (resend_invite now id hash actor db) db).invites ≡ some i
resend-stays now id hash actor db k i h s =
    elim (Outcome-cases (resend_invite now id hash actor db)) [
      | inl (e, r) ↦ rw r h
      | inr ((row, after), r) ↦
          let (old, found, _, p, _, same, rows) = resend-done now id hash actor db row after r in
          let keyed : row.invite_id ≡ id = rw same (
            (nat_beq_iff old.invite_id id).0
              (find_passes (λ i. nat_beq i.invite_id id) old db.invites found)) in
          rw (r, rows) (settled_update k id (λ _. row) i old db.invites (λ j _. keyed) h s found p)
    ]

revoke-stays :
    (id : ℕ) (actor : User) (db : Tables) (k : ℕ) (i : Invite)
    → by_id k db.invites ≡ some i
    → is_pending i.status ≡ false
    → by_id k (committed (revoke_invite id actor db) db).invites ≡ some i
revoke-stays id actor db k i h s = elim (Outcome-cases (revoke_invite id actor db)) [
  | inl (e, r) ↦ rw r h
  | inr ((row, after), r) ↦
      let (old, found, _, p, same, rows) = revoke-done id actor db row after r in
      let keyed : row.invite_id ≡ id = rw same (
        (nat_beq_iff old.invite_id id).0
          (find_passes (λ i. nat_beq i.invite_id id) old db.invites found)) in
      rw (r, rows) (settled_update k id (λ _. row) i old db.invites (λ j _. keyed) h s found p)
]

accept-stays :
    (now id : ℕ) (hash : Text) (db : Tables) (k : ℕ) (i : Invite)
    → DistinctIds db.invites
    → by_id k db.invites ≡ some i
    → is_pending i.status ≡ false
    → by_id k (committed (accept_invite now id hash db) db).invites ≡ some i
accept-stays now id hash db k i d h s = elim (Outcome-cases (accept_invite now id hash db)) [
  | inl (e, r) ↦ rw r h
  | inr ((user, after), r) ↦
      let (old, db1, c, _, ins, rows, _) = accept-inv now id hash db user after r in
      let (found, p, _) = classify-done now hash db old c in
      let (_, _, same) = insert_user-done id old db user db1 ins in
      let key = find-by_id (λ i. i.token_hash == hash) old db.invites d found in
      rw (r, rows, same)
        (settled_update k old.invite_id
          (λ i. record i { status = accepted; accepted_user_id = some user.user_id }) i old
          db.invites (λ j e. e) h s key (rw p refl))
]

-- An invite that was accepted or revoked stays as it is, whatever is requested, by whom and when.
pub settled_stays :
    (request : Request) (db : Tables) (k : ℕ) (i : Invite)
    → DistinctIds db.invites
    → by_id k db.invites ≡ some i
    → is_pending i.status ≡ false
    → by_id k (perform request db).invites ≡ some i
unfolding perform
settled_stays (create now id hash address role t team actor) db k i d h s =
    create-stays now id hash address role t team actor db k i d h s
settled_stays (resend now id hash actor) db k i d h s = resend-stays now id hash actor db k i h s
settled_stays (revoke id actor) db k i d h s = revoke-stays id actor db k i h s
settled_stays (accept now id hash) db k i d h s = accept-stays now id hash db k i d h s
