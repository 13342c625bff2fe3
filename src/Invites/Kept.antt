-- ===== src/Invites/Kept.antt =====
-- Any requests to services/config/invites.py, one after another: what the table of invites keeps.
use yuviz.Base.{
  ℕ, ◌+◌, nat_beq, false, Option, none, some, List, [], ◌∷◌, is_some, Text, text_eq, ◌≡◌, inl, inr,
  refl, All, All-imp, arith, Option-cases,
}
use yuviz.Workflow.Words.{lower}
use yuviz.Invites.{
  by_id, Role, Invite, User, Tables, done, is_pending, find, pending_slot, create_invite,
  resend_invite, revoke_invite, accept_invite, invite_ttl, new_invite, get_user_by_email,
}
use yuviz.Invites.Accepting.{Outcome-cases, accept-inv, insert_user-done}
use yuviz.Invites.Lifecycle.{
  Request, create, resend, revoke, accept, perform, committed, create-done, resend-done,
  revoke-done, settled_stays,
}
use yuviz.Invites.Rows.{Free-append, update_once, every_miss, Free-update}
use yuviz.Invites.Slots.{
  IsKept, same_slot, lower_idem, fills, revoke_row, cleared, reclaim-IsKept, reclaim-fresh,
  revoke-IsKept,
}

-- What a request draws is new: a created row has no id of another. The database draws it.
abbrev pub IsFresh : Request → List Invite → Type 0
IsFresh (create now id hash address role t team actor) rows =
    All (λ i. nat_beq i.invite_id id ≡ false) rows
IsFresh _ rows = Unit

-- A created row is new, and found its slot free.
create_row :
    (now id : ℕ) (hash address : Text) (role : Role) (t : Option ℕ) (team : Option Text)
    (actor : User) (db : Tables) (row : Invite) (after : Tables)
    → create_invite now id hash address role t team actor db ≡ done (row, after)
    → (row ≡ new_invite now id hash (lower address) role t team actor)
      × (is_some (pending_slot t (lower address) (cleared now actor t (lower address) db).invites)
          ≡ false)
unfolding create_invite
create_row now id hash address role t team actor db row after h =
    elim (Option-cases (get_user_by_email (lower address) db.users)) [
      | inl e ↦ ground (arith, e, h)
      | inr (u, e) ↦ ground (arith, e, h)
    ]

unfilled :
    (t : Option ℕ) (email : Text) (rows : List Invite)
    → is_some (pending_slot t email rows) ≡ false
    → find (fills t email) rows ≡ none
unfolding pending_slot
unfilled t email rows h = ground (arith, h)

create-IsKept :
    (now id : ℕ) (hash address : Text) (role : Role) (t : Option ℕ) (team : Option Text)
    (actor : User) (db : Tables)
    → All (λ i. nat_beq i.invite_id id ≡ false) db.invites
    → IsKept db.invites
    → IsKept (committed (create_invite now id hash address role t team actor db) db).invites
create-IsKept now id hash address role t team actor db fresh k =
    elim (Outcome-cases (create_invite now id hash address role t team actor db)) [
      | inl (e, r) ↦ rw r k
      | inr ((row, after), r) ↦
          let (same, free) = create_row now id hash address role t team actor db row after r in
          let (_, added) = create-done now id hash address role t team actor db row after r in
          let old = (cleared now actor t (lower address) db).invites in
          let kept : IsKept old = reclaim-IsKept now actor t (lower address) db k in
          let apart = reclaim-fresh now actor t (lower address) db id fresh in
          let empty =
            every_miss (fills t (lower address)) old (unfilled t (lower address) old free) in
          rw (r, added, same)
            (record {
              distinct = Free-append _ old _ kept.distinct apart;
              slots = Free-append same_slot old _ kept.slots (
                  All-imp (λ i. fills t (lower address) i ≡ false) _ old
                    (λ i n. rw (lower_idem address) (ground (arith, n))) empty);
            })
    ]

resend-IsKept :
    (now id : ℕ) (hash : Text) (actor : User) (db : Tables)
    → IsKept db.invites
    → IsKept (committed (resend_invite now id hash actor db) db).invites
resend-IsKept now id hash actor db k = elim (Outcome-cases (resend_invite now id hash actor db)) [
  | inl (e, r) ↦ rw r k
  | inr ((row, after), r) ↦
      let (old, found, _, _, _, same, rows) = resend-done now id hash actor db row after r in
      let renew : Invite → Invite = λ i. record i {
        token_hash = hash;
        last_sent_at = some now;
        expires_at = now + invite_ttl;
      } in
      rw (r, rows, update_once id (λ _. row) renew old db.invites k.distinct found same)
        (record {
          distinct = Free-update _ id renew db.invites (λ i j n. n) (λ i j n. n) k.distinct;
          slots = Free-update same_slot id renew db.invites (λ i j n. n) (λ i j n. n) k.slots;
        })
]

revoke_invite-IsKept :
    (id : ℕ) (actor : User) (db : Tables)
    → IsKept db.invites
    → IsKept (committed (revoke_invite id actor db) db).invites
revoke_invite-IsKept id actor db k = elim (Outcome-cases (revoke_invite id actor db)) [
  | inl (e, r) ↦ rw r k
  | inr ((row, after), r) ↦
      let (old, found, _, _, same, rows) = revoke-done id actor db row after r in
      rw (r, rows, update_once id (λ _. row) revoke_row old db.invites k.distinct found same)
        (revoke-IsKept id revoke_row db.invites (λ i. refl) (λ i. refl) k)
]

accept-IsKept :
    (now id : ℕ) (hash : Text) (db : Tables)
    → IsKept db.invites
    → IsKept (committed (accept_invite now id hash db) db).invites
accept-IsKept now id hash db k = elim (Outcome-cases (accept_invite now id hash db)) [
  | inl (e, r) ↦ rw r k
  | inr ((user, after), r) ↦
      let (old, db1, _, _, ins, rows, _) = accept-inv now id hash db user after r in
      let (_, _, same) = insert_user-done id old db user db1 ins in
      rw (r, rows, same) (revoke-IsKept old.invite_id _ db.invites (λ i. refl) (λ i. refl) k)
]

perform-IsKept :
    (request : Request) (db : Tables)
    → IsFresh request db.invites
    → IsKept db.invites
    → IsKept (perform request db).invites
unfolding perform
perform-IsKept (create now id hash address role t team actor) db fresh k =
    create-IsKept now id hash address role t team actor db fresh k
perform-IsKept (resend now id hash actor) db fresh k = resend-IsKept now id hash actor db k
perform-IsKept (revoke id actor) db fresh k = revoke_invite-IsKept id actor db k
perform-IsKept (accept now id hash) db fresh k = accept-IsKept now id hash db k

-- Requests that come one after another, each in a transaction.
unfoldable pub perform_all : List Request → Tables → Tables
perform_all [] db = db
perform_all (request ∷ requests) db = perform_all requests (perform request db)

abbrev pub AllFresh : List Request → Tables → Type 0
AllFresh [] db = Unit
AllFresh (request ∷ requests) db =
    IsFresh request db.invites × AllFresh requests (perform request db)

-- Whatever is requested, by whom and when, where the ids that are drawn are new: a tenant and an
-- address never have two pending invites, no two invites have one id, and an invite that was accepted
-- or revoked stays as it is.
pub perform_all_keeps :
    (requests : List Request) (db : Tables)
    → AllFresh requests db
    → IsKept db.invites
    → IsKept (perform_all requests db).invites
      × ((k : ℕ) (i : Invite)
          → by_id k db.invites ≡ some i
          → is_pending i.status ≡ false
          → by_id k (perform_all requests db).invites ≡ some i)
unfolding perform_all
perform_all_keeps [] db fresh kept = (kept, λ k i h s. h)
perform_all_keeps (request ∷ requests) db fresh kept =
    let (last, stays) =
      perform_all_keeps requests (perform request db) fresh.1
        (perform-IsKept request db fresh.0 kept) in
    (last, λ k i h s. stays k i (settled_stays request db k i kept.distinct h s) s)
