-- ===== src/Invites.antt =====
-- services/config/invites.py, with the rows of the tables that it reads and the unique indexes of
-- database/schema.sql. A transaction that raises leaves the rows as they were. The clock counts
-- milliseconds; an id, and the hash of a token, is an argument where it is drawn.
mod Shapes
pub mod Matrix
pub mod Rows
pub mod Lifecycle
pub mod Accepting
pub mod Cooldown
pub mod Slots
pub mod Kept
pub use Shapes.*
use yuviz.Base.{
  ℕ, ◌+◌, ◌-◌, ◌*◌, ◌/◌, nat_eq, Bool, true, false, not, ◌&&◌, ◌||◌, Option, none, some, is_some,
  List, [], ◌∷◌, ◌++◌, any, leb, ltb, Text, text_eq, ◌==◌, if◌then◌else◌, Eq, nat_beq, codes,
  String,
}
use yuviz.Workflow.Words.{lower}

abbrev pub invite_ttl : ℕ
invite_ttl = 7 * 24 * 3600 * 1000

abbrev pub resend_cooldown_ms : ℕ
resend_cooldown_ms = 60 * 1000

-- `_same_tenant`
abbrev pub same_tenant : Option ℕ → Option ℕ → Bool
same_tenant none none = true
same_tenant (some a) (some b) = nat_beq a b
same_tenant _ _ = false

-- `may_invite`
unfoldable pub may_invite : Role → Option ℕ → Role → Option ℕ → Bool
may_invite superadmin actor_tenant target_role target_tenant = true
may_invite admin actor_tenant target_role target_tenant =
    if is_superadmin target_role
    then false
    else elim actor_tenant [ none ↦ false | some t ↦ same_tenant (some t) target_tenant ]
may_invite _ _ _ _ = false

-- `may_invite`, of a user and the row of an invite
abbrev pub may_grant : User → Invite → Bool
may_grant actor i = may_invite actor.role actor.tenant_id i.role i.tenant_id

-- the first row that passes a test, as `fetchrow` returns it
abbrev pub find {ℓ} : {A : Type ℓ} → (A → Bool) → List A → Option A
find p [] = none
find p (x ∷ xs) = if p x then some x else find p xs

-- `UPDATE user_invites SET ... WHERE id = ...`
unfoldable pub update_invite : ℕ → (Invite → Invite) → List Invite → List Invite
update_invite id f [] = []
update_invite id f (i ∷ is) =
    let rest = update_invite id f is in if nat_beq i.invite_id id then f i ∷ rest else i ∷ rest

-- `get_user_by_email`
unfoldable pub get_user_by_email : Text → List User → Option User
unfolding lower
get_user_by_email email users = find (λ u. lower u.email == lower email && not u.is_deleted) users

-- `_conflict_tenant_name`
unfoldable pub conflict_tenant_name : Option ℕ → User → List Tenant → Option Text
conflict_tenant_name tenant_id actor tenants =
    if not (is_superadmin actor.role) then none else elim tenant_id [
      | none ↦ some (codes "platform")
      | some t ↦ elim (find (λ r. nat_beq r.tenant_id t && not r.is_deleted) tenants) [
        | none ↦ none
        | some r ↦ some r.slug
      ]
    ]

-- the pending row of a tenant and an address
unfoldable pub pending_slot : Option ℕ → Text → List Invite → Option Invite
unfolding lower
pending_slot tenant_id email invites =
    find (λ i. is_pending i.status && same_tenant i.tenant_id tenant_id && lower i.email == email)
      invites

-- The slot that `create_invite` frees: an expired one, of an invite that the actor could revoke.
unfoldable pub reclaim : ℕ → User → Option Invite → Tables → Tables
unfolding update_invite may_invite
reclaim now actor none db = db
reclaim now actor (some slot) db =
    if leb slot.expires_at now && may_grant actor slot
    then record db {
      invites = update_invite slot.invite_id (λ i. record i { status = revoked }) db.invites;
      audits = db.audits ++ invite_updated slot.invite_id actor.user_id revoked ∷ [];
    }
    else db

-- the row that `create_invite` inserts
abbrev pub new_invite : ℕ → ℕ → Text → Text → Role → Option ℕ → Option Text → User → Invite
new_invite now id hash email role tenant_id team actor = record {
  invite_id = id;
  tenant_id = tenant_id;
  email = email;
  role = role;
  team = team;
  token_hash = hash;
  status = pending;
  expires_at = now + invite_ttl;
  invited_by = some actor.user_id;
  last_sent_at = some now;
  accepted_user_id = none;
}

-- the row has its tenant and its sender, as the foreign keys of `user_invites` ask for: also a row that
-- is marked as deleted is one
abbrev pub keys_hold : Option ℕ → ℕ → Tables → Bool
keys_hold tenant_id sender db =
    (elim tenant_id [ none ↦ true | some t ↦ any (λ r. nat_beq r.tenant_id t) db.tenants ])
    && any (λ u. nat_beq u.user_id sender) db.users

-- `create_invite`; the index is checked when the row goes in, the foreign keys at the end of the
-- statement
unfoldable pub create_invite :
    ℕ → ℕ → Text → Text → Role → Option ℕ → Option Text → User → Tables → Outcome (Invite × Tables)
create_invite now id hash address role tenant_id team actor db =
    let email = lower address in
    let cleared = reclaim now actor (pending_slot tenant_id email db.invites) db in
    let row = new_invite now id hash email role tenant_id team actor in
    if not (may_invite actor.role actor.tenant_id role tenant_id)
    then raised permission_denied
    else elim (get_user_by_email email db.users) [
      | some u ↦ raised (email_conflict (conflict_tenant_name u.tenant_id actor db.tenants))
      | none ↦
          if is_some (pending_slot tenant_id email cleared.invites)
            || any (λ i. i.token_hash == hash) cleared.invites
          then raised pending_invite_conflict
          else if not (keys_hold tenant_id actor.user_id db)
          then raised foreign_key_violation
          else done (
            row,
            record cleared {
              invites = cleared.invites ++ row ∷ [];
              audits = cleared.audits ++ invite_created id actor.user_id ∷ [];
            },
          )
    ]

abbrev pub by_id : ℕ → List Invite → Option Invite
by_id id = find (λ i. nat_beq i.invite_id id)

abbrev pub cools_down : ℕ → Option ℕ → Bool
cools_down now none = false
cools_down now (some last) = ltb now (last + resend_cooldown_ms)

-- `int(RESEND_COOLDOWN_SECONDS - elapsed) + 1`
abbrev pub remaining_seconds : ℕ → Option ℕ → ℕ
remaining_seconds now none = 0
remaining_seconds now (some last) = (last + resend_cooldown_ms - now) / 1000 + 1

-- `resend_invite`
unfoldable pub resend_invite : ℕ → ℕ → Text → User → Tables → Outcome (Invite × Tables)
unfolding update_invite
resend_invite now id hash actor db = elim (by_id id db.invites) [
  | none ↦ raised not_found
  | some invite ↦
      let sent = record invite {
        token_hash = hash;
        last_sent_at = some now;
        expires_at = now + invite_ttl;
      } in
      if not (may_grant actor invite)
      then raised permission_denied
      else if not (is_pending invite.status)
      then raised invite_not_pending
      else if cools_down now invite.last_sent_at
      then raised (resend_cooldown (remaining_seconds now invite.last_sent_at))
      else if any (λ i. i.token_hash == hash) db.invites
      then raised unique_violation
      else done (
        sent,
        record db {
          invites = update_invite id (λ _. sent) db.invites;
          audits = db.audits ++ token_rotated id actor.user_id ∷ [];
        },
      )
]

-- `revoke_invite`
unfoldable pub revoke_invite : ℕ → User → Tables → Outcome (Invite × Tables)
revoke_invite id actor db = elim (by_id id db.invites) [
  | none ↦ raised not_found
  | some invite ↦
      let gone = record invite { status = revoked } in
      if not (may_grant actor invite)
      then raised permission_denied
      else if not (is_pending invite.status)
      then raised invite_not_pending
      else done (
        gone,
        record db {
          invites = update_invite id (λ _. gone) db.invites;
          audits = db.audits ++ invite_updated id actor.user_id revoked ∷ [];
        },
      )
]

-- the live user who sent an invite
abbrev pub live_user : Option ℕ → List User → Option User
live_user none users = none
live_user (some id) users = find (λ u. nat_beq u.user_id id && not u.is_deleted) users

abbrev pub tenant_is_live : Option ℕ → List Tenant → Bool
tenant_is_live none tenants = true
tenant_is_live (some t) tenants =
    is_some (find (λ r. nat_beq r.tenant_id t && not r.is_deleted) tenants)

-- `_check_context_live`: whether it returns
unfoldable pub context_is_live : Tables → Invite → Bool
context_is_live db invite =
    tenant_is_live invite.tenant_id db.tenants && (elim (live_user invite.invited_by db.users) [
      | none ↦ false
      | some inviter ↦ may_grant inviter invite
    ])

-- what `accept_invite` and `get_invite_for_accept` check before they go on
unfoldable pub classify : ℕ → Text → Tables → Outcome Invite
classify now hash db = elim (find (λ i. i.token_hash == hash) db.invites) [
  | none ↦ raised not_found
  | some invite ↦ elim invite.status [
    | revoked ↦ raised invite_revoked
    | accepted ↦ raised invite_used
    | pending ↦
        if ltb invite.expires_at now
        then raised invite_expired
        else if not (context_is_live db invite)
        then raised invite_context_gone
        else done invite
  ]
]

-- `_insert_user`, with the index on the address of a user who is not deleted
unfoldable pub insert_user : ℕ → Invite → Tables → Outcome (User × Tables)
unfolding lower
insert_user id invite db =
    let user : User = record {
      user_id = id;
      tenant_id = invite.tenant_id;
      email = lower invite.email;
      role = invite.role;
      team = invite.team;
      is_deleted = false;
    } in
    if is_some (get_user_by_email invite.email db.users)
    then raised unique_violation
    else done (
      user,
      record db { users = db.users ++ user ∷ []; audits = db.audits ++ user_created id ∷ [] },
    )

-- `accept_invite`; the row is locked, so that it is still the one that was classified
unfoldable pub accept_invite : ℕ → ℕ → Text → Tables → Outcome (User × Tables)
accept_invite now new_id hash db = elim (classify now hash db) [
  | raised e ↦ raised e
  | done invite ↦
      if leb invite.expires_at now
      then raised invite_used
      else elim (insert_user new_id invite db) [
        | raised _ ↦ raised email_taken
        | done (user, db1) ↦ done (
          user,
          record db1 {
            invites =
                update_invite invite.invite_id
                  (λ i. record i { status = accepted; accepted_user_id = some user.user_id })
                  db1.invites;
            audits = db1.audits ++ invite_updated invite.invite_id user.user_id accepted ∷ [];
          },
        )
      ]
]
