-- ===== src/Invites/Accepting.antt =====
-- `accept_invite` of services/config/invites.py: what an accepted invite grants, and only once.
use yuviz.Base.{
  ℕ, nat_beq, nat_beq_iff, ◌<◌, Bool, true, some, List, [], ◌∷◌, Text, text_eq, ◌==◌, ◌≡◌, ◌⊎◌, inl,
  inr, refl, sym, arith, Bool-cases, Option-cases, IsIn, in_head, in_tail, Option, none, ap, ◌∙◌,
  false, not, ◌&&◌, ◌++◌,
}
use yuviz.Workflow.Words.{lower}
use yuviz.Invites.Matrix.{IsGrant, may_invite_lem}
use yuviz.Invites.{
  Invite, User, Tenant, Tables, Outcome, done, raised, InviteError, invite_used, pending, accepted,
  find, update_invite, may_grant, live_user, context_is_live, classify, insert_user, accept_invite,
}

-- what `find` returns passes the test
pub find_passes {ℓ} :
    {A : Type ℓ} (p : A → Bool) (x : A) (xs : List A) → find p xs ≡ some x → p x ≡ true
find_passes p x [] h = ground arith
find_passes p x (y ∷ xs) h = elim (Bool-cases (p y)) [
  | inl e ↦ let same : y ≡ x = ground (arith, e, h) in rw (sym same) e
  | inr e ↦ find_passes p x xs (ground (arith, e, h))
]

pub find_holds {ℓ} :
    {A : Type ℓ} (p : A → Bool) (x : A) (xs : List A) → find p xs ≡ some x → IsIn x xs
find_holds p x [] h = ground arith
find_holds p x (y ∷ xs) h = elim (Bool-cases (p y)) [
  | inl e ↦ in_head (ground (arith, e, h))
  | inr e ↦ in_tail (find_holds p x xs (ground (arith, e, h)))
]

pub Outcome-cases {ℓ} :
    {A : Type ℓ} (o : Outcome A) → ((e : InviteError) × (o ≡ raised e)) ⊎ ((a : A) × (o ≡ done a))
Outcome-cases (raised e) = inl (e, refl)
Outcome-cases (done a) = inr (a, refl)

pub classify-done :
    (now : ℕ) (hash : Text) (db : Tables) (invite : Invite)
    → classify now hash db ≡ done invite
    → (find (λ i. i.token_hash == hash) db.invites ≡ some invite)
      × (invite.status ≡ pending)
      × (context_is_live db invite ≡ true)
unfolding classify
classify-done now hash db invite h = ground arith

context-sender :
    (db : Tables) (invite : Invite)
    → context_is_live db invite ≡ true
    → (inviter : User) × (live_user invite.invited_by db.users ≡ some inviter)
      × (may_grant inviter invite ≡ true)
unfolding context_is_live
context-sender db invite h = elim (Option-cases (live_user invite.invited_by db.users)) [
  | inl e ↦ ground (arith, e, h)
  | inr (u, e) ↦ (u, e, ground (arith, e, h))
]

pub insert_user-done :
    (id : ℕ) (invite : Invite) (db : Tables) (user : User) (db1 : Tables)
    → insert_user id invite db ≡ done (user, db1)
    → (user ≡ record {
      user_id = id;
      tenant_id = invite.tenant_id;
      email = lower invite.email;
      role = invite.role;
      team = invite.team;
      is_deleted = false;
    })
      × (db1.users ≡ db.users ++ user ∷ [])
      × (db1.invites ≡ db.invites)
unfolding insert_user
insert_user-done id invite db user db1 h = ground arith

pub accept-inv :
    (now id : ℕ) (hash : Text) (db : Tables) (user : User) (after : Tables)
    → accept_invite now id hash db ≡ done (user, after)
    → (invite : Invite) × (db1 : Tables) × (classify now hash db ≡ done invite)
      × (now < invite.expires_at)
      × (insert_user id invite db ≡ done (user, db1))
      × (after.invites
          ≡ update_invite invite.invite_id
              (λ i. record i { status = accepted; accepted_user_id = some user.user_id })
              db1.invites)
      × (after.users ≡ db1.users)
unfolding accept_invite
accept-inv now id hash db user after h = elim (Outcome-cases (classify now hash db)) [
  | inl (e, c) ↦ ground (arith, c, h)
  | inr (invite, c) ↦ elim (Outcome-cases (insert_user id invite db)) [
    | inl (e, i) ↦ ground (arith, c, i, h)
    | inr ((u, db1), i) ↦
        let on_time : now < invite.expires_at = ground (arith, c, i, h) in
        let same : u ≡ user = ground (arith, c, i, h) in
        (invite, db1, c, on_time, rw (sym same) i, ground (arith, c, i, h), ground (arith, c, i, h))
  ]
]

find-update :
    (hash : Text) (id uid : ℕ) (invite : Invite) (rows : List Invite)
    → invite.invite_id ≡ id
    → find (λ i. i.token_hash == hash) rows ≡ some invite
    → find
        (λ i. i.token_hash == hash)
        (update_invite id (λ i. record i { status = accepted; accepted_user_id = some uid }) rows)
      ≡ some (record invite { status = accepted; accepted_user_id = some uid })
unfolding update_invite
find-update hash id uid invite [] e h = ground arith
find-update hash id uid invite (r ∷ rows) e h =
    elim (Bool-cases (text_eq.is_same r.token_hash hash)) [
      | inl y ↦
          let same : r ≡ invite = ground (arith, y, h) in
          let hit : nat_beq r.invite_id id ≡ true =
            (nat_beq_iff r.invite_id id).1 (ground (arith, same, e)) in
          rw (hit, y, same) refl
      | inr n ↦ ground (arith, n, find-update hash id uid invite rows e)
    ]

classify-used :
    (now : ℕ) (hash : Text) (db : Tables) (invite : Invite)
    → find (λ i. i.token_hash == hash) db.invites ≡ some invite
    → invite.status ≡ accepted
    → classify now hash db ≡ raised invite_used
unfolding classify
classify-used now hash db invite found was = ground (arith, found, was)

accept-raised :
    (now id : ℕ) (hash : Text) (db : Tables) (e : InviteError)
    → classify now hash db ≡ raised e
    → accept_invite now id hash db ≡ raised e
unfolding accept_invite
accept-raised now id hash db e h = ground (arith, h)

live_user-holds :
    (id : Option ℕ) (users : List User) (u : User)
    → live_user id users ≡ some u
    → (id ≡ some u.user_id) × IsIn u users × (u.is_deleted ≡ false)
live_user-holds none users u h = ground arith
live_user-holds (some k) users u h =
    let passes = find_passes (λ u. nat_beq u.user_id k && not u.is_deleted) u users h in
    (
      ap some (sym ((nat_beq_iff u.user_id k).0 (ground (arith, passes)))),
      find_holds (λ u. nat_beq u.user_id k && not u.is_deleted) u users h,
      ground (arith, passes),
    )

tenant-live :
    (db : Tables) (invite : Invite) (k : ℕ)
    → context_is_live db invite ≡ true
    → invite.tenant_id ≡ some k
    → (row : Tenant) × IsIn row db.tenants × (row.tenant_id ≡ k) × (row.is_deleted ≡ false)
unfolding context_is_live
tenant-live db invite k live e =
    elim (Option-cases (find (λ r. nat_beq r.tenant_id k && not r.is_deleted) db.tenants)) [
      | inl missing ↦ ground (arith, e, live, missing)
      | inr (row, found) ↦
          let passes =
            find_passes (λ r. nat_beq r.tenant_id k && not r.is_deleted) row db.tenants found in
          (
            row,
            find_holds (λ r. nat_beq r.tenant_id k && not r.is_deleted) row db.tenants found,
            (nat_beq_iff row.tenant_id k).0 (ground (arith, passes)),
            ground (arith, passes),
          )
    ]

-- What lets the invite of a token be accepted, the user that comes of it, and the rows after that.
pub record IsAccepted (now id : ℕ) (hash : Text) (db : Tables) (invite : Invite)
    (inviter user : User) (after : Tables) : Type 0 where
  pub held : IsIn invite db.invites
  pub by_token : invite.token_hash ≡ hash
  pub was_pending : invite.status ≡ pending
  pub in_time : now < invite.expires_at
  pub tenant :
      (k : ℕ)
      → invite.tenant_id ≡ some k
      → (row : Tenant) × IsIn row db.tenants × (row.tenant_id ≡ k) × (row.is_deleted ≡ false)
  pub sent_by : invite.invited_by ≡ some inviter.user_id
  pub sender : IsIn inviter db.users
  pub sender_is_live : inviter.is_deleted ≡ false
  pub may : IsGrant inviter.role inviter.tenant_id invite.role invite.tenant_id
  pub joins : user ≡ record {
    user_id = id;
    tenant_id = invite.tenant_id;
    email = lower invite.email;
    role = invite.role;
    team = invite.team;
    is_deleted = false;
  }
  pub users : after.users ≡ db.users ++ user ∷ []
  pub settled :
      IsIn (record invite { status = accepted; accepted_user_id = some user.user_id }) after.invites

-- Where a token is accepted, the table held its invite, which was pending and in time, of a tenant, if
-- it names one, that is live, and sent by a live user who may still grant it. The user that comes of
-- it has the address, the role, the tenant and the team of that invite and is added to the users, and
-- the invite stands in the table as accepted by that user.
pub accept_invite-IsAccepted :
    (now id : ℕ) (hash : Text) (db : Tables) (user : User) (after : Tables)
    → accept_invite now id hash db ≡ done (user, after)
    → (invite : Invite) × (inviter : User) × IsAccepted now id hash db invite inviter user after
accept_invite-IsAccepted now id hash db user after h =
    let (invite, db1, c, on_time, i, updated, grown) = accept-inv now id hash db user after h in
    let (found, is_new, live) = classify-done now hash db invite c in
    let (inviter, sender, may) = context-sender db invite live in
    let (sent_by, held_by, not_deleted) =
      live_user-holds invite.invited_by db.users inviter sender in
    let (joined, added, same) = insert_user-done id invite db user db1 i in
    let again =
      find-update hash invite.invite_id user.user_id invite db1.invites refl (rw same found) in
    (
      invite,
      inviter,
      record {
        held = find_holds (λ i. i.token_hash == hash) invite db.invites found;
        by_token =
            (text_eq.is_same_iff invite.token_hash hash).0
              (find_passes (λ i. i.token_hash == hash) invite db.invites found);
        was_pending = is_new;
        in_time = on_time;
        tenant = λ k. tenant-live db invite k live;
        sent_by = sent_by;
        sender = held_by;
        sender_is_live = not_deleted;
        may = (may_invite_lem inviter.role invite.role inviter.tenant_id invite.tenant_id).0 may;
        joins = joined;
        users = grown ∙ added;
        settled =
            find_holds (λ i. i.token_hash == hash)
              (record invite { status = accepted; accepted_user_id = some user.user_id })
              after.invites (rw updated again);
      },
    )

-- An invite that was accepted is not accepted again, then or later.
pub accept_invite_once :
    (now later id next : ℕ) (hash : Text) (db : Tables) (user : User) (after : Tables)
    → accept_invite now id hash db ≡ done (user, after)
    → accept_invite later next hash after ≡ raised invite_used
accept_invite_once now later id next hash db user after h =
    let (invite, db1, c, on_time, i, updated, _) = accept-inv now id hash db user after h in
    let (found, is_new, live) = classify-done now hash db invite c in
    let (_, _, same) = insert_user-done id invite db user db1 i in
    let again =
      find-update hash invite.invite_id user.user_id invite db1.invites refl (rw same found) in
    accept-raised later next hash after invite_used (
      classify-used later hash after
        (record invite { status = accepted; accepted_user_id = some user.user_id })
        (rw updated again) refl)
