-- ===== src/Invites/Cooldown.antt =====
-- The pause between two mails of an invite: `resend_invite` of services/config/invites.py.
use yuviz.Base.{
  ℕ, ◌+◌, ◌-◌, ◌/◌, nat_beq_iff, ◌<◌, true, some, List, [], ◌∷◌, Text, text_eq, ◌≡◌, refl, ap, ◌∙◌,
  arith,
}
use yuviz.Invites.{
  Invite, User, Tables, done, raised, resend_cooldown, is_pending, by_id, update_invite, may_grant,
  cools_down, remaining_seconds, resend_cooldown_ms, resend_invite,
}
use yuviz.Invites.Lifecycle.{resend-done}

by_id-update :
    (id : ℕ) (old row : Invite) (rows : List Invite)
    → by_id id rows ≡ some old
    → row.invite_id ≡ id
    → by_id id (update_invite id (λ _. row) rows) ≡ some row
unfolding update_invite
by_id-update id old row [] h e = ground arith
by_id-update id old row (r ∷ rows) h e = ground (
  arith,
  h,
  e,
  nat_beq_iff row.invite_id id,
  nat_beq_iff r.invite_id id,
  by_id-update id old row rows,
)

find_id :
    (id : ℕ) (old : Invite) (rows : List Invite) → by_id id rows ≡ some old → old.invite_id ≡ id
find_id id old [] h = ground arith
find_id id old (r ∷ rows) h = ground (arith, h, nat_beq_iff r.invite_id id, find_id id old rows)

resend-early :
    (now id : ℕ) (hash : Text) (actor : User) (db : Tables) (row : Invite)
    → by_id id db.invites ≡ some row
    → may_grant actor row ≡ true
    → is_pending row.status ≡ true
    → cools_down now row.last_sent_at ≡ true
    → resend_invite now id hash actor db
      ≡ raised (resend_cooldown (remaining_seconds now row.last_sent_at))
unfolding resend_invite
resend-early now id hash actor db row f g p c = ground (arith, f, g, p, c)

-- After an invite was sent again, a second try by the same actor within a minute is refused, and the
-- seconds that it names are those that are left of the minute, rounded down, and one.
pub resend_too_early :
    (now later id : ℕ) (hash next : Text) (actor : User) (db : Tables) (row : Invite)
    (after : Tables)
    → resend_invite now id hash actor db ≡ done (row, after)
    → later < now + resend_cooldown_ms
    → resend_invite later id next actor after
      ≡ raised (resend_cooldown ((now + resend_cooldown_ms - later) / 1000 + 1))
resend_too_early now later id hash next actor db row after h soon =
    let (old, found, may, p, _, same, rows) = resend-done now id hash actor db row after h in
    let keyed : row.invite_id ≡ id = rw same (find_id id old db.invites found) in
    let stored : by_id id after.invites ≡ some row =
      rw rows (by_id-update id old row db.invites found keyed) in
    let sent : row.last_sent_at ≡ some now = rw same refl in
    let early : cools_down later row.last_sent_at ≡ true = rw sent (ground (arith, soon)) in
    let refused =
      resend-early later id next actor after row stored (rw same may) (rw same p) early in
    refused ∙ ap (λ last. raised (resend_cooldown (remaining_seconds later last))) sent
