-- ===== src/Examples/Invitations.antt =====
-- Invites of services/config/invites.py at small inputs.
use yuviz.Base.{
  ℕ, List, any, text_eq, ◌==◌, ◌↔◌, ◌+◌, true, false, none, some, [], ◌∷◌, ◌≡◌, refl, codes,
}
use yuviz.Workflow.Words.{lower, lower_char}
use yuviz.Invites.{
  superadmin, admin, agent, Invite, pending, accepted, User, Tables, done, invite_ttl, may_invite,
  update_invite, get_user_by_email, context_is_live, classify, insert_user, accept_invite,
  resend_invite, by_id, is_pending, create_invite, new_invite, pending_slot, user_created,
  invite_updated, token_rotated,
}
use yuviz.Invites.Accepting.{IsAccepted, accept_invite-IsAccepted}
use yuviz.Invites.Lifecycle.{Request, create, revoke}
use yuviz.Invites.Slots.{IsKept, HasKeys, slot_is_open, create_invite_iff}
use yuviz.Invites.Kept.{perform_all, perform_all_keeps}

abbrev boss : User
boss = record {
  user_id = 1;
  tenant_id = some 7;
  email = codes "a@x";
  role = admin;
  team = none;
  is_deleted = false;
}

abbrev offer : Invite
offer = record {
  invite_id = 5;
  tenant_id = some 7;
  email = codes "b@x";
  role = agent;
  team = none;
  token_hash = codes "h";
  status = pending;
  expires_at = 1000;
  invited_by = some 1;
  last_sent_at = none;
  accepted_user_id = none;
}

abbrev tables : Tables
tables = record {
  invites = offer ∷ [];
  users = boss ∷ [];
  tenants = record { tenant_id = 7; slug = codes "x"; is_deleted = false } ∷ [];
  audits = [];
}

abbrev newcomer : User
newcomer = record {
  user_id = 2;
  tenant_id = some 7;
  email = codes "b@x";
  role = agent;
  team = none;
  is_deleted = false;
}

abbrev taken : Invite
taken = record offer { status = accepted; accepted_user_id = some 2 }

abbrev joined_up : Tables
joined_up = record tables {
  invites = taken ∷ [];
  users = boss ∷ newcomer ∷ [];
  audits = user_created 2 ∷ invite_updated 5 2 accepted ∷ [];
}

abbrev resent : Invite
resent = record offer {
  token_hash = codes "k";
  last_sent_at = some 100;
  expires_at = 100 + invite_ttl;
}

abbrev mailed : Tables
mailed = record tables { invites = resent ∷ []; audits = token_rotated 5 1 ∷ [] }

joins : accept_invite 10 2 (codes "h") tables ≡ done (newcomer, joined_up)
unfolding accept_invite classify context_is_live insert_user may_invite get_user_by_email
    update_invite lower lower_char
joins = refl

mails : resend_invite 100 5 (codes "k") boss tables ≡ done (resent, mailed)
unfolding resend_invite may_invite update_invite
mails = refl

grants :
    (may_invite superadmin none admin (some 7) ≡ true)
    × (may_invite admin (some 7) agent (some 7) ≡ true)
unfolding may_invite
grants = (refl, refl)

accept_invite-IsAccepted_example :
    (invite : Invite) × (inviter : User) × IsAccepted 10 2
      (codes "h")
      tables
      invite
      inviter
      newcomer
      joined_up
accept_invite-IsAccepted_example =
    accept_invite-IsAccepted 10 2 (codes "h") tables newcomer joined_up joins

-- an invite that has expired, one in its place, and that one revoked
abbrev requests : List Request
requests = create 2000 6 (codes "k") (codes "B@x") agent (some 7) none boss ∷ revoke 6 boss ∷ []

is_kept : IsKept tables.invites
is_kept = record { distinct = (tt, tt); slots = (tt, tt) }

perform_all_keeps_example :
    IsKept (perform_all requests tables).invites
    × ((k : ℕ) (i : Invite)
        → by_id k tables.invites ≡ some i
        → is_pending i.status ≡ false
        → by_id k (perform_all requests tables).invites ≡ some i)
perform_all_keeps_example = perform_all_keeps requests tables ((refl, tt), (tt, tt)) is_kept

create_invite_iff_example :
    ((after : Tables) × (create_invite 2000 6
          (codes "k")
          (codes "B@x")
          agent
          (some 7)
          none
          boss
          tables
        ≡ done
            (new_invite 2000 6 (codes "k") (lower (codes "B@x")) agent (some 7) none boss, after)))
    ↔ ((may_invite admin (some 7) agent (some 7) ≡ true)
        × (get_user_by_email (lower (codes "B@x")) (boss ∷ []) ≡ none)
        × (any (λ i. i.token_hash == codes "k") (offer ∷ []) ≡ false)
        × HasKeys (some 7) boss tables
        × (slot_is_open 2000 boss (pending_slot (some 7) (lower (codes "B@x")) (offer ∷ []))
            ≡ true))
create_invite_iff_example =
    create_invite_iff 2000 6 (codes "k") (codes "B@x") agent (some 7) none boss tables is_kept

-- the slot of an invite that has expired can be taken
is_taken : slot_is_open 2000 boss (pending_slot (some 7) (lower (codes "B@x")) (offer ∷ [])) ≡ true
unfolding pending_slot lower lower_char may_invite
is_taken = refl
