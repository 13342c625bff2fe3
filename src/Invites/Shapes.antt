-- ===== src/Invites/Shapes.antt =====
-- The rows of services/config/invites.py and services/config/users.py, with the tables of
-- database/schema.sql that they stand in, and what a request comes to.
use yuviz.Base.{ℕ, nat_eq, Bool, true, false, Option, List, Text, text_eq}

pub data Role : Type 0 where
  superadmin admin supervisor agent viewer : Role

pub data InviteStatus : Type 0 where
  pending accepted revoked : InviteStatus

abbrev pub is_superadmin : Role → Bool
is_superadmin superadmin = true
is_superadmin _ = false

abbrev pub is_pending : InviteStatus → Bool
is_pending pending = true
is_pending _ = false

-- a row of `user_invites`
pub record Invite : Type 0 where
  pub invite_id : ℕ
  pub tenant_id : Option ℕ
  pub email : Text
  pub role : Role
  pub team : Option Text
  pub token_hash : Text
  pub status : InviteStatus
  pub expires_at : ℕ
  pub invited_by : Option ℕ
  pub last_sent_at : Option ℕ
  pub accepted_user_id : Option ℕ

-- a row of `users`; the actor of a request is one too
pub record User : Type 0 where
  pub user_id : ℕ
  pub tenant_id : Option ℕ
  pub email : Text
  pub role : Role
  pub team : Option Text
  pub is_deleted : Bool

pub record Tenant : Type 0 where
  pub tenant_id : ℕ
  pub slug : Text
  pub is_deleted : Bool

-- what `audit.write_audit` records
pub data Audit : Type 0 where
  invite_created : ℕ → ℕ → Audit
  invite_updated : ℕ → ℕ → InviteStatus → Audit
  token_rotated : ℕ → ℕ → Audit
  user_created : ℕ → Audit

pub record Tables : Type 0 where
  pub invites : List Invite
  pub users : List User
  pub tenants : List Tenant
  pub audits : List Audit

pub data InviteError : Type 0 where
  permission_denied invite_not_pending pending_invite_conflict : InviteError
  invite_expired invite_revoked invite_used email_taken invite_context_gone : InviteError
  not_found unique_violation foreign_key_violation : InviteError
  email_conflict : Option Text → InviteError
  resend_cooldown : ℕ → InviteError

pub data Outcome {ℓ} (A : Type ℓ) : Type ℓ where
  done : A → Outcome A
  raised : InviteError → Outcome A
