-- ===== src/Invites/Matrix.antt =====
-- `may_invite` of services/config/invites.py: who may invite whom.
use yuviz.Base.{ℕ, nat_beq_iff, true, false, Option, none, some, is_some, ◌≡◌, ◌↔◌, ◌⊎◌, arith}
use yuviz.Invites.{
  Role, superadmin, admin, supervisor, agent, viewer, is_superadmin, same_tenant, may_invite,
}

-- The grants that are meant to be possible: a superadmin's, and an admin's in the admin's own tenant
-- of a role that is not superadmin.
abbrev pub IsGrant : Role → Option ℕ → Role → Option ℕ → Type 0
IsGrant actor at target tt =
    (actor ≡ superadmin)
    ⊎ ((actor ≡ admin) × (is_superadmin target ≡ false) × (is_some at ≡ true) × (at ≡ tt))

pub same_tenant_iff : (a b : Option ℕ) → (same_tenant a b ≡ true) ↔ (a ≡ b)
same_tenant_iff none none = ground arith
same_tenant_iff none (some b) = ground arith
same_tenant_iff (some a) none = ground arith
same_tenant_iff (some a) (some b) = ground (arith, nat_beq_iff a b)

-- The check lets exactly those grants pass.
pub may_invite_lem :
    (actor target : Role) (at tt : Option ℕ)
    → (may_invite actor at target tt ≡ true) ↔ IsGrant actor at target tt
unfolding may_invite
may_invite_lem superadmin target at tt = ground arith
may_invite_lem admin target none tt = ground arith
may_invite_lem admin target (some a) tt = ground (arith, same_tenant_iff (some a) tt)
may_invite_lem supervisor target at tt = ground arith
may_invite_lem agent target at tt = ground arith
may_invite_lem viewer target at tt = ground arith

-- A chain of invites grants nothing that its first actor could not grant.
pub may_invite_trans :
    (a b c : Role) (at bt ct : Option ℕ)
    → may_invite a at b bt ≡ true
    → may_invite b bt c ct ≡ true
    → may_invite a at c ct ≡ true
may_invite_trans a b c at bt ct g h =
    let first = (may_invite_lem a b at bt).0 g in
    let second = (may_invite_lem b c bt ct).0 h in
    (may_invite_lem a c at ct).1 (ground (arith, first, second))
