-- ===== src/Auth/Subject.antt =====
-- apps/api/src/auth/auth-user.ts, and the staff accounts of schema.prisma.
use hotelsb2b.Common.{ℕ, Bool, Option, Text}
use hotelsb2b.Schema.{StaffRole}

-- Who has authenticated.
pub data AuthUser : Type 0 where
  staff_user : ℕ → Text → StaffRole → AuthUser
  guest_user : ℕ → Option Text → AuthUser

-- What stands in `kind`, with the role that comes with a staff kind; any other text, or none, is
-- `other_kind`.
pub data Kind : Type 0 where
  staff_kind : StaffRole → Kind
  guest_kind other_kind : Kind

-- A token is a signed object: a field that it lacks, or that is empty, is `none`.
pub record AccessTokenPayload : Type 0 where
  pub sub : Option ℕ
  pub kind : Kind
  pub email : Option Text

pub record User : Type 0 where
  pub id : ℕ
  pub email : Text
  pub password_hash : Text
  pub role : StaffRole
  pub active : Bool
  pub last_login_at : Option ℕ
