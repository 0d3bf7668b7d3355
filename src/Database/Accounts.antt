-- ===== src/Database/Accounts.antt =====
-- database/entities/user.entity.ts and account-token.entity.ts: users, and the tokens that are mailed.
use zentto_web.Prelude.{Bool, ℕ, Option}

pub data UserRole : Type 0 where
  user operator admin : UserRole

pub record User : Type 0 where
  pub id : ℕ
  pub email : ℕ
  pub role : UserRole
  pub password_hash : ℕ
  pub totp_enabled : Bool
  pub totp_secret : Option ℕ
  pub email_verified : Bool
  pub token_version : ℕ
  pub password_changed_at : Option ℕ
  pub failed_login_count : ℕ
  pub locked_until : Option ℕ

pub data AccountTokenType : Type 0 where
  verify_email reset_password : AccountTokenType

-- Unique by the hash.
pub record AccountToken : Type 0 where
  pub id : ℕ
  pub user_id : ℕ
  pub type : AccountTokenType
  pub token_hash : ℕ
  pub expires_at : ℕ
  pub used_at : Option ℕ
