-- ===== src/Auth/Accounts.antt =====
-- auth/auth.service.ts: registration, verification of the e-mail, reset of the password, login with its
-- lockout, the second factor, and sessions. A call returns the mail that it hands to the mail service,
-- whose failures the service itself keeps to itself. Times are in milliseconds.
use zentto_web.Prelude.{
  ℕ, suc, ◌+◌, ◌*◌, Bool, true, false, not, ◌&&◌, ◌||◌, Option, none, some, is_some, List, ◌∷◌, map,
  if◌then◌else◌, ◌==◌, ltb, leb, find,
}
use zentto_web.Errors.{
  email_taken, bad_token, email_already_verified, bad_credentials, account_locked,
  totp_already_active, totp_not_set_up, totp_not_active, totp_invalid, bad_refresh, session_revoked,
}
use zentto_web.Database.{Database, User, UserRole, verify_email, reset_password}
use zentto_web.Action.{
  Action, ◌>>=◌, ◌>>◌, modify, gets, pure, random_uuid, throw, throw_if, or_throw,
}
use zentto_web.Environment.{Environment}
use zentto_web.Auth.{get_by_id, verify_totp}
use zentto_web.Auth.AccountTokens.{issue, validate, consume}

-- The functions of bcryptjs (a hash takes the salt that it draws), node's crypto and jsonwebtoken.
pub record AuthEnvironment : Type 0 where
  pub bcrypt_hash : ℕ → ℕ → ℕ
  pub bcrypt_compare : ℕ → ℕ → Bool
  pub sha256 : ℕ → ℕ
  pub verify_refresh : ℕ → ℕ → Option (ℕ × ℕ)  -- time and token to `sub` and `tokenVersion`
  pub lower : ℕ → ℕ
  pub operator_emails : List ℕ

abbrev pub max_failed_logins : ℕ
max_failed_logins = 5

abbrev pub lockout_ms : ℕ
lockout_ms = 15 * 60 * 1000

abbrev pub verify_token_ttl_ms : ℕ
verify_token_ttl_ms = 24 * 60 * 60 * 1000

abbrev pub reset_token_ttl_ms : ℕ
reset_token_ttl_ms = 60 * 60 * 1000

pub record Mail : Type 0 where
  pub to : ℕ
  pub token : ℕ

abbrev pub find_by_email : ℕ → Database → Option User
find_by_email email db = find (λ (u : User). u.email == email) db.users

-- users.save of a row that is there
abbrev pub save_rows : User → List User → List User
save_rows u rows = map (λ (r : User). if r.id == u.id then u else r) rows

abbrev pub save_user : User → Database → Database
save_user u db = record db { users = save_rows u db.users }

module _ (auth : AuthEnvironment) where
  unfoldable pub bootstrap_role : ℕ → UserRole
  bootstrap_role email =
      if is_some (find (λ (e : ℕ). e == auth.lower email) auth.operator_emails)
      then UserRole.admin
      else UserRole.user

  unfoldable pub send_verification_email : ℕ → ℕ → User → Action Mail
  send_verification_email now plain u = do
    token ← issue auth.sha256 now plain u.id verify_email verify_token_ttl_ms
    pure (record { to = u.email; token = token })

  abbrev pub new_user : ℕ → ℕ → ℕ → User
  new_user id email hash = record {
    id = id;
    email = email;
    role = bootstrap_role email;
    password_hash = hash;
    totp_enabled = false;
    totp_secret = none;
    email_verified = false;
    token_version = 0;
    password_changed_at = none;
    failed_login_count = 0;
    locked_until = none;
  }

  unfoldable pub register : Environment → ℕ → ℕ → ℕ → ℕ → ℕ → Action (User × Mail)
  register env now salt plain email password = do
    exists ← gets (find_by_email (env.normalize_email email))
    throw_if (is_some exists) email_taken
    id ← random_uuid
    let u = new_user id (env.normalize_email email) (auth.bcrypt_hash salt password)
    modify (λ db. record db { users = u ∷ db.users })
    mail ← send_verification_email now plain u
    pure (u, mail)

  -- verifyEmail
  unfoldable pub confirm_email : ℕ → Option ℕ → Action (Unit {0})
  confirm_email now token = do
    found ← validate auth.sha256 now token verify_email
    r ← or_throw found bad_token
    u ← get_by_id r.user_id
    modify
        (if not u.email_verified then save_user (record u { email_verified = true }) else λ db. db)
    consume now r.id

  unfoldable pub resend_verification : ℕ → ℕ → ℕ → Action Mail
  resend_verification now plain user_id = do
    u ← get_by_id user_id
    throw_if u.email_verified email_already_verified
    send_verification_email now plain u

  unfoldable pub mail_reset : ℕ → ℕ → Option User → Action (Option Mail)
  mail_reset now plain none = pure none
  mail_reset now plain (some u) = do
    token ← issue auth.sha256 now plain u.id reset_password reset_token_ttl_ms
    pure (some (record { to = u.email; token = token }))

  unfoldable pub forgot_password : Environment → ℕ → ℕ → ℕ → Action (Option Mail)
  forgot_password env now plain email = do
    u ← gets (find_by_email (env.normalize_email email))
    mail_reset now plain u

  abbrev pub with_password : ℕ → ℕ → User → User
  with_password now hash u = record u {
    password_hash = hash;
    token_version = suc u.token_version;
    password_changed_at = some now;
    failed_login_count = 0;
    locked_until = none;
  }

  -- resetPassword
  unfoldable pub change_password : ℕ → ℕ → Option ℕ → ℕ → Action (Unit {0})
  change_password now salt token password = do
    found ← validate auth.sha256 now token reset_password
    r ← or_throw found bad_token
    u ← get_by_id r.user_id
    modify (save_user (with_password now (auth.bcrypt_hash salt password) u))
    consume now r.id

  abbrev pub is_locked : ℕ → User → Bool
  is_locked now u = elim u.locked_until [ none ↦ false | some t ↦ ltb now t ]

  -- One more failure; the fifth locks the account and starts the count again.
  abbrev pub failed_once : ℕ → User → User
  failed_once now u =
      if leb max_failed_logins (suc u.failed_login_count)
      then record u { failed_login_count = 0; locked_until = some (now + lockout_ms) }
      else record u { failed_login_count = suc u.failed_login_count }

  abbrev pub is_admin : UserRole → Bool
  is_admin UserRole.admin = true
  is_admin _ = false

  abbrev pub promoted : User → User
  promoted u =
      if is_admin (bootstrap_role u.email) && not (is_admin u.role)
      then record u { role = UserRole.admin }
      else u

  -- Success clears the count and a lock that is over.
  abbrev pub logged_in : User → User
  logged_in u = promoted (
      if not (u.failed_login_count == 0) || is_some u.locked_until
      then record u { failed_login_count = 0; locked_until = none }
      else u)

  -- The time is read once for the lock that is there, and once for the one that is set.
  unfoldable pub check_password : ℕ → ℕ → User → Action User
  check_password later password u =
      if auth.bcrypt_compare password u.password_hash
      then (modify (save_user (logged_in u)) >> pure (logged_in u))
      else (modify (save_user (failed_once later u)) >> throw bad_credentials)

  unfoldable pub validate_credentials : Environment → ℕ → ℕ → ℕ → ℕ → Action User
  validate_credentials env now later email password = do
    found ← gets (find_by_email (env.normalize_email email))
    u ← or_throw found bad_credentials
    throw_if (is_locked now u) account_locked
    check_password later password u

  -- `secret` is what otplib generates.
  unfoldable pub setup_totp : ℕ → ℕ → Action ℕ
  setup_totp secret user_id = do
    u ← get_by_id user_id
    throw_if u.totp_enabled totp_already_active
    modify (save_user (record u { totp_secret = some secret }))
    pure secret

  unfoldable pub enable_totp : Environment → ℕ → ℕ → Action (Unit {0})
  enable_totp env user_id code = do
    u ← get_by_id user_id
    throw_if (not (is_some u.totp_secret)) totp_not_set_up
    throw_if (not (verify_totp env u code)) totp_invalid
    modify (save_user (record u { totp_enabled = true }))

  unfoldable pub disable_totp : Environment → ℕ → ℕ → Action (Unit {0})
  disable_totp env user_id code = do
    u ← get_by_id user_id
    throw_if (not u.totp_enabled) totp_not_active
    throw_if (not (verify_totp env u code)) totp_invalid
    modify (save_user (record u { totp_enabled = false; totp_secret = none }))

  unfoldable pub validate_refresh : ℕ → ℕ → Action User
  validate_refresh now token = do
    payload ← or_throw (auth.verify_refresh now token) bad_refresh
    u ← get_by_id payload.0
    throw_if (not (payload.1 == u.token_version)) session_revoked
    pure u

  unfoldable pub revoke_tokens : ℕ → Action (Unit {0})
  revoke_tokens user_id = do
    u ← get_by_id user_id
    modify (save_user (record u { token_version = suc u.token_version }))
