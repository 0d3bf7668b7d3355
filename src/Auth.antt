-- ===== src/Auth.antt =====
-- auth/auth.service.ts: the second factor that every movement of money asks for.
pub mod StepUp
pub mod AccountTokens
pub mod Accounts
pub mod Effects
pub mod Calls
pub mod Sessions
pub mod Once
pub mod Lockout
pub mod Recovery
use zentto_web.Prelude.{ℕ, Bool, true, false, not, Option, none, some, ◌==◌, if◌then◌else◌, find}
use zentto_web.Errors.{Result, ok, err, unknown_user, totp_disabled, totp_missing, totp_invalid}
use zentto_web.Database.{Database, User}
use zentto_web.Action.{Action, ◌>>=◌, ◌>>◌, gets, or_throw, throw_if, pure}
use zentto_web.Environment.{Environment}

abbrev pub find_user : ℕ → Database → Option User
find_user id db = find (λ (u : User). u.id == id) db.users

-- getById
abbrev pub get_by_id : ℕ → Action User
get_by_id id = do u ← gets (find_user id); or_throw u unknown_user

-- verifyTotp
unfoldable pub verify_totp : Environment → User → ℕ → Bool
verify_totp env u code = elim u.totp_secret [
  | none ↦ false
  | some secret ↦ env.verify_code env.now secret code
]

-- assertStepUp
unfoldable pub assert_step_up : Environment → ℕ → Option ℕ → Action (Unit {0})
assert_step_up env user_id totp_code = do
  u ← get_by_id user_id
  throw_if (not u.totp_enabled) totp_disabled
  code ← or_throw totp_code totp_missing
  throw_if (not (verify_totp env u code)) totp_invalid
