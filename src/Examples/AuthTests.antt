-- ===== src/Examples/AuthTests.antt =====
-- Accounts: a reset of a password, an end of sessions, a lockout.
use zentto_web.Prelude.{
  false, ℕ, suc, ◌+◌, ◌≤◌, ◌<◌, ◌≡◌, refl, none, some, List, [], ◌∷◌, ◌==◌, arith, ==_refl, All,
}
use zentto_web.Errors.{Error, bad_token}
use zentto_web.Database.{Database, User, UserRole, AccountToken, reset_password}
use zentto_web.Action.{returned, thrown, after}
use zentto_web.Environment.{at_time}
use zentto_web.Auth.AccountTokens.{validate, consume}
use zentto_web.Auth.Accounts.{
  setup_totp, enable_totp, AuthEnvironment, change_password, revoke_tokens, validate_refresh,
  validate_credentials, bootstrap_role,
}
use zentto_web.Auth.Calls.{Event, logs_in, forgets, prepares, enables, run}
use zentto_web.Auth.Sessions.{by_revocation, old_sessions_end}
use zentto_web.Auth.Once.{reset_once}
use zentto_web.Auth.Lockout.{Attempt, IsWrong, guesses, guesses_bounded}
use zentto_web.Auth.Recovery.{HasSecret, run-HasSecret, change_password-validate_credentials}
use zentto_web.Withdrawals.{assert_withdrawal}
use zentto_web.Withdrawals.Cooldown.{reset_passes_cooldown}
use zentto_web.Examples.Data.{bob, env, alice, funded}

abbrev auth : AuthEnvironment
auth = record {
  bcrypt_hash = λ salt p. p + 99;
  bcrypt_compare = λ p hash. p + 99 == hash;
  sha256 = λ p. p + 1;
  verify_refresh = λ now token. some (token, 0);
  lower = λ e. e;
  operator_emails = 102 ∷ [];
}

abbrev reset_token : AccountToken
reset_token = record {
  id = 15;
  user_id = 11;
  type = reset_password;
  token_hash = 8;
  expires_at = 1000;
  used_at = none;
}

abbrev accounts : Database
accounts = record funded { next_id = 20; account_tokens = reset_token ∷ [] }

abbrev after_reset : Database
after_reset = after (change_password auth 500 3 (some 7) 55 accounts)

reset_is_done : change_password auth 500 3 (some 7) 55 accounts ≡ returned tt after_reset
unfolding change_password validate consume
reset_is_done = refl

-- An expired token is refused.
late_reset : change_password auth 1001 3 (some 7) 55 accounts ≡ thrown bad_token accounts
unfolding change_password validate consume
late_reset = refl

-- The e-mail of an operator becomes that of an administrator.
operator_role : bootstrap_role auth 102 ≡ UserRole.admin
unfolding bootstrap_role
operator_role = refl

abbrev calls : List Event
calls = forgets 600 40 101 ∷ logs_in 601 602 101 55 ∷ prepares 9 12 ∷ enables 603 12 9 ∷ []

reset_once_example :
    change_password auth 700 4 (some 7) 66 (run env auth calls after_reset)
    ≡ thrown bad_token (run env auth calls after_reset)
reset_once_example =
    reset_once env auth 500 3 7 55 accounts after_reset calls 700 4 66 reset_is_done

abbrev after_revocation : Database
after_revocation = after (revoke_tokens auth 11 accounts)

revocation_is_done : revoke_tokens auth 11 accounts ≡ returned tt after_revocation
unfolding revoke_tokens
revocation_is_done = refl

old_sessions_end_example :
    (e : Error) × (validate_refresh auth 700 11 (run env auth calls after_revocation)
      ≡ thrown e (run env auth calls after_revocation))
old_sessions_end_example =
    old_sessions_end env auth 700 11 11 0 alice accounts after_revocation calls refl refl
      (omega arith) (omega arith) (by_revocation revocation_is_done)

abbrev wrong : ℕ → Attempt
wrong t = record { now = t; later = t; password = 2 }

abbrev attempts : List Attempt
attempts = wrong 10 ∷ wrong 11 ∷ wrong 12 ∷ wrong 13 ∷ wrong 14 ∷ wrong 15 ∷ wrong 16 ∷ []

bad : (t : ℕ) → (10 ≤ t) × (t < 900000) → IsWrong env auth 101 10 alice.password_hash (wrong t)
bad t h = (refl, omega (arith, h), h.0)

guesses_bounded_example : guesses env auth 101 attempts accounts ≤ 5
guesses_bounded_example = guesses_bounded env auth 101 10 alice attempts accounts refl (
  bad 10 (omega arith),
  (
    bad 11 (omega arith),
    (
      bad 12 (omega arith),
      (
        bad 13 (omega arith),
        (bad 14 (omega arith), (bad 15 (omega arith), (bad 16 (omega arith), tt))),
      ),
    ),
  ),
)

run-HasSecret_example : All HasSecret (run env auth calls accounts).users
run-HasSecret_example = run-HasSecret env auth calls accounts (λ _. refl, (λ _. refl, tt))

change_password-validate_credentials_example :
    (db' : Database) × (db'' : Database) × (u' : User) × (change_password auth 500 3
        (some 7)
        55
        accounts
      ≡ returned tt db')
    × (validate_credentials auth env 800 801 101 55 db' ≡ returned u' db'')
    × (u'.id ≡ alice.id)
    × (u'.token_version ≡ suc alice.token_version)
change_password-validate_credentials_example =
    change_password-validate_credentials env auth 500 3 7 55 800 801 101 reset_token alice accounts
      (λ s p. ==_refl (p + 99)) refl refl refl

-- The same user without a second factor.
abbrev unprotected : User
unprotected = record alice { totp_enabled = false; totp_secret = none }

abbrev open_accounts : Database
open_accounts = record accounts { users = bob ∷ unprotected ∷ [] }

reset_passes_cooldown_example :
    (db' : Database) × (db'' : Database) × (db''' : Database) × (change_password auth 500 3
        (some 7)
        55
        open_accounts
      ≡ returned tt db')
    × (setup_totp auth 9 11 db' ≡ returned 9 db'')
    × (enable_totp auth (at_time 501 env) 11 9 db'' ≡ returned tt db''')
    × (assert_withdrawal env 502 11 (some 9) db''' ≡ returned tt db''')
reset_passes_cooldown_example =
    reset_passes_cooldown env auth 500 3 7 55 9 9 501 9 502 reset_token unprotected open_accounts
      refl refl refl refl refl
