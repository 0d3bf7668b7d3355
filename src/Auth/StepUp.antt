-- ===== src/Auth/StepUp.antt =====
-- The second factor changes nothing, and passes only a user who proves it.
use zentto_web.Prelude.{ℕ, ◌≡◌, ◌⊎◌, inl, inr, true, Option, some, Bool-cases, Option-cases}
use zentto_web.Errors.{Error, unknown_user, totp_disabled, totp_missing, totp_invalid}
use zentto_web.Database.{Database, User}
use zentto_web.Action.{returned, thrown}
use zentto_web.Environment.{Environment}
use zentto_web.Auth.{find_user, verify_totp, assert_step_up}

-- The user is there, has the factor enabled, and gave a code that is accepted.
pub record Proven (env : Environment) (user_id : ℕ) (totp_code : Option ℕ) (db : Database)
    : Type 0 where
  pub account : User
  pub code : ℕ
  pub is_there : find_user user_id db ≡ some account
  pub given : totp_code ≡ some code
  pub enabled : account.totp_enabled ≡ true
  pub accepted : verify_totp env account code ≡ true

pub assert_step_up_cases :
    (env : Environment) (user_id : ℕ) (totp_code : Option ℕ) (db : Database)
    → (Proven env user_id totp_code db × (assert_step_up env user_id totp_code db ≡ returned tt db))
      ⊎ ((e : Error) × (assert_step_up env user_id totp_code db ≡ thrown e db))
unfolding assert_step_up
assert_step_up_cases env user_id totp_code db = elim (Option-cases (find_user user_id db)) [
  | inl gone ↦ inr (unknown_user, rw gone)
  | inr (u, there) ↦ elim (Bool-cases u.totp_enabled) [
    | inr off ↦ inr (totp_disabled, rw (there, off))
    | inl on ↦ elim (Option-cases totp_code) [
      | inl missing ↦ inr (totp_missing, simp (there, on, missing))
      | inr (c, given) ↦ elim (Bool-cases (verify_totp env u c)) [
        | inr bad ↦ inr (totp_invalid, simp (there, on, given, bad))
        | inl good ↦ inl (
          record {
            account = u;
            code = c;
            is_there = there;
            given = given;
            enabled = on;
            accepted = good;
          },
          simp (there, on, given, good),
        )
      ]
    ]
  ]
]
