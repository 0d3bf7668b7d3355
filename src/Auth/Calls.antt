-- ===== src/Auth/Calls.antt =====
-- Sequences of calls of the accounts, by anyone and at any times.
use zentto_web.Prelude.{
  ℕ, suc, ◌≡◌, Bool, true, false, Option, none, some, is_some, List, [], ◌∷◌, ◌==◌, find, arith,
  Bool-cases, Option-cases, inl, inr,
}
use zentto_web.Database.{Database, User}
use zentto_web.Action.{returned, after}
use zentto_web.Environment.{at_time, Environment}
use zentto_web.Auth.{find_user, verify_totp}
use zentto_web.Auth.Accounts.{
  AuthEnvironment, find_by_email, save_user, register, confirm_email, resend_verification,
  forgot_password, change_password, is_locked, failed_once, logged_in, check_password,
  validate_credentials, setup_totp, enable_totp, disable_totp, revoke_tokens,
}
use zentto_web.Auth.Effects.{
  Saved, Effect, unchanged-Effect, saved, no_step, failed, entered, prepared, enabled, disabled,
  revoked, register-Effect, confirm_email-Effect, resend_verification-Effect,
  forgot_password-Effect, change_password-Effect,
}

-- A call, with its time, what it draws at random, and its arguments.
pub data Event : Type 0 where
  registers : ℕ → ℕ → ℕ → ℕ → ℕ → Event
  confirms : ℕ → Option ℕ → Event
  resends : ℕ → ℕ → ℕ → Event
  forgets : ℕ → ℕ → ℕ → Event
  changes : ℕ → ℕ → Option ℕ → ℕ → Event
  logs_in : ℕ → ℕ → ℕ → ℕ → Event
  prepares : ℕ → ℕ → Event
  enables : ℕ → ℕ → ℕ → Event
  disables : ℕ → ℕ → ℕ → Event
  revokes : ℕ → Event

module _ (env : Environment) (auth : AuthEnvironment) where
  -- The database after a call.
  abbrev pub apply : Event → Database → Database
  apply (registers now salt plain email password) db =
      after (register auth env now salt plain email password db)
  apply (confirms now token) db = after (confirm_email auth now token db)
  apply (resends now plain id) db = after (resend_verification auth now plain id db)
  apply (forgets now plain email) db = after (forgot_password auth env now plain email db)
  apply (changes now salt token password) db =
      after (change_password auth now salt token password db)
  apply (logs_in now later email password) db =
      after (validate_credentials auth env now later email password db)
  apply (prepares secret id) db = after (setup_totp auth secret id db)
  apply (enables now id code) db = after (enable_totp auth (at_time now env) id code db)
  apply (disables now id code) db = after (disable_totp auth (at_time now env) id code db)
  apply (revokes id) db = after (revoke_tokens auth id db)

  -- The database after all of them, from the first on.
  abbrev pub run : List Event → Database → Database
  run [] db = db
  run (e ∷ es) db = run es (apply e db)

  save-Effect :
      (test : User → Bool) (u u' : User) (db : Database)
      → find test db.users ≡ some u
      → Saved auth u u'
      → Effect auth db (save_user u' db)
  save-Effect test u u' db there s = record {
    users = saved test u u' there s;
    ids = omega arith;
    tokens = no_step;
  }

  login-Effect :
      (now later email password : ℕ) (db : Database)
      → Effect auth db (after (validate_credentials auth env now later email password db))
  unfolding validate_credentials check_password
  login-Effect now later email password db =
      let address = env.normalize_email email in
      let at_address = λ (u : User). u.email == address in
      elim (Option-cases (find_by_email address db)) [
        | inl unknown ↦ rw unknown (unchanged-Effect auth db)
        | inr (u, there) ↦ elim (Bool-cases (is_locked auth now u)) [
          | inl locked ↦ simp (there, locked) (unchanged-Effect auth db)
          | inr free ↦ elim (Bool-cases (auth.bcrypt_compare password u.password_hash)) [
            | inl good ↦
                simp (there, free, good)
                  (save-Effect at_address u (logged_in auth u) db there entered)
            | inr bad ↦
                simp (there, free, bad)
                  (save-Effect at_address u (failed_once auth later u) db there (failed later))
          ]
        ]
      ]

  setup-Effect :
      (secret id : ℕ) (db : Database) → Effect auth db (after (setup_totp auth secret id db))
  unfolding setup_totp
  setup-Effect secret id db = elim (Option-cases (find_user id db)) [
    | inl gone ↦ rw gone (unchanged-Effect auth db)
    | inr (u, there) ↦ elim (Bool-cases u.totp_enabled) [
      | inl on ↦ simp (there, on) (unchanged-Effect auth db)
      | inr off ↦
          let u' = record u { totp_secret = some secret } in
          let done : setup_totp auth secret id db ≡ returned secret (save_user u' db) =
            rw (there, off) in
          rw done (save-Effect (λ (v : User). v.id == id) u u' db there (prepared secret))
    ]
  ]

  enable-Effect :
      (now id code : ℕ) (db : Database)
      → Effect auth db (after (enable_totp auth (at_time now env) id code db))
  unfolding enable_totp
  enable-Effect now id code db = elim (Option-cases (find_user id db)) [
    | inl gone ↦ rw gone (unchanged-Effect auth db)
    | inr (u, there) ↦ elim (Bool-cases (is_some u.totp_secret)) [
      | inr missing ↦ simp (there, missing) (unchanged-Effect auth db)
      | inl set_up ↦ elim (Bool-cases (verify_totp (at_time now env) u code)) [
        | inr bad ↦ simp (there, set_up, bad) (unchanged-Effect auth db)
        | inl good ↦
            simp (there, set_up, good)
              (save-Effect (λ (v : User). v.id == id) u (record u { totp_enabled = true }) db there
                (enabled set_up))
      ]
    ]
  ]

  disable-Effect :
      (now id code : ℕ) (db : Database)
      → Effect auth db (after (disable_totp auth (at_time now env) id code db))
  unfolding disable_totp
  disable-Effect now id code db = elim (Option-cases (find_user id db)) [
    | inl gone ↦ rw gone (unchanged-Effect auth db)
    | inr (u, there) ↦ elim (Bool-cases u.totp_enabled) [
      | inr off ↦ simp (there, off) (unchanged-Effect auth db)
      | inl on ↦ elim (Bool-cases (verify_totp (at_time now env) u code)) [
        | inr bad ↦ simp (there, on, bad) (unchanged-Effect auth db)
        | inl good ↦
            simp (there, on, good)
              (save-Effect (λ (v : User). v.id == id) u
                (record u { totp_enabled = false; totp_secret = none }) db there disabled)
      ]
    ]
  ]

  revoke-Effect : (id : ℕ) (db : Database) → Effect auth db (after (revoke_tokens auth id db))
  unfolding revoke_tokens
  revoke-Effect id db = elim (Option-cases (find_user id db)) [
    | inl gone ↦ rw gone (unchanged-Effect auth db)
    | inr (u, there) ↦ rw there (
        save-Effect (λ (v : User). v.id == id) u (record u { token_version = suc u.token_version })
          db there revoked)
  ]

  pub apply-Effect : (e : Event) (db : Database) → Effect auth db (apply e db)
  apply-Effect (registers now salt plain email password) db =
      register-Effect auth env now salt plain email password db
  apply-Effect (confirms now token) db = confirm_email-Effect auth now token db
  apply-Effect (resends now plain id) db = resend_verification-Effect auth now plain id db
  apply-Effect (forgets now plain email) db = forgot_password-Effect auth env now plain email db
  apply-Effect (changes now salt token password) db =
      change_password-Effect auth now salt token password db
  apply-Effect (logs_in now later email password) db = login-Effect now later email password db
  apply-Effect (prepares secret id) db = setup-Effect secret id db
  apply-Effect (enables now id code) db = enable-Effect now id code db
  apply-Effect (disables now id code) db = disable-Effect now id code db
  apply-Effect (revokes id) db = revoke-Effect id db
