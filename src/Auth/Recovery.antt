-- ===== src/Auth/Recovery.antt =====
-- The second factor across calls, and the way back into an account.
use zentto_web.Prelude.{ℕ, suc, ◌≡◌, refl, true, some, is_some, List, ◌==◌, arith, All}
use zentto_web.Database.{Database, User, AccountToken, reset_password}
use zentto_web.Action.{returned, after}
use zentto_web.Environment.{Environment}
use zentto_web.Auth.{find_user}
use zentto_web.Auth.AccountTokens.{validate_in, validate, consume}
use zentto_web.Auth.Accounts.{
  AuthEnvironment, find_by_email, save_user, with_password, logged_in, change_password,
  check_password, validate_credentials,
}
use zentto_web.Auth.Effects.{
  Saved, confirmed, changed, failed, entered, prepared, enabled, disabled, revoked,
}
use zentto_web.Auth.Calls.{Event, run}
use zentto_web.Auth.Sessions.{find_hit, run-All}
use zentto_web.Auth.Lockout.{find-save_rows}

-- Where the second factor is on, there is a secret to check codes against.
abbrev pub HasSecret : User → Type 0
HasSecret u = u.totp_enabled ≡ true → is_some u.totp_secret ≡ true

module _ (env : Environment) (auth : AuthEnvironment) where
  Saved-HasSecret : (u u' : User) → Saved auth u u' → HasSecret u → HasSecret u'
  Saved-HasSecret u _ confirmed h = h
  Saved-HasSecret u _ (changed now hash) h = h
  Saved-HasSecret u _ (failed now) h = ground arith
  Saved-HasSecret u _ entered h = ground arith
  Saved-HasSecret u _ (prepared secret) h = λ _. refl
  Saved-HasSecret u _ (enabled k) h = λ _. k
  Saved-HasSecret u _ disabled h = λ e. cc
  Saved-HasSecret u _ revoked h = h

  -- Whatever calls of the accounts are made, by anyone and at any times: if every user with the second
  -- factor on has a secret before them, so has every such user after them.
  pub run-HasSecret :
      (es : List Event) (db : Database)
      → All HasSecret db.users
      → All HasSecret (run env auth es db).users
  run-HasSecret es db h =
      run-All env auth HasSecret 0 Saved-HasSecret (λ id email hash b e. cc) es db (omega arith) h

  -- A user who resets the password by a token logs in with the new one, whatever the count and the lock
  -- were before. The user is the one of the token, and is found by the e-mail; bcrypt accepts a password
  -- against its own hash.
  pub change_password-validate_credentials :
      (now salt token password now' later email : ℕ) (r : AccountToken) (u : User) (db : Database)
      → ((s p : ℕ) → auth.bcrypt_compare p (auth.bcrypt_hash s p) ≡ true)
      → validate_in auth.sha256 now (some token) reset_password db ≡ some r
      → find_user r.user_id db ≡ some u
      → find_by_email (env.normalize_email email) db ≡ some u
      → (db' : Database) × (db'' : Database) × (u' : User) × (change_password auth now salt
            (some token)
            password
            db
          ≡ returned tt db')
        × (validate_credentials auth env now' later email password db' ≡ returned u' db'')
        × (u'.id ≡ u.id)
        × (u'.token_version ≡ suc u.token_version)
  unfolding change_password validate consume validate_credentials check_password
  change_password-validate_credentials now salt token password now' later email r u db law good
        there known =
      let hash = auth.bcrypt_hash salt password in
      let u' = with_password auth now hash u in
      let at_address = λ (w : User). w.email == env.normalize_email email in
      let db' = after (change_password auth now salt (some token) password db) in
      let reset : change_password auth now salt (some token) password db ≡ returned tt db' =
        rw (good, there) refl in
      let found : find_by_email (env.normalize_email email) db' ≡ some u' =
        rw (good, there)
          (find-save_rows at_address u u' db.users known refl
            (find_hit at_address db.users u known)) in
      (
        db',
        save_user (logged_in auth u') db',
        logged_in auth u',
        reset,
        rw (found, law salt password) refl,
        entered_id u',
        entered_version u',
      )
    where
      entered_id : (w : User) → (logged_in auth w).id ≡ w.id
      entered_id w = ground arith

      entered_version : (w : User) → (logged_in auth w).token_version ≡ w.token_version
      entered_version w = ground arith
