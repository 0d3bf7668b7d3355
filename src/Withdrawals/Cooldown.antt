-- ===== src/Withdrawals/Cooldown.antt =====
-- The pause after a change of the password, for a user who has no second factor yet.
use zentto_web.Prelude.{ℕ, ◌≡◌, refl, true, false, some, ◌==◌, find-replace}
use zentto_web.Database.{Database, User, AccountToken, reset_password}
use zentto_web.Action.{returned, after}
use zentto_web.Environment.{at_time, Environment}
use zentto_web.Auth.{find_user, verify_totp}
use zentto_web.Auth.AccountTokens.{validate_in, validate, consume}
use zentto_web.Auth.Accounts.{
  AuthEnvironment, save_user, with_password, change_password, setup_totp, enable_totp,
}
use zentto_web.Auth.Sessions.{find_hit}
use zentto_web.Withdrawals.{assert_withdrawal}

-- A user is found as saved.
find-save_user :
    (id : ℕ) (u u' : User) (db : Database)
    → find_user id db ≡ some u
    → u'.id ≡ u.id
    → find_user id (save_user u' db) ≡ some u'
find-save_user id u u' db there same =
    find-replace (λ (w : User). w.id) (λ (w : User). w.id == id) u u' db.users there same
      (rw same (find_hit (λ (w : User). w.id == id) db.users u there))

module _ (env : Environment) (auth : AuthEnvironment) where
  -- For a user without a second factor: whoever resets the password by a token can then set up and enable a
  -- second factor with a secret of one's own, by a code of that secret, and the check of a withdrawal passes
  -- with any code of the secret at its time, also within the day after the change.
  pub reset_passes_cooldown :
      (now salt token password secret code now' code' now'' : ℕ) (r : AccountToken) (u : User)
      (db : Database)
      → validate_in auth.sha256 now (some token) reset_password db ≡ some r
      → find_user r.user_id db ≡ some u
      → u.totp_enabled ≡ false
      → env.verify_code now' secret code ≡ true
      → env.verify_code now'' secret code' ≡ true
      → (db' : Database) × (db'' : Database) × (db''' : Database) × (change_password auth now salt
            (some token)
            password
            db
          ≡ returned tt db')
        × (setup_totp auth secret r.user_id db' ≡ returned secret db'')
        × (enable_totp auth (at_time now' env) r.user_id code db'' ≡ returned tt db''')
        × (assert_withdrawal env now'' r.user_id (some code') db''' ≡ returned tt db''')
  unfolding change_password validate consume setup_totp enable_totp assert_withdrawal verify_totp
  reset_passes_cooldown now salt token password secret code now' code' now'' r u db good there off
        accepted accepted' =
      let id : ℕ = r.user_id in
      let u1 = with_password auth now (auth.bcrypt_hash salt password) u in
      let u2 = record u1 { totp_secret = some secret } in
      let u3 = record u2 { totp_enabled = true } in
      let db1 = after (change_password auth now salt (some token) password db) in
      let reset : change_password auth now salt (some token) password db ≡ returned tt db1 =
        rw (good, there) refl in
      let found1 : find_user id db1 ≡ some u1 =
        rw (good, there) (find-save_user id u u1 db there refl) in
      let found2 = find-save_user id u1 u2 db1 found1 refl in
      let found3 = find-save_user id u2 u3 (save_user u2 db1) found2 refl in
      (
        db1,
        save_user u2 db1,
        save_user u3 (save_user u2 db1),
        reset,
        rw (found1, off) refl,
        rw (found2, accepted) refl,
        rw (found3, accepted') refl,
      )
