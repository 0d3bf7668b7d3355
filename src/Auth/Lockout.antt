-- ===== src/Auth/Lockout.antt =====
-- The lock against guessing a password.
use zentto_web.Prelude.{
  find-replace, ℕ, suc, ◌+◌, ◌≤◌, ◌<◌, ◌≡◌, refl, ap, Bool, true, false, some, List, [], ◌∷◌, ◌==◌,
  find, arith, Bool-cases, inl, inr, All, if◌then◌else◌, lt→ltb, ◌-◌,
}
use native.Mathlib.Decide.{dec_lt}
use zentto_web.Errors.{Error, account_locked, bad_credentials}
use zentto_web.Database.{Database, User}
use zentto_web.Action.{Outcome, returned, thrown, after}
use zentto_web.Environment.{Environment}
use zentto_web.Auth.Accounts.{
  AuthEnvironment, find_by_email, save_rows, save_user, is_locked, failed_once, check_password,
  validate_credentials, lockout_ms,
}
use zentto_web.Auth.Sessions.{find_hit}

-- A saved row is found where the row was that it replaces.
pub find-save_rows :
    (test : User → Bool) (u u' : User) (rows : List User)
    → find test rows ≡ some u
    → u'.id ≡ u.id
    → test u' ≡ true
    → find test (save_rows u' rows) ≡ some u'
find-save_rows test u u' rows found same passes =
    find-replace (λ (w : User). w.id) test u u' rows found same passes

is_lock_answer : Error → Bool
is_lock_answer account_locked = true
is_lock_answer _ = false

-- 1 where the answer is another than that of a locked account.
guess_of : Outcome User → ℕ
unfolding is_lock_answer
guess_of (returned u db) = 1
guess_of (thrown e db) = if is_lock_answer e then 0 else 1

-- An attempt to log in: the time of its start, the time at which a failure is saved, the password.
pub record Attempt : Type 0 where
  pub now : ℕ
  pub later : ℕ
  pub password : ℕ

module _ (env : Environment) (auth : AuthEnvironment) (email : ℕ) where
  abbrev attempt : Attempt → Database → Outcome User
  attempt a = validate_credentials auth env a.now a.later email a.password

  -- How many of the attempts are answered by a comparison with the stored hash.
  pub guesses : List Attempt → Database → ℕ
  unfolding guess_of
  guesses [] db = 0
  guesses (a ∷ attempts) db = guess_of (attempt a db) + guesses attempts (after (attempt a db))

  -- The attempt is wrong, starts before the lock of `start` would end, and fails after `start`.
  abbrev pub IsWrong : ℕ → ℕ → Attempt → Type 0
  IsWrong start hash a =
      (auth.bcrypt_compare a.password hash ≡ false)
      × (a.now < start + lockout_ms)
      × (start ≤ a.later)

  locked_attempt :
      (a : Attempt) (u : User) (db : Database)
      → find_by_email (env.normalize_email email) db ≡ some u
      → is_locked auth a.now u ≡ true
      → attempt a db ≡ thrown account_locked db
  unfolding validate_credentials
  locked_attempt a u db there locked = rw (there, locked) refl

  wrong_attempt :
      (a : Attempt) (u : User) (db : Database)
      → find_by_email (env.normalize_email email) db ≡ some u
      → is_locked auth a.now u ≡ false
      → auth.bcrypt_compare a.password u.password_hash ≡ false
      → attempt a db ≡ thrown bad_credentials (save_user (failed_once auth a.later u) db)
  unfolding validate_credentials check_password
  wrong_attempt a u db there free wrong = rw (there, free, wrong) refl

  no_guess_when_locked :
      (start until hash : ℕ) (u : User) (attempts : List Attempt) (db : Database)
      → find_by_email (env.normalize_email email) db ≡ some u
      → u.locked_until ≡ some until
      → start + lockout_ms ≤ until
      → All (IsWrong start hash) attempts
      → guesses attempts db ≡ 0
  unfolding guesses
  no_guess_when_locked start until hash u [] db there lock long h = refl
  no_guess_when_locked start until hash u (a ∷ attempts) db there lock long h =
      let locked : is_locked auth a.now u ≡ true =
        rw lock (lt→ltb a.now until (omega (arith, h.0.1, long))) in
      rw (locked_attempt a u db there locked)
        (omega (arith, no_guess_when_locked start until hash u attempts db there lock long h.1))

  -- The account is found again after a failure.
  saved_there :
      (later : ℕ) (u : User) (db : Database)
      → find_by_email (env.normalize_email email) db ≡ some u
      → find_by_email (env.normalize_email email) (save_user (failed_once auth later u) db)
        ≡ some (failed_once auth later u)
  saved_there later u db there =
      let at_address = λ (w : User). w.email == env.normalize_email email in
      let (same_id, same_email) = kept in
      find-save_rows at_address u (failed_once auth later u) db.users there same_id
        (rw same_email (find_hit at_address db.users u there))
    where
      kept : ((failed_once auth later u).id ≡ u.id) × ((failed_once auth later u).email ≡ u.email)
      kept = ground arith

  -- What failed_once leaves, by the count.
  fifth_failure :
      (later : ℕ) (u : User)
      → 5 ≤ suc u.failed_login_count
      → failed_once auth later u
        ≡ record u { failed_login_count = 0; locked_until = some (later + lockout_ms) }
  fifth_failure later u h = ground arith

  earlier_failure :
      (later : ℕ) (u : User)
      → suc u.failed_login_count < 5
      → failed_once auth later u ≡ record u { failed_login_count = suc u.failed_login_count }
  earlier_failure later u h = ground arith

  guesses_from :
      (start hash left : ℕ) (u : User) (attempts : List Attempt) (db : Database)
      → find_by_email (env.normalize_email email) db ≡ some u
      → u.password_hash ≡ hash
      → 5 ≤ left + u.failed_login_count
      → 1 ≤ left
      → All (IsWrong start hash) attempts
      → guesses attempts db ≤ left
  unfolding guesses
  guesses_from start hash left u [] db there same enough some_left h = omega arith
  guesses_from start hash left u (a ∷ attempts) db there same enough some_left h =
      let address = env.normalize_email email in
      let at_address = λ (w : User). w.email == address in
      elim (Bool-cases (is_locked auth a.now u)) [
        | inl locked ↦ rw (locked_attempt a u db there locked) (
            omega
              (arith, guesses_from start hash left u attempts db there same enough some_left h.1))
        | inr free ↦
            let u' = failed_once auth a.later u in
            let db' = save_user u' db in
            let wrong : auth.bcrypt_compare a.password u.password_hash ≡ false = rw same h.0.0 in
            elim (dec_lt (suc u.failed_login_count) 5) [
              | yes few ↦
                  let e = earlier_failure a.later u few in
                  let there' = saved_there a.later u db there in
                  let less =
                    guesses_from start hash (left - 1) u' attempts db' there' (rw e same)
                      (rw e (omega (arith, enough, few))) (omega (arith, enough, few)) h.1 in
                  rw (wrong_attempt a u db there free wrong)
                    (omega (arith, less, some_left, enough, few))
              | no many ↦
                  let e = fifth_failure a.later u (omega (arith, many)) in
                  let there' = saved_there a.later u db there in
                  let blocked =
                    no_guess_when_locked start (a.later + lockout_ms) hash u' attempts db' there'
                      (ap (λ (w : User). w.locked_until) e) (omega (arith, h.0.2)) h.1 in
                  rw (wrong_attempt a u db there free wrong) (omega (arith, blocked, some_left))
            ]
      ]

  -- Of any number of attempts on an account with wrong passwords, all of which start within the fifteen
  -- minutes after `start` and fail no earlier than it, at most five are compared with the stored hash: all
  -- others find the account locked. This holds for whatever count and lock the account has before.
  pub guesses_bounded :
      (start : ℕ) (u : User) (attempts : List Attempt) (db : Database)
      → find_by_email (env.normalize_email email) db ≡ some u
      → All (IsWrong start u.password_hash) attempts
      → guesses attempts db ≤ 5
  guesses_bounded start u attempts db there h =
      guesses_from start u.password_hash 5 u attempts db there refl (omega arith) (omega arith) h
