-- ===== src/Auth/Effects.antt =====
-- What a call of the accounts does to the tables, whichever way it ends.
use zentto_web.Prelude.{
  ℕ, suc, ◌+◌, ◌≤◌, ◌≡◌, refl, Bool, true, false, Option, none, some, is_some, List, ◌∷◌, ◌==◌,
  find, arith, Bool-cases, Option-cases, inl, inr, ◌⊎◌,
}
use zentto_web.Errors.{unique_violation}
use zentto_web.Database.{
  Database, User, AccountToken, AccountTokenType, verify_email, reset_password,
}
use zentto_web.Action.{returned, thrown, after}
use zentto_web.Environment.{Environment}
use zentto_web.Auth.{find_user}
use zentto_web.Auth.AccountTokens.{
  is_current, mark_used, insert_token, new_token, issue, validate_in, validate, consume,
}
use zentto_web.Auth.Accounts.{
  AuthEnvironment, find_by_email, save_rows, new_user, register, send_verification_email,
  confirm_email, resend_verification, mail_reset, forgot_password, with_password, change_password,
  failed_once, logged_in, verify_token_ttl_ms, reset_token_ttl_ms,
}

-- What happens to the table of tokens: some are marked as used, and one is added whose hash is new.
pub data TokenSteps (ts : List AccountToken) : List AccountToken → Type 0 where
  no_step : TokenSteps ts ts
  used :
      {rows : List AccountToken} (now : ℕ) (test : AccountToken → Bool)
      → TokenSteps ts rows
      → TokenSteps ts (mark_used now test rows)
  issued :
      {rows : List AccountToken} (r : AccountToken)
      → find (λ (s : AccountToken). s.token_hash == r.token_hash) rows ≡ none
      → TokenSteps ts rows
      → TokenSteps ts (r ∷ rows)

-- An issued token, or the refusal of a hash that is there.
pub issue_cases :
    (hash : ℕ → ℕ) (now plain user_id : ℕ) (type : AccountTokenType) (ttl : ℕ) (db : Database)
    → (db' : Database) × (db'.users ≡ db.users)
      × (db.next_id ≤ db'.next_id)
      × TokenSteps db.account_tokens db'.account_tokens
      × ((issue hash now plain user_id type ttl db ≡ returned plain db')
          ⊎ (issue hash now plain user_id type ttl db ≡ thrown unique_violation db'))
unfolding issue insert_token new_token
issue_cases hash now plain user_id type ttl db =
    let marked = mark_used now (is_current user_id type) db.account_tokens in
    let id : ℕ = db.next_id in
    let r = new_token id user_id type (hash plain) (now + ttl) in
    elim (Option-cases (find (λ (s : AccountToken). s.token_hash == hash plain) marked)) [
      | inl fresh ↦ (
        record db { account_tokens = r ∷ marked; next_id = suc id },
        refl,
        omega arith,
        issued r fresh (used now (is_current user_id type) no_step),
        inl (rw fresh),
      )
      | inr (s, taken) ↦ (
        record db { account_tokens = marked; next_id = suc id },
        refl,
        omega arith,
        used now (is_current user_id type) no_step,
        inr (rw taken),
      )
    ]

module _ (auth : AuthEnvironment) where
  -- The ways in which a row of a user is saved.
  pub data Saved (u : User) : User → Type 0 where
    confirmed : Saved u (record u { email_verified = true })
    changed : (now hash : ℕ) → Saved u (with_password auth now hash u)
    failed : (now : ℕ) → Saved u (failed_once auth now u)
    entered : Saved u (logged_in auth u)
    prepared : (secret : ℕ) → Saved u (record u { totp_secret = some secret })
    enabled : is_some u.totp_secret ≡ true → Saved u (record u { totp_enabled = true })
    disabled : Saved u (record u { totp_enabled = false; totp_secret = none })
    revoked : Saved u (record u { token_version = suc u.token_version })

  -- What happens to the table of users, where `id` is the next id.
  pub data UserStep (id : ℕ) (us : List User) : List User → Type 0 where
    no_change : UserStep id us us
    saved :
        (test : User → Bool) (u u' : User)
        → find test us ≡ some u
        → Saved u u'
        → UserStep id us (save_rows u' us)
    added : (email hash : ℕ) → UserStep id us (new_user auth id email hash ∷ us)

  pub record Effect (db db' : Database) : Type 0 where
    pub users : UserStep db.next_id db.users db'.users
    pub ids : db.next_id ≤ db'.next_id
    pub tokens : TokenSteps db.account_tokens db'.account_tokens

  pub unchanged-Effect : (db : Database) → Effect db db
  unchanged-Effect db = record { users = no_change; ids = omega arith; tokens = no_step }

  pub register-Effect :
      (env : Environment) (now salt plain email password : ℕ) (db : Database)
      → Effect db (after (register auth env now salt plain email password db))
  unfolding register send_verification_email
  register-Effect env now salt plain email password db =
      let address = env.normalize_email email in
      let u = new_user auth db.next_id address (auth.bcrypt_hash salt password) in
      let added_db = record db { next_id = suc db.next_id; users = u ∷ db.users } in
      elim (Option-cases (find_by_email address db)) [
        | inr (other, there) ↦ rw there (unchanged-Effect db)
        | inl free ↦
            let (db', us, ids, steps, ends) =
              issue_cases auth.sha256 now plain u.id verify_email verify_token_ttl_ms added_db in
            let effect : Effect db db' = record {
              users = rw us (added address (auth.bcrypt_hash salt password));
              ids = omega (arith, ids);
              tokens = steps;
            } in
            elim ends [ inl done ↦ rw (free, done) effect | inr clash ↦ rw (free, clash) effect ]
      ]

  mailed-Effect :
      (now plain : ℕ) (u : User) (db : Database)
      → Effect db (after (send_verification_email auth now plain u db))
  unfolding send_verification_email
  mailed-Effect now plain u db =
      let (db', us, ids, steps, ends) =
        issue_cases auth.sha256 now plain u.id verify_email verify_token_ttl_ms db in
      let effect : Effect db db' = record { users = rw us no_change; ids = ids; tokens = steps } in
      elim ends [ inl done ↦ rw done effect | inr clash ↦ rw clash effect ]

  pub resend_verification-Effect :
      (now plain user_id : ℕ) (db : Database)
      → Effect db (after (resend_verification auth now plain user_id db))
  unfolding resend_verification
  resend_verification-Effect now plain user_id db = elim (Option-cases (find_user user_id db)) [
    | inl gone ↦ rw gone (unchanged-Effect db)
    | inr (u, there) ↦ elim (Bool-cases u.email_verified) [
      | inl verified ↦ rw (there, verified) (unchanged-Effect db)
      | inr open_still ↦ simp (there, open_still) (mailed-Effect now plain u db)
    ]
  ]

  pub forgot_password-Effect :
      (env : Environment) (now plain email : ℕ) (db : Database)
      → Effect db (after (forgot_password auth env now plain email db))
  unfolding forgot_password mail_reset
  forgot_password-Effect env now plain email db =
      elim (Option-cases (find_by_email (env.normalize_email email) db)) [
        | inl unknown ↦ rw unknown (unchanged-Effect db)
        | inr (u, there) ↦
            let (db', us, ids, steps, ends) =
              issue_cases auth.sha256 now plain u.id reset_password reset_token_ttl_ms db in
            let effect : Effect db db' = record {
              users = rw us no_change;
              ids = ids;
              tokens = steps;
            } in
            elim ends [ inl done ↦ rw (there, done) effect | inr clash ↦ rw (there, clash) effect ]
      ]

  pub confirm_email-Effect :
      (now : ℕ) (token : Option ℕ) (db : Database)
      → Effect db (after (confirm_email auth now token db))
  unfolding confirm_email validate consume
  confirm_email-Effect now token db =
      elim (Option-cases (validate_in auth.sha256 now token verify_email db)) [
        | inl bad ↦ rw bad (unchanged-Effect db)
        | inr (r, good) ↦ elim (Option-cases (find_user r.user_id db)) [
          | inl gone ↦ rw (good, gone) (unchanged-Effect db)
          | inr (u, there) ↦ elim (Bool-cases u.email_verified) [
            | inl verified ↦
                rw (good, there, verified)
                  (record {
                    users = no_change;
                    ids = omega arith;
                    tokens = used now (λ (s : AccountToken). s.id == r.id) no_step;
                  })
            | inr open_still ↦
                rw (good, there, open_still)
                  (record {
                    users =
                        saved (λ (v : User). v.id == r.user_id) u
                          (record u { email_verified = true }) there confirmed;
                    ids = omega arith;
                    tokens = used now (λ (s : AccountToken). s.id == r.id) no_step;
                  })
          ]
        ]
      ]

  pub change_password-Effect :
      (now salt : ℕ) (token : Option ℕ) (password : ℕ) (db : Database)
      → Effect db (after (change_password auth now salt token password db))
  unfolding change_password validate consume
  change_password-Effect now salt token password db =
      elim (Option-cases (validate_in auth.sha256 now token reset_password db)) [
        | inl bad ↦ rw bad (unchanged-Effect db)
        | inr (r, good) ↦ elim (Option-cases (find_user r.user_id db)) [
          | inl gone ↦ rw (good, gone) (unchanged-Effect db)
          | inr (u, there) ↦
              let hash = auth.bcrypt_hash salt password in
              rw (good, there)
                (record {
                  users =
                      saved (λ (v : User). v.id == r.user_id) u (with_password auth now hash u)
                        there (changed now hash);
                  ids = omega arith;
                  tokens = used now (λ (s : AccountToken). s.id == r.id) no_step;
                })
        ]
      ]
