-- ===== src/Auth/Sessions.antt =====
-- A session ends when the version of its user moves on.
use zentto_web.Prelude.{
  ℕ, suc, ◌≤◌, ◌<◌, ◌≡◌, refl, sym, ◌∙◌, Bool, true, false, Option, some, List, [], ◌∷◌, ◌==◌, find,
  arith, Bool-cases, Option-cases, inl, inr, All, ==_iff, some_inj, ne→==,
}
use zentto_web.Errors.{Error, unknown_user, session_revoked}
use zentto_web.Database.{Database, User, AccountToken, reset_password}
use zentto_web.Action.{returned, thrown, returned_inj}
use zentto_web.Environment.{Environment}
use zentto_web.Auth.{find_user}
use zentto_web.Auth.AccountTokens.{validate_in, validate, consume}
use zentto_web.Auth.Accounts.{
  AuthEnvironment, save_rows, new_user, with_password, validate_refresh, revoke_tokens,
  change_password,
}
use zentto_web.Auth.Effects.{
  Saved, UserStep, no_change, saved, added, confirmed, changed, failed, entered, prepared, enabled,
  disabled, revoked,
}
use zentto_web.Auth.Calls.{Event, apply, run, apply-Effect}

-- What holds of every row holds of the one that is found.
pub All-find {ℓ κ} :
    {A : Type ℓ} (P : A → Type κ) (test : A → Bool) (xs : List A) (a : A)
    → All P xs
    → find test xs ≡ some a
    → P a
All-find P test [] a h found = cc
All-find P test (x ∷ xs) a h found = elim (Bool-cases (test x)) [
  | inl hit ↦ let e : some x ≡ some a = rw hit at found in rw (sym (some_inj e)) h.0
  | inr miss ↦ let e : find test xs ≡ some a = rw miss at found in All-find P test xs a h.1 e
]

pub find_hit {ℓ} :
    {A : Type ℓ} (test : A → Bool) (xs : List A) (a : A) → find test xs ≡ some a → test a ≡ true
find_hit test [] a found = cc
find_hit test (x ∷ xs) a found = elim (Bool-cases (test x)) [
  | inl hit ↦ let e : some x ≡ some a = rw hit at found in rw (sym (some_inj e)) hit
  | inr miss ↦ let e : find test xs ≡ some a = rw miss at found in find_hit test xs a e
]

pub All-save_rows :
    (P : User → Type 0) (u : User) (rows : List User) → P u → All P rows → All P (save_rows u rows)
All-save_rows P u [] p h = tt
All-save_rows P u (r ∷ rows) p h = elim (Bool-cases (r.id == u.id)) [
  | inl same ↦ rw same (p, All-save_rows P u rows p h.1)
  | inr other ↦ rw other (h.0, All-save_rows P u rows p h.1)
]

module _ (env : Environment) (auth : AuthEnvironment) where
  -- A property of rows that every save keeps and every new row has is kept by every sequence of calls.
  pub run-All :
      (P : User → Type 0) (bound : ℕ)
      → ((u u' : User) → Saved auth u u' → P u → P u')
      → ((id email hash : ℕ) → bound ≤ id → P (new_user auth id email hash))
      → (es : List Event) (db : Database) → bound ≤ db.next_id
      → All P db.users
      → All P (run env auth es db).users
  run-All P bound keep fresh [] db b h = h
  run-All P bound keep fresh (e ∷ es) db b h =
      let effect = apply-Effect env auth e db in
      run-All P bound keep fresh es (apply env auth e db) (omega (arith, effect.ids, b))
        (step effect.users h)
    where
      step : {us : List User} → UserStep auth db.next_id db.users us → All P db.users → All P us
      step no_change k = k
      step (saved test u u' there s) k =
          All-save_rows P u' db.users (keep u u' s (All-find P test db.users u k there)) k
      step (added email hash) k = (fresh db.next_id email hash b, k)

  pub Saved-grows :
      (u u' : User) → Saved auth u u' → (u'.id ≡ u.id) × (u.token_version ≤ u'.token_version)
  Saved-grows u _ confirmed = (refl, omega arith)
  Saved-grows u _ (changed now hash) = (refl, omega arith)
  Saved-grows u _ (failed now) = ground arith
  Saved-grows u _ entered = ground arith
  Saved-grows u _ (prepared secret) = (refl, omega arith)
  Saved-grows u _ (enabled h) = (refl, omega arith)
  Saved-grows u _ disabled = (refl, omega arith)
  Saved-grows u _ revoked = (refl, omega arith)

  -- Every row of the user `sub` is beyond the version `v`.
  abbrev IsBeyond : ℕ → ℕ → User → Type 0
  IsBeyond sub v u = u.id ≡ sub → v < u.token_version

  saved-IsBeyond :
      (sub v : ℕ) (u : User) (rows : List User)
      → u.id ≡ sub
      → v < u.token_version
      → All (IsBeyond sub v) (save_rows u rows)
  saved-IsBeyond sub v u [] same newer = tt
  saved-IsBeyond sub v u (r ∷ rows) same newer = elim (Bool-cases (r.id == u.id)) [
    | inl hit ↦ rw hit (λ _. newer, saved-IsBeyond sub v u rows same newer)
    | inr miss ↦ rw miss (
      (λ e. absurd (other r.id u.id miss (e ∙ sym same))),
      saved-IsBeyond sub v u rows same newer,
    )
  ]
    where
      other : (a b : ℕ) → (a == b) ≡ false → a ≡ b → ⊥
      other a b h e = ground arith

  -- The calls that end every session of the user `sub`.
  pub data EndsSessions (sub : ℕ) (db db' : Database) : Type 0 where
    by_revocation : revoke_tokens auth sub db ≡ returned tt db' → EndsSessions sub db db'
    by_new_password :
        (now salt : ℕ) (token : Option ℕ) (password : ℕ) (r : AccountToken)
        → validate_in auth.sha256 now token reset_password db ≡ some r
        → r.user_id ≡ sub
        → change_password auth now salt token password db ≡ returned tt db'
        → EndsSessions sub db db'

  ended-IsBeyond :
      (sub v : ℕ) (u : User) (db db' : Database)
      → find_user sub db ≡ some u
      → v ≤ u.token_version
      → EndsSessions sub db db'
      → All (IsBeyond sub v) db'.users × (db'.next_id ≡ db.next_id)
  unfolding revoke_tokens change_password validate consume
  ended-IsBeyond sub v u db db' there older (by_revocation done) =
      let same = (==_iff u.id sub).0 (find_hit (λ (w : User). w.id == sub) db.users u there) in
      let e = (returned_inj (rw there at done)).1 in
      rw (sym e) (
        saved-IsBeyond sub v (record u { token_version = suc u.token_version }) db.users same
            (omega arith),
        refl,
      )
  ended-IsBeyond sub v u db db' there older
        (by_new_password now salt token password r good at done) =
      let same = (==_iff u.id sub).0 (find_hit (λ (w : User). w.id == sub) db.users u there) in
      let hash = auth.bcrypt_hash salt password in
      let e = (returned_inj (rw (good, at, there) at done)).1 in
      rw (sym e)
        (saved-IsBeyond sub v (with_password auth now hash u) db.users same (omega arith), refl)

  refused :
      (now token sub v : ℕ) (db : Database)
      → auth.verify_refresh now token ≡ some (sub, v)
      → All (IsBeyond sub v) db.users
      → (e : Error) × (validate_refresh auth now token db ≡ thrown e db)
  unfolding validate_refresh
  refused now token sub v db known beyond = elim (Option-cases (find_user sub db)) [
    | inl gone ↦ (unknown_user, rw (known, gone))
    | inr (u, there) ↦
        let same = (==_iff u.id sub).0 (find_hit (λ (w : User). w.id == sub) db.users u there) in
        let newer =
          All-find (IsBeyond sub v) (λ (w : User). w.id == sub) db.users u beyond there same in
        (
          session_revoked,
          rw (known, there, ne→== v u.token_version (λ e. absurd (omega (arith, e, newer)))),
        )
  ]

  -- After revokeTokens or resetPassword for a user, a refresh token of the user that carries a version that
  -- was current or older at that time is refused, whatever calls of the accounts come in between.
  pub old_sessions_end :
      (now token sub v : ℕ) (u : User) (db db' : Database) (es : List Event)
      → auth.verify_refresh now token ≡ some (sub, v)
      → find_user sub db ≡ some u
      → v ≤ u.token_version
      → sub < db.next_id
      → EndsSessions sub db db'
      → (e : Error) × (validate_refresh auth now token (run env auth es db')
          ≡ thrown e (run env auth es db'))
  old_sessions_end now token sub v u db db' es known there older drawn ends =
      let (beyond, ids) = ended-IsBeyond sub v u db db' there older ends in
      refused now token sub v (run env auth es db') known (
        run-All (IsBeyond sub v) (suc sub) (λ a b s h same. kept a b (Saved-grows a b s) h same)
          (λ id email hash b same. absurd (omega (arith, b, same))) es db'
          (omega (arith, drawn, ids)) beyond)
    where
      kept :
          (a b : User)
          → (b.id ≡ a.id) × (a.token_version ≤ b.token_version)
          → IsBeyond sub v a
          → IsBeyond sub v b
      kept a b (i, g) h same = omega (arith, g, h (sym i ∙ same))
