-- ===== src/Auth/Once.antt =====
-- A mailed token works once.
use zentto_web.Prelude.{
  ℕ, ◌≡◌, refl, sym, ap, ◌∙◌, Bool, true, false, none, some, is_some, List, [], ◌∷◌, ◌==◌, find,
  arith, Bool-cases, Option-cases, inl, inr, some_inj, and-true, ==_refl, if◌then◌else◌,
}
use zentto_web.Errors.{bad_token}
use zentto_web.Database.{Database, AccountToken, AccountTokenType, reset_password}
use zentto_web.Action.{returned, thrown, returned_inj, thrown_not_returned}
use zentto_web.Environment.{Environment}
use zentto_web.Auth.{find_user}
use zentto_web.Auth.AccountTokens.{
  has_hash, same_type, mark_used, accept, validate_in, validate, consume,
}
use zentto_web.Auth.Accounts.{AuthEnvironment, change_password}
use zentto_web.Auth.Effects.{TokenSteps, no_step, used, issued}
use zentto_web.Auth.Calls.{Event, apply, run, apply-Effect}

-- The token with this hash and type is there, and was used.
pub record Spent (hash : ℕ) (type : AccountTokenType) (rows : List AccountToken) : Type 0 where
  pub row : AccountToken
  pub there : find (has_hash hash type) rows ≡ some row
  pub is_used : is_some row.used_at ≡ true

-- Marking rows changes neither hash nor type, so the same row is found.
find-mark_used :
    (hash now : ℕ) (type : AccountTokenType) (test : AccountToken → Bool) (rows : List AccountToken)
    (r : AccountToken)
    → find (has_hash hash type) rows ≡ some r
    → find (has_hash hash type) (mark_used now test rows)
      ≡ some (if test r then record r { used_at = some now } else r)
find-mark_used hash now type test [] r found = cc
find-mark_used hash now type test (s ∷ rows) r found = elim (Bool-cases (has_hash hash type s)) [
  | inl hit ↦
      let e : s ≡ r = some_inj (rw hit at found) in
      rw (sym e) (elim (Bool-cases (test s)) [
        | inl marked ↦ rw (marked, hit) refl
        | inr kept ↦ rw (kept, hit) refl
      ])
  | inr miss ↦
      let e : find (has_hash hash type) rows ≡ some r = rw miss at found in
      let rest = find-mark_used hash now type test rows r e in
      elim (Bool-cases (test s)) [
        | inl marked ↦ rw (marked, miss) rest
        | inr kept ↦ rw (kept, miss) rest
      ]
]

mark_used-Spent :
    (hash now : ℕ) (type : AccountTokenType) (test : AccountToken → Bool) (rows : List AccountToken)
    → Spent hash type rows
    → Spent hash type (mark_used now test rows)
mark_used-Spent hash now type test rows s = record {
  row = if test s.row then record s.row { used_at = some now } else s.row;
  there = find-mark_used hash now type test rows s.row s.there;
  is_used = elim (Bool-cases (test s.row)) [
    | inl marked ↦ rw marked refl
    | inr kept ↦ rw kept s.is_used
  ];
}

-- A token with a hash that is there is never issued.
fresh_elsewhere :
    (hash h : ℕ) (type : AccountTokenType) (rows : List AccountToken) (r : AccountToken)
    → find (has_hash hash type) rows ≡ some r
    → find (λ (s : AccountToken). s.token_hash == h) rows ≡ none
    → (h == hash) ≡ false
fresh_elsewhere hash h type [] r found none_there = cc
fresh_elsewhere hash h type (s ∷ rows) r found none_there = elim (Bool-cases (s.token_hash == h)) [
  | inl taken ↦ let e : some s ≡ none = rw taken at none_there in cc
  | inr other ↦
      let rest : find (λ (s' : AccountToken). s'.token_hash == h) rows ≡ none =
        rw other at none_there in
      elim (Bool-cases (has_hash hash type s)) [
        | inl hit ↦
            apart s.token_hash (and-true (s.token_hash == hash) (same_type s.type type) hit).0 other
        | inr miss ↦
            let e : find (has_hash hash type) rows ≡ some r = rw miss at found in
            fresh_elsewhere hash h type rows r e rest
      ]
]
  where
    apart : (t : ℕ) → (t == hash) ≡ true → (t == h) ≡ false → (h == hash) ≡ false
    apart t same other = ground arith

TokenSteps-Spent :
    (hash : ℕ) (type : AccountTokenType) {ts rows : List AccountToken}
    → TokenSteps ts rows
    → Spent hash type ts
    → Spent hash type rows
TokenSteps-Spent hash type no_step s = s
TokenSteps-Spent hash type (used {rows} now test steps) s =
    mark_used-Spent hash now type test rows (TokenSteps-Spent hash type steps s)
TokenSteps-Spent hash type (issued {rows} r fresh steps) s =
    let before = TokenSteps-Spent hash type steps s in
    record {
      row = before.row;
      there =
          rw (fresh_elsewhere hash r.token_hash type rows before.row before.there fresh)
            before.there;
      is_used = before.is_used;
    }

module _ (env : Environment) (auth : AuthEnvironment) where
  run-Spent :
      (hash : ℕ) (type : AccountTokenType) (es : List Event) (db : Database)
      → Spent hash type db.account_tokens
      → Spent hash type (run env auth es db).account_tokens
  run-Spent hash type [] db s = s
  run-Spent hash type (e ∷ es) db s =
      run-Spent hash type es (apply env auth e db)
        (TokenSteps-Spent hash type (apply-Effect env auth e db).tokens s)

  Spent-validate_in :
      (now plain : ℕ) (type : AccountTokenType) (db : Database)
      → Spent (auth.sha256 plain) type db.account_tokens
      → validate_in auth.sha256 now (some plain) type db ≡ none
  Spent-validate_in now plain type db s = rw (s.there, s.is_used)

  consumed-Spent :
      (now plain : ℕ) (type : AccountTokenType) (r : AccountToken) (db : Database)
      → validate_in auth.sha256 now (some plain) type db ≡ some r
      → Spent
          (auth.sha256 plain)
          type
          (mark_used now (λ (s : AccountToken). s.id == r.id) db.account_tokens)
  consumed-Spent now plain type r db good =
      elim (Option-cases (find (has_hash (auth.sha256 plain) type) db.account_tokens)) [
        | inl gone ↦ let e : none ≡ some r = rw gone at good in cc
        | inr (s, there) ↦
            let e = accepted s (rw there at good) in
            record {
              row = record s { used_at = some now };
              there =
                  find-mark_used (auth.sha256 plain) now type (λ (t : AccountToken). t.id == r.id)
                    db.account_tokens s there
                  ∙ rw (sym e) (ap some (hit s));
              is_used = refl;
            }
      ]
    where
      accepted : (s : AccountToken) → accept now (some s) ≡ some r → s ≡ r
      accepted s h = ground arith

      hit :
          (s : AccountToken)
          → (if s.id == s.id then record s { used_at = some now } else s)
            ≡ record s { used_at = some now }
      hit s = rw (==_refl s.id)

  -- A token with which resetPassword returned is refused by resetPassword ever after: whatever calls of the
  -- accounts come in between, and at whatever time, the call throws and changes nothing.
  pub reset_once :
      (now salt plain password : ℕ) (db db' : Database) (es : List Event) (later salt' other : ℕ)
      → change_password auth now salt (some plain) password db ≡ returned tt db'
      → change_password auth later salt' (some plain) other (run env auth es db')
        ≡ thrown bad_token (run env auth es db')
  unfolding change_password validate consume
  reset_once now salt plain password db db' es later salt' other done =
      elim (Option-cases (validate_in auth.sha256 now (some plain) reset_password db)) [
        | inl bad ↦ absurd (thrown_not_returned (rw bad at done))
        | inr (r, good) ↦ elim (Option-cases (find_user r.user_id db)) [
          | inl gone ↦ absurd (thrown_not_returned (rw (good, gone) at done))
          | inr (u, there) ↦
              let e = (returned_inj (rw (good, there) at done)).1 in
              let spent : Spent (auth.sha256 plain) reset_password db'.account_tokens =
                rw (sym e) (consumed-Spent now plain reset_password r db good) in
              rw (
                Spent-validate_in later plain reset_password (run env auth es db')
                  (run-Spent (auth.sha256 plain) reset_password es db' spent))
        ]
      ]
