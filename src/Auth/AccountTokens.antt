-- ===== src/Auth/AccountTokens.antt =====
-- auth/account-token.service.ts: tokens that are mailed to a user and work once. The plain text of a
-- token is never stored; an empty one is none.
use zentto_web.Prelude.{
  ℕ, ◌+◌, Bool, true, false, not, ◌&&◌, Option, none, some, is_some, List, ◌∷◌, map, if◌then◌else◌,
  ◌==◌, ltb, find,
}
use zentto_web.Errors.{unique_violation}
use zentto_web.Database.{Database, AccountToken, AccountTokenType, verify_email, reset_password}
use zentto_web.Action.{Action, returned, thrown, ◌>>=◌, ◌>>◌, modify, gets, pure, random_uuid}

abbrev pub same_type : AccountTokenType → AccountTokenType → Bool
same_type verify_email verify_email = true
same_type reset_password reset_password = true
same_type _ _ = false

abbrev pub is_current : ℕ → AccountTokenType → AccountToken → Bool
is_current user_id type r = r.user_id == user_id && same_type r.type type && not (is_some r.used_at)

abbrev pub has_hash : ℕ → AccountTokenType → AccountToken → Bool
has_hash hash type r = r.token_hash == hash && same_type r.type type

-- tokens.update(where, { usedAt: new Date() })
abbrev pub mark_used : ℕ → (AccountToken → Bool) → List AccountToken → List AccountToken
mark_used now test rows =
    map (λ (r : AccountToken). if test r then record r { used_at = some now } else r) rows

abbrev pub update_tokens : ℕ → (AccountToken → Bool) → Database → Database
update_tokens now test db = record db { account_tokens = mark_used now test db.account_tokens }

-- tokens.save, under the unique index on the hash.
unfoldable pub insert_token : AccountToken → Action (Unit {0})
insert_token r db =
    if is_some (find (λ (s : AccountToken). s.token_hash == r.token_hash) db.account_tokens)
    then thrown unique_violation db
    else returned tt (record db { account_tokens = r ∷ db.account_tokens })

unfoldable pub new_token : ℕ → ℕ → AccountTokenType → ℕ → ℕ → AccountToken
new_token id user_id type hash expires_at = record {
  id = id;
  user_id = user_id;
  type = type;
  token_hash = hash;
  expires_at = expires_at;
  used_at = none;
}

-- `plain` is what randomBytes gives, `hash` is sha256.
unfoldable pub issue : (ℕ → ℕ) → ℕ → ℕ → ℕ → AccountTokenType → ℕ → Action ℕ
issue hash now plain user_id type ttl = do
  modify (update_tokens now (is_current user_id type))
  id ← random_uuid
  insert_token (new_token id user_id type (hash plain) (now + ttl))
  pure plain

abbrev pub accept : ℕ → Option AccountToken → Option AccountToken
accept now none = none
accept now (some r) =
    if is_some r.used_at then none else if ltb r.expires_at now then none else some r

abbrev pub validate_in : (ℕ → ℕ) → ℕ → Option ℕ → AccountTokenType → Database → Option AccountToken
validate_in hash now none type db = none
validate_in hash now (some plain) type db =
    accept now (find (has_hash (hash plain) type) db.account_tokens)

unfoldable pub validate : (ℕ → ℕ) → ℕ → Option ℕ → AccountTokenType → Action (Option AccountToken)
validate hash now plain type = gets (validate_in hash now plain type)

unfoldable pub consume : ℕ → ℕ → Action (Unit {0})
consume now id = modify (update_tokens now (λ (r : AccountToken). r.id == id))
