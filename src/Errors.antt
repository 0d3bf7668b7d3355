-- ===== src/Errors.antt =====
-- What the services throw, as values. NestJS turns each exception class into an HTTP status; here
-- every message of the source is a constructor of its own.
use zentto_web.Prelude.{◌≡◌, refl, ◌⊎◌, inl, inr}
use zentto_web.Money.{Parsed, parsed, invalid_amount}

pub data Error : Type 0 where
  -- Error('Importe inválido') of toBase
  bad_amount_text : Error
  -- violation of a unique index, PostgreSQL's code 23505
  unique_violation : Error
  -- ledger
  too_few_legs amount_not_positive unbalanced_journal : Error
  -- shared
  insufficient_balance unknown_user totp_disabled totp_missing totp_invalid recent_password : Error
  asset_not_supported not_found forbidden wrong_status invalid_input own_order : Error
  faucet_disabled faucet_limit unknown_recipient self_transfer : Error
  bad_address bad_network empty_label : Error
  price_out_of_band extensions_exhausted : Error
  external_failure : Error
  -- accounts
  email_taken bad_token email_already_verified bad_credentials account_locked : Error
  totp_already_active totp_not_set_up totp_not_active bad_refresh session_revoked : Error
  -- verification of identity
  identity_already_verified front_image_missing not_configured bad_signature bad_handoff : Error

-- A computation that reads no table.
pub data Result {ℓ} (A : Type ℓ) : Type ℓ where
  err : Error → Result A
  ok : A → Result A

infixl 5 ◌>>=◌
abbrev pub ◌>>=◌ : {A B : Type 0} → Result A → (A → Result B) → Result B
◌>>=◌ (err problem) next = err problem
◌>>=◌ (ok value) next = next value

abbrev pub or_throw : {A : Type 0} → Parsed A → Result A
or_throw (parsed a) = ok a
or_throw invalid_amount = err bad_amount_text

pub Result-cases :
    {A : Type 0} (r : Result A) → ((a : A) × (r ≡ ok a)) ⊎ ((e : Error) × (r ≡ err e))
Result-cases (ok a) = inl (a, refl)
Result-cases (err e) = inr (e, refl)
