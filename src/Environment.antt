-- ===== src/Environment.antt =====
-- What the services take from outside: other packages' functions, and the configuration
-- (config/configuration.ts) as it was read at start.
use zentto_web.Prelude.{ℕ, Bool, List}
use zentto_web.Money.Amount.{Amount}
use zentto_web.Fees.{Rates}

-- NetworkConfig, as far as it is used.
pub record Network : Type 0 where
  pub key : ℕ
  pub confirmations : ℕ
  pub asset : ℕ

pub record Environment : Type 0 where
  pub now : ℕ  -- the time of the call, in milliseconds
  pub verify_code : ℕ → ℕ → ℕ → Bool  -- otplib: at a time, with a secret, a code
  pub is_address : ℕ → Bool  -- viem
  pub upper : ℕ → ℕ  -- String.prototype.toUpperCase
  pub trim_upper : ℕ → ℕ  -- trim().toUpperCase()
  pub normalize_email : ℕ → ℕ  -- trim().toLowerCase()
  pub assets : List ℕ  -- the assets of the ledger
  pub withdrawable : List ℕ  -- the members of WITHDRAWABLE_ASSETS
  pub faucet_enabled : Bool
  pub faucet_max : Amount
  pub rates : Rates
  pub networks : List Network  -- the EVM networks in operation, the primary first
  pub withdrawal_confirmations : ℕ

-- The same at another time.
abbrev pub at_time : ℕ → Environment → Environment
at_time t env = record env { now = t }
