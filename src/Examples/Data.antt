-- ===== src/Examples/Data.antt =====
-- A small environment and database: two users with the second factor, one of them with funds.
use zentto_web.Prelude.{ℕ, true, false, none, some, [], ◌∷◌, ◌==◌, ltb}
use zentto_web.Prelude.Int.{pos}
use zentto_web.Money.{Text, parsed}
use zentto_web.Money.Amount.{Amount, exact}
use zentto_web.Fees.{Rates}
use zentto_web.Database.{
  Database, empty_database, user, system, Direction, Account, Entry, Hold, HoldStatus, User,
  UserRole,
}
use zentto_web.Environment.{Environment, Network}

-- One unit of eighteen decimals, and rates of one percent with a floor of two base units.
abbrev pub one_unit : ℕ
one_unit = 1000000000000000000

abbrev pub one_percent : Amount
one_percent = exact (pos 10000000000000000)

abbrev pub floor_fee : Amount
floor_fee = exact (pos 2)

abbrev pub rates : Rates
rates = record {
  p2p_pct = parsed one_percent;
  deposit_pct = parsed one_percent;
  withdraw_pct = parsed one_percent;
  withdraw_network_fee = parsed (exact (pos 3));
  min_fee = parsed floor_fee;
}

abbrev pub usdt : ℕ
usdt = 5

abbrev pub main_network : Network
main_network = record { key = 1; confirmations = 2; asset = usdt }

abbrev pub env : Environment
env = record {
  now = 0;
  verify_code = λ time secret code. secret == code;
  is_address = λ a. ltb 0 a;
  upper = λ a. a;
  trim_upper = λ a. a;
  normalize_email = λ e. e;
  assets = usdt ∷ [];
  withdrawable = usdt ∷ [];
  faucet_enabled = false;
  faucet_max = exact (pos 1000);
  rates = rates;
  networks = main_network ∷ [];
  withdrawal_confirmations = 2;
}

abbrev pub alice : User
alice = record {
  id = 11;
  email = 101;
  role = UserRole.user;
  password_hash = 100;
  totp_enabled = true;
  totp_secret = some 77;
  email_verified = true;
  token_version = 0;
  password_changed_at = none;
  failed_login_count = 0;
  locked_until = none;
}

abbrev pub bob : User
bob = record {
  id = 12;
  email = 102;
  role = UserRole.user;
  password_hash = 200;
  totp_enabled = true;
  totp_secret = some 78;
  email_verified = true;
  token_version = 0;
  password_changed_at = none;
  failed_login_count = 0;
  locked_until = none;
}

abbrev pub alice_account : Account
alice_account = record { id = 0; owner_type = user; owner_id = 11; asset = usdt }

abbrev pub bob_account : Account
bob_account = record { id = 1; owner_type = user; owner_id = 12; asset = usdt }

abbrev pub issuer_account : Account
issuer_account = record { id = 2; owner_type = system; owner_id = 2; asset = usdt }

abbrev pub entry : ℕ → ℕ → Direction → Entry
entry id account direction = record {
  id = id;
  payment_id = 9;
  account_id = account;
  direction = direction;
  amount = pos 1000;
  asset = usdt;
}

-- Alice has 1000 base units from the issuer.
abbrev pub funded : Database
funded = record empty_database {
  next_id = 10;
  accounts = issuer_account ∷ bob_account ∷ alice_account ∷ [];
  entries = entry 4 0 Direction.credit ∷ entry 3 2 Direction.debit ∷ [];
  users = bob ∷ alice ∷ [];
}

abbrev pub alice_hold : Hold
alice_hold = record {
  id = 6;
  account_id = 0;
  payment_id = some 7;
  asset = usdt;
  amount = pos 400;
  status = HoldStatus.active;
}

abbrev pub with_hold : Database
with_hold = record funded { holds = alice_hold ∷ [] }

abbrev pub first_key : Text
first_key = b'k' ∷ b'1' ∷ []
