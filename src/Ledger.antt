-- ===== src/Ledger.antt =====
-- ledger/ledger.service.ts: double-entry bookkeeping. A balance is always computed from the entries,
-- and what is available is the balance less the active holds.
pub mod Journal
pub mod Holds
pub mod Accounts
pub mod Split
use zentto_web.Prelude.{
  ℕ, suc, ◌+◌, Bool, true, false, ◌&&◌, Option, none, some, List, [], ◌∷◌, map, ltb, ◌==◌,
  if◌then◌else◌, length, find,
}
use zentto_web.Prelude.Int.{ℤ, pos, ◌+ℤ◌, ◌-ℤ◌, ltb_ℤ, leb_ℤ}
use zentto_web.Money.Amount.{Amount}
use zentto_web.Errors.{Result, ok, err, too_few_legs, amount_not_positive, unbalanced_journal}
use zentto_web.Database.{
  Database, OwnerType, user, system, Account, Direction, debit, credit, Entry, HoldStatus, active,
  released, committed, Hold,
}
use zentto_web.Action.{
  Action, returned, gets, ◌>>=◌, ◌>>◌, throw_if, lift, modify, random_uuid, pure,
}

pub record JournalLeg : Type 0 where
  pub account_id : ℕ
  pub direction : Direction
  pub amount : Amount
  pub asset : ℕ

pub record Balance : Type 0 where
  pub asset : ℕ
  pub balance : ℤ
  pub held : ℤ
  pub available : ℤ

abbrev pub same_owner : OwnerType → OwnerType → Bool
same_owner user user = true
same_owner system system = true
same_owner _ _ = false

abbrev pub owns : OwnerType → ℕ → ℕ → Account → Bool
owns t o a acc = same_owner acc.owner_type t && acc.owner_id == o && acc.asset == a

-- `findOne({ where: { ownerType, ownerId, asset } })`
abbrev pub find_account : OwnerType → ℕ → ℕ → List Account → Option Account
find_account t o a = find (owns t o a)

abbrev pub new_account : OwnerType → ℕ → ℕ → Database → Account
new_account t o a db = record { id = db.next_id; owner_type = t; owner_id = o; asset = a }

-- The account that `getOrCreateAccount` returns, and the two columns that it may change.
unfoldable pub account_of : OwnerType → ℕ → ℕ → Database → Account
account_of t o a db = elim (find_account t o a db.accounts) [
  | none ↦ new_account t o a db
  | some acc ↦ acc
]

unfoldable pub accounts_with : OwnerType → ℕ → ℕ → Database → List Account
accounts_with t o a db = elim (find_account t o a db.accounts) [
  | none ↦ new_account t o a db ∷ db.accounts
  | some acc ↦ db.accounts
]

unfoldable pub id_after : OwnerType → ℕ → ℕ → Database → ℕ
id_after t o a db = elim (find_account t o a db.accounts) [
  | none ↦ suc db.next_id
  | some acc ↦ db.next_id
]

-- getOrCreateAccount
abbrev pub get_or_create_account : OwnerType → ℕ → ℕ → Action Account
get_or_create_account t o a db =
    returned (account_of t o a db)
      (record db { accounts = accounts_with t o a db; next_id = id_after t o a db })

-- CASE WHEN direction = 'credit' THEN amount ELSE -amount END
abbrev pub signed : Direction → ℤ → ℤ
signed credit v = v
signed debit v = pos 0 -ℤ v

-- The sum over the entries of one account.
unfoldable pub sum_entries : ℕ → List Entry → ℤ
sum_entries a [] = pos 0
sum_entries a (e ∷ es) =
    let rest = sum_entries a es in
    if e.account_id == a then signed e.direction e.amount +ℤ rest else rest

unfoldable pub balance_of : ℕ → Database → ℤ
balance_of a db = sum_entries a db.entries

abbrev pub is_active : HoldStatus → Bool
is_active active = true
is_active _ = false

-- The sum over the active holds of one account.
unfoldable pub sum_holds : ℕ → List Hold → ℤ
sum_holds a [] = pos 0
sum_holds a (h ∷ hs) =
    let rest = sum_holds a hs in
    if h.account_id == a && is_active h.status then h.amount +ℤ rest else rest

unfoldable pub held_of : ℕ → Database → ℤ
held_of a db = sum_holds a db.holds

unfoldable pub available_of : ℕ → Database → ℤ
available_of a db = balance_of a db -ℤ held_of a db

pub balance_for : OwnerType → ℕ → ℕ → Action Balance
balance_for t o asset = do
  acc ← get_or_create_account t o asset
  gets (λ db. record {
    asset = asset;
    balance = balance_of acc.id db;
    held = held_of acc.id db;
    available = balance_of acc.id db -ℤ held_of acc.id db;
  })

abbrev pub add_debit : Direction → ℤ → ℤ → ℤ
add_debit debit v d = d +ℤ v
add_debit credit v d = d

abbrev pub add_credit : Direction → ℤ → ℤ → ℤ
add_credit debit v c = c
add_credit credit v c = c +ℤ v

-- The loop of `postJournal` over the legs, with its sums of debits and of credits.
unfoldable pub check_legs : List JournalLeg → ℤ → ℤ → Result (ℤ × ℤ)
check_legs [] d c = ok (d, c)
check_legs (leg ∷ legs) d c =
    let v = leg.amount.base in
    let rest = check_legs legs (add_debit leg.direction v d) (add_credit leg.direction v c) in
    if leb_ℤ v (pos 0) then err amount_not_positive else rest

abbrev pub differ : ℤ × ℤ → Bool
differ (d, c) = if ltb_ℤ d c then true else ltb_ℤ c d

-- The rows that the second loop saves, each under a new id.
unfoldable pub leg_entries : ℕ → ℕ → List JournalLeg → List Entry → List Entry
leg_entries payment_id n [] es = es
leg_entries payment_id n (leg ∷ legs) es = leg_entries payment_id (suc n) legs (
    record {
      id = n;
      payment_id = payment_id;
      account_id = leg.account_id;
      direction = leg.direction;
      amount = leg.amount.stored;
      asset = leg.asset;
    }
    ∷ es)

abbrev pub save_legs : ℕ → List JournalLeg → Database → Database
save_legs payment_id legs db = record db {
  entries = leg_entries payment_id db.next_id legs db.entries;
  next_id = db.next_id + length legs;
}

unfoldable pub post_journal : ℕ → List JournalLeg → Action (Unit {0})
post_journal payment_id legs = do
  throw_if (ltb (length legs) 2) too_few_legs
  sums ← lift (check_legs legs (pos 0) (pos 0))
  throw_if (differ sums) unbalanced_journal
  modify (save_legs payment_id legs)

-- createHold
abbrev pub create_hold : ℕ → ℕ → Amount → Option ℕ → Action Hold
create_hold account_id asset amount payment_id db =
    let hold : Hold = record {
      id = db.next_id;
      account_id = account_id;
      payment_id = payment_id;
      asset = asset;
      amount = amount.stored;
      status = active;
    } in
    returned hold (record db { holds = hold ∷ db.holds; next_id = suc db.next_id })

-- `update({ id: holdId }, { status })`
unfoldable pub update_holds : ℕ → HoldStatus → List Hold → List Hold
update_holds k s [] = []
update_holds k s (h ∷ hs) = (if h.id == k then record h { status = s } else h) ∷ update_holds k s hs

abbrev pub set_hold_status : ℕ → HoldStatus → Action (Unit {0})
set_hold_status k s = modify (λ db. record db { holds = update_holds k s db.holds })
