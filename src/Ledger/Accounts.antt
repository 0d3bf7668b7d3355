-- ===== src/Ledger/Accounts.antt =====
-- `getOrCreateAccount` gives each owner and asset an account of its own.
use zentto_web.Prelude.{
  ℕ, ◌≤◌, ◌<◌, ◌≡◌, ◌≢◌, refl, ap, ◌∙◌, sym, Bool, true, false, some, List, [], ◌∷◌, arith, find,
  Bool-cases, Option-cases, some_inj, inl, inr,
}
use zentto_web.Database.{Database, Account, OwnerType, user, system}
use zentto_web.Ledger.{
  same_owner, new_account, owns, find_account, account_of, accounts_with, id_after,
}

-- The ids of the accounts fall from the newest row on, all below `n`.
abbrev pub Descending : ℕ → List Account → Type 0
Descending n [] = Unit
Descending n (acc ∷ accs) = (acc.id < n) × Descending acc.id accs

found_below :
    (p : Account → Bool) (n : ℕ) (accs : List Account) {x : Account}
    → Descending n accs
    → find p accs ≡ some x
    → x.id < n
found_below p n [] d e = cc
found_below p n (acc ∷ accs) {x} d e = ground (arith, found_below p acc.id accs {x = x} d.1)

found_holds :
    (p : Account → Bool) (accs : List Account) {x : Account} → find p accs ≡ some x → p x ≡ true
found_holds p [] e = cc
found_holds p (acc ∷ accs) {x} e = elim (Bool-cases (p acc)) [
  | inl here ↦ ap p (sym (some_inj (rw here at e))) ∙ here
  | inr there ↦ found_holds p accs (rw there at e)
]

-- Two rows that are found under one id are one row.
found_unique :
    (p q : Account → Bool) (n : ℕ) (accs : List Account) {x y : Account}
    → Descending n accs
    → find p accs ≡ some x
    → find q accs ≡ some y
    → x.id ≡ y.id
    → x ≡ y
found_unique p q n [] d e f same = cc
found_unique p q n (acc ∷ accs) {x} {y} d e f same = ground (
  arith,
  found_unique p q acc.id accs {x = x} {y = y} d.1,
  found_below p acc.id accs {x = x} d.1,
  found_below q acc.id accs {x = y} d.1,
)

same_owner_refl : (t : OwnerType) → same_owner t t ≡ true
same_owner_refl user = refl
same_owner_refl system = refl

pub owns_new : (t : OwnerType) (o a : ℕ) (db : Database) → owns t o a (new_account t o a db) ≡ true
owns_new t o a db = ground (arith, same_owner_refl t)

-- The account that is returned is the one found afterwards, and the ids still fall.
pub account_of_found :
    (t : OwnerType) (o a : ℕ) (db : Database)
    → find_account t o a (accounts_with t o a db) ≡ some (account_of t o a db)
unfolding account_of accounts_with
account_of_found t o a db = elim (Option-cases (find_account t o a db.accounts)) [
  | inl e ↦ rw (e, accounts_with, account_of) (rw (owns_new t o a db))
  | inr (x, e) ↦ rw (e, accounts_with, account_of) e
]

pub accounts_with-Descending :
    (t : OwnerType) (o a : ℕ) (db : Database)
    → Descending db.next_id db.accounts
    → Descending (id_after t o a db) (accounts_with t o a db)
unfolding accounts_with id_after
accounts_with-Descending t o a db d = ground arith

-- Accounts of owners of whom no row can be both have different ids.
pub account_ids_differ :
    (t u : OwnerType) (o v a : ℕ) (db : Database) {x : Account}
    → Descending db.next_id db.accounts
    → find_account t o a db.accounts ≡ some x
    → ((acc : Account) → owns t o a acc ≡ true → owns u v a acc ≡ false)
    → x.id ≢ (account_of u v a db).id
unfolding account_of
account_ids_differ t u o v a db {x} d e apart same =
    elim (Option-cases (find_account u v a db.accounts)) [
      | inl none_there ↦
          let low : x.id < db.next_id = found_below (owns t o a) db.next_id db.accounts d e in
          ground arith
      | inr (y, f) ↦
          let ids : x.id ≡ y.id = same ∙ ap (λ (acc : Account). acc.id) (elim_some f) in
          let one = found_unique (owns t o a) (owns u v a) db.next_id db.accounts d e f ids in
          let mine = found_holds (owns t o a) db.accounts e in
          let yours = found_holds (owns u v a) db.accounts f in
          absurd (true_not_false (sym yours ∙ ap (owns u v a) (sym one) ∙ apart x mine))
    ]
  where
    elim_some : {y : Account} → find_account u v a db.accounts ≡ some y → account_of u v a db ≡ y
    elim_some f = rw (f, account_of)

    true_not_false : true ≡ false → ⊥
    true_not_false h = cc

-- An account that is there is found after another owner's account was asked for.
pub account_stays :
    (t u : OwnerType) (o v a b : ℕ) (db : Database) {x : Account}
    → find_account t o a db.accounts ≡ some x
    → owns t o a (new_account u v b db) ≡ false
    → find_account t o a (accounts_with u v b db) ≡ some x
unfolding accounts_with
account_stays t u o v a b db {x} e apart = elim (Option-cases (find_account u v b db.accounts)) [
  | inl none_there ↦ rw (none_there, accounts_with) (rw apart e)
  | inr (y, there) ↦ rw (there, accounts_with) e
]

pub id_after_grows : (t : OwnerType) (o a : ℕ) (db : Database) → db.next_id ≤ id_after t o a db
unfolding id_after
id_after_grows t o a db = ground arith
