-- ===== src/Ledger/Holds.antt =====
-- What holds do to the available funds of an account.
use zentto_web.Prelude.{
  ℕ, ◌≤◌, ◌<◌, ◌≡◌, refl, sym, false, ◌&&◌, Option, none, some, List, [], ◌∷◌, arith, ◌==◌,
  if◌then◌else◌, find, Bool-cases, inl, inr, some_inj,
}
use zentto_web.Prelude.Int.{ℤ, pos, ◌+ℤ◌, ◌-ℤ◌, int_laws, zero_+ℤ}
use zentto_web.Money.Amount.{Amount}
use zentto_web.Database.{Database, Hold, HoldStatus}
use zentto_web.Action.{after}
use zentto_web.Ledger.{
  is_active, sum_holds, held_of, available_of, balance_of, update_holds, create_hold,
  set_hold_status,
}

-- The ids of the holds fall from the newest row on, all below `n`; so no id is there twice.
abbrev pub Descending : ℕ → List Hold → Type 0
Descending n [] = Unit
Descending n (h ∷ hs) = (h.id < n) × Descending h.id hs

abbrev pub find_hold : ℕ → List Hold → Option Hold
find_hold k = find (λ (h : Hold). h.id == k)

-- What one hold keeps back of the funds of an account.
abbrev pub kept : ℕ → Hold → ℤ
kept a h = if h.account_id == a && is_active h.status then h.amount else pos 0

sum_holds-kept :
    (a : ℕ) (h : Hold) (hs : List Hold) → sum_holds a (h ∷ hs) ≡ kept a h +ℤ sum_holds a hs
unfolding sum_holds
sum_holds-kept a h hs = elim (Bool-cases (h.account_id == a && is_active h.status)) [
  | inl e ↦ rw e
  | inr e ↦ rw e (sym (zero_+ℤ (sum_holds a hs)))
]

pub Descending-weaken : (n m : ℕ) (hs : List Hold) → n ≤ m → Descending n hs → Descending m hs
Descending-weaken n m [] le d = tt
Descending-weaken n m (h ∷ hs) le d = (omega arith, d.1)

-- A status change keeps the ids.
pub update_holds-Descending :
    (n k : ℕ) (s : HoldStatus) (hs : List Hold)
    → Descending n hs
    → Descending n (update_holds k s hs)
unfolding update_holds
update_holds-Descending n k s [] d = tt
update_holds-Descending n k s (h ∷ hs) d = ground (arith, update_holds-Descending h.id k s hs d.1)

update_holds_absent :
    (n k : ℕ) (s : HoldStatus) (hs : List Hold) → Descending n hs → n ≤ k → update_holds k s hs ≡ hs
unfolding update_holds
update_holds_absent n k s [] d le = refl
update_holds_absent n k s (h ∷ hs) d le = ground (arith, update_holds_absent h.id k s hs d.1)

find_hold_absent : (n k : ℕ) (hs : List Hold) → Descending n hs → n ≤ k → find_hold k hs ≡ none
find_hold_absent n k [] d le = refl
find_hold_absent n k (h ∷ hs) d le = ground (arith, find_hold_absent h.id k hs d.1)

kept_off :
    (a : ℕ) (s : HoldStatus) (g : Hold)
    → is_active s ≡ false
    → kept a (record g { status = s }) ≡ pos 0
kept_off a s g off = ground arith

regroup : (x y u : ℤ) {v : ℤ} → u +ℤ y ≡ v → x +ℤ u +ℤ y ≡ x +ℤ v
regroup x y u h = rw (← h) (omega int_laws)

-- A hold that is no longer active gives back what it kept, and no other account is touched.
pub sum_holds-update :
    (a n k : ℕ) (s : HoldStatus) (hs : List Hold) {h : Hold}
    → Descending n hs
    → find_hold k hs ≡ some h
    → is_active s ≡ false
    → sum_holds a (update_holds k s hs) +ℤ kept a h ≡ sum_holds a hs
unfolding update_holds
sum_holds-update a n k s [] d e off = cc
sum_holds-update a n k s (g ∷ hs) {h} d e off = elim (Bool-cases (g.id == k)) [
  | inl here ↦
      let g_is_h : g ≡ h = some_inj (rw here at e) in
      rw (here, update_holds_absent g.id k s hs d.1 (ground arith), ← g_is_h)
        (rw (sum_holds-kept a (record g { status = s }) hs, sum_holds-kept a g hs)
          (rw (kept_off a s g off) (omega int_laws)))
  | inr there ↦
      let ih = sum_holds-update a g.id k s hs {h = h} d.1 (rw there at e) off in
      rw there (
        rw (sum_holds-kept a g (update_holds k s hs), sum_holds-kept a g hs)
          (regroup (kept a g) (kept a h) (sum_holds a (update_holds k s hs)) ih))
]

-- After `createHold` the available funds of the account are lower by the amount, those of every
-- other account as they were.
pub create_hold-available_of :
    (a account asset : ℕ) (amount : Amount) (payment : Option ℕ) (db : Database)
    → available_of a (after (create_hold account asset amount payment db))
      ≡ available_of a db -ℤ (if account == a then amount.stored else pos 0)
unfolding available_of balance_of held_of
create_hold-available_of a account asset amount payment db =
    rw (sum_holds-kept a _ db.holds) (elim (Bool-cases (account == a)) [
      | inl here ↦ rw here (omega int_laws)
      | inr other ↦ rw other (omega int_laws)
    ])

-- When a hold that was active is released or committed, the available funds of its account rise by its
-- amount and those of every other account stay; of a hold that was not active nothing changes.
pub set_hold_status-available_of :
    (a k : ℕ) (s : HoldStatus) (db : Database) {h : Hold}
    → Descending db.next_id db.holds
    → find_hold k db.holds ≡ some h
    → is_active s ≡ false
    → available_of a (after (set_hold_status k s db)) ≡ available_of a db +ℤ kept a h
unfolding available_of balance_of held_of
set_hold_status-available_of a k s db {h} d e off =
    rw (← sum_holds-update a db.next_id k s db.holds d e off) (omega int_laws)
