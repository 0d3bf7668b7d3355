-- ===== src/Ledger/Journal.antt =====
-- What `postJournal` accepts and what it does to the balances.
use zentto_web.Prelude.{
  ℕ, suc, ◌≤◌, ◌≡◌, ◌↔◌, ◌⊎◌, inl, inr, refl, sym, ap, ◌∙◌, true, false, List, [], ◌∷◌, arith, ltb,
  ◌==◌, if◌then◌else◌, length, All, Bool-cases, le→ltb,
}
use zentto_web.Prelude.Int.{
  ℤ, pos, ◌+ℤ◌, ◌-ℤ◌, ◌<ℤ◌, leb_ℤ, int_laws, +ℤ_zero, zero_+ℤ, lt→leb_ℤ, leb_ℤ→lt,
}
use zentto_web.Money.Amount.{IsExact}
use zentto_web.Errors.{Error, Result, ok, err, Result-cases, unbalanced_journal, too_few_legs}
use zentto_web.Database.{Database, Direction, debit, credit, Entry}
use zentto_web.Action.{returned, thrown, after, has_returned}
use zentto_web.Ledger.{
  JournalLeg, signed, sum_entries, check_legs, differ, leg_entries, save_legs, post_journal,
  add_debit, add_credit, balance_of,
}

-- The sums of the debits and of the credits of a journal, in base units.
abbrev pub debits : List JournalLeg → ℤ
debits [] = pos 0
debits (leg ∷ legs) = add_debit leg.direction leg.amount.base (debits legs)

abbrev pub credits : List JournalLeg → ℤ
credits [] = pos 0
credits (leg ∷ legs) = add_credit leg.direction leg.amount.base (credits legs)

abbrev pub IsPositive : JournalLeg → Type 0
IsPositive leg = pos 0 <ℤ leg.amount.base

add_debit_sum : (dir : Direction) (v d r : ℤ) → add_debit dir v d +ℤ r ≡ d +ℤ add_debit dir v r
add_debit_sum debit v d r = omega int_laws
add_debit_sum credit v d r = refl

add_credit_sum : (dir : Direction) (v c r : ℤ) → add_credit dir v c +ℤ r ≡ c +ℤ add_credit dir v r
add_credit_sum debit v c r = refl
add_credit_sum credit v c r = omega int_laws

check_legs_sums :
    (legs : List JournalLeg) (d c : ℤ)
    → All IsPositive legs
    → check_legs legs d c ≡ ok (d +ℤ debits legs, c +ℤ credits legs)
unfolding check_legs
check_legs_sums [] d c h = rw (+ℤ_zero d, +ℤ_zero c)
check_legs_sums (leg ∷ legs) d c (h, hs) =
    let v = leg.amount.base in
    rw (
      lt→leb_ℤ v (pos 0) h,
      check_legs_sums legs (add_debit leg.direction v d) (add_credit leg.direction v c) hs,
      add_debit_sum leg.direction v d (debits legs),
      add_credit_sum leg.direction v c (credits legs),
    )

err_not_ok : {e : Error} {s : ℤ × ℤ} → ◌≡◌ {A = Result (ℤ × ℤ)} (err e) (ok s) → ⊥
err_not_ok h = cc

check_legs-IsPositive :
    (legs : List JournalLeg) (d c : ℤ) {s : ℤ × ℤ}
    → check_legs legs d c ≡ ok s
    → All IsPositive legs
unfolding check_legs
check_legs-IsPositive [] d c e = tt
check_legs-IsPositive (leg ∷ legs) d c e =
    let v = leg.amount.base in
    elim (Bool-cases (leb_ℤ v (pos 0))) [
      | inl low ↦ absurd (err_not_ok (rw low at e))
      | inr high ↦ (
        leb_ℤ→lt v (pos 0) high,
        check_legs-IsPositive legs (add_debit leg.direction v d) (add_credit leg.direction v c)
            (rw high at e),
      )
    ]

-- What a journal adds to the balance of an account, in stored units.
abbrev pub effect : ℕ → List JournalLeg → ℤ
effect a [] = pos 0
effect a (leg ∷ legs) =
    if leg.account_id == a
    then signed leg.direction leg.amount.stored +ℤ effect a legs
    else effect a legs

-- One leg's share of it.
abbrev pub share : ℕ → ℕ → ℤ → ℤ
share account a v = if account == a then v else pos 0

pub effect-share :
    (a : ℕ) (leg : JournalLeg) (legs : List JournalLeg)
    → effect a (leg ∷ legs)
      ≡ share leg.account_id a (signed leg.direction leg.amount.stored) +ℤ effect a legs
effect-share a leg legs = elim (Bool-cases (leg.account_id == a)) [
  | inl here ↦ rw here
  | inr other ↦ rw other (sym (zero_+ℤ (effect a legs)))
]

pub sum_entries-leg_entries :
    (a p n : ℕ) (legs : List JournalLeg) (es : List Entry)
    → sum_entries a (leg_entries p n legs es) ≡ sum_entries a es +ℤ effect a legs
unfolding sum_entries leg_entries
sum_entries-leg_entries a p n [] es = omega int_laws
sum_entries-leg_entries a p n (leg ∷ legs) es =
    sum_entries-leg_entries a p (suc n) legs _ ∙ elim (Bool-cases (leg.account_id == a)) [
      | inl here ↦ rw here (omega int_laws)
      | inr other ↦ rw other
    ]

-- The credits less the debits of all entries.
pub net_entries : List Entry → ℤ
net_entries [] = pos 0
net_entries (e ∷ es) = signed e.direction e.amount +ℤ net_entries es

abbrev pub net_legs : List JournalLeg → ℤ
net_legs [] = pos 0
net_legs (leg ∷ legs) = signed leg.direction leg.amount.stored +ℤ net_legs legs

pub net_entries-leg_entries :
    (p n : ℕ) (legs : List JournalLeg) (es : List Entry)
    → net_entries (leg_entries p n legs es) ≡ net_entries es +ℤ net_legs legs
unfolding net_entries leg_entries
net_entries-leg_entries p n [] es = omega int_laws
net_entries-leg_entries p n (leg ∷ legs) es =
    net_entries-leg_entries p (suc n) legs _ ∙ omega int_laws

signed_sums :
    (dir : Direction) (v n c d : ℤ)
    → n ≡ c -ℤ d
    → signed dir v +ℤ n ≡ add_credit dir v c -ℤ add_debit dir v d
signed_sums debit v n c d h = rw h (omega int_laws)
signed_sums credit v n c d h = rw h (omega int_laws)

pub net_legs_exact :
    (legs : List JournalLeg)
    → All (λ leg. IsExact leg.amount) legs
    → net_legs legs ≡ credits legs -ℤ debits legs
net_legs_exact [] h = omega int_laws
net_legs_exact (leg ∷ legs) (h, hs) = rw (← h) (
    signed_sums leg.direction leg.amount.base (net_legs legs) (credits legs) (debits legs)
      (net_legs_exact legs hs))

-- What `postJournal` demands: two legs or more, amounts above zero, debits equal to credits.
abbrev pub Accepted : List JournalLeg → Type 0
Accepted legs = (2 ≤ length legs) × All IsPositive legs × (debits legs ≡ credits legs)

differ_eq : (d c : ℤ) → d ≡ c → differ (pos 0 +ℤ d, pos 0 +ℤ c) ≡ false
differ_eq d c h = rw (zero_+ℤ d, zero_+ℤ c, h) (ground arith)

differ-false : (d c : ℤ) → differ (pos 0 +ℤ d, pos 0 +ℤ c) ≡ false → d ≡ c
differ-false d c h = antisym d c (rw (zero_+ℤ d, zero_+ℤ c) at h)
  where
    antisym : (x y : ℤ) → differ (x, y) ≡ false → x ≡ y
    antisym x y k = ground arith

-- An accepted journal is written, every leg of it, and nothing else changes.
pub post_journal-Accepted :
    (p : ℕ) (legs : List JournalLeg) (db : Database)
    → Accepted legs
    → post_journal p legs db ≡ returned tt (save_legs p legs db)
unfolding post_journal
post_journal-Accepted p legs db (long, positive, balanced) = rw (
  le→ltb (length legs) 2 long,
  check_legs_sums legs (pos 0) (pos 0) positive,
  differ_eq (debits legs) (credits legs) balanced,
)

-- A journal is accepted and written, or it is refused and the database is as it was.
pub post_journal_cases :
    (p : ℕ) (legs : List JournalLeg) (db : Database)
    → (Accepted legs × (post_journal p legs db ≡ returned tt (save_legs p legs db)))
      ⊎ ((e : Error) × (post_journal p legs db ≡ thrown e db))
unfolding post_journal
post_journal_cases p legs db = elim (Bool-cases (ltb (length legs) 2)) [
  | inl short ↦ inr (too_few_legs, rw short)
  | inr long ↦ elim (Result-cases (check_legs legs (pos 0) (pos 0))) [
    | inr (e, bad) ↦ inr (e, rw (long, bad))
    | inl (s, good) ↦
        let positive = check_legs-IsPositive legs (pos 0) (pos 0) good in
        let sums = check_legs_sums legs (pos 0) (pos 0) positive in
        elim (Bool-cases (differ (pos 0 +ℤ debits legs, pos 0 +ℤ credits legs))) [
          | inl odd ↦ inr (unbalanced_journal, rw (long, sums, odd))
          | inr even ↦ inl (
            (ground arith, positive, differ-false (debits legs) (credits legs) even),
            rw (long, sums, even),
          )
        ]
  ]
]

-- `postJournal` returns exactly when it is given two legs or more, each with an amount above zero,
-- whose debits and credits have the same sum.
pub post_journal_iff :
    (p : ℕ) (legs : List JournalLeg) (db : Database)
    → (has_returned (post_journal p legs db) ≡ true) ↔ Accepted legs
post_journal_iff p legs db = (
  λ h. elim (post_journal_cases p legs db) [
    | inl (acc, e) ↦ acc
    | inr (x, e) ↦ absurd (false_not_true (ap has_returned (sym e) ∙ h))
  ],
  λ acc. ap has_returned (post_journal-Accepted p legs db acc),
)
  where
    false_not_true : false ≡ true → ⊥
    false_not_true k = cc

-- A journal that is accepted changes the balance of every account by its credits less its debits on
-- that account, and when its amounts are exact it leaves the credits less the debits of the whole
-- ledger as they were.
pub post_journal_balances :
    (p : ℕ) (legs : List JournalLeg) (db : Database)
    → Accepted legs
    → let db' = after (post_journal p legs db) in
      ((a : ℕ) → balance_of a db' ≡ balance_of a db +ℤ effect a legs)
      × (All (λ leg. IsExact leg.amount) legs → net_entries db'.entries ≡ net_entries db.entries)
unfolding balance_of
post_journal_balances p legs db acc = rw (post_journal-Accepted p legs db acc) (
  λ a. sum_entries-leg_entries a p db.next_id legs db.entries,
  λ exact_legs.
      net_entries-leg_entries p db.next_id legs db.entries
      ∙ rw (net_legs_exact legs exact_legs, acc.2) (omega int_laws),
)
