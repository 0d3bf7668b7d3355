-- ===== src/Indexer/Failures.antt =====
-- Only the unique indices fail with a unique violation: a journal and a quote fail in other ways.
use zentto_web.Prelude.{
  ℕ, ◌≡◌, refl, sym, ap, ◌∙◌, false, List, [], ◌∷◌, Bool-cases, inl, inr, length, ltb,
}
use zentto_web.Prelude.Int.{ℤ, pos, leb_ℤ}
use zentto_web.Money.{Parsed, parsed, invalid_amount}
use zentto_web.Money.Amount.{Amount}
use zentto_web.Errors.{Error, Result, ok, err, amount_not_positive, Result-cases}
use zentto_web.Database.{Database}
use zentto_web.Action.{Outcome, thrown, thrown_not_returned}
use zentto_web.Fees.{Rates, percent, quote_deposit}
use zentto_web.Ledger.{JournalLeg, check_legs, add_debit, add_credit, differ, post_journal}
use zentto_web.Indexer.{is_unique_violation}

check_legs_error :
    (legs : List JournalLeg) (d c : ℤ) (e : Error)
    → check_legs legs d c ≡ err e
    → is_unique_violation e ≡ false
unfolding check_legs
check_legs_error [] d c e h = absurd (clash h)
  where
    clash : {s : ℤ × ℤ} → ok s ≡ err e → ⊥
    clash h = cc
check_legs_error (leg ∷ legs) d c e h = elim (Bool-cases (leb_ℤ leg.amount.base (pos 0))) [
  | inl low ↦ other (rw low at h)
  | inr high ↦
      check_legs_error legs (add_debit leg.direction leg.amount.base d)
        (add_credit leg.direction leg.amount.base c) e (rw high at h)
]
  where
    other :
        ◌≡◌ {A = Result (ℤ × ℤ)} (err amount_not_positive) (err e) → is_unique_violation e ≡ false
    other h = ap is_unique_violation (sym (same h))
      where
        same : {x y : Error} → ◌≡◌ {A = Result (ℤ × ℤ)} (err x) (err y) → x ≡ y
        same h = cc

thrown_same :
    {A : Type 0} {x y : Error} {db db' : Database}
    → ◌≡◌ {A = Outcome A} (thrown x db) (thrown y db')
    → x ≡ y
thrown_same h = cc

pub post_journal_error :
    (p : ℕ) (legs : List JournalLeg) (db db' : Database) (e : Error)
    → post_journal p legs db ≡ thrown e db'
    → is_unique_violation e ≡ false
unfolding post_journal
post_journal_error p legs db db' e h = elim (Bool-cases (ltb (length legs) 2)) [
  | inl short ↦ ap is_unique_violation (sym (thrown_same (rw short at h)))
  | inr long ↦ elim (Result-cases (check_legs legs (pos 0) (pos 0))) [
    | inr (x, bad) ↦
        ap is_unique_violation (sym (thrown_same (rw (long, bad) at h)))
        ∙ check_legs_error legs (pos 0) (pos 0) x bad
    | inl (s, good) ↦ elim (Bool-cases (differ s)) [
      | inl odd ↦ ap is_unique_violation (sym (thrown_same (rw (long, good, odd) at h)))
      | inr even ↦ absurd (thrown_not_returned (sym (rw (long, good, even) at h)))
    ]
  ]
]

err_same : {A : Type 0} {x y : Error} → ◌≡◌ {A = Result A} (err x) (err y) → x ≡ y
err_same h = cc

ok_not_err : {A : Type 0} {a : A} {e : Error} → ok a ≡ err e → ⊥
ok_not_err h = cc

percent_error :
    (rates : Rates) (amount : Amount) (pct min : Parsed Amount) (e : Error)
    → rates.min_fee ≡ min
    → percent rates amount pct ≡ err e
    → is_unique_violation e ≡ false
unfolding percent
percent_error rates amount invalid_amount min e m h = ap is_unique_violation (sym (err_same h))
percent_error rates amount (parsed p) invalid_amount e m h =
    ap is_unique_violation (sym (err_same (rw m at h)))
percent_error rates amount (parsed p) (parsed f) e m h = absurd (ok_not_err (rw m at h))

pub quote_deposit_error :
    (rates : Rates) (amount : Amount) (e : Error)
    → quote_deposit rates amount ≡ err e
    → is_unique_violation e ≡ false
unfolding quote_deposit
quote_deposit_error rates amount e h =
    elim (Result-cases (percent rates amount rates.deposit_pct)) [
      | inl (fee, good) ↦ absurd (ok_not_err (rw good at h))
      | inr (x, bad) ↦
          ap is_unique_violation (sym (err_same (rw bad at h)))
          ∙ percent_error rates amount rates.deposit_pct rates.min_fee x refl bad
    ]
