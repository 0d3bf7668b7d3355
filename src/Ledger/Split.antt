-- ===== src/Ledger/Split.antt =====
-- The journal that withdrawals, P2P releases, recharges and deposits post: one account pays a total,
-- another receives a net amount, and a fee above zero goes to the treasury.
use zentto_web.Prelude.{
  ℕ, ◌≡◌, ◌≢◌, refl, ap, ◌∙◌, sym, false, List, [], ◌∷◌, arith, ◌==◌, if◌then◌else◌, Bool-cases,
  inl, inr, ne→==, ==_refl,
}
use zentto_web.Prelude.Int.{
  ℤ, pos, ◌+ℤ◌, ◌-ℤ◌, ◌≤ℤ◌, ◌<ℤ◌, int_laws, ltb_ℤ→lt, ltb_ℤ→le, parts_of_eq, +ℤ_zero,
}
use zentto_web.Money.Amount.{Amount, is_positive}
use zentto_web.Database.{Direction}
use zentto_web.Ledger.{JournalLeg}
use zentto_web.Ledger.Journal.{Accepted, effect, effect-share, share, net_legs}

abbrev pub split_legs : ℕ → ℕ → ℕ → Amount → Amount → Amount → ℕ → List JournalLeg
split_legs from to fees total net fee asset =
    record { account_id = from; direction = Direction.debit; amount = total; asset = asset }
    ∷ record { account_id = to; direction = Direction.credit; amount = net; asset = asset }
    ∷ (if is_positive fee
        then record { account_id = fees; direction = Direction.credit; amount = fee; asset = asset }
          ∷ []
        else [])

module _ (from to fees : ℕ) (total net fee : Amount) (asset : ℕ) where
  abbrev legs : List JournalLeg
  legs = split_legs from to fees total net fee asset

  -- It is accepted when the net amount is above zero, the fee zero or more, and the total their sum.
  pub split_legs-Accepted :
      pos 0 <ℤ net.base → pos 0 ≤ℤ fee.base → total.base ≡ net.base +ℤ fee.base → Accepted legs
  split_legs-Accepted pn pf sum = elim (Bool-cases (is_positive fee)) [
    | inl some_fee ↦
        let h = ltb_ℤ→lt (pos 0) fee.base some_fee in
        rw some_fee
          (omega arith, (total_positive (omega arith), (pn, (h, tt))), rw sum (omega int_laws))
    | inr no_fee ↦
        let h = ltb_ℤ→le (pos 0) fee.base no_fee in
        rw no_fee (omega arith, (total_positive (omega arith), (pn, tt)), rw sum (omega int_laws))
  ]
    where
      total_positive : pos 0 ≤ℤ fee.base → pos 0 <ℤ total.base
      total_positive f = rw sum (omega int_laws)

  -- A net amount of zero or less is refused.
  pub split_legs_no_net : net.base ≤ℤ pos 0 → ¬ Accepted legs
  split_legs_no_net low acc = omega (arith, acc.1.1.0)

  -- A total that is not the sum is refused.
  pub split_legs_unbalanced :
      pos 0 ≤ℤ fee.base → total.base ≢ net.base +ℤ fee.base → ¬ Accepted legs
  split_legs_unbalanced pf ne acc = elim (Bool-cases (is_positive fee)) [
    | inl some_fee ↦ ne (with_fee (rw some_fee at (acc.2)))
    | inr no_fee ↦ ne (without_fee (ltb_ℤ→le (pos 0) fee.base no_fee) (rw no_fee at (acc.2)))
  ]
    where
      with_fee :
          pos 0 +ℤ total.base ≡ pos 0 +ℤ fee.base +ℤ net.base → total.base ≡ net.base +ℤ fee.base
      with_fee e = omega (int_laws, parts_of_eq e)

      without_fee :
          fee.base ≤ℤ pos 0
          → pos 0 +ℤ total.base ≡ pos 0 +ℤ net.base
          → total.base ≡ net.base +ℤ fee.base
      without_fee z e = omega (int_laws, parts_of_eq e)

  -- The stored fee, which is posted only when the fee is above zero.
  abbrev pub posted_fee : ℤ
  posted_fee = if is_positive fee then fee.stored else pos 0

  fee_effect :
      (a : ℕ)
      → effect a (
          if is_positive fee
          then record {
            account_id = fees;
            direction = Direction.credit;
            amount = fee;
            asset = asset;
          }
            ∷ []
          else [])
        ≡ share fees a posted_fee
  fee_effect a = elim (Bool-cases (is_positive fee)) [
    | inl e ↦ rw e (elim (Bool-cases (fees == a)) [
      | inl here ↦ rw here (+ℤ_zero fee.stored)
      | inr other ↦ rw other
    ])
    | inr e ↦ rw e (elim (Bool-cases (fees == a)) [ inl here ↦ rw here | inr other ↦ rw other ])
  ]

  abbrev pay_leg : JournalLeg
  pay_leg = record { account_id = from; direction = Direction.debit; amount = total; asset = asset }

  abbrev net_leg : JournalLeg
  net_leg = record { account_id = to; direction = Direction.credit; amount = net; asset = asset }

  abbrev fee_legs : List JournalLeg
  fee_legs =
      if is_positive fee
      then record { account_id = fees; direction = Direction.credit; amount = fee; asset = asset }
        ∷ []
      else []

  -- What it adds to an account.
  pub split_legs-effect :
      (a : ℕ)
      → effect a legs
        ≡ share from a (pos 0 -ℤ total.stored) +ℤ (share to a net.stored +ℤ share fees a posted_fee)
  split_legs-effect a =
      effect-share a pay_leg (net_leg ∷ fee_legs)
      ∙ ap (λ (z : ℤ). share from a (pos 0 -ℤ total.stored) +ℤ z)
          (effect-share a net_leg fee_legs
            ∙ ap (λ (z : ℤ). share to a net.stored +ℤ z) (fee_effect a))

  -- It leaves the credits less the debits as they were, if the stored amounts add up.
  pub split_legs-net : total.stored ≡ net.stored +ℤ posted_fee → net_legs legs ≡ pos 0
  split_legs-net sum = elim (Bool-cases (is_positive fee)) [
    | inl e ↦ rw e (omega (int_laws, parts_of_eq (rw e at sum)))
    | inr e ↦ rw e (omega (int_laws, parts_of_eq (rw e at sum)))
  ]

  -- On three accounts that are apart: the payer's share, the receiver's and the treasury's.
  pub split_legs-shares :
      from ≢ to
      → from ≢ fees
      → to ≢ fees
      → (effect from legs ≡ pos 0 -ℤ total.stored)
        × (effect to legs ≡ net.stored)
        × (effect fees legs ≡ posted_fee)
  split_legs-shares ft ff tf = (
    split_legs-effect from
        ∙ rw (==_refl from, other to from ft, other fees from ff) (omega int_laws),
    split_legs-effect to ∙ rw (==_refl to, ne→== from to ft, other fees to tf) (omega int_laws),
    split_legs-effect fees
        ∙ rw (==_refl fees, ne→== from fees ff, ne→== to fees tf) (omega int_laws),
  )
    where
      other : (x y : ℕ) → y ≢ x → (x == y) ≡ false
      other x y ne = ne→== x y (λ e. ne (sym e))

  -- On any other account: nothing.
  pub split_legs-others : (a : ℕ) → a ≢ from → a ≢ to → a ≢ fees → effect a legs ≡ pos 0
  unfolding ◌+ℤ◌
  split_legs-others a nf nt nfees =
      split_legs-effect a ∙ rw (away from nf, away to nt, away fees nfees) refl
    where
      away : (x : ℕ) → a ≢ x → (x == a) ≡ false
      away x ne = ne→== x a (λ e. ne (sym e))
