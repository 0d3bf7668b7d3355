-- ===== src/Fees/Quotes.antt =====
-- What the quotes promise: the fee lies between its floor and the amount, and the parts add up.
use zentto_web.Prelude.{◌≡◌, ◌⊎◌, refl, ap, arith, ℕ, ◌*◌, ◌/◌, ◌≤◌}
use zentto_web.Prelude.Int.{pos, ◌+ℤ◌, ◌*ℤ◌, ◌≤ℤ◌, div_trunc, int_laws}
use zentto_web.Money.{parsed, unit_base}
use zentto_web.Money.Amount.{Amount, exact, IsExact}
use zentto_web.Errors.{ok}
use zentto_web.Fees.{
  Rates, FeeQuote, received, clamp_fee, percent, quote_p2p, quote_deposit, quote_withdraw,
}

-- A fee after both clamps is no more than the amount, and at least the floor or the whole amount.
clamp_fee_bounds :
    (fee min amount : Amount)
    → let f = clamp_fee fee min amount in
      (f.base ≤ℤ amount.base) × ((min.base ≤ℤ f.base) ⊎ (f ≡ amount))
unfolding clamp_fee
clamp_fee_bounds fee min amount = ground arith

clamp_fee-IsExact :
    (fee min amount : Amount)
    → IsExact fee
    → IsExact min
    → IsExact amount
    → IsExact (clamp_fee fee min amount)
unfolding clamp_fee
clamp_fee-IsExact fee min amount f m a = ground arith

-- With a fee rate and a fee floor that can be read, of which the floor is not negative, the commission
-- on an amount of zero or more exists, lies between zero and the amount, and is at least the floor
-- unless it is the whole amount.
pub percent_bounds :
    (r : Rates) (amount p m : Amount)
    → r.min_fee ≡ parsed m
    → pos 0 ≤ℤ m.base
    → pos 0 ≤ℤ amount.base
    → (f : Amount) × (percent r amount (parsed p) ≡ ok f)
      × (pos 0 ≤ℤ f.base)
      × (f.base ≤ℤ amount.base)
      × ((m.base ≤ℤ f.base) ⊎ (f ≡ amount))
unfolding percent
percent_bounds r amount p m hm m0 a0 =
    let fee : Amount = exact (div_trunc (amount.base *ℤ p.base) unit_base) in
    let b = clamp_fee_bounds fee m amount in (clamp_fee fee m amount, rw hm, floor fee, b.0, b.1)
  where
    floor : (fee : Amount) → pos 0 ≤ℤ (clamp_fee fee m amount).base
    floor fee = ground (arith, clamp_fee_bounds fee m amount)

pos-* : (n k : ℕ) → pos n *ℤ pos k ≡ pos (n * k)
unfolding ◌*ℤ◌
pos-* n k = grind arith

div_trunc-pos : (n : ℕ) → div_trunc (pos n) unit_base ≡ pos (n / unit_base)
unfolding div_trunc
div_trunc-pos n = ground arith

unclamped :
    (fee min amount : Amount)
    → min.base ≤ℤ fee.base
    → fee.base ≤ℤ amount.base
    → clamp_fee fee min amount ≡ fee
unfolding clamp_fee
unclamped fee min amount h k = ground arith

-- Where neither clamp bites, the commission is amount * rate, rounded down to a base unit.
pub percent_unclamped :
    (r : Rates) (amount p m : Amount) (n k : ℕ)
    → r.min_fee ≡ parsed m
    → amount.base ≡ pos n
    → p.base ≡ pos k
    → m.base ≤ℤ pos (n * k / unit_base)
    → n * k / unit_base ≤ n
    → percent r amount (parsed p) ≡ ok (exact (pos (n * k / unit_base)))
unfolding percent
percent_unclamped r amount p m n k hm ha hp low high =
    simp (hm, ha, hp, pos-* n k, div_trunc-pos (n * k))
      (ap ok
        (unclamped (exact (pos (n * k / unit_base))) m amount low (rw ha (omega (arith, high)))))

module _ (r : Rates) (amount p m : Amount) (hm : r.min_fee ≡ parsed m) (m0 : pos 0 ≤ℤ m.base)
    (a0 : pos 0 ≤ℤ amount.base) where
  -- A P2P quote splits the amount without loss: what the buyer receives and the commission are
  -- zero or more and add up to the amount, and there is no network fee.
  pub quote_p2p_splits :
      r.p2p_pct ≡ parsed p
      → (q : FeeQuote) × (quote_p2p r amount ≡ ok q)
        × (q.net.base +ℤ q.platform_fee.base ≡ amount.base)
        × (pos 0 ≤ℤ q.net.base)
        × (pos 0 ≤ℤ q.platform_fee.base)
        × (q.total ≡ amount)
  unfolding quote_p2p
  quote_p2p_splits hp =
      let (f, e, f0, fa, _) = percent_bounds r amount p m hm m0 a0 in
      (received amount f, simp (hp, e), omega int_laws, omega int_laws, f0, refl)

  -- The same of a deposit.
  pub quote_deposit_splits :
      r.deposit_pct ≡ parsed p
      → (q : FeeQuote) × (quote_deposit r amount ≡ ok q)
        × (q.net.base +ℤ q.platform_fee.base ≡ amount.base)
        × (pos 0 ≤ℤ q.net.base)
        × (pos 0 ≤ℤ q.platform_fee.base)
        × (q.total ≡ amount)
  unfolding quote_deposit
  quote_deposit_splits hp =
      let (f, e, f0, fa, _) = percent_bounds r amount p m hm m0 a0 in
      (received amount f, simp (hp, e), omega int_laws, omega int_laws, f0, refl)

  -- A withdrawal's quote: the user pays the amount, the commission and the network fee, and no less
  -- than the amount leaves the account when the network fee is not negative.
  pub quote_withdraw_total :
      (g : Amount)
      → r.withdraw_pct ≡ parsed p
      → r.withdraw_network_fee ≡ parsed g
      → pos 0 ≤ℤ g.base
      → (q : FeeQuote) × (quote_withdraw r amount ≡ ok q)
        × (q.total.base ≡ amount.base +ℤ (q.platform_fee.base +ℤ g.base))
        × (q.total.base ≡ q.net.base +ℤ q.total_fee.base)
        × (amount.base ≤ℤ q.total.base)
        × IsExact q.total
  unfolding quote_withdraw
  quote_withdraw_total g hp hg g0 =
      let (f, e, f0, fa, _) = percent_bounds r amount p m hm m0 a0 in
      (
        record {
          platform_fee = f;
          network_fee = g;
          total_fee = exact (f.base +ℤ g.base);
          net = amount;
          total = exact (amount.base +ℤ (f.base +ℤ g.base));
        },
        simp (hp, hg, e),
        refl,
        refl,
        omega int_laws,
        refl,
      )
