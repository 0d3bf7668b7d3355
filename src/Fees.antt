-- ===== src/Fees.antt =====
-- fees/fee.service.ts: the platform's commission on P2P releases, deposits and withdrawals.
pub mod Quotes
use zentto_web.Prelude.{if◌then◌else◌}
use zentto_web.Prelude.Int.{ℤ, pos, ◌+ℤ◌, ◌-ℤ◌, ◌*ℤ◌, div_trunc, ltb_ℤ}
use zentto_web.Money.{Parsed, unit_base}
use zentto_web.Money.Amount.{Amount, exact}
use zentto_web.Errors.{Result, ok, ◌>>=◌, or_throw}

-- The rates in force: for each JavaScript number the amount that its `toString` text is read as;
-- `invalid_amount` where `toBase` refuses the text, as it does with an exponent (`1e-7`).
pub record Rates : Type 0 where
  pub p2p_pct : Parsed Amount
  pub deposit_pct : Parsed Amount
  pub withdraw_pct : Parsed Amount
  pub withdraw_network_fee : Parsed Amount
  pub min_fee : Parsed Amount

pub record FeeQuote : Type 0 where
  pub platform_fee : Amount
  pub network_fee : Amount
  pub total_fee : Amount
  pub net : Amount
  pub total : Amount

-- The two clamps of `percent`: at least `min`, at most the amount.
unfoldable pub clamp_fee : Amount → Amount → Amount → Amount
clamp_fee fee min amount =
    let raised = if ltb_ℤ fee.base min.base then min else fee in
    if ltb_ℤ amount.base raised.base then amount else raised

unfoldable pub percent : Rates → Amount → Parsed Amount → Result Amount
percent r amount pct = do
  p ← or_throw pct
  min ← or_throw r.min_fee
  ok (clamp_fee (exact (div_trunc (amount.base *ℤ p.base) unit_base)) min amount)

-- The quote of the operations where the user receives what the fee leaves.
abbrev pub received : Amount → Amount → FeeQuote
received amount fee = record {
  platform_fee = fee;
  network_fee = exact (pos 0);
  total_fee = fee;
  net = exact (amount.base -ℤ fee.base);
  total = amount;
}

unfoldable pub quote_p2p : Rates → Amount → Result FeeQuote
quote_p2p r amount = do fee ← percent r amount r.p2p_pct; ok (received amount fee)

unfoldable pub quote_deposit : Rates → Amount → Result FeeQuote
quote_deposit r amount = do fee ← percent r amount r.deposit_pct; ok (received amount fee)

unfoldable pub quote_withdraw : Rates → Amount → Result FeeQuote
quote_withdraw r amount = do
  fee ← percent r amount r.withdraw_pct
  network ← or_throw r.withdraw_network_fee
  let total_fee : Amount = exact (fee.base +ℤ network.base)
  ok (record {
    platform_fee = fee;
    network_fee = network;
    total_fee = total_fee;
    net = amount;
    total = exact (amount.base +ℤ total_fee.base);
  })
