-- ===== src/Examples/FeeTests.antt =====
-- fees/fee.service.ts on concrete amounts.
use zentto_web.Prelude.{◌≡◌, ◌⊎◌, refl, arith}
use zentto_web.Prelude.Int.{pos, ◌≤ℤ◌}
use zentto_web.Money.{parsed}
use zentto_web.Money.Amount.{Amount, exact}
use zentto_web.Errors.{ok}
use zentto_web.Fees.{percent}
use zentto_web.Fees.Quotes.{percent_bounds}
use zentto_web.Examples.Data.{rates, one_percent, floor_fee}

abbrev thousand : Amount
thousand = exact (pos 1000)

percent_bounds_example :
    (f : Amount) × (percent rates thousand (parsed one_percent) ≡ ok f)
    × (pos 0 ≤ℤ f.base)
    × (f.base ≤ℤ pos 1000)
    × ((pos 2 ≤ℤ f.base) ⊎ (f ≡ thousand))
percent_bounds_example =
    percent_bounds rates thousand one_percent floor_fee refl (omega arith) (omega arith)
