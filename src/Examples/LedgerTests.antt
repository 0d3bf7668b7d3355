-- ===== src/Examples/LedgerTests.antt =====
-- ledger/ledger.service.ts on a small database.
use zentto_web.Prelude.{ℕ, ◌≡◌, ◌↔◌, refl, arith, true, List, All}
use zentto_web.Prelude.Int.{pos, ◌+ℤ◌}
use zentto_web.Money.Amount.{Amount, exact, IsExact}
use zentto_web.Action.{after, has_returned}
use zentto_web.Ledger.{JournalLeg, balance_of, post_journal}
use zentto_web.Ledger.Journal.{
  Accepted, effect, net_entries, post_journal_iff, post_journal_balances,
}
use zentto_web.Payments.{both_legs}
use zentto_web.Examples.Data.{usdt, funded}

abbrev forty : Amount
forty = exact (pos 40)

abbrev pay_forty : List JournalLeg
pay_forty = both_legs 0 1 forty usdt

post_journal_iff_example :
    (has_returned (post_journal 9 pay_forty funded) ≡ true) ↔ Accepted pay_forty
post_journal_iff_example = post_journal_iff 9 pay_forty funded

post_journal_balances_example :
    ((a : ℕ)
      → balance_of a (after (post_journal 9 pay_forty funded))
        ≡ balance_of a funded +ℤ effect a pay_forty)
    × (All (λ leg. IsExact leg.amount) pay_forty
        → net_entries (after (post_journal 9 pay_forty funded)).entries
          ≡ net_entries funded.entries)
post_journal_balances_example =
    post_journal_balances 9 pay_forty funded (omega arith, (omega arith, (omega arith, tt)), refl)
