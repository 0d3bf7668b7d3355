-- ===== src/Examples/MarketTests.antt =====
-- marketplace/p2p-market.service.ts on a small database.
use zentto_web.Prelude.{◌≡◌, refl, arith, true, some, List, [], ◌∷◌}
use zentto_web.Prelude.Int.{pos, ◌+ℤ◌, ◌-ℤ◌, ◌*ℤ◌, div_trunc}
use zentto_web.Money.Amount.{exact}
use zentto_web.Fees.{FeeQuote, received, percent, clamp_fee, quote_p2p}
use zentto_web.Database.{Database, Order, OrderStatus, Side, Trade, TradeStatus, Resolution}
use zentto_web.Action.{after, has_returned}
use zentto_web.Ledger.{account_of, accounts_with, id_after, balance_of, available_of}
use zentto_web.Market.{new_trade, find_trade}
use zentto_web.Market.Trades.{confirm_transaction}
use zentto_web.Market.Release.{confirm_transaction_pays}
use zentto_web.Market.Trace.{Event, run, finished_trade_stays}
use zentto_web.Examples.Data.{env, rates, usdt, with_hold, alice_hold}

-- Alice offers 400, which `alice_hold` keeps.
abbrev offer : Order
offer = record {
  id = 7;
  maker_user_id = 11;
  side = Side.sell;
  asset = usdt;
  amount = exact (pos 400);
  price_ves = exact (pos 36);
  status = OrderStatus.open_order;
  hold_id = some 6;
}

abbrev taken_offer : Order
taken_offer = record offer { status = OrderStatus.taken }

abbrev offered : Database
offered = record with_hold { orders = offer ∷ [] }

abbrev taken_db : Database
taken_db = record with_hold { orders = taken_offer ∷ [] }

-- Bob takes the offer.
abbrev trade : Trade
trade = new_trade 8 0 12 offer (some 6)

abbrev trading : Database
trading = record with_hold { orders = taken_offer ∷ []; trades = trade ∷ [] }

abbrev quote : FeeQuote
quote = received (exact (pos 400)) (exact (pos 4))

confirm_transaction_pays_example :
    (has_returned (confirm_transaction rates 11 8 trading) ≡ true)
    × (balance_of 0 (after (confirm_transaction rates 11 8 trading))
        ≡ balance_of 0 trading -ℤ pos 400)
    × (available_of 0 (after (confirm_transaction rates 11 8 trading)) ≡ available_of 0 trading)
    × (balance_of 1 (after (confirm_transaction rates 11 8 trading))
        ≡ balance_of 1 trading +ℤ pos 396)
    × (balance_of 10 (after (confirm_transaction rates 11 8 trading))
        ≡ balance_of 10 trading +ℤ pos 4)
unfolding account_of accounts_with id_after quote_p2p percent clamp_fee div_trunc ◌*ℤ◌ ◌+ℤ◌ ◌-ℤ◌
confirm_transaction_pays_example =
    confirm_transaction_pays rates trade quote trading 6 {h = alice_hold}
      (omega arith, (omega arith, (omega arith, tt))) (omega arith, tt) (λ e. omega (arith, e)) refl
      refl refl refl refl refl (omega arith) (omega arith) refl

abbrev completed_trade : Trade
completed_trade = record trade { status = TradeStatus.completed }

abbrev completed_db : Database
completed_db = record trading { trades = completed_trade ∷ [] }

abbrev attempts : List Event
attempts =
    Event.confirm 50 11 8 (some 77)
    ∷ Event.cancel 12 8
    ∷ Event.dispute 12 8
    ∷ Event.resolve 13 8 Resolution.refunded
    ∷ Event.sweep (λ id. true) 99999999
    ∷ []

finished_trade_stays_example :
    find_trade 8 (run env attempts completed_db).trades ≡ some completed_trade
finished_trade_stays_example =
    finished_trade_stays 8 completed_trade refl env attempts completed_db refl
