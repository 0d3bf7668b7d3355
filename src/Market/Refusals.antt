-- ===== src/Market/Refusals.antt =====
-- Trades that the market cannot release.
use zentto_web.Prelude.{◌≡◌, some, true, inl, inr, ==_refl}
use zentto_web.Prelude.Int.{pos, ◌≤ℤ◌}
use zentto_web.Database.{Database, Trade, HoldStatus}
use zentto_web.Action.{thrown}
use zentto_web.Errors.{Error, ok}
use zentto_web.Fees.{Rates, FeeQuote, quote_p2p}
use zentto_web.Ledger.Journal.{post_journal_cases}
use zentto_web.Ledger.Split.{split_legs_no_net}
use zentto_web.Market.{find_trade, get_trade, in_progress}
use zentto_web.Market.Release.{seller, buyer, fees, legs, committed_db, with_fees, set_if_held_eq}
use zentto_web.Market.Trades.{release, confirm_transaction}

-- When the commission leaves the buyer nothing, as when the amount is no more than the fee floor, the
-- seller's confirmation of a trade in progress throws, and the database is as it was: the trade can
-- never be released.
pub confirm_transaction_dust :
    (r : Rates) (t : Trade) (q : FeeQuote) (db : Database)
    → find_trade t.id db.trades ≡ some t
    → in_progress t.status ≡ true
    → quote_p2p r t.amount ≡ ok q
    → q.net.base ≤ℤ pos 0
    → (e : Error) × (confirm_transaction r t.seller_user_id t.id db ≡ thrown e db)
unfolding confirm_transaction get_trade release
confirm_transaction_dust r t q db there going hq low =
    elim (post_journal_cases t.id (legs r t q db) (committed_db r t q db)) [
      | inl (acc, e) ↦ absurd (
          split_legs_no_net (seller r t q db).id (buyer r t q db).id (fees r t q db).id t.amount
            q.net q.platform_fee t.asset low acc)
      | inr (x, e) ↦ (
        x,
        simp (there, going, ==_refl t.seller_user_id)
            (rw (hq, set_if_held_eq t.hold_id HoldStatus.committed (with_fees r t q db), e)),
      )
    ]
