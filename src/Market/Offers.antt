-- ===== src/Market/Offers.antt =====
-- Offers and the takers of them.
use zentto_web.Prelude.{
  ℕ, ◌≡◌, refl, arith, true, false, Option, some, List, [], ◌∷◌, ◌==◌, find, inl, inr, Bool-cases,
  ==_refl,
}
use zentto_web.Prelude.Int.{◌+ℤ◌}
use zentto_web.Money.Amount.{exact}
use zentto_web.Errors.{Error, wrong_status, forbidden}
use zentto_web.Database.{Database, Order, OrderStatus, Side, Trade, TradeStatus, HoldStatus, Hold}
use zentto_web.Action.{returned, thrown, after, has_returned}
use zentto_web.Ledger.{balance_of, held_of, available_of}
use zentto_web.Ledger.Holds.{Descending, find_hold, kept, set_hold_status-available_of}
use zentto_web.Market.{
  new_trade, get_order, update_orders, is_open, reread_order, cancel_order, take_order,
}

abbrev pub find_order : ℕ → List Order → Option Order
find_order id = find (λ (o : Order). o.id == id)

find_order-id : (j : ℕ) (os : List Order) {o : Order} → find_order j os ≡ some o → o.id ≡ j
find_order-id j [] e = cc
find_order-id j (p ∷ ps) {o} e = ground (arith, find_order-id j ps {o = o})

update_orders_found :
    (o : Order) (os : List Order) {p : Order}
    → find_order o.id os ≡ some p
    → find_order o.id (update_orders o os) ≡ some o
unfolding update_orders
update_orders_found o [] e = cc
update_orders_found o (q ∷ qs) {p} e = elim (Bool-cases (q.id == o.id)) [
  | inl here ↦ rw here (rw (==_refl o.id))
  | inr there ↦ rw there (rw there (update_orders_found o qs (rw there at e)))
]

-- The maker's cancellation of an open offer returns, closes the offer, gives the funds that its hold kept
-- back to its account and leaves what every other account has available; of an offer to buy, which has
-- no hold, nothing but the status changes.
pub cancel_order_gives_back :
    (o : Order) (k a : ℕ) (db : Database) {h : Hold}
    → find_order o.id db.orders ≡ some o
    → is_open o.status ≡ true
    → o.hold_id ≡ some k
    → Descending db.next_id db.holds
    → find_hold k db.holds ≡ some h
    → let out = cancel_order o.maker_user_id o.id db in
      (has_returned out ≡ true)
      × (available_of a (after out) ≡ available_of a db +ℤ kept a h)
      × (find_order o.id (after out).orders
          ≡ some (record (reread_order o) { status = OrderStatus.cancelled_order }))
unfolding cancel_order get_order available_of balance_of held_of
cancel_order_gives_back o k a db there is_there held d found =
    simp (there, is_there, held, ==_refl o.maker_user_id)
      (
        refl,
        set_hold_status-available_of a k HoldStatus.released db d found refl,
        update_orders_found
            (record (reread_order o) { status = OrderStatus.cancelled_order; hold_id = some k })
            db.orders there,
      )

-- An offer that is not open can be neither taken nor cancelled: both calls throw and change nothing.
pub closed_order_stays :
    (now taker user_id : ℕ) (o : Order) (db : Database)
    → find_order o.id db.orders ≡ some o
    → is_open o.status ≡ false
    → ((e : Error) × (take_order now taker o.id db ≡ thrown e db))
      × ((e : Error) × (cancel_order user_id o.id db ≡ thrown e db))
unfolding take_order cancel_order get_order
closed_order_stays now taker user_id o db there shut = (
  (wrong_status, simp (there, shut)),
  elim (Bool-cases (o.maker_user_id == user_id)) [
    | inl mine ↦ (wrong_status, simp (there, mine, shut))
    | inr other ↦ (forbidden, simp (there, other))
  ],
)

-- Another user's take of an open offer to sell returns a pending trade between the maker, who sells, and
-- the taker, under the hold of the offer; the offer is then taken, no entry is written, and every
-- account has available what it had.
pub take_sell_order :
    (now taker a : ℕ) (o : Order) (db : Database)
    → find_order o.id db.orders ≡ some o
    → is_open o.status ≡ true
    → o.side ≡ Side.sell
    → (o.maker_user_id == taker) ≡ false
    → let out = take_order now taker o.id db in
      ((t : Trade) × (out ≡ returned t (after out))
        × (t.seller_user_id ≡ o.maker_user_id)
        × (t.buyer_user_id ≡ taker)
        × (t.hold_id ≡ o.hold_id)
        × (t.status ≡ TradeStatus.pending)
        × (t.amount ≡ exact o.amount.stored))
      × (find_order o.id (after out).orders
          ≡ some (record (reread_order o) { status = OrderStatus.taken }))
      × ((after out).entries ≡ db.entries)
      × (available_of a (after out) ≡ available_of a db)
unfolding take_order get_order available_of balance_of held_of
take_sell_order now taker a o db there is_there sells other =
    simp (there, is_there, sells, other)
      (
        (
          new_trade db.next_id now taker (record (reread_order o) { side = Side.sell }) o.hold_id,
          refl,
          refl,
          refl,
          refl,
          refl,
          refl,
        ),
        update_orders_found
            (record (reread_order o) { status = OrderStatus.taken; side = Side.sell }) db.orders
            there,
        refl,
        refl,
      )
