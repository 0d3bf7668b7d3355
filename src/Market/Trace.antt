-- ===== src/Market/Trace.antt =====
-- Sequences of calls on the trades of the market, by any users, at any times, and the worker among them.
use zentto_web.Prelude.{
  arith, ℕ, ◌≡◌, refl, true, false, Option, some, List, [], ◌∷◌, Bool, Bool-cases, Option-cases,
  inl, inr, ltb, ◌||◌, ◌&&◌, take, filter,
}
use zentto_web.Database.{Database, Trade, TradeStatus, HoldStatus, Resolution}
use zentto_web.Action.{Action, Outcome, returned, thrown, after, roll_back, and_then}
use zentto_web.Environment.{at_time, Environment}
use zentto_web.Auth.StepUp.{assert_step_up_cases}
use zentto_web.Market.{find_trade, same_status}
use zentto_web.Market.Release.{set_if_held_eq, set_if_held_rest}
use zentto_web.Market.Final.{
  is_final, stays, pending_not_final, mark_paid-stays, cancel_trade-stays, extend_trade-stays,
  open_dispute-stays, confirm_transaction-stays, resolve_dispute-stays,
}
use zentto_web.Market.Trades.{
  confirm_trade, cancel_trade, mark_paid, extend_trade, open_dispute, resolve_dispute, is_before,
  dispute_if, expire_if_pending, sweep_pending_one, sweep_pending, sweep_paid, sweep_timeouts,
}

-- A call, with its arguments.
pub data Event : Type 0 where
  confirm : ℕ → ℕ → ℕ → Option ℕ → Event
  cancel : ℕ → ℕ → Event
  pay : ℕ → ℕ → ℕ → Event
  extend : ℕ → ℕ → ℕ → Event
  dispute : ℕ → ℕ → Event
  resolve : ℕ → ℕ → Resolution → Event
  sweep : (ℕ → Bool) → ℕ → Event

-- The database after a call.
abbrev pub apply : Environment → Event → Database → Database
apply env (confirm now u j code) db = after (confirm_trade (at_time now env) u j code db)
apply env (cancel u j) db = after (cancel_trade u j db)
apply env (pay now u j) db = after (mark_paid now u j db)
apply env (extend now u j) db = after (extend_trade now u j db)
apply env (dispute u j) db = after (open_dispute u j db)
apply env (resolve a j d) db = after (resolve_dispute env.rates a j d db)
apply env (sweep has_messages now) db = after (sweep_timeouts has_messages now false db)

-- The database after all of them, from the first on.
abbrev pub run : Environment → List Event → Database → Database
run env [] db = db
run env (e ∷ es) db = run env es (apply env e db)

paid_not_final : (s : TradeStatus) → same_status s TradeStatus.paid ≡ true → is_final s ≡ false
paid_not_final s h = ground arith

abbrev late_at : ℕ → Database → List Trade
late_at now db = take 50 (
    filter
      (λ (t : Trade). same_status t.status TradeStatus.pending && is_before t.payment_deadline now)
      db.trades)

abbrev overdue_at : ℕ → Database → List Trade
overdue_at now db = take 50 (
    filter
      (λ (t : Trade). same_status t.status TradeStatus.paid && is_before t.release_deadline now)
      db.trades)

abbrev second_loop : ℕ → Action (Unit {0})
second_loop now d = sweep_paid (overdue_at now d) d

module _ (k : ℕ) (t : Trade) (final : is_final t.status ≡ true) where
  abbrev Holds : Database → Type 0
  Holds db = find_trade k db.trades ≡ some t

  dispute_if-stays :
      (s : TradeStatus) (by : Trade → ℕ) (j : ℕ) (db : Database)
      → ((x : TradeStatus) → same_status x s ≡ true → is_final x ≡ false)
      → Holds db
      → Holds (after (dispute_if s by (find_trade j db.trades) db))
  dispute_if-stays s by j db not_final h = elim (Option-cases (find_trade j db.trades)) [
    | inl gone ↦ rw gone h
    | inr (u, e) ↦ elim (Bool-cases (same_status u.status s)) [
      | inr other ↦ rw (e, other) h
      | inl same ↦
          rw (e, same)
            (stays k j {u = u}
              (record u { status = TradeStatus.disputed; dispute_by = some (by u) }) db.trades h e
              final (not_final u.status same) refl)
    ]
  ]

  expire_if_pending-stays :
      (j : ℕ) (db : Database)
      → Holds db
      → Holds (after (expire_if_pending (find_trade j db.trades) db))
  expire_if_pending-stays j db h = elim (Option-cases (find_trade j db.trades)) [
    | inl gone ↦ rw gone h
    | inr (u, e) ↦ elim (Bool-cases (same_status u.status TradeStatus.pending)) [
      | inr other ↦ rw (e, other) h
      | inl is_pending ↦
          rw (e, is_pending)
            (rw
              (
                set_if_held_eq u.hold_id HoldStatus.released db,
                (set_if_held_rest u.hold_id HoldStatus.released db).0,
              )
              (stays k j {u = u} (record u { status = TradeStatus.expired }) db.trades h e final
                (pending_not_final u.status is_pending) refl))
    ]
  ]

  rolled_back :
      (o : Outcome (Unit {0})) (db : Database)
      → Holds db
      → Holds (after o)
      → Holds (after (roll_back db o))
  rolled_back (returned a d) db h g = g
  rolled_back (thrown e d) db h g = h

  sweep_pending_one-stays :
      (has_messages : ℕ → Bool) (x : Trade) (db : Database)
      → Holds db
      → Holds (after (sweep_pending_one has_messages x db))
  unfolding sweep_pending_one
  sweep_pending_one-stays has_messages x db h =
      elim (Bool-cases (ltb 0 x.extensions || has_messages x.id)) [
        | inl engaged ↦ rw engaged (
            dispute_if-stays TradeStatus.pending (λ u. u.seller_user_id) x.id db pending_not_final
              h)
        | inr idle ↦ rw idle (
            rolled_back (expire_if_pending (find_trade x.id db.trades) db) db h
              (expire_if_pending-stays x.id db h))
      ]

  in_turn :
      (o : Outcome (Unit {0})) (m : Action (Unit {0}))
      → Holds (after o)
      → ((d : Database) → Holds d → Holds (after (m d)))
      → Holds (after (and_then o (λ _. m)))
  in_turn (returned a d) m h g = g d h
  in_turn (thrown e d) m h g = h

  sweep_pending-stays :
      (has_messages : ℕ → Bool) (ts : List Trade) (db : Database)
      → Holds db
      → Holds (after (sweep_pending has_messages ts db))
  unfolding sweep_pending
  sweep_pending-stays has_messages [] db h = h
  sweep_pending-stays has_messages (x ∷ ts) db h =
      in_turn (sweep_pending_one has_messages x db) (sweep_pending has_messages ts)
        (sweep_pending_one-stays has_messages x db h) (sweep_pending-stays has_messages ts)

  sweep_paid-stays : (ts : List Trade) (db : Database) → Holds db → Holds (after (sweep_paid ts db))
  unfolding sweep_paid
  sweep_paid-stays [] db h = h
  sweep_paid-stays (x ∷ ts) db h =
      in_turn (dispute_if TradeStatus.paid (λ u. u.buyer_user_id) (find_trade x.id db.trades) db)
        (sweep_paid ts)
        (dispute_if-stays TradeStatus.paid (λ u. u.buyer_user_id) x.id db paid_not_final h)
        (sweep_paid-stays ts)

  apply-stays : (env : Environment) (e : Event) (db : Database) → Holds db → Holds (apply env e db)
  unfolding confirm_trade sweep_timeouts
  apply-stays env (confirm now u j code) db h =
      elim (assert_step_up_cases (at_time now env) u code db) [
        | inl (proven, e) ↦ rw e (confirm_transaction-stays k final env.rates u j db h)
        | inr (x, e) ↦ rw e h
      ]
  apply-stays env (cancel u j) db h = cancel_trade-stays k final u j db h
  apply-stays env (pay now u j) db h = mark_paid-stays k final now u j db h
  apply-stays env (extend now u j) db h = extend_trade-stays k final now u j db h
  apply-stays env (dispute u j) db h = open_dispute-stays k final u j db h
  apply-stays env (resolve a j d) db h = resolve_dispute-stays k final env.rates a j d db h
  apply-stays env (sweep has_messages now) db h =
      in_turn (sweep_pending has_messages (late_at now db) db) (second_loop now)
        (sweep_pending-stays has_messages (late_at now db) db h)
        (λ d g. sweep_paid-stays (overdue_at now d) d g)

  -- A completed, cancelled or expired trade is found unchanged after any sequence of calls of
  -- confirmTrade, cancelTrade, markPaid, extendTrade, openDispute and resolveDispute on any trades, by
  -- any users, at any times, and of rounds of the worker: nothing is released or refunded twice.
  pub finished_trade_stays :
      (env : Environment) (events : List Event) (db : Database)
      → find_trade k db.trades ≡ some t
      → find_trade k (run env events db).trades ≡ some t
  finished_trade_stays env [] db h = h
  finished_trade_stays env (e ∷ es) db h =
      finished_trade_stays env es (apply env e db) (apply-stays env e db h)
