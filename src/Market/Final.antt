-- ===== src/Market/Final.antt =====
-- A finished trade of the market is never touched again.
use zentto_web.Prelude.{
  ℕ, ◌≡◌, ◌≢◌, refl, sym, ap, ◌∙◌, true, false, some, List, [], ◌∷◌, arith, ◌==◌, leb, Bool,
  Bool-cases, Option-cases, inl, inr, not, ◌&&◌,
}
use zentto_web.Database.{Database, Trade, TradeStatus, HoldStatus, Resolution}
use zentto_web.Action.{after, roll_back, and_then}
use zentto_web.Fees.{Rates}
use zentto_web.Market.{
  find_trade, get_trade, max_extensions, update_trades, save_trade, in_progress, same_status,
}
use zentto_web.Market.Release.{set_if_held_eq, set_if_held_rest, release_cases}
use zentto_web.Market.Trades.{
  takes_part, extended, confirm_transaction, cancel_trade, mark_paid, extend_trade, open_dispute,
  decide, resolve_dispute,
}

-- Completed, cancelled and expired trades are finished.
abbrev pub is_final : TradeStatus → Bool
is_final s = not (in_progress s) && not (same_status s TradeStatus.disputed)

find_trade-id : (j : ℕ) (ts : List Trade) {u : Trade} → find_trade j ts ≡ some u → u.id ≡ j
find_trade-id j [] e = cc
find_trade-id j (t ∷ ts) {u} e = ground (arith, find_trade-id j ts {u = u})

update_trades_other :
    (k : ℕ) (u : Trade) (ts : List Trade)
    → u.id ≢ k
    → find_trade k (update_trades u ts) ≡ find_trade k ts
unfolding update_trades
update_trades_other k u [] ne = refl
update_trades_other k u (t ∷ ts) ne = ground (arith, update_trades_other k u ts ne)

-- A change of the trade that was found under `j`, allowed only in a status that is not final, leaves the
-- finished trade `k`.
pub stays :
    (k j : ℕ) {t u : Trade} (v : Trade) (ts : List Trade)
    → find_trade k ts ≡ some t
    → find_trade j ts ≡ some u
    → is_final t.status ≡ true
    → is_final u.status ≡ false
    → v.id ≡ u.id
    → find_trade k (update_trades v ts) ≡ some t
stays k j {t} {u} v ts ek ej ft fu same = elim (Bool-cases (j == k)) [
  | inl one ↦ absurd (not_both (ground arith))
  | inr two ↦ update_trades_other k v ts (ground (arith, find_trade-id j ts ej)) ∙ ek
]
  where
    true_not_false : true ≡ false → ⊥
    true_not_false b = cc

    not_both : t ≡ u → ⊥
    not_both e = true_not_false (sym ft ∙ ap (λ (x : Trade). is_final x.status) e ∙ fu)

pub pending_not_final :
    (s : TradeStatus) → same_status s TradeStatus.pending ≡ true → is_final s ≡ false
pending_not_final s h = ground arith

pub in_progress_not_final : (s : TradeStatus) → in_progress s ≡ true → is_final s ≡ false
in_progress_not_final s h = ground arith

pub disputed_not_final :
    (s : TradeStatus) → same_status s TradeStatus.disputed ≡ true → is_final s ≡ false
disputed_not_final s h = ground arith

extended-id : (now : ℕ) (u : Trade) → (extended now u).id ≡ u.id
extended-id now u = ground arith

module _ (k : ℕ) {t : Trade} (final : is_final t.status ≡ true) where
  pub mark_paid-stays :
      (now user_id j : ℕ) (db : Database)
      → find_trade k db.trades ≡ some t
      → find_trade k (after (mark_paid now user_id j db)).trades ≡ some t
  unfolding mark_paid get_trade
  mark_paid-stays now user_id j db h = elim (Option-cases (find_trade j db.trades)) [
    | inl gone ↦ rw gone h
    | inr (u, e) ↦ elim (Bool-cases (u.buyer_user_id == user_id)) [
      | inr other ↦ simp (e, other) h
      | inl mine ↦ elim (Bool-cases (same_status u.status TradeStatus.pending)) [
        | inr shut ↦ simp (e, mine, shut) h
        | inl is_pending ↦
            simp (e, mine, is_pending)
              (stays k j {u = u} _ db.trades h e final (pending_not_final u.status is_pending) refl)
      ]
    ]
  ]

  pub cancel_trade-stays :
      (user_id j : ℕ) (db : Database)
      → find_trade k db.trades ≡ some t
      → find_trade k (after (cancel_trade user_id j db)).trades ≡ some t
  unfolding cancel_trade get_trade
  cancel_trade-stays user_id j db h = elim (Option-cases (find_trade j db.trades)) [
    | inl gone ↦ rw gone h
    | inr (u, e) ↦ elim (Bool-cases (takes_part user_id u)) [
      | inr other ↦ simp (e, other) h
      | inl mine ↦ elim (Bool-cases (same_status u.status TradeStatus.pending)) [
        | inr shut ↦ simp (e, mine, shut) h
        | inl is_pending ↦
            let kept_on =
              stays k j {u = u} (record u { status = TradeStatus.cancelled }) db.trades h e final
                (pending_not_final u.status is_pending) refl in
            simp (e, mine, is_pending)
              (rw
                (
                  set_if_held_eq u.hold_id HoldStatus.released db,
                  (set_if_held_rest u.hold_id HoldStatus.released db).0,
                )
                kept_on)
      ]
    ]
  ]

  pub extend_trade-stays :
      (now user_id j : ℕ) (db : Database)
      → find_trade k db.trades ≡ some t
      → find_trade k (after (extend_trade now user_id j db)).trades ≡ some t
  unfolding extend_trade get_trade
  extend_trade-stays now user_id j db h = elim (Option-cases (find_trade j db.trades)) [
    | inl gone ↦ rw gone h
    | inr (u, e) ↦ elim (Bool-cases (takes_part user_id u)) [
      | inr other ↦ simp (e, other) h
      | inl mine ↦ elim (Bool-cases (in_progress u.status)) [
        | inr shut ↦ simp (e, mine, shut) h
        | inl going ↦ elim (Bool-cases (leb max_extensions u.extensions)) [
          | inl spent ↦ simp (e, mine, going, spent) h
          | inr left ↦
              simp (e, mine, going, left)
                (stays k j {u = u} (extended now u) db.trades h e final
                  (in_progress_not_final u.status going) (extended-id now u))
        ]
      ]
    ]
  ]

  pub open_dispute-stays :
      (user_id j : ℕ) (db : Database)
      → find_trade k db.trades ≡ some t
      → find_trade k (after (open_dispute user_id j db)).trades ≡ some t
  unfolding open_dispute get_trade
  open_dispute-stays user_id j db h = elim (Option-cases (find_trade j db.trades)) [
    | inl gone ↦ rw gone h
    | inr (u, e) ↦ elim (Bool-cases (takes_part user_id u)) [
      | inr other ↦ simp (e, other) h
      | inl mine ↦ elim (Bool-cases (in_progress u.status)) [
        | inr shut ↦ simp (e, mine, shut) h
        | inl going ↦
            simp (e, mine, going)
              (stays k j {u = u}
                (record u { status = TradeStatus.disputed; dispute_by = some user_id }) db.trades h
                e final (in_progress_not_final u.status going) refl)
      ]
    ]
  ]

  pub confirm_transaction-stays :
      (r : Rates) (user_id j : ℕ) (db : Database)
      → find_trade k db.trades ≡ some t
      → find_trade k (after (confirm_transaction r user_id j db)).trades ≡ some t
  unfolding confirm_transaction get_trade
  confirm_transaction-stays r user_id j db h = elim (Option-cases (find_trade j db.trades)) [
    | inl gone ↦ rw gone h
    | inr (u, e) ↦ elim (Bool-cases (u.seller_user_id == user_id)) [
      | inr other ↦ simp (e, other) h
      | inl mine ↦ elim (Bool-cases (in_progress u.status)) [
        | inr shut ↦ simp (e, mine, shut) h
        | inl going ↦ elim (release_cases r u db) [
          | inr (x, d, bad) ↦ simp (e, mine, going) (rw bad h)
          | inl (q, d, good, same) ↦
              let kept_on =
                stays k j {u = u}
                  (record u { fee_amount = q.platform_fee; status = TradeStatus.completed })
                  db.trades h e final (in_progress_not_final u.status going) refl in
              simp (e, mine, going) (rw (good, same) kept_on)
        ]
      ]
    ]
  ]

  pub resolve_dispute-stays :
      (r : Rates) (arbiter j : ℕ) (decision : Resolution) (db : Database)
      → find_trade k db.trades ≡ some t
      → find_trade k (after (resolve_dispute r arbiter j decision db)).trades ≡ some t
  unfolding resolve_dispute decide get_trade
  resolve_dispute-stays r arbiter j decision db h = elim (Option-cases (find_trade j db.trades)) [
    | inl gone ↦ rw gone h
    | inr (u, e) ↦ elim (Bool-cases (same_status u.status TradeStatus.disputed)) [
      | inr shut ↦ simp (e, shut) h
      | inl disputed ↦ simp (e, disputed) (by_decision u e disputed decision)
    ]
  ]
    where
      by_decision :
          (u : Trade)
          → find_trade j db.trades ≡ some u
          → same_status u.status TradeStatus.disputed ≡ true
          → (dec : Resolution)
          → find_trade k
              (after (
                roll_back db (
                  and_then (decide r dec u db) (λ v.
                    save_trade
                      (record v { resolved_by = some arbiter; resolution = some dec }))))).trades
            ≡ some t
      by_decision u e disputed Resolution.released = elim (release_cases r u db) [
        | inr (x, d, bad) ↦ rw bad h
        | inl (q, d, good, same) ↦
            rw (good, same)
              (stays k j {u = u}
                (record u {
                  fee_amount = q.platform_fee;
                  status = TradeStatus.completed;
                  resolved_by = some arbiter;
                  resolution = some Resolution.released;
                })
                db.trades h e final (disputed_not_final u.status disputed) refl)
      ]
      by_decision u e disputed Resolution.refunded =
          rw
            (
              set_if_held_eq u.hold_id HoldStatus.released db,
              (set_if_held_rest u.hold_id HoldStatus.released db).0,
            )
            (stays k j {u = u}
              (record u {
                status = TradeStatus.cancelled;
                resolved_by = some arbiter;
                resolution = some Resolution.refunded;
              })
              db.trades h e final (disputed_not_final u.status disputed) refl)
