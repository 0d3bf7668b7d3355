-- ===== src/Withdrawals/Stuck.antt =====
-- Rows that the worker never picks up.
use zentto_web.Prelude.{
  ℕ, ◌+◌, ◌≡◌, ◌≢◌, refl, ◌∙◌, leb, Bool, true, false, Option, none, some, List, [], ◌∷◌, All,
  Bool-cases, Option-cases, inl, inr,
}
use zentto_web.Database.{Database, Payment, PaymentStatus, Stage, HoldStatus}
use zentto_web.Action.{
  Action, Outcome, returned, thrown, after, and_then, roll_back, pure, ◌>>◌, ◌>>=◌,
}
use zentto_web.Environment.{Environment}
use zentto_web.Ledger.Journal.{post_journal_cases}
use zentto_web.Prelude.Int.{pos}
use zentto_web.Money.Amount.{exact}
use zentto_web.Withdrawals.Settlement.{user_account, custody_account, treasury, with_treasury}
use zentto_web.Withdrawals.{update_payments, with_stage, save_payment}
use zentto_web.Ledger.{JournalLeg, post_journal, set_hold_status, update_holds}
use zentto_web.Ledger.Split.{split_legs}
use zentto_web.Withdrawals.Rows.{rows, Apart, rows-update_payments, pending-Apart}
use zentto_web.Withdrawals.Worker.{
  waits_at, pending, fail_and_refund, complete, or_else, send_one, send_all, process_pending,
  TxStatus, settle, min_confirmations, reconcile_one, reconcile_all, reconcile, run_cycle,
}

module _ (k : ℕ) where
  abbrev set_hold : Option ℕ → HoldStatus → Action (Unit {0})
  set_hold o s = elim o [ none ↦ pure tt | some h ↦ set_hold_status h s ]

  refund_rows :
      (o : Option ℕ) (u : Payment) (db : Database)
      → u.id ≢ k
      → rows k
          (after (
            roll_back db
              (and_then (set_hold o HoldStatus.released db) (λ _. save_payment u)))).payments
        ≡ rows k db.payments
  refund_rows none u db ne = rows-update_payments k u db.payments ne
  refund_rows (some h) u db ne = rows-update_payments k u db.payments ne

  rows-fail_and_refund :
      (p : Payment) (db : Database)
      → p.id ≢ k
      → rows k (after (fail_and_refund p db)).payments ≡ rows k db.payments
  unfolding fail_and_refund
  rows-fail_and_refund p db ne =
      refund_rows p.metadata.hold_id
        (record (with_stage p Stage.failed) { status = PaymentStatus.failed }) db ne

  journal_rows :
      (i : ℕ) (legs : List JournalLeg) (u : Payment) (db d : Database)
      → u.id ≢ k
      → d.payments ≡ db.payments
      → rows k
          (after (roll_back db (and_then (post_journal i legs d) (λ _. save_payment u)))).payments
        ≡ rows k db.payments
  journal_rows i legs u db d ne same = elim (post_journal_cases i legs d) [
    | inl (acc, e) ↦ rw e (rw same (rows-update_payments k u db.payments ne))
    | inr (x, e) ↦ rw e
  ]

  settle_rows :
      (o : Option ℕ) (i : ℕ) (legs : List JournalLeg) (u : Payment) (db d : Database)
      → u.id ≢ k
      → d.payments ≡ db.payments
      → rows k
          (after (
            roll_back db (
              and_then
                (set_hold o HoldStatus.committed d)
                (λ _. post_journal i legs >> save_payment u)))).payments
        ≡ rows k db.payments
  settle_rows none i legs u db d ne same = journal_rows i legs u db d ne same
  settle_rows (some h) i legs u db d ne same =
      journal_rows i legs u db (record d { holds = update_holds h HoldStatus.committed d.holds }) ne
        same

  rows-complete :
      (p : Payment) (db : Database)
      → p.id ≢ k
      → rows k (after (complete p db)).payments ≡ rows k db.payments
  unfolding complete
  rows-complete p db ne =
      settle_rows p.metadata.hold_id p.id
        (split_legs (user_account p db).id (custody_account p db).id (treasury p db).id
          (or_else p.metadata.total_debit p.amount) p.amount
          (or_else p.metadata.total_fee (exact (pos 0))) p.asset)
        (record (with_stage p Stage.completed) { status = PaymentStatus.completed }) db
        (with_treasury p db) ne refl

  abbrev count_after : Outcome (Unit {0}) → ℕ → Outcome ℕ
  count_after o n = and_then o (λ _. pure n)

  counted :
      (o : Outcome (Unit {0})) (n : ℕ)
      → rows k (after (count_after o n)).payments ≡ rows k (after o).payments
  counted (returned a d) n = refl
  counted (thrown e d) n = refl

  rows-send_one :
      (send : Payment → Option ℕ) (p : Payment) (db : Database)
      → p.id ≢ k
      → rows k (after (send_one send p db)).payments ≡ rows k db.payments
  unfolding send_one
  rows-send_one send p db ne =
      let p' = with_stage p Stage.broadcasting in
      let saved : Database = record db { payments = update_payments p' db.payments } in
      let first = rows-update_payments k p' db.payments ne in
      elim (Option-cases (send p')) [
        | inr (tx, e) ↦ rw e (
            rows-update_payments k
              (record p' {
                metadata = record (p'.metadata) { stage = some Stage.broadcast; tx_hash = some tx };
              })
              saved.payments ne
            ∙ first)
        | inl e ↦
            rw e (counted (fail_and_refund p' saved) 0 ∙ rows-fail_and_refund p' saved ne ∙ first)
      ]

  -- Two counts one after the other keep what each keeps.
  abbrev both_counts : Outcome ℕ → Action ℕ → Outcome ℕ
  both_counts o m = and_then o (λ n. m >>= λ i. pure (n + i))

  both_rows :
      (o : Outcome ℕ) (m : Action ℕ) {ps : List Payment}
      → rows k (after o).payments ≡ ps
      → ((d : Database) → rows k (after (m d)).payments ≡ rows k d.payments)
      → rows k (after (both_counts o m)).payments ≡ ps
  both_rows (thrown e d) m h g = h
  both_rows (returned n d) m h g = added (m d) n ∙ g d ∙ h
    where
      added :
          (o : Outcome ℕ) (n : ℕ)
          → rows k (after (and_then o (λ (i : ℕ). pure (n + i)))).payments
            ≡ rows k (after o).payments
      added (returned i d) n = refl
      added (thrown e d) n = refl

  rows-send_all :
      (send : Payment → Option ℕ) (ps : List Payment) (db : Database)
      → Apart k ps
      → rows k (after (send_all send ps db)).payments ≡ rows k db.payments
  unfolding send_all
  rows-send_all send [] db h = refl
  rows-send_all send (p ∷ ps) db h =
      both_rows (send_one send p db) (send_all send ps) (rows-send_one send p db h.0)
        (λ d. rows-send_all send ps d h.1)

  settle_one_rows :
      (status : TxStatus) (min_conf : ℕ) (p : Payment) (db : Database)
      → p.id ≢ k
      → rows k (after (settle status min_conf p db)).payments ≡ rows k db.payments
  unfolding settle
  settle_one_rows TxStatus.waiting min_conf p db ne = refl
  settle_one_rows TxStatus.lookup_failed min_conf p db ne = refl
  settle_one_rows (TxStatus.success n) min_conf p db ne = elim (Bool-cases (leb min_conf n)) [
    | inl enough ↦ rw enough (counted (complete p db) 1 ∙ rows-complete p db ne)
    | inr few ↦ rw few
  ]
  settle_one_rows TxStatus.reverted min_conf p db ne =
      counted (fail_and_refund p db) 1 ∙ rows-fail_and_refund p db ne

  rows-reconcile_one :
      (env : Environment) (chain : ℕ → Option ℕ → TxStatus) (p : Payment) (db : Database)
      → p.id ≢ k
      → rows k (after (reconcile_one env chain p db)).payments ≡ rows k db.payments
  unfolding reconcile_one
  rows-reconcile_one env chain p db ne = by_hash p.metadata.tx_hash
    where
      settled_at : ℕ → Action ℕ
      settled_at tx =
          settle (chain tx p.metadata.network) (min_confirmations env p.metadata.network) p

      chosen : Option ℕ → Action ℕ
      chosen hash = elim hash [ none ↦ pure 0 | some tx ↦ settled_at tx ]

      by_hash : (hash : Option ℕ) → rows k (after (chosen hash db)).payments ≡ rows k db.payments
      by_hash none = refl
      by_hash (some tx) =
          settle_one_rows (chain tx p.metadata.network) (min_confirmations env p.metadata.network) p
            db ne

  rows-reconcile_all :
      (env : Environment) (chain : ℕ → Option ℕ → TxStatus) (ps : List Payment) (db : Database)
      → Apart k ps
      → rows k (after (reconcile_all env chain ps db)).payments ≡ rows k db.payments
  unfolding reconcile_all
  rows-reconcile_all env chain [] db h = refl
  rows-reconcile_all env chain (p ∷ ps) db h =
      both_rows (reconcile_one env chain p db) (reconcile_all env chain ps)
        (rows-reconcile_one env chain p db h.0) (λ d. rows-reconcile_all env chain ps d h.1)

  -- Neither loop of the worker waits for it.
  abbrev pub IsStuck : Payment → Type 0
  IsStuck p = (waits_at Stage.pending_broadcast p ≡ false) × (waits_at Stage.broadcast p ≡ false)

  rows-process_pending :
      (send : Payment → Option ℕ) (db : Database)
      → All IsStuck (rows k db.payments)
      → rows k (after (process_pending send db)).payments ≡ rows k db.payments
  unfolding process_pending
  rows-process_pending send db h =
      rows-send_all send (pending Stage.pending_broadcast db) db
        (pending-Apart k Stage.pending_broadcast db (first_part (rows k db.payments) h))
    where
      first_part :
          (ps : List Payment)
          → All IsStuck ps
          → All (λ (p : Payment). waits_at Stage.pending_broadcast p ≡ false) ps
      first_part [] g = tt
      first_part (p ∷ ps) g = (g.0.0, first_part ps g.1)

  rows-reconcile :
      (env : Environment) (chain : ℕ → Option ℕ → TxStatus) (db : Database)
      → All IsStuck (rows k db.payments)
      → rows k (after (reconcile env chain db)).payments ≡ rows k db.payments
  unfolding reconcile
  rows-reconcile env chain db h =
      rows-reconcile_all env chain (pending Stage.broadcast db) db
        (pending-Apart k Stage.broadcast db (second_part (rows k db.payments) h))
    where
      second_part :
          (ps : List Payment)
          → All IsStuck ps
          → All (λ (p : Payment). waits_at Stage.broadcast p ≡ false) ps
      second_part [] g = tt
      second_part (p ∷ ps) g = (g.0.1, second_part ps g.1)

  -- A cycle of the worker leaves the rows under an id as they are when they wait neither to be broadcast
  -- nor to be reconciled, whatever the broadcasts and the chain answer: so a withdrawal that was left
  -- in the stage `broadcasting` stays in it, and is neither settled nor refunded.
  pub run_cycle_skips :
      (env : Environment) (send : Payment → Option ℕ) (chain : ℕ → Option ℕ → TxStatus)
      (working : Bool) (db : Database)
      → All IsStuck (rows k db.payments)
      → rows k (after (run_cycle env send chain working db)).payments ≡ rows k db.payments
  unfolding run_cycle
  run_cycle_skips env send chain true db h = refl
  run_cycle_skips env send chain false db h =
      then_reconciled (process_pending send db) (rows-process_pending send db h)
    where
      paired :
          (o : Outcome ℕ) (n : ℕ)
          → rows k (after {A = ℕ × ℕ} (and_then o (λ (i : ℕ). pure (n, i)))).payments
            ≡ rows k (after o).payments
      paired (returned i d) n = refl
      paired (thrown e d) n = refl

      then_reconciled :
          (o : Outcome ℕ)
          → rows k (after o).payments ≡ rows k db.payments
          → rows k
              (after {A = ℕ × ℕ}
                (and_then o (λ (n : ℕ). reconcile env chain >>= λ (i : ℕ). pure (n, i)))).payments
            ≡ rows k db.payments
      then_reconciled (thrown e d) g = g
      then_reconciled (returned n d) g =
          paired (reconcile env chain d) n ∙ rows-reconcile env chain d (rw g h) ∙ g
