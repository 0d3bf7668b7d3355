-- ===== src/Withdrawals/Worker.antt =====
-- The worker of withdrawals/withdrawals.service.ts: `runCycle`, which broadcasts what is pending and
-- reconciles what was broadcast.
use zentto_web.Prelude.{
  ℕ, ◌+◌, Bool, true, false, ◌&&◌, Option, none, some, List, [], ◌∷◌, map, leb, ◌==◌, if◌then◌else◌,
  find, filter, take,
}
use mathlib.Core.List.{reverse}
use zentto_web.Prelude.Int.{pos}
use zentto_web.Money.Amount.{Amount, exact}
use zentto_web.Database.{
  Database, user, system, custody_owner, fee_account, HoldStatus, Payment, PaymentType,
  PaymentStatus, Stage,
}
use zentto_web.Action.{Action, ◌>>=◌, ◌>>◌, gets, pure, throw, transaction}
use zentto_web.Errors.{external_failure}
use zentto_web.Environment.{Environment, Network}
use zentto_web.Ledger.{get_or_create_account, set_hold_status, post_journal}
use zentto_web.Ledger.Split.{split_legs}
use zentto_web.Withdrawals.{with_stage, save_payment}

abbrev pub same_stage : Stage → Option Stage → Bool
same_stage Stage.pending_broadcast (some Stage.pending_broadcast) = true
same_stage Stage.broadcasting (some Stage.broadcasting) = true
same_stage Stage.broadcast (some Stage.broadcast) = true
same_stage _ _ = false

abbrev pub is_withdrawal : PaymentType → Bool
is_withdrawal PaymentType.withdrawal = true
is_withdrawal _ = false

abbrev pub is_processing : PaymentStatus → Bool
is_processing PaymentStatus.processing = true
is_processing _ = false

abbrev pub waits_at : Stage → Payment → Bool
waits_at s p = is_withdrawal p.type && is_processing p.status && same_stage s p.metadata.stage

-- A row as it is read again: its amount is the column's.
abbrev pub reread : Payment → Payment
reread p = record p { amount = exact p.amount.stored }

-- pending: the twenty oldest.
unfoldable pub pending : Stage → Database → List Payment
pending s db = take 20 (map reread (reverse (filter (waits_at s) db.payments)))

-- failAndRefund
unfoldable pub fail_and_refund : Payment → Action (Unit {0})
fail_and_refund p = transaction do
  elim p.metadata.hold_id [ none ↦ pure tt | some h ↦ set_hold_status h HoldStatus.released ]
  save_payment (record (with_stage p Stage.failed) { status = PaymentStatus.failed })

-- `x ?? y`
abbrev pub or_else : Option Amount → Amount → Amount
or_else none y = y
or_else (some x) y = x

-- complete
unfoldable pub complete : Payment → Action (Unit {0})
complete p = transaction do
  user_acc ← get_or_create_account user p.user_id p.asset
  custody_acc ← get_or_create_account system custody_owner p.asset
  fee_acc ← get_or_create_account system fee_account p.asset
  let total_fee : Amount = or_else p.metadata.total_fee (exact (pos 0))
  let total_debit : Amount = or_else p.metadata.total_debit p.amount
  elim p.metadata.hold_id [ none ↦ pure tt | some h ↦ set_hold_status h HoldStatus.committed ]
  post_journal p.id
      (split_legs user_acc.id custody_acc.id fee_acc.id total_debit p.amount total_fee p.asset)
  save_payment (record (with_stage p Stage.completed) { status = PaymentStatus.completed })

-- The answer of CustodyService.sendToken: the hash, or nothing where it throws.
-- One round of the loop of `processPending`, with 1 for a withdrawal that went out.
unfoldable pub send_one : (Payment → Option ℕ) → Payment → Action ℕ
send_one send p = do
  let p' : Payment = with_stage p Stage.broadcasting
  save_payment p'
  elim (send p') [
    | some tx ↦ do
      save_payment (record p' {
        metadata = record (p'.metadata) { stage = some Stage.broadcast; tx_hash = some tx };
      })
      pure 1
    | none ↦ fail_and_refund p' >> pure 0
  ]

unfoldable pub send_all : (Payment → Option ℕ) → List Payment → Action ℕ
send_all send [] = pure 0
send_all send (p ∷ ps) = do n ← send_one send p; m ← send_all send ps; pure (n + m)

-- processPending
unfoldable pub process_pending : (Payment → Option ℕ) → Action ℕ
process_pending send = do list ← gets (pending Stage.pending_broadcast); send_all send list

-- What EvmService.getTransaction says of a hash; it throws when the network or its node fails.
pub data TxStatus : Type 0 where
  waiting : TxStatus
  lookup_failed : TxStatus
  success : ℕ → TxStatus
  reverted : TxStatus

-- The lookup of `cfgOf`: a key's network, or the primary one.
abbrev pub network_at : Environment → Option ℕ → Option Network
network_at env none = find (λ (n : Network). true) env.networks
network_at env (some k) = find (λ (n : Network). n.key == k) env.networks

-- The confirmations asked for: those of the network, or of the configuration when the network is gone.
pub min_confirmations : Environment → Option ℕ → ℕ
min_confirmations env network = elim (network_at env network) [
  | none ↦ env.withdrawal_confirmations
  | some n ↦ n.confirmations
]

-- What a status asks for.
unfoldable pub settle : TxStatus → ℕ → Payment → Action ℕ
settle waiting min_conf p = pure 0
settle lookup_failed min_conf p = throw external_failure
settle (success confirmations) min_conf p =
    if leb min_conf confirmations then complete p >> pure 1 else pure 0
settle reverted min_conf p = fail_and_refund p >> pure 1

-- One round of the loop of `reconcile`.
unfoldable pub reconcile_one : Environment → (ℕ → Option ℕ → TxStatus) → Payment → Action ℕ
reconcile_one env chain p = elim p.metadata.tx_hash [
  | none ↦ pure 0
  | some tx ↦ settle (chain tx p.metadata.network) (min_confirmations env p.metadata.network) p
]

unfoldable pub reconcile_all : Environment → (ℕ → Option ℕ → TxStatus) → List Payment → Action ℕ
reconcile_all env chain [] = pure 0
reconcile_all env chain (p ∷ ps) = do
  n ← reconcile_one env chain p
  m ← reconcile_all env chain ps
  pure (n + m)

-- reconcile
unfoldable pub reconcile : Environment → (ℕ → Option ℕ → TxStatus) → Action ℕ
reconcile env chain = do list ← gets (pending Stage.broadcast); reconcile_all env chain list

-- runCycle; `working` is the flag when it is called.
unfoldable pub run_cycle :
    Environment → (Payment → Option ℕ) → (ℕ → Option ℕ → TxStatus) → Bool → Action (ℕ × ℕ)
run_cycle env send chain true = pure (0, 0)
run_cycle env send chain false = do
  broadcast ← process_pending send
  reconciled ← reconcile env chain
  pure (broadcast, reconciled)
