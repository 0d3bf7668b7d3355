-- ===== src/Blockchain/Imported.antt =====
-- The tables after replaceChain: the rows of the received blocks, then the pending ones that are kept.
use zentto_web.Prelude.{
  ℕ, suc, ◌≤◌, ◌≡◌, refl, sym, ap, ◌∙◌, Bool, true, false, not, ◌||◌, Option, none, some, List, [],
  ◌∷◌, ◌++◌, map, arith, filter, and-true, Bool-cases, inl, inr, All, append_nil, filter-append,
  filter-All, All-weaken,
}
use zentto_web.Prelude.Texts.{text_eq, text_eq_refl, text_eq_sound}
use zentto_web.Money.{Text}
use zentto_web.Blockchain.{Crypto, Transaction, new_block}
use zentto_web.Blockchain.Chain.{
  TransactionEntity, BlockEntity, BlockSnapshot, Chain, save_transactions, order_by, get_pending,
  is_pending, is_in_block,
}
use zentto_web.Blockchain.Network.{
  block_snapshot, get_chain_snapshot, is_sound, links_to, sound_after, validate_chain_snapshots,
  has_id, is_incoming, kept, keep_pending, replaced_chain,
}
use zentto_web.Blockchain.Rows.{
  has_row, Distinct, other_ids, has_row-append, saves_lem, Distinct-filter, Distinct-order,
}
use zentto_web.Blockchain.Sync.{
  From, mined_in, snapshot_rows, block_row, persisted_txs, persisted_blocks, order_blocks,
  rows_of_block, rows_elsewhere, rows_later, transactions_of, sound_row,
}

module _ (c : Crypto) where
  -- A block as it is given to others, when the database returns its rows in the order of `rows`.
  abbrev pub served :
      (List TransactionEntity → List TransactionEntity) → BlockSnapshot → BlockSnapshot
  served rows s = record s {
    transactions =
        map (λ (r : TransactionEntity). r.transaction)
          (rows (map (mined_in c s.index) s.transactions));
  }

  -- In the order in which the rows were written, it is the block that was received.
  pub served_as_written : (s : BlockSnapshot) → served (λ l. l) s ≡ s
  served_as_written s = rw (transactions_of c s.index s.transactions)

  one_back :
      (order : List TransactionEntity → List TransactionEntity) (s : BlockSnapshot) (chain : Chain)
      → is_sound c s ≡ true
      → filter (is_in_block s.index) chain.txs ≡ map (mined_in c s.index) s.transactions
      → block_snapshot order chain (block_row c s) ≡ served order s
  unfolding new_block
  one_back order s chain h rows = let (hash, merkle) = sound_row c s h in rw (hash, merkle, rows)

  all_back :
      (order : List TransactionEntity → List TransactionEntity) (i : ℕ)
      (previous : Option BlockSnapshot) (snaps : List BlockSnapshot) (chain : Chain)
      → From i snaps
      → sound_after c previous snaps ≡ true
      → ((n : ℕ)
          → i ≤ n
          → filter (is_in_block n) chain.txs ≡ filter (is_in_block n) (snapshot_rows c snaps))
      → map (block_snapshot order chain) (map (block_row c) snaps) ≡ map (served order) snaps
  all_back order i previous [] chain h sound rows = refl
  all_back order i previous (s ∷ snaps) chain h sound rows =
      let (link, rest) = and-true (links_to c previous s) _ sound in
      let (here, later) = and-true (is_sound c s) _ rest in
      let own = map (mined_in c s.index) s.transactions in
      let now : filter (is_in_block s.index) chain.txs ≡ own =
        rows s.index (omega (arith, h.0))
        ∙ rw
            (
              filter-append (is_in_block s.index) own (snapshot_rows c snaps),
              rows_of_block c s.index s.transactions,
              rows_later c s.index (suc i) snaps (omega (arith, h.0)) h.1,
            )
            (append_nil own) in
      let after_it : (n : ℕ)
          → suc i ≤ n
          → filter (is_in_block n) chain.txs ≡ filter (is_in_block n) (snapshot_rows c snaps) =
        λ n le.
          rows n (omega (arith, le))
          ∙ rw (
            filter-append (is_in_block n) own (snapshot_rows c snaps),
            rows_elsewhere c n s.index s.transactions (omega (arith, h.0, le)),
          ) in
      rw (
        one_back order s chain here now,
        all_back order (suc i) (some s) snaps chain h.1 later after_it,
      )

  -- The kept rows

  incoming_row :
      (snaps : List BlockSnapshot) (id : Text)
      → is_incoming snaps id ≡ has_row id (snapshot_rows c snaps)
  incoming_row [] id = refl
  incoming_row (s ∷ snaps) id = rw (
    has_row-append id (map (mined_in c s.index) s.transactions) (snapshot_rows c snaps),
    incoming_row snaps id,
    ids s.transactions,
  )
    where
      ids : (ts : List Transaction) → has_id id ts ≡ has_row id (map (mined_in c s.index) ts)
      ids [] = refl
      ids (t ∷ ts) = rw (ids ts)

  has_row-kept :
      (id : Text) (rows : List TransactionEntity) → has_row id (map (kept) rows) ≡ has_row id rows
  has_row-kept id [] = refl
  has_row-kept id (r ∷ rs) = rw (has_row-kept id rs)

  Distinct-kept : (rows : List TransactionEntity) → Distinct rows → Distinct (map (kept) rows)
  Distinct-kept [] d = d
  Distinct-kept (r ∷ rs) d = (has_row-kept r.transaction.id rs ∙ d.0, Distinct-kept rs d.1)

  not_kept :
      (snaps : List BlockSnapshot) (id : Text) (rows : List TransactionEntity)
      → is_incoming snaps id ≡ true
      → has_row id
          (filter (λ (r : TransactionEntity). not (is_incoming snaps r.transaction.id)) rows)
        ≡ false
  not_kept snaps id [] h = refl
  not_kept snaps id (r ∷ rs) h = elim (Bool-cases (is_incoming snaps r.transaction.id)) [
    | inl incoming ↦ rw incoming (not_kept snaps id rs h)
    | inr outside ↦ rw (outside, differs r.transaction.id outside) (not_kept snaps id rs h)
  ]
    where
      clash : true ≡ false → ⊥
      clash e = cc

      differs : (other : Text) → is_incoming snaps other ≡ false → text_eq other id ≡ false
      differs other outside = elim (Bool-cases (text_eq other id)) [
        | inr apart ↦ apart
        | inl same ↦
            absurd
              (clash (sym h ∙ ap (is_incoming snaps) (sym (text_eq_sound other id same)) ∙ outside))
      ]

  members :
      (rows : List TransactionEntity)
      → All (λ (o : TransactionEntity). has_row o.transaction.id rows ≡ true) rows
  members [] = tt
  members (r ∷ rs) = (
    rw (text_eq_refl r.transaction.id),
    All-weaken (λ (o : TransactionEntity). has_row o.transaction.id rs ≡ true)
        (λ (o : TransactionEntity). has_row o.transaction.id (r ∷ rs) ≡ true) rs (λ o h. either _ h)
        (members rs),
  )
    where
      either : (p : Bool) {q : Bool} → q ≡ true → (p || q) ≡ true
      either p h = ground arith

  module _ (snaps : List BlockSnapshot) (chain : Chain) (d : Distinct chain.txs)
      (fresh : Distinct (snapshot_rows c snaps)) where
    abbrev kept_rows : List TransactionEntity
    kept_rows = map kept (keep_pending snaps chain)

    replaced_txs : (replaced_chain c snaps chain).txs ≡ snapshot_rows c snaps ++ kept_rows
    replaced_txs =
        let rows = snapshot_rows c snaps in
        let key : TransactionEntity → ℕ = λ (r : TransactionEntity). r.transaction.timestamp in
        let outside = λ (r : TransactionEntity). not (is_incoming snaps r.transaction.id) in
        let distinct : Distinct kept_rows = Distinct-kept (keep_pending snaps chain) (
          Distinct-filter outside (get_pending chain) (
            Distinct-order key (filter is_pending chain.txs)
              (Distinct-filter is_pending chain.txs d))) in
        let stays : All (λ (o : TransactionEntity). other_ids kept_rows o ≡ true) rows =
          All-weaken (λ (o : TransactionEntity). has_row o.transaction.id rows ≡ true)
            (λ (o : TransactionEntity). other_ids kept_rows o ≡ true) rows
            (λ o h. ap not (
              has_row-kept o.transaction.id (keep_pending snaps chain)
              ∙ not_kept snaps o.transaction.id (get_pending chain)
                  (incoming_row snaps o.transaction.id ∙ h)))
            (members rows) in
        ap (save_transactions kept_rows)
          (persisted_txs c snaps (record chain { blocks = []; txs = [] }) ∙ saves_lem rows [] fresh)
        ∙ saves_lem kept_rows rows distinct
        ∙ ap (λ (l : List TransactionEntity). l ++ kept_rows)
            (filter-All (other_ids kept_rows) rows stays)

    kept_nowhere :
        (n : ℕ) (rows : List TransactionEntity) → filter (is_in_block n) (map kept rows) ≡ []
    kept_nowhere n [] = refl
    kept_nowhere n (r ∷ rs) = kept_nowhere n rs

    kept_pending :
        (rows : List TransactionEntity) → filter is_pending (map kept rows) ≡ map kept rows
    kept_pending [] = refl
    kept_pending (r ∷ rs) = ap (λ (l : List TransactionEntity). kept r ∷ l) (kept_pending rs)

    snapshot_mined : (snaps : List BlockSnapshot) → filter is_pending (snapshot_rows c snaps) ≡ []
    snapshot_mined [] = refl
    snapshot_mined (s ∷ snaps) =
        rw
          (
            filter-append is_pending (map (mined_in c s.index) s.transactions)
                (snapshot_rows c snaps),
            none_pending s.transactions,
          )
          (snapshot_mined snaps)
      where
        none_pending :
            (ts : List Transaction) → filter is_pending (map (mined_in c s.index) ts) ≡ []
        none_pending [] = refl
        none_pending (t ∷ ts) = none_pending ts

    pub replaced_pending : filter is_pending (replaced_chain c snaps chain).txs ≡ kept_rows
    replaced_pending =
        rw
          (
            replaced_txs,
            filter-append is_pending (snapshot_rows c snaps) kept_rows,
            snapshot_mined snaps,
          )
          (kept_pending (keep_pending snaps chain))

    pub replaced_blocks :
        From 0 snaps → (replaced_chain c snaps chain).blocks ≡ map (block_row c) snaps
    replaced_blocks h = persisted_blocks c 0 snaps (record chain { blocks = []; txs = [] }) h tt

    pub replaced_snapshot :
        (order : List TransactionEntity → List TransactionEntity)
        → From 0 snaps
        → validate_chain_snapshots c snaps ≡ true
        → get_chain_snapshot order (replaced_chain c snaps chain) ≡ map (served order) snaps
    replaced_snapshot order h sound =
        let rows : (n : ℕ)
            → 0 ≤ n
            → filter (is_in_block n) (replaced_chain c snaps chain).txs
              ≡ filter (is_in_block n) (snapshot_rows c snaps) =
          λ n le.
            rw
              (
                replaced_txs,
                filter-append (is_in_block n) (snapshot_rows c snaps) kept_rows,
                kept_nowhere n (keep_pending snaps chain),
              )
              (append_nil (filter (is_in_block n) (snapshot_rows c snaps))) in
        ap (map (block_snapshot order (replaced_chain c snaps chain))) (
          ap (order_by (λ (b : BlockEntity). b.index)) (replaced_blocks h)
          ∙ order_blocks c 0 snaps h)
        ∙ all_back order 0 none snaps (replaced_chain c snaps chain) h sound rows
