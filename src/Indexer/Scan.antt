-- ===== src/Indexer/Scan.antt =====
-- indexer/deposit-indexer.service.ts: one scan of a network, of Tron, of Solana, and of all; and the webhook.
use zentto_web.Prelude.{
  ℕ, suc, ◌+◌, ◌-◌, ◌*◌, Bool, false, Option, none, some, List, [], ◌∷◌, ltb, leb, ◌==◌,
  if◌then◌else◌, find, filter,
}
use zentto_web.Errors.{Error}
use zentto_web.Database.{Database, Cursor, DepositAddress}
use zentto_web.Action.{Action, ◌>>=◌, ◌>>◌, gets, lift, pure, modify, try_catch}
use zentto_web.Fees.{Rates}
use zentto_web.Indexer.{
  Transfer, Token, EvmNetwork, SolanaTransfer, Clients, Names, credit_deposit, count, alone,
  credit_tokens,
}

pub record ScanResult : Type 0 where
  pub from_block : ℕ
  pub to_block : ℕ
  pub found : ℕ
  pub credited : ℕ

abbrev pub nothing_scanned : ScanResult
nothing_scanned = record { from_block = 0; to_block = 0; found = 0; credited = 0 }

-- `findOne({ where: { network } })`
abbrev pub find_cursor : ℕ → List Cursor → Option Cursor
find_cursor network = find (λ (k : Cursor). k.network == network)

-- `save` of a cursor: the row of the network is changed, or added.
unfoldable pub put_cursor : ℕ → ℕ → List Cursor → List Cursor
put_cursor network n [] = record { network = network; last_block = n } ∷ []
put_cursor network n (k ∷ ks) =
    let rest = put_cursor network n ks in
    if k.network == network then record k { last_block = n } ∷ ks else k ∷ rest

abbrev pub save_cursor : ℕ → ℕ → Action (Unit {0})
save_cursor network n = modify (λ db. record db { cursors = put_cursor network n db.cursors })

-- The window of scanNetwork: its first block, after the cursor or near the top, but not below 0, and its last.
abbrev pub first_block : ℕ → ℕ → Option Cursor → ℕ
first_block scan_range top none = top - scan_range
first_block scan_range top (some k) = suc k.last_block

abbrev pub last_block : ℕ → ℕ → ℕ → ℕ
last_block scan_range top from = if ltb scan_range (top - from) then from + scan_range else top

abbrev pub addresses_of : ℕ → Database → List DepositAddress
addresses_of network db = filter (λ (a : DepositAddress). a.network == network) db.deposit_addresses

abbrev pub tokens_of : EvmNetwork → List Token
tokens_of net = elim net.tokens [
  | [] ↦ record { address = net.usdc_address; asset = net.asset } ∷ []
  | ◌∷◌ t ts ↦ t ∷ ts
]

module _ (clients : Clients) (rates : Rates) (scan_range : ℕ) where
  -- scanNetwork from its window on.
  abbrev pub scan_window : EvmNetwork → List DepositAddress → ℕ → ℕ → Action ScanResult
  scan_window net addresses from to =
      if ltb to from
      then pure (record { from_block = from; to_block = to; found = 0; credited = 0 })
      else do
        counts ← credit_tokens clients rates net.key addresses from to (tokens_of net)
        save_cursor net.key to
        pure (record { from_block = from; to_block = to; found = counts.0; credited = counts.1 })

  -- scanNetwork. Blocks below the confirmations are left for later.
  unfoldable pub scan_network : EvmNetwork → List DepositAddress → Action ScanResult
  scan_network net addresses = do
    current ← lift (clients.current_block net.key)
    cursor ← gets (λ db. find_cursor net.key db.cursors)
    let top : ℕ = current - net.confirmations
    let from : ℕ = first_block scan_range top cursor
    if leb current net.confirmations
        then pure nothing_scanned
        else scan_window net addresses from (last_block scan_range top from)

  -- The loop over the networks; a network that fails is left out.
  abbrev pub skip_failed : Error → Action (Option ScanResult)
  skip_failed e = pure none

  abbrev pub add_result : ScanResult → Option ScanResult → ScanResult
  add_result total none = total
  add_result total (some r) = record {
    from_block = r.from_block;
    to_block = r.to_block;
    found = total.found + r.found;
    credited = total.credited + r.credited;
  }

  abbrev pub scan_networks : List EvmNetwork → List DepositAddress → ScanResult → Action ScanResult
  scan_networks [] addresses total = pure total
  scan_networks (net ∷ nets) addresses total =
      let rest = scan_networks nets addresses in
      do
        r ← try_catch (do r ← scan_network net addresses; pure (some r)) skip_failed
        rest (add_result total r)

module _ (clients : Clients) (names : Names) (rates : Rates) where
  abbrev tron_decimals : ℕ
  tron_decimals = 6

  -- scanTron
  unfoldable pub credit_tron : ℕ → List Transfer → Action ℕ
  credit_tron user_id [] = pure 0
  credit_tron user_id (t ∷ ts) =
      let rest = credit_tron user_id ts in
      do
        credited ←
            credit_deposit alone rates names.tron clients.tron_token user_id
              (record t { log_index = 0; block_number = 0 })
              (clients.format_units t.value tron_decimals) names.usdt
        n ← rest
        pure (count credited n)

  unfoldable pub tron_addresses : ℕ → List DepositAddress → Action ℕ
  tron_addresses since [] = pure 0
  tron_addresses since (a ∷ addresses) =
      let rest = tron_addresses since addresses in
      do
        ts ← lift (clients.tron_transfers a.address since)
        credited ← credit_tron a.user_id ts
        n ← rest
        pure (credited + n)

  -- In milliseconds: ten minutes of overlap, and a week at the first scan.
  abbrev pub tron_since : Option Cursor → ℕ
  tron_since none = clients.now - 7 * 24 * 3600000
  tron_since (some k) = k.last_block - 10 * 60000

  abbrev tron_rows : List DepositAddress → Action ℕ
  tron_rows [] = pure 0
  tron_rows (a ∷ addresses) = do
    cursor ← gets (λ db. find_cursor names.tron db.cursors)
    credited ← tron_addresses (tron_since cursor) (a ∷ addresses)
    save_cursor names.tron clients.now
    pure credited

  unfoldable pub scan_tron : Action ℕ
  scan_tron =
      if clients.tron_enabled
      then (do rows ← gets (addresses_of names.tron); tron_rows rows)
      else pure 0

  -- scanSolana
  unfoldable pub credit_solana : ℕ → List SolanaTransfer → Action ℕ
  credit_solana user_id [] = pure 0
  credit_solana user_id (t ∷ ts) =
      let rest = credit_solana user_id ts in
      do
        credited ←
            credit_deposit alone rates names.solana names.empty user_id
              (record {
                tx_hash = t.tx_id;
                log_index = 0;
                to = 0;
                value = t.value;
                block_number = 0;
              })
              (clients.format_units t.value t.decimals) t.asset
        n ← rest
        pure (count credited n)

  unfoldable pub solana_addresses : List DepositAddress → Action ℕ
  solana_addresses [] = pure 0
  solana_addresses (a ∷ addresses) =
      let rest = solana_addresses addresses in
      do
        ts ← lift (clients.solana_transfers a.address)
        credited ← credit_solana a.user_id ts
        n ← rest
        pure (credited + n)

  unfoldable pub scan_solana : Action ℕ
  scan_solana =
      if clients.solana_enabled
      then (do rows ← gets (addresses_of names.solana); solana_addresses rows)
      else pure 0

  abbrev pub none_credited : Error → Action ℕ
  none_credited e = pure 0

  abbrev evm_rows : ℕ → List EvmNetwork → List DepositAddress → Action ScanResult
  evm_rows scan_range nets [] = pure nothing_scanned
  evm_rows scan_range nets (a ∷ addresses) =
      scan_networks clients rates scan_range nets (a ∷ addresses) nothing_scanned

  -- scan, while no other scan of this process runs.
  unfoldable pub scan : ℕ → List EvmNetwork → Action ScanResult
  scan scan_range nets = do
    rows ← gets (addresses_of names.evm)
    r ← evm_rows scan_range nets rows
    on_tron ← try_catch scan_tron none_credited
    on_solana ← try_catch scan_solana none_credited
    pure (record r { credited = r.credited + on_tron + on_solana })

  abbrev asset_on : List EvmNetwork → ℕ → ℕ
  asset_on [] network = names.usdc
  asset_on (net ∷ nets) network = if net.key == network then net.asset else asset_on nets network

  abbrev decimals_or_six : Option ℕ → ℕ
  decimals_or_six none = 6
  decimals_or_six (some d) = d

  -- creditWebhookTransfer
  abbrev pub credit_webhook_transfer :
      (Database → Database) → List EvmNetwork → ℕ → ℕ → Transfer → Option ℕ → Action Bool
  credit_webhook_transfer others nets network token_address t decimals = do
    row ← gets (λ db.
        find (λ (a : DepositAddress). clients.lower a.address == clients.lower t.to)
          (addresses_of names.evm db))
    elim row [
      | none ↦ pure false
      | some a ↦
          credit_deposit others rates network token_address a.user_id t
            (clients.format_units t.value (decimals_or_six decimals)) (asset_on nets network)
    ]
