-- ===== src/Indexer/Advance.antt =====
-- scanNetwork: the cursor never passes a deposit that is not recorded.
use zentto_web.Prelude.{ℕ, ◌≤◌, ◌≡◌, ◌⊎◌, List, map}
use zentto_web.Errors.{Result}
use zentto_web.Database.{Database, DepositAddress}
use zentto_web.Action.{Outcome, returned, thrown, Action}
use zentto_web.Fees.{Rates}
use zentto_web.Indexer.{Transfer, Token, EvmNetwork, Clients}
use zentto_web.Indexer.Scan.{ScanResult, put_cursor, tokens_of}
use zentto_web.Indexer.Complete.{WindowCovered, TokensDone}

module _ (clients : Clients) (rates : Rates) (scan_range : ℕ)
    (addresses : List DepositAddress) where
  module _ (network from to : ℕ) where
    abbrev Done : List Token → Database → Outcome (ℕ × ℕ) → Type 0
    Done = TokensDone clients rates network addresses from to

    abbrev Reported : Token → Result (List Transfer) → Type 0
    Reported token r =
        clients.transfers_to token.address (map (λ (a : DepositAddress). a.address) addresses) from
          to network
        ≡ r

  -- What a scan that returns has done.
  abbrev pub ScanDone : EvmNetwork → Database → Database → ScanResult → Type 0
  ScanDone net db db' r =
      (db'.cursors ≡ db.cursors)
      ⊎ ((r.from_block ≤ r.to_block)
          × (db'.cursors ≡ put_cursor net.key r.to_block db.cursors)
          × WindowCovered clients rates net.key addresses r.from_block r.to_block db'
              (tokens_of net))

  abbrev ScanOutcome : EvmNetwork → Database → Outcome ScanResult → Type 0
  ScanOutcome net db (thrown e db') = db'.cursors ≡ db.cursors
  ScanOutcome net db (returned r db') = ScanDone net db db' r
