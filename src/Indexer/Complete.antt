-- ===== src/Indexer/Complete.antt =====
-- scanNetwork: the cursor never passes a deposit that is not recorded.
use zentto_web.Prelude.{
  ℕ, ◌+◌, ◌≡◌, inl, inr, refl, sym, ap, ◌∙◌, Bool, true, false, Option, none, some, List, [], ◌∷◌,
  map, is_some, All, All-weaken, Bool-cases, length, some_not_none, and-true, ==_iff, ==_refl, ◌==◌,
  ◌&&◌,
}
use zentto_web.Prelude.Texts.{text_eq, text_eq_sound}
use zentto_web.Money.{digits, value_from}
use zentto_web.Money.Digits.{value_from-digits}
use zentto_web.Money.Amount.{Amount}
use zentto_web.Errors.{ok}
use zentto_web.Database.{Database, Payment, ChainDeposit, DepositAddress}
use zentto_web.Action.{
  Outcome, returned, thrown, after, has_returned, and_then, Action, ◌>>=◌, pure,
}
use zentto_web.Fees.{Rates}
use zentto_web.Payments.{find_payment}
use zentto_web.Indexer.{
  deposit_key, Transfer, Token, Clients, is_deposit, find_deposit, is_unique_violation,
  credit_deposit, user_of, count, alone, credit_for, credit_transfers,
}
use zentto_web.Indexer.Credit.{IsBooked, credited_db, find_deposit_head, credit_deposit-cases}

-- The row of the deposit is in the table.
abbrev pub IsRecorded : ℕ → Transfer → Database → Type 0
IsRecorded network t db =
    is_some (find_deposit network t.tx_hash t.log_index db.chain_deposits) ≡ true

-- The key of a deposit is used by no payment but that of a recorded deposit.
abbrev pub AreBacked : Database → Type 0
AreBacked db =
    (user_id network : ℕ) (t : Transfer)
    → is_some (find_payment user_id (deposit_key network t) db.payments) ≡ true
    → IsRecorded network t db

-- No recorded deposit is lost, no cursor moves, and keys stay backed.
abbrev pub Keeps : Database → Database → Type 0
Keeps db db' =
    (db'.cursors ≡ db.cursors)
    × ((network tx_hash log_index : ℕ)
        → is_some (find_deposit network tx_hash log_index db.chain_deposits) ≡ true
        → is_some (find_deposit network tx_hash log_index db'.chain_deposits) ≡ true)
    × (AreBacked db → AreBacked db')

pub Keeps-refl : (db : Database) → Keeps db db
Keeps-refl db = (refl, λ n h l k. k, λ b. b)

Keeps-trans : (a b c : Database) → Keeps a b → Keeps b c → Keeps a c
Keeps-trans a b c (k, d, p) (k', d', p') = (k' ∙ k, λ n h l x. d' n h l (d n h l x), λ x. p' (p x))

Keeps-IsRecorded :
    (db db' : Database) (network : ℕ) (t : Transfer)
    → Keeps db db'
    → IsRecorded network t db
    → IsRecorded network t db'
Keeps-IsRecorded db db' network t k recorded = k.1 network t.tx_hash t.log_index recorded

find_deposit_grows :
    (network tx_hash log_index : ℕ) (d : ChainDeposit) (ds : List ChainDeposit)
    → is_some (find_deposit network tx_hash log_index ds) ≡ true
    → is_some (find_deposit network tx_hash log_index (d ∷ ds)) ≡ true
unfolding find_deposit
find_deposit_grows network tx_hash log_index d ds h =
    elim (Bool-cases (is_deposit network tx_hash log_index d)) [
      | inl here ↦ rw here
      | inr other ↦ rw other h
    ]

-- The keys of two deposits differ in the network, the hash or the index.
same_key :
    (network network' : ℕ) (t t' : Transfer)
    → text_eq (deposit_key network t) (deposit_key network' t') ≡ true
    → (network ≡ network') × (t.tx_hash ≡ t'.tx_hash) × (t.log_index ≡ t'.log_index)
unfolding text_eq
same_key network network' t t' h =
    let (a, rest) = and-true (network == network') _ h in
    let (b, index) = and-true (t.tx_hash == t'.tx_hash) _ rest in
    (
      (==_iff network network').0 a,
      (==_iff t.tx_hash t'.tx_hash).0 b,
      sym (value_from-digits t.log_index)
          ∙ ap (value_from 0) (text_eq_sound (digits t.log_index) (digits t'.log_index) index)
          ∙ value_from-digits t'.log_index,
    )

-- A payment and a row of one deposit keep the keys backed.
backed_grows :
    (network : ℕ) (t : Transfer) (p : Payment) (d : ChainDeposit) (db db' : Database)
    → p.idempotency_key ≡ deposit_key network t
    → d.network ≡ network
    → d.tx_hash ≡ t.tx_hash
    → d.log_index ≡ t.log_index
    → db'.payments ≡ p ∷ db.payments
    → db'.chain_deposits ≡ d ∷ db.chain_deposits
    → AreBacked db
    → AreBacked db'
unfolding find_payment find_deposit
backed_grows network t p d db db' key net hash index ps ds b u n' t' there =
    elim (Bool-cases (p.user_id == u && text_eq p.idempotency_key (deposit_key n' t'))) [
      | inl hit ↦
          let same = and-true (p.user_id == u) _ hit in
          let (en, eh, ei) = same_key network n' t t' (rw key at (same.1)) in
          rw (
            ds,
            net ∙ en,
            hash ∙ eh,
            index ∙ ei,
            ==_refl n',
            ==_refl t'.tx_hash,
            ==_refl t'.log_index,
          )
      | inr miss ↦ rw ds (
          find_deposit_grows n' t'.tx_hash t'.log_index d db.chain_deposits
            (b u n' t' (rw (ps, miss) at there)))
    ]

-- A call of creditDeposit keeps what is booked, and books its deposit if it returns.
credit-Keeps :
    (rates : Rates) (network token_address user_id : ℕ) (t : Transfer) (amount : Amount) (asset : ℕ)
    (db : Database)
    → let out = credit_deposit alone rates network token_address user_id t amount asset db in
      Keeps db (after out)
      × (has_returned out ≡ true → AreBacked db → IsRecorded network t (after out))
credit-Keeps rates network token_address user_id t amount asset db =
    elim (credit_deposit-cases rates network token_address user_id t amount asset alone db) [
      | inl (d, known, e) ↦ rw e (Keeps-refl db, λ h b. rw known)
      | inr (inl (quote, priced, new, acc, e)) ↦ rw e (
        (
          refl,
          λ n h l k. find_deposit_grows n h l _ db.chain_deposits k,
          λ b.
              backed_grows network t _ _ db
                (credited_db rates network token_address user_id t amount asset db quote) refl refl
                refl refl refl refl b,
        ),
        λ h b. ap is_some (find_deposit_head _ db.chain_deposits),
      )
      | inr (inr (new, x, why, e)) ↦ elim (Bool-cases (is_unique_violation x)) [
        | inl dup ↦ rw (e, dup) (Keeps-refl db, λ h b. recorded b (why dup))
        | inr other ↦ rw (e, other) (Keeps-refl db, λ h. absurd (clash h))
      ]
    ]
  where
    clash : false ≡ true → ⊥
    clash h = cc

    recorded : AreBacked db → IsBooked network user_id t db → IsRecorded network t db
    recorded b (inl paid) = b user_id network t paid
    recorded b (inr there) = there

module _ (clients : Clients) (rates : Rates) (network : ℕ) (addresses : List DepositAddress) where
  -- A transfer to one of the addresses is recorded.
  abbrev pub IsCovered : Database → Transfer → Type 0
  IsCovered db t =
      (user_id : ℕ) → user_of clients.lower t.to addresses ≡ some user_id → IsRecorded network t db

  abbrev pub AreCovered : Database → List Transfer → Type 0
  AreCovered db ts = All (IsCovered db) ts

  abbrev LoopDone : List Transfer → Database → Outcome ℕ → Type 0
  LoopDone ts db out =
      Keeps db (after out) × (has_returned out ≡ true → AreBacked db → AreCovered (after out) ts)

  covered_later :
      (ts : List Transfer) (db db' : Database) → Keeps db db' → AreCovered db ts → AreCovered db' ts
  covered_later ts db db' k h =
      All-weaken (IsCovered db) (IsCovered db') ts
        (λ t c u e. Keeps-IsRecorded db db' network t k (c u e)) h

  then_count :
      (t : Transfer) (ts : List Transfer) (db db1 : Database) (credited : Bool) (o : Outcome ℕ)
      → Keeps db db1
      → (AreBacked db → IsCovered db1 t)
      → LoopDone ts db1 o
      → LoopDone (t ∷ ts) db (and_then o (λ n. pure (count credited n)))
  then_count t ts db db1 credited (thrown e db2) k c (k', rest) =
      (Keeps-trans db db1 db2 k k', λ h. absurd (clash h))
    where
      clash : false ≡ true → ⊥
      clash h = cc
  then_count t ts db db1 credited (returned n db2) k c (k', rest) = (
    Keeps-trans db db1 db2 k k',
    λ h b. (λ u e. Keeps-IsRecorded db1 db2 network t k' (c b u e), rest refl (k.2 b)),
  )

  then_loop :
      (t : Transfer) (ts : List Transfer) (db : Database) (rest : Action ℕ) (o : Outcome Bool)
      → Keeps db (after o) × (has_returned o ≡ true → AreBacked db → IsRecorded network t (after o))
      → ((db1 : Database) → LoopDone ts db1 (rest db1))
      → LoopDone (t ∷ ts) db (and_then o (λ credited. rest >>= (λ n. pure (count credited n))))
  then_loop t ts db rest (thrown e db1) (k, done) loop = (k, λ h. absurd (clash h))
    where
      clash : false ≡ true → ⊥
      clash h = cc
  then_loop t ts db rest (returned credited db1) (k, done) loop =
      then_count t ts db db1 credited (rest db1) k (λ b u e. done refl b) (loop db1)

  then_credit :
      (token : Token) (decimals : ℕ) (t : Transfer) (ts : List Transfer) (db : Database)
      (rest : Action ℕ) (o : Option ℕ)
      → user_of clients.lower t.to addresses ≡ o
      → ((db1 : Database) → LoopDone ts db1 (rest db1))
      → LoopDone (t ∷ ts) db (credit_for clients rates network token decimals t o rest db)
  then_credit token decimals t ts db rest none nobody loop =
      ((loop db).0, λ h b. ((λ u e. absurd (some_not_none (sym e ∙ nobody))), (loop db).1 h b))
  then_credit token decimals t ts db rest (some u) mine loop =
      then_loop t ts db rest
        (credit_deposit alone rates network token.address u t
          (clients.format_units t.value decimals) token.asset db)
        (credit-Keeps rates network token.address u t (clients.format_units t.value decimals)
          token.asset db)
        loop

  pub credit_transfers-LoopDone :
      (token : Token) (decimals : ℕ) (ts : List Transfer) (db : Database)
      → LoopDone ts db (credit_transfers clients rates network token decimals addresses ts db)
  unfolding credit_transfers
  credit_transfers-LoopDone token decimals [] db = (Keeps-refl db, λ h b. tt)
  credit_transfers-LoopDone token decimals (t ∷ ts) db =
      then_credit token decimals t ts db
        (credit_transfers clients rates network token decimals addresses ts)
        (user_of clients.lower t.to addresses) refl
        (λ db1. credit_transfers-LoopDone token decimals ts db1)

  -- Every transfer of the tokens that the node reports for the window, to one of the addresses, is recorded.
  abbrev pub WindowCovered : ℕ → ℕ → Database → List Token → Type 0
  WindowCovered from to db tokens =
      All
        (λ (token : Token).
          (ts : List Transfer)
          → clients.transfers_to token.address (map (λ (a : DepositAddress). a.address) addresses)
              from to network
            ≡ ok ts
          → AreCovered db ts)
        tokens

  abbrev pub TokensDone : ℕ → ℕ → List Token → Database → Outcome (ℕ × ℕ) → Type 0
  TokensDone from to tokens db out =
      Keeps db (after out)
      × (has_returned out ≡ true → AreBacked db → WindowCovered from to (after out) tokens)

  later_window :
      (from to : ℕ) (tokens : List Token) (db db' : Database)
      → Keeps db db'
      → WindowCovered from to db tokens
      → WindowCovered from to db' tokens
  later_window from to tokens db db' k h =
      All-weaken _ _ tokens (λ token c ts e. covered_later ts db db' k (c ts e)) h

  then_tokens :
      (from to : ℕ) (token : Token) (tokens : List Token) (ts : List Transfer) (db db1 : Database)
      (credited : ℕ) (o : Outcome (ℕ × ℕ))
      → clients.transfers_to token.address
          (map (λ (a : DepositAddress). a.address) addresses)
          from
          to
          network
        ≡ ok ts
      → Keeps db db1
      → (AreBacked db → AreCovered db1 ts)
      → TokensDone from to tokens db1 o
      → TokensDone from to
          (token ∷ tokens)
          db
          (and_then o (λ more. pure (length ts + more.0, credited + more.1)))
  then_tokens from to token tokens ts db db1 credited (thrown e db2) found k c (k', rest) =
      (Keeps-trans db db1 db2 k k', λ h. absurd (clash h))
    where
      clash : false ≡ true → ⊥
      clash h = cc
  then_tokens from to token tokens ts db db1 credited (returned more db2) found k c (k', rest) = (
    Keeps-trans db db1 db2 k k',
    λ h b. (
      λ ts' e. covered_later ts' db1 db2 k' (rw (same (sym found ∙ e)) at (c b)),
      rest refl (k.2 b),
    ),
  )
    where
      same : {a b : List Transfer} → ok a ≡ ok b → a ≡ b
      same h = cc

  pub then_transfers :
      (from to : ℕ) (token : Token) (tokens : List Token) (ts : List Transfer) (db : Database)
      (rest : Action (ℕ × ℕ)) (o : Outcome ℕ)
      → clients.transfers_to token.address
          (map (λ (a : DepositAddress). a.address) addresses)
          from
          to
          network
        ≡ ok ts
      → LoopDone ts db o
      → ((db1 : Database) → TokensDone from to tokens db1 (rest db1))
      → TokensDone from to
          (token ∷ tokens)
          db
          (and_then o (λ credited. rest >>= (λ more. pure (length ts + more.0, credited + more.1))))
  then_transfers from to token tokens ts db rest (thrown e db1) found (k, done) loop =
      (k, λ h. absurd (clash h))
    where
      clash : false ≡ true → ⊥
      clash h = cc
  then_transfers from to token tokens ts db rest (returned credited db1) found (k, done) loop =
      then_tokens from to token tokens ts db db1 credited (rest db1) found k (done refl) (loop db1)
