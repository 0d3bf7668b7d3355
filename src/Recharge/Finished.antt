-- ===== src/Recharge/Finished.antt =====
-- Finished recharge requests.
use zentto_web.Prelude.{
  ℕ, suc, ◌≡◌, refl, sym, Bool, true, false, ◌||◌, Option, some, List, [], ◌∷◌, find, Bool-cases,
  Option-cases, inl, inr, ◌==◌, ==_iff, ==_refl, some_inj, some_not_none,
}
use zentto_web.Money.{Text, is_empty, trim}
use zentto_web.Money.Amount.{exact}
use zentto_web.Database.{Database, Account, RechargeRequest, RechargeStatus}
use zentto_web.Action.{random_uuid, Outcome, returned, thrown, roll_back, Action, ◌>>=◌, ◌>>◌}
use zentto_web.Errors.{Error, forbidden, wrong_status, invalid_input, Result-cases}
use zentto_web.Environment.{Environment}
use zentto_web.Fees.{Rates, FeeQuote, quote_deposit}
use zentto_web.Ledger.{post_journal}
use zentto_web.Ledger.Journal.{post_journal_cases}
use zentto_web.Ledger.Split.{split_legs}
use zentto_web.Payments.{find_payment, insert_payment}
use zentto_web.Payments.Store.{insert_payment_new, insert_payment_dup}
use zentto_web.Auth.StepUp.{assert_step_up_cases}
use zentto_web.Indexer.Credit.{custody, credited, treasury}
use zentto_web.Recharge.{
  same_status, find_request, get_request, update_requests, save_request, recharge_key,
  recharge_payment, claim, cancel, submit_evidence, assigned_to, confirm_transaction, confirm,
}

-- What a search finds passes its test.
found_passes : {A : Type 0} (p : A → Bool) (l : List A) {x : A} → find p l ≡ some x → p x ≡ true
found_passes p [] h = absurd (some_not_none (sym h))
found_passes p (a ∷ l) {x} h = elim (Bool-cases (p a)) [
  | inl hit ↦ rw (sym (some_inj (rw hit at h))) hit
  | inr miss ↦ found_passes p l (rw miss at h)
]

-- A request that is neither pending, claimed nor paid.
abbrev pub IsFinished : RechargeRequest → Type 0
IsFinished q =
    (same_status q.status RechargeStatus.pending ≡ false)
    × (same_status q.status RechargeStatus.claimed ≡ false)
    × (same_status q.status RechargeStatus.paid ≡ false)

-- A finished request is neither claimed, cancelled, paid nor confirmed again: each call throws, by whomever it
-- comes and whatever it carries, and the database is as it was.
finished_request_refuses :
    (env : Environment) (caller id now : ℕ) (attachment info : Text) (totp_code : Option ℕ)
    (q : RechargeRequest) (db : Database)
    → find_request id db.requests ≡ some q
    → IsFinished q
    → ((e : Error) × (cancel caller id db ≡ thrown e db))
      × ((e : Error) × (submit_evidence caller id attachment db ≡ thrown e db))
      × ((e : Error) × (confirm env caller id totp_code db ≡ thrown e db))
      × ((e : Error) × (claim now caller id info db ≡ thrown e db))
unfolding get_request claim cancel submit_evidence confirm confirm_transaction
finished_request_refuses env caller id now attachment info totp_code q db there (np, nc, npaid) = (
  elim (Bool-cases (q.user_id == caller)) [
    | inr other ↦ (forbidden, simp (there, other))
    | inl mine ↦ (wrong_status, simp (there, mine, np, nc))
  ],
  elim (Bool-cases (q.user_id == caller)) [
    | inr other ↦ (forbidden, simp (there, other))
    | inl mine ↦ (wrong_status, simp (there, mine, nc))
  ],
  elim (assert_step_up_cases env caller totp_code db) [
    | inr (x, bad) ↦ (x, rw bad)
    | inl (proven, good) ↦ elim (Bool-cases (assigned_to caller q.operator_user_id)) [
      | inr other ↦ (forbidden, rw good (simp (there, other)))
      | inl mine ↦ (wrong_status, rw good (simp (there, mine, nc, npaid)))
    ]
  ],
  elim (Bool-cases (is_empty (trim info))) [
    | inl blank ↦ (invalid_input, rw blank)
    | inr given ↦ (wrong_status, simp (given, there, np))
  ],
)

find-update_requests :
    (id : ℕ) (q q' : RechargeRequest) (qs : List RechargeRequest)
    → find_request id qs ≡ some q
    → q'.id ≡ q.id
    → find_request id (update_requests q' qs) ≡ some q'
unfolding update_requests
find-update_requests id q q' [] there same = absurd (some_not_none (sym there))
find-update_requests id q q' (p ∷ ps) there same = elim (Bool-cases (p.id == id)) [
  | inl here ↦
      let e : p ≡ q = some_inj (rw here at there) in
      let mine : (p.id == q'.id) ≡ true = rw (same, sym e) (==_refl p.id) in
      let found : (q'.id == id) ≡ true = rw (same, sym e) here in rw (mine, found)
  | inr other ↦
      let q_id : (q.id == id) ≡ true =
        found_passes (λ (r : RechargeRequest). r.id == id) ps (rw other at there) in
      let apart : (p.id == q'.id) ≡ false = rw (same, (==_iff q.id id).0 q_id) other in
      rw (apart, other) (find-update_requests id q q' ps (rw other at there) same)
]

-- The request is found finished after the call, if the call returned.
abbrev LeavesFinished : ℕ → Outcome RechargeRequest → Type 0
LeavesFinished id (returned r db') =
    (q : RechargeRequest) × (find_request id db'.requests ≡ some q) × IsFinished q
LeavesFinished id (thrown e db') = Unit

-- The rest of `confirm`, once its accounts are there.
abbrev crediting :
    ℕ → RechargeRequest → Account → Account → Account → FeeQuote → Action RechargeRequest
crediting operator_id q custody user_acc fees quote = do
  payment_id ← random_uuid
  insert_payment (recharge_payment payment_id operator_id q custody user_acc quote)
  post_journal payment_id
      (split_legs custody.id user_acc.id fees.id q.amount quote.net quote.platform_fee q.asset)
  save_request (record q { status = RechargeStatus.completed; fee_amount = quote.platform_fee })

crediting-LeavesFinished :
    (operator_id id : ℕ) (q0 : RechargeRequest) (custody user_acc fees : Account) (quote : FeeQuote)
    (db0 db : Database)
    → find_request id db.requests ≡ some q0
    → let q = record q0 { amount = exact q0.amount.stored } in
      LeavesFinished id (roll_back db0 (crediting operator_id q custody user_acc fees quote db))
crediting-LeavesFinished operator_id id q0 custody user_acc fees quote db0 db there =
    let q : RechargeRequest = record q0 { amount = exact q0.amount.stored } in
    let p = recharge_payment db.next_id operator_id q custody user_acc quote in
    let legs =
      split_legs custody.id user_acc.id fees.id q.amount quote.net quote.platform_fee q.asset in
    let db1 : Database = record db { next_id = suc db.next_id } in
    let db2 : Database = record db1 { payments = p ∷ db.payments } in
    elim (Option-cases (find_payment q.user_id (recharge_key q.id) db.payments)) [
      | inr (other, dup) ↦ rw (insert_payment_dup p db1 dup) tt
      | inl new ↦ elim (post_journal_cases db.next_id legs db2) [
        | inr (e, bad) ↦ rw (insert_payment_new p db1 new, bad) tt
        | inl (acc, good) ↦
            rw (insert_payment_new p db1 new, good)
              (
                record q { status = RechargeStatus.completed; fee_amount = quote.platform_fee },
                find-update_requests id q0 _ db.requests there refl,
                (refl, refl, refl),
              )
      ]
    ]

confirm_transaction-LeavesFinished :
    (rates : Rates) (operator_id id : ℕ) (db : Database)
    → LeavesFinished id (confirm_transaction rates operator_id id db)
unfolding confirm_transaction get_request
confirm_transaction-LeavesFinished rates operator_id id db =
    elim (Option-cases (find_request id db.requests)) [
      | inl gone ↦ rw gone tt
      | inr (q, there) ↦ elim (Bool-cases (assigned_to operator_id q.operator_user_id)) [
        | inr other ↦ simp (there, other) tt
        | inl mine ↦
            elim (Bool-cases (
              same_status q.status RechargeStatus.paid
              || same_status q.status RechargeStatus.claimed)) [
                | inr bad ↦ simp (there, mine, bad) tt
                | inl going ↦ elim (Result-cases (quote_deposit rates (exact q.amount.stored))) [
                  | inr (e, bad) ↦ simp (there, mine, going, bad) tt
                  | inl (quote, good) ↦
                      simp (there, mine, going, good)
                        (crediting-LeavesFinished operator_id id q (custody q.user_id q.asset db)
                          (credited q.user_id q.asset db) (treasury q.user_id q.asset db) quote db _
                          there)
                ]
              ]
      ]
    ]

-- When the operator's confirmation of a recharge has returned, another confirmation of the same request, its
-- cancellation, a proof of payment and a claim of it all throw in the database that it left, by whomever
-- they come and whatever they carry, and leave that database as it is.
pub confirm_once :
    (env : Environment) (operator_id caller id now : ℕ) (totp_code totp_code' : Option ℕ)
    (attachment info : Text) (db db' : Database) (r : RechargeRequest)
    → confirm env operator_id id totp_code db ≡ returned r db'
    → ((e : Error) × (confirm env caller id totp_code' db' ≡ thrown e db'))
      × ((e : Error) × (cancel caller id db' ≡ thrown e db'))
      × ((e : Error) × (submit_evidence caller id attachment db' ≡ thrown e db'))
      × ((e : Error) × (claim now caller id info db' ≡ thrown e db'))
unfolding confirm
confirm_once env operator_id caller id now totp_code totp_code' attachment info db db' r done =
    elim (assert_step_up_cases env operator_id totp_code db) [
      | inr (x, bad) ↦ absurd (clash (rw bad at done))
      | inl (proven, good) ↦
          let end : confirm_transaction env.rates operator_id id db ≡ returned r db' =
            rw good at done in
          let (q, there, finished) =
            rw end at (confirm_transaction-LeavesFinished env.rates operator_id id db) in
          let (stop_cancel, stop_paid, stop_confirm, stop_claim) =
            finished_request_refuses env caller id now attachment info totp_code' q db' there
              finished in
          (stop_confirm, stop_cancel, stop_paid, stop_claim)
    ]
  where
    clash : {e : Error} {d : Database} → thrown e d ≡ returned r db' → ⊥
    clash h = cc
