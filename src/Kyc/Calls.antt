-- ===== src/Kyc/Calls.antt =====
-- What the calls of users and of the back office do to the table of verifications.
use zentto_web.Prelude.{
  ℕ, ◌≤◌, ◌≡◌, refl, Bool, true, false, ◌&&◌, Option, some, List, ◌==◌, find, arith, Bool-cases,
  Option-cases, inl, inr,
}
use zentto_web.Money.{Text}
use zentto_web.Errors.{Result, ok, err}
use zentto_web.Database.{Database}
use zentto_web.Database.Identity.{KycVerification}
use zentto_web.Action.{after, modify, pure, ◌>>=◌, ◌>>◌}
use zentto_web.Kyc.Service.{
  KycEnvironment, ProviderSession, KycSubmitDto, status_of, is_approved, find_verification,
  save_row, new_verification, is_done, open_verification, start_session, submitted, submit,
  save_verification, or_else,
}
use zentto_web.Kyc.Documents.{
  handoff_user, Files, DiditAnswers, IdCheck, Biometrics, ZenttoSession, biometrics, didit_row,
  with_didit, verify_with_didit, zentto_row, with_zentto, verify_with_zentto_kyc, is_zentto,
  verify_with_documents, verify_handoff,
}

-- What a call of a user does to the rows, where `id` is the next id: nothing, or it fills a row that is not
-- approved, or a new one; what it fills in has the property `P`.
pub data RowStep (P : KycVerification → Type 0) (id : ℕ) (rows : List KycVerification)
    : List KycVerification → Type 0 where
  no_change : RowStep P id rows rows
  refilled :
      (test : KycVerification → Bool) (e v : KycVerification)
      → find test rows ≡ some e
      → is_approved e.status ≡ false
      → v.id ≡ e.id
      → P v
      → RowStep P id rows (save_row v rows)
  filled : (v : KycVerification) → v.id ≡ id → P v → RowStep P id rows (save_row v rows)

pub record Effect (P : KycVerification → Type 0) (db db' : Database) : Type 0 where
  pub rows : RowStep P db.next_id db.kyc_verifications db'.kyc_verifications
  pub ids : db.next_id ≤ db'.next_id

unchanged-Effect : (P : KycVerification → Type 0) (db : Database) → Effect P db db
unchanged-Effect P db = record { rows = no_change; ids = omega arith }

-- A call that opens a verification and saves what it fills in.
abbrev filling : (KycVerification → KycVerification) → ℕ → Database → Database
filling fill user_id db = after (
    (do
      entity ← open_verification user_id
      modify (save_verification (fill entity))
      pure (fill entity))
      db)

filling-Effect :
    (P : KycVerification → Type 0) (fill : KycVerification → KycVerification) (user_id : ℕ)
    (db : Database)
    → ((e : KycVerification) → (fill e).id ≡ e.id)
    → ((e : KycVerification) → P (fill e))
    → Effect P db (filling fill user_id db)
unfolding open_verification
filling-Effect P fill user_id db same good = elim (Option-cases (find_verification user_id db)) [
  | inl new ↦
      let e = new_verification db.next_id user_id in
      rw new (record { rows = filled (fill e) (same e) (good e); ids = omega arith })
  | inr (e, there) ↦ elim (Bool-cases (is_approved e.status)) [
    | inl done ↦
        let stop : is_done (find_verification user_id db) ≡ true = rw there done in
        rw stop (unchanged-Effect P db)
    | inr open_still ↦
        let go : is_done (find_verification user_id db) ≡ false = rw there open_still in
        rw (go, there)
          (record {
            rows =
                refilled (λ (v : KycVerification). v.user_id == user_id) e (fill e) there open_still
                  (same e) (good e);
            ids = omega arith;
          })
  ]
]

-- A call of a user.
pub data Call : Type 0 where
  starts : ProviderSession → ℕ → Option Text → Call
  submits : ProviderSession → ℕ → KycSubmitDto → Call
  uploads : Files → Option Text → DiditAnswers → Result ZenttoSession → ℕ → Call
  hands_off : ℕ → Files → Option Text → DiditAnswers → Result ZenttoSession → Call

module _ (env : KycEnvironment) where
  abbrev pub apply : Call → Database → Database
  apply (starts session id name) db = after (start_session env session id name db)
  apply (submits session id dto) db = after (submit env session id dto db)
  apply (uploads files given a session id) db =
      after (verify_with_documents env files given a session id db)
  apply (hands_off token files given a session) db =
      after (verify_handoff env token files given a session db)

  -- The row of a session that begins.
  abbrev pub started_row : ProviderSession → Option Text → KycVerification → KycVerification
  started_row session name e = record e {
    status = status_of session.initial_status;
    provider = env.provider;
    provider_ref = session.ref;
    full_name = or_else name e.full_name;
  }

  didit_id :
      (selfie : Bool) (given : Option Text) (id : Result IdCheck) (b : Result Biometrics)
      (e : KycVerification)
      → (didit_row env selfie given id b e).id ≡ e.id
  unfolding with_didit
  didit_id selfie given (err x) b e = refl
  didit_id selfie given (ok id) (err x) e = refl
  didit_id selfie given (ok id) (ok b) e = refl

  zentto_id :
      (given : Option Text) (s : Result ZenttoSession) (e : KycVerification)
      → (zentto_row env given s e).id ≡ e.id
  unfolding with_zentto
  zentto_id given (err x) e = refl
  zentto_id given (ok s) e = refl

  submitted_id :
      (session : ProviderSession) (dto : KycSubmitDto) (e : KycVerification)
      → (submitted env session dto e).id ≡ e.id
  unfolding submitted
  submitted_id session dto e = refl

  module _ (P : KycVerification → Type 0) where
    abbrev FillsDocuments : Files → Option Text → DiditAnswers → Result ZenttoSession → Type 0
    FillsDocuments files given a session =
        ((e : KycVerification)
          → P (didit_row env files.selfie given a.id (biometrics files.selfie a) e))
        × ((e : KycVerification) → P (zentto_row env given session e))

    -- Whatever row the call fills, it has the property then.
    abbrev pub Fills : Call → Type 0
    Fills (starts session id name) = (e : KycVerification) → P (started_row session name e)
    Fills (submits session id dto) = (e : KycVerification) → P (submitted env session dto e)
    Fills (uploads files given a session id) = FillsDocuments files given a session
    Fills (hands_off token files given a session) = FillsDocuments files given a session

    uploaded-Effect :
        (files : Files) (given : Option Text) (a : DiditAnswers) (session : Result ZenttoSession)
        (id : ℕ) (db : Database)
        → FillsDocuments files given a session
        → Effect P db (after (verify_with_documents env files given a session id db))
    unfolding verify_with_documents verify_with_didit verify_with_zentto_kyc
    uploaded-Effect files given a session id db (didit, zentto) = elim (Bool-cases files.front) [
      | inr missing ↦ rw missing (unchanged-Effect P db)
      | inl there ↦ elim (Bool-cases (is_zentto env env.provider && env.zentto_enabled)) [
        | inl native ↦
            rw (there, native)
              (filling-Effect P (zentto_row env given session) id db (zentto_id given session)
                zentto)
        | inr foreign ↦ elim (Bool-cases env.didit_enabled) [
          | inr off ↦ simp (there, foreign, off) (unchanged-Effect P db)
          | inl on ↦
              simp (there, foreign, on)
                (filling-Effect P
                  (didit_row env files.selfie given a.id (biometrics files.selfie a)) id db
                  (didit_id files.selfie given a.id (biometrics files.selfie a)) didit)
        ]
      ]
    ]

    pub apply-Effect : (c : Call) (db : Database) → Fills c → Effect P db (apply c db)
    unfolding start_session submit verify_handoff
    apply-Effect (starts session id name) db good =
        filling-Effect P (started_row session name) id db (λ e. refl) good
    apply-Effect (submits session id dto) db good =
        filling-Effect P (submitted env session dto) id db (submitted_id session dto) good
    apply-Effect (uploads files given a session id) db good =
        uploaded-Effect files given a session id db good
    apply-Effect (hands_off token files given a session) db good =
        elim (Option-cases (handoff_user env (env.verify_handoff_token token))) [
          | inl bad ↦ rw bad (unchanged-Effect P db)
          | inr (id, valid) ↦ rw valid (uploaded-Effect files given a session id db good)
        ]
