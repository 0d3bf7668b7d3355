-- ===== src/Kyc/Service.antt =====
-- kyc/kyc.service.ts: the verification of an identity, with the webhooks of the providers.
use zentto_web.Prelude.{
  ℕ, Bool, true, false, Option, none, some, is_some, List, [], ◌∷◌, map, if◌then◌else◌, ◌==◌, find,
}
use zentto_web.Money.{Text}
use zentto_web.Errors.{identity_already_verified}
use zentto_web.Database.{Database}
use zentto_web.Database.Identity.{KycStatus, KycVerification, Provider}
use zentto_web.Action.{Action, ◌>>=◌, ◌>>◌, modify, gets, pure, random_uuid, throw_if}
use zentto_web.Kyc.Mrz.{MrzResult, MrzFields, parse_td3}
use zentto_web.Kyc.Screening.{Unicode, ListEntry, screen, is_match}

-- providers/kyc-provider.ts: the start of a session never approves.
pub data InitialStatus : Type 0 where
  pending in_review : InitialStatus

pub record ProviderSession : Type 0 where
  pub ref : Option ℕ
  pub initial_status : InitialStatus

abbrev pub status_of : InitialStatus → KycStatus
status_of InitialStatus.pending = KycStatus.pending
status_of InitialStatus.in_review = KycStatus.in_review

-- The payload of the token that the QR code carries; `is_handoff` is `typ === 'kyc_handoff'`.
pub record HandoffPayload : Type 0 where
  pub sub : Option ℕ
  pub is_handoff : Bool

-- The configuration, the list of sanctions, and the answers of node's crypto and of jsonwebtoken.
pub record KycEnvironment : Type 0 where
  pub unicode : Unicode
  pub sanctions : List ListEntry
  pub provider : Provider
  pub zentto_enabled : Bool
  pub didit_enabled : Bool
  pub sign_handoff : ℕ → ℕ
  pub verify_handoff_token : ℕ → Option HandoffPayload
  pub hmac : Text → Text → Text
  pub didit_secret : Text
  pub zentto_secret : Text

abbrev pub is_approved : KycStatus → Bool
is_approved KycStatus.approved = true
is_approved _ = false

abbrev pub find_verification : ℕ → Database → Option KycVerification
find_verification user_id db =
    find (λ (v : KycVerification). v.user_id == user_id) db.kyc_verifications

abbrev pub replace_row : KycVerification → List KycVerification → List KycVerification
replace_row v rows = map (λ (r : KycVerification). if r.id == v.id then v else r) rows

-- repo.save, which adds the row where its id is new
abbrev pub save_row : KycVerification → List KycVerification → List KycVerification
save_row v rows =
    if is_some (find (λ (r : KycVerification). r.id == v.id) rows)
    then replace_row v rows
    else v ∷ rows

abbrev pub save_verification : KycVerification → Database → Database
save_verification v db = record db { kyc_verifications = save_row v db.kyc_verifications }

abbrev pub new_verification : ℕ → ℕ → KycVerification
new_verification id user_id = record {
  id = id;
  user_id = user_id;
  status = KycStatus.not_started;
  full_name = none;
  birth_date = none;
  nationality = none;
  document_type = none;
  document_number = none;
  mrz_valid = false;
  aml_match = false;
  provider = Provider.manual;
  provider_ref = none;
  liveness_passed = none;
  decision_reason = none;
  reviewed_by = none;
}

abbrev pub is_done : Option KycVerification → Bool
is_done none = false
is_done (some v) = is_approved v.status

-- isApproved
unfoldable pub is_verified : ℕ → Database → Bool
is_verified user_id db = is_done (find_verification user_id db)

-- existing ?? repo.create
abbrev pub entity_of : Option KycVerification → ℕ → Action KycVerification
entity_of (some v) user_id = pure v
entity_of none user_id = do id ← random_uuid; pure (new_verification id user_id)

-- What every call of a user begins with: the row to fill, unless it is approved.
unfoldable pub open_verification : ℕ → Action KycVerification
open_verification user_id = do
  existing ← gets (find_verification user_id)
  throw_if (is_done existing) identity_already_verified
  entity_of existing user_id

abbrev pub or_else {ℓ} : {A : Type ℓ} → Option A → Option A → Option A
or_else none fallback = fallback
or_else (some a) fallback = some a

abbrev pub nonempty : Text → Option Text
nonempty [] = none
nonempty (c ∷ s) = some (c ∷ s)

-- KycSubmitDto
pub record KycSubmitDto : Type 0 where
  pub full_name : Text
  pub document_type : ℕ
  pub document_number : Option Text
  pub mrz : Option Text

module _ (env : KycEnvironment) where
  abbrev pub is_sanctioned : Text → Bool
  is_sanctioned name = is_match (screen env.unicode env.sanctions name)

  unfoldable pub start_session : ProviderSession → ℕ → Option Text → Action KycVerification
  start_session session user_id full_name = do
    entity ← open_verification user_id
    let v = record entity {
      status = status_of session.initial_status;
      provider = env.provider;
      provider_ref = session.ref;
      full_name = or_else full_name entity.full_name;
    }
    modify (save_verification v)
    pure v

  abbrev pub number_in : Option MrzFields → Option Text → Option Text
  number_in none given = given
  number_in (some f) given = or_else (nonempty f.document_number) given

  abbrev pub read_mrz : Option Text → Option MrzResult
  read_mrz none = none
  read_mrz (some mrz) = some (parse_td3 mrz)

  abbrev pub fields_of : Option MrzResult → Option MrzFields
  fields_of none = none
  fields_of (some r) = r.fields

  abbrev pub mrz_is_valid : Option MrzResult → Bool
  mrz_is_valid none = false
  mrz_is_valid (some r) = r.valid

  abbrev pub nationality_in : Option MrzFields → Option Text
  nationality_in none = none
  nationality_in (some f) = some f.nationality

  abbrev pub birth_date_in : Option MrzFields → Option Text
  birth_date_in none = none
  birth_date_in (some f) = some f.birth_date

  unfoldable pub submitted : ProviderSession → KycSubmitDto → KycVerification → KycVerification
  submitted session dto entity =
      let read = read_mrz dto.mrz in
      record entity {
        status =
            if is_sanctioned dto.full_name
            then KycStatus.in_review
            else status_of session.initial_status;
        full_name = some dto.full_name;
        document_type = some dto.document_type;
        document_number = number_in (fields_of read) dto.document_number;
        nationality = nationality_in (fields_of read);
        birth_date = birth_date_in (fields_of read);
        mrz_valid = mrz_is_valid read;
        aml_match = is_sanctioned dto.full_name;
        provider = env.provider;
        provider_ref = session.ref;
        decision_reason = none;
        reviewed_by = none;
      }

  unfoldable pub submit : ProviderSession → ℕ → KycSubmitDto → Action KycVerification
  submit session user_id dto = do
    entity ← open_verification user_id
    modify (save_verification (submitted session dto entity))
    pure (submitted session dto entity)

  -- The token is what jsonwebtoken signs for the user.
  unfoldable pub start_handoff : ℕ → Action ℕ
  start_handoff user_id = do
    existing ← gets (find_verification user_id)
    throw_if (is_done existing) identity_already_verified
    pure (env.sign_handoff user_id)
