-- ===== src/Kyc/Documents.antt =====
-- kyc/kyc.service.ts: verifyWithDocuments, verifyWithZenttoKyc and verifyHandoff. The answers of the
-- providers are arguments; a failure of one is a value.
use zentto_web.Prelude.{
  [], ◌∷◌, ◌++◌, ℕ, Bool, true, false, not, ◌&&◌, ◌||◌, Option, none, some, if◌then◌else◌,
}
use zentto_web.Money.{Text, trim}
use zentto_web.Errors.{Error, Result, ok, err, front_image_missing, not_configured, bad_handoff}
use zentto_web.Database.Identity.{
  KycStatus, KycVerification, Provider, Reason, documents_rejected, provider_error,
}
use zentto_web.Action.{Action, ◌>>=◌, ◌>>◌, modify, pure, throw, or_throw}
use zentto_web.Kyc.Service.{
  HandoffPayload, KycEnvironment, save_verification, open_verification, or_else, nonempty,
  is_sanctioned,
}

-- The files of a request: whether the front of the document and the selfie are there.
pub record Files : Type 0 where
  pub front : Bool
  pub selfie : Bool

pub data DiditStatus : Type 0 where
  approved declined other_status : DiditStatus

abbrev pub is_approved : DiditStatus → Bool
is_approved DiditStatus.approved = true
is_approved _ = false

abbrev pub is_declined : DiditStatus → Bool
is_declined declined = true
is_declined _ = false

-- What idVerification reads from a document.
pub record IdCheck : Type 0 where
  pub status : DiditStatus
  pub first_name : Option Text
  pub last_name : Option Text
  pub document_type : Option ℕ
  pub document_number : Option Text
  pub nationality : Option Text
  pub birth_date : Option Text

pub record DiditAnswers : Type 0 where
  pub id : Result IdCheck
  pub liveness : Result DiditStatus
  pub face : Result DiditStatus

-- liveOk, faceOk and declinedBiometrics
pub record Biometrics : Type 0 where
  pub live_ok : Bool
  pub face_ok : Bool
  pub declined : Bool

abbrev pub compare_faces : Result DiditStatus → Result DiditStatus → Result Biometrics
compare_faces (err e) face = err e
compare_faces (ok live) (err e) = err e
compare_faces (ok live) (ok face) = ok (record {
  live_ok = is_approved live;
  face_ok = is_approved face;
  declined = is_declined live || is_declined face;
})

abbrev pub biometrics : Bool → DiditAnswers → Result Biometrics
biometrics false a = ok (record { live_ok = true; face_ok = true; declined = false })
biometrics true a = compare_faces a.liveness a.face

abbrev pub text_or_empty : Option Text → Text
text_or_empty none = []
text_or_empty (some t) = t

-- (fullNameInput ?? name).trim()
abbrev pub name_of : Option Text → Text → Text
name_of none name = trim name
name_of (some given) name = trim given

-- `${id.first_name ?? ''} ${id.last_name ?? ''}`
abbrev pub id_name : IdCheck → Text
id_name id = text_or_empty id.first_name ++ (32 ∷ text_or_empty id.last_name)

-- The session of zentto-kyc as it is read at the end; `verdict` is `decision ?? status`.
pub data Verdict : Type 0 where
  declined_verdict approved_verdict other_verdict : Verdict

pub record ZenttoSession : Type 0 where
  pub session_id : ℕ
  pub verdict : Verdict
  pub full_name : Option Text
  pub document_type : Option ℕ
  pub document_number : Option Text
  pub nationality : Option Text
  pub birth_date : Option Text
  pub mrz_valid : Option Bool

module _ (env : KycEnvironment) where
  abbrev pub didit_status : IdCheck → Biometrics → Bool → KycStatus
  didit_status id b sanctioned =
      if is_declined id.status || b.declined
      then KycStatus.rejected
      else if (is_approved id.status && b.live_ok && b.face_ok) && not sanctioned
      then KycStatus.approved
      else KycStatus.in_review

  unfoldable pub with_didit :
      Bool → Option Text → IdCheck → Biometrics → KycVerification → KycVerification
  with_didit selfie given id b entity =
      let name = name_of given (id_name id) in
      record entity {
        status = didit_status id b (is_sanctioned env name);
        full_name = or_else (nonempty name) entity.full_name;
        document_type = or_else id.document_type entity.document_type;
        document_number = or_else id.document_number entity.document_number;
        nationality = or_else id.nationality entity.nationality;
        birth_date = or_else id.birth_date entity.birth_date;
        aml_match = is_sanctioned env name;
        provider = Provider.didit;
        liveness_passed = if selfie then some b.live_ok else entity.liveness_passed;
        decision_reason =
            if is_declined id.status || b.declined then some documents_rejected else none;
      }

  abbrev pub failed_check : Provider → Error → KycVerification → KycVerification
  failed_check p e entity = record entity {
    status = KycStatus.in_review;
    provider = p;
    decision_reason = some (provider_error e);
  }

  abbrev pub didit_row :
      Bool → Option Text → Result IdCheck → Result Biometrics → KycVerification → KycVerification
  didit_row selfie given (err e) b entity = failed_check Provider.didit e entity
  didit_row selfie given (ok id) (err e) entity = failed_check Provider.didit e entity
  didit_row selfie given (ok id) (ok b) entity = with_didit selfie given id b entity

  unfoldable pub verify_with_didit : Files → Option Text → DiditAnswers → ℕ → Action KycVerification
  verify_with_didit files given a user_id = do
    entity ← open_verification user_id
    let v = didit_row files.selfie given a.id (biometrics files.selfie a) entity
    modify (save_verification v)
    pure v

  abbrev pub zentto_status : Verdict → Bool → KycStatus
  zentto_status declined_verdict sanctioned = KycStatus.rejected
  zentto_status approved_verdict sanctioned =
      if not sanctioned then KycStatus.approved else KycStatus.in_review
  zentto_status other_verdict sanctioned = KycStatus.in_review

  abbrev pub liveness_of : KycStatus → Option Bool
  liveness_of KycStatus.approved = some true
  liveness_of KycStatus.rejected = some false
  liveness_of _ = none

  abbrev pub reason_of : KycStatus → Option Reason
  reason_of KycStatus.rejected = some documents_rejected
  reason_of _ = none

  abbrev pub value_or : Bool → Option Bool → Bool
  value_or fallback none = fallback
  value_or fallback (some b) = b

  unfoldable pub with_zentto : Option Text → ZenttoSession → KycVerification → KycVerification
  with_zentto given s entity =
      let name = name_of given (text_or_empty s.full_name) in
      let status = zentto_status s.verdict (is_sanctioned env name) in
      record entity {
        status = status;
        provider = Provider.zentto_kyc;
        provider_ref = some s.session_id;
        full_name = or_else (nonempty name) entity.full_name;
        document_type = or_else s.document_type entity.document_type;
        document_number = or_else s.document_number entity.document_number;
        nationality = or_else s.nationality entity.nationality;
        birth_date = or_else s.birth_date entity.birth_date;
        mrz_valid = value_or entity.mrz_valid s.mrz_valid;
        aml_match = is_sanctioned env name;
        liveness_passed = liveness_of status;
        decision_reason = reason_of status;
      }

  abbrev pub zentto_row : Option Text → Result ZenttoSession → KycVerification → KycVerification
  zentto_row given (err e) entity = failed_check Provider.zentto_kyc e entity
  zentto_row given (ok s) entity = with_zentto given s entity

  unfoldable pub verify_with_zentto_kyc :
      Option Text → Result ZenttoSession → ℕ → Action KycVerification
  verify_with_zentto_kyc given session user_id = do
    entity ← open_verification user_id
    modify (save_verification (zentto_row given session entity))
    pure (zentto_row given session entity)

  abbrev pub is_zentto : Provider → Bool
  is_zentto Provider.zentto_kyc = true
  is_zentto _ = false

  unfoldable pub verify_with_documents :
      Files → Option Text → DiditAnswers → Result ZenttoSession → ℕ → Action KycVerification
  verify_with_documents files given a session user_id =
      if not files.front
      then throw front_image_missing
      else if is_zentto env.provider && env.zentto_enabled
      then verify_with_zentto_kyc given session user_id
      else if not env.didit_enabled
      then throw not_configured
      else verify_with_didit files given a user_id

  abbrev pub handoff_user : Option HandoffPayload → Option ℕ
  handoff_user none = none
  handoff_user (some p) = if p.is_handoff then p.sub else none

  unfoldable pub verify_handoff :
      ℕ → Files → Option Text → DiditAnswers → Result ZenttoSession → Action KycVerification
  verify_handoff token files given a session = do
    user_id ← or_throw (handoff_user (env.verify_handoff_token token)) bad_handoff
    verify_with_documents files given a session user_id
