-- ===== src/Database/Identity.antt =====
-- database/entities/kyc-verification.entity.ts: the verification of a user's identity.
use zentto_web.Prelude.{Bool, ℕ, Option}
use zentto_web.Money.{Text}
use zentto_web.Errors.{Error}

pub data KycStatus : Type 0 where
  not_started pending in_review approved rejected needs_more_info : KycStatus

pub data Provider : Type 0 where
  manual didit zentto_kyc : Provider

-- The texts of `decisionReason`: the service's own, or one that is given.
pub data Reason : Type 0 where
  documents_rejected : Reason
  provider_error : Error → Reason
  given_reason : ℕ → Reason

-- Unique by the user.
pub record KycVerification : Type 0 where
  pub id : ℕ
  pub user_id : ℕ
  pub status : KycStatus
  pub full_name : Option Text
  pub birth_date : Option Text
  pub nationality : Option Text
  pub document_type : Option ℕ
  pub document_number : Option Text
  pub mrz_valid : Bool
  pub aml_match : Bool
  pub provider : Provider
  pub provider_ref : Option ℕ
  pub liveness_passed : Option Bool
  pub decision_reason : Option Reason
  pub reviewed_by : Option ℕ
