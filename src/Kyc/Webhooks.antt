-- ===== src/Kyc/Webhooks.antt =====
-- kyc/kyc.service.ts: handleDiditWebhook, handleZenttoWebhook and decide, and
-- kyc/providers/didit-webhook.util.ts: the signature of a webhook.
use zentto_web.Prelude.{
  ℕ, ◌-◌, Bool, true, false, not, ◌&&◌, ◌||◌, Option, none, some, [], ◌∷◌, ◌++◌, if◌then◌else◌,
  ◌==◌, ltb, find,
}
use zentto_web.Prelude.Texts.{text_eq}
use zentto_web.Money.{Text, digits}
use zentto_web.Errors.{bad_signature, not_found}
use zentto_web.Database.{Database}
use zentto_web.Database.Identity.{KycStatus, KycVerification, Reason, given_reason}
use zentto_web.Action.{Action, ◌>>=◌, ◌>>◌, modify, gets, throw_if, or_throw}
use zentto_web.Kyc.Service.{KycEnvironment, find_verification, save_verification}

pub data DiditNews : Type 0 where
  approved declined in_review not_started in_progress other : DiditNews

-- The fields that are read of the JSON body; `created_at` is none where it is no finite number.
-- `status_text` is the text of `status`, `encoded` the whole body as stableStringify prints it.
pub record DiditBody : Type 0 where
  pub created_at : Option ℕ
  pub session_id : Option ℕ
  pub session_text : Text
  pub status : DiditNews
  pub status_text : Text
  pub webhook_type : Text
  pub vendor_data : ℕ
  pub encoded : Text

pub record DiditHeaders : Type 0 where
  pub simple : Option Text
  pub v2 : Option Text

-- [created_at, session_id, status, webhook_type].join(':')
abbrev pub canonical : ℕ → DiditBody → Text
canonical t b =
    digits t ++ (b':' ∷ (b.session_text ++ (b':' ∷ (b.status_text ++ (b':' ∷ b.webhook_type)))))

abbrev pub is_signed : (Text → Text) → Option Text → Text → Bool
is_signed sign none payload = false
is_signed sign (some signature) payload = text_eq (sign payload) signature

abbrev pub has_secret : Text → Bool
has_secret [] = false
has_secret (c ∷ s) = true

-- Math.abs(now - ts) > 300
abbrev pub is_far : ℕ → ℕ → Bool
is_far now t = ltb 300 (now - t) || ltb 300 (t - now)

unfoldable pub signed_at : (Text → Text) → DiditBody → DiditHeaders → ℕ → Option ℕ → Bool
signed_at sign b h now none = false
signed_at sign b h now (some t) =
    if is_far now t
    then false
    else is_signed sign h.simple (canonical t b) || is_signed sign h.v2 b.encoded

pub data Decision : Type 0 where
  approved declined in_review other : Decision

-- The raw body as text, and what JSON.parse reads of it.
pub record ZenttoWebhook : Type 0 where
  pub raw_body : Text
  pub created_at : Text
  pub signature : Text
  pub session_id : ℕ
  pub decision : Decision
  pub reason : Option ℕ

module _ (env : KycEnvironment) where
  unfoldable pub verify_didit_signature : ℕ → DiditBody → DiditHeaders → Bool
  unfolding signed_at
  verify_didit_signature now b h =
      has_secret env.didit_secret && signed_at (env.hmac env.didit_secret) b h now b.created_at

  abbrev pub didit_next : DiditNews → Option KycStatus
  didit_next approved = some KycStatus.approved
  didit_next declined = some KycStatus.rejected
  didit_next in_review = some KycStatus.in_review
  didit_next not_started = some KycStatus.pending
  didit_next in_progress = some KycStatus.pending
  didit_next other = none

  abbrev pub liveness_after : KycStatus → Option Bool → Option Bool
  liveness_after KycStatus.approved before = some true
  liveness_after KycStatus.rejected before = some false
  liveness_after _ before = before

  -- String(session_id ?? providerRef ?? ''), where 0 is the empty text
  abbrev pub ref_after : Option ℕ → Option ℕ → Option ℕ
  ref_after none none = some 0
  ref_after none (some before) = some before
  ref_after (some r) before = some r

  abbrev pub didit_news : DiditBody → KycStatus → KycVerification → KycVerification
  didit_news b next v = record v {
    status = next;
    liveness_passed = liveness_after next v.liveness_passed;
    provider_ref = ref_after b.session_id v.provider_ref;
  }

  abbrev pub apply_didit :
      DiditBody → Option KycVerification → Option KycStatus → Database → Database
  apply_didit b none next db = db
  apply_didit b (some v) none db = db
  apply_didit b (some v) (some next) db = save_verification (didit_news b next v) db

  unfoldable pub handle_didit_webhook : ℕ → DiditBody → DiditHeaders → Action (Unit {0})
  handle_didit_webhook now b h = do
    throw_if (not (verify_didit_signature now b h)) bad_signature
    v ← gets (find_verification b.vendor_data)
    modify (apply_didit b v (didit_next b.status))

  abbrev pub zentto_next : Decision → Option KycStatus
  zentto_next Decision.approved = some KycStatus.approved
  zentto_next Decision.declined = some KycStatus.rejected
  zentto_next Decision.in_review = some KycStatus.in_review
  zentto_next Decision.other = none

  abbrev pub reason_after : Option ℕ → Option Reason → Option Reason
  reason_after none before = before
  reason_after (some r) before = some (given_reason r)

  abbrev pub zentto_news : ZenttoWebhook → KycStatus → KycVerification → KycVerification
  zentto_news w next v = record v {
    status = next;
    liveness_passed = liveness_after next v.liveness_passed;
    decision_reason = reason_after w.reason v.decision_reason;
  }

  abbrev pub apply_zentto :
      ZenttoWebhook → Option KycVerification → Option KycStatus → Database → Database
  apply_zentto w none next db = db
  apply_zentto w (some v) none db = db
  apply_zentto w (some v) (some next) db = save_verification (zentto_news w next v) db

  abbrev pub has_ref : ℕ → KycVerification → Bool
  has_ref session_id v = elim v.provider_ref [ none ↦ false | some r ↦ r == session_id ]

  unfoldable pub is_authentic : ZenttoWebhook → Bool
  is_authentic w =
      has_secret env.zentto_secret
      && text_eq (env.hmac env.zentto_secret (w.created_at ++ (b'.' ∷ w.raw_body))) w.signature

  unfoldable pub handle_zentto_webhook : ZenttoWebhook → Action (Unit {0})
  handle_zentto_webhook w = do
    throw_if (not (is_authentic w)) bad_signature
    v ← gets (λ db. find (has_ref w.session_id) db.kyc_verifications)
    modify (apply_zentto w v (zentto_next w.decision))

  abbrev pub decided : Bool → ℕ → Option ℕ → KycVerification → KycVerification
  decided approve reviewer_id reason v = record v {
    status = if approve then KycStatus.approved else KycStatus.rejected;
    decision_reason = reason_after reason none;
    reviewed_by = some reviewer_id;
    liveness_passed = if approve then some true else v.liveness_passed;
  }

  unfoldable pub decide : ℕ → Bool → ℕ → Option ℕ → Action (Unit {0})
  decide verification_id approve reviewer_id reason = do
    found ←
        gets (λ db. find (λ (r : KycVerification). r.id == verification_id) db.kyc_verifications)
    v ← or_throw found not_found
    modify (save_verification (decided approve reviewer_id reason v))
