-- ===== src/Kyc/Forgery.antt =====
-- What a webhook can do that the calls of users cannot.
use zentto_web.Prelude.{
  ℕ, ◌≡◌, refl, ap, Bool, true, false, some, is_some, List, [], ◌∷◌, ◌==◌, find, arith, Bool-cases,
  inl, inr, find-replace, some_inj,
}
use zentto_web.Database.{Database}
use zentto_web.Database.Identity.{KycStatus, KycVerification}
use zentto_web.Action.{returned}
use zentto_web.Auth.Sessions.{find_hit}
use zentto_web.Kyc.Service.{KycEnvironment, find_verification, save_verification, is_verified}
use zentto_web.Kyc.Webhooks.{
  DiditBody, DiditHeaders, DiditNews, canonical, is_signed, has_secret, is_far,
  verify_didit_signature, didit_news, handle_didit_webhook,
}

found_is_there :
    (v : KycVerification) (test : KycVerification → Bool) (rows : List KycVerification)
    → find test rows ≡ some v
    → is_some (find (λ (r : KycVerification). r.id == v.id) rows) ≡ true
found_is_there v test [] found = cc
found_is_there v test (r ∷ rows) found = elim (Bool-cases (r.id == v.id)) [
  | inl same ↦ rw same refl
  | inr other ↦ elim (Bool-cases (test r)) [
    | inl hit ↦ let e : some r ≡ some v = rw hit at found in absurd (clash r v e other)
    | inr miss ↦
        let rest : find test rows ≡ some v = rw miss at found in
        rw other (found_is_there v test rows rest)
  ]
]
  where
    differ : (n m : ℕ) → n ≡ m → (n == m) ≡ false → ⊥
    differ n m e h = ground arith

    clash : (a b : KycVerification) → some a ≡ some b → (a.id == b.id) ≡ false → ⊥
    clash a b e h = differ a.id b.id (ap (λ (r : KycVerification). r.id) (some_inj e)) h

module _ (env : KycEnvironment) where
  -- A body that the simple signature covers passes with any other user in `vendor_data`: where it says
  -- Approved, and within the time of the signature, the webhook with the other user makes that user's
  -- verification approved, also where the name is on a list of sanctions and no reviewer decided.
  pub webhook_approves_anyone :
      (now t other : ℕ) (b : DiditBody) (h : DiditHeaders) (v : KycVerification) (db : Database)
      → has_secret env.didit_secret ≡ true
      → b.created_at ≡ some t
      → is_far now t ≡ false
      → is_signed (env.hmac env.didit_secret) h.simple (canonical t b) ≡ true
      → b.status ≡ DiditNews.approved
      → find_verification other db ≡ some v
      → (db' : Database) × (handle_didit_webhook env now (record b { vendor_data = other }) h db
          ≡ returned tt db')
        × (is_verified other db' ≡ true)
        × (v' : KycVerification) × (find_verification other db' ≡ some v')
        × (v'.aml_match ≡ v.aml_match)
        × (v'.reviewed_by ≡ v.reviewed_by)
  unfolding handle_didit_webhook verify_didit_signature is_verified
  webhook_approves_anyone now t other b h v db secret stamped near signed news there =
      let b' = record b { vendor_data = other } in
      let v' = didit_news env b' KycStatus.approved v in
      let test = λ (r : KycVerification). r.user_id == other in
      let db' = save_verification v' db in
      let found : find_verification other db' ≡ some v' =
        rw (found_is_there v test db.kyc_verifications there) (
          find-replace (λ (r : KycVerification). r.id) test v v' db.kyc_verifications there refl
            (find_hit test db.kyc_verifications v there)) in
      (
        db',
        rw (secret, stamped, near, signed, there, news) refl,
        rw found refl,
        v',
        found,
        refl,
        refl,
      )
