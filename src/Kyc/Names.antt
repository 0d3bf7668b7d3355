-- ===== src/Kyc/Names.antt =====
-- kyc/kyc.service.ts: the names that the calls screen are those that they store.
use zentto_web.Prelude.{
  ◌≡◌, refl, sym, ◌∙◌, Bool, true, false, Option, some, [], ◌∷◌, arith, Bool-cases, inl, inr,
}
use zentto_web.Money.{Text}
use zentto_web.Errors.{Result, ok, err}
use zentto_web.Database.Identity.{KycVerification}
use zentto_web.Kyc.Screening.{has_chars}
use zentto_web.Kyc.Service.{
  KycEnvironment, ProviderSession, InitialStatus, KycSubmitDto, status_of, is_approved, or_else,
  nonempty, is_sanctioned, submitted,
}
use zentto_web.Kyc.Documents.{
  id_name, text_or_empty, DiditAnswers, IdCheck, Biometrics, ZenttoSession, Verdict,
  declined_verdict, approved_verdict, other_verdict, didit_row, didit_status, with_didit, name_of,
  zentto_row, with_zentto, zentto_status, biometrics,
}
use zentto_web.Kyc.Calls.{Call, starts, submits, uploads, hands_off, Fills}
use zentto_web.Kyc.Cleared.{IsCleared, screened-IsClean}

-- The name that an upload comes with, its own or the one that the provider reads, is not blank.
abbrev pub IsNamedUpload : Option Text → DiditAnswers → Result ZenttoSession → Type 0
IsNamedUpload given a session =
    ((id : IdCheck) → a.id ≡ ok id → has_chars (name_of given (id_name id)) ≡ true)
    × ((s : ZenttoSession)
        → session ≡ ok s
        → has_chars (name_of given (text_or_empty s.full_name)) ≡ true)

abbrev pub IsNamed : Call → Type 0
IsNamed (starts session id name) = Unit
IsNamed (submits session id dto) = Unit
IsNamed (uploads files given a session id) = IsNamedUpload given a session
IsNamed (hands_off token files given a session) = IsNamedUpload given a session

stored_name :
    (name : Text) (old : Option Text)
    → has_chars name ≡ true
    → or_else (nonempty name) old ≡ some name
stored_name [] old h = cc
stored_name (c ∷ name) old h = refl

initial_open : (s : InitialStatus) → is_approved (status_of s) ≡ false
initial_open InitialStatus.pending = refl
initial_open InitialStatus.in_review = refl

module _ (env : KycEnvironment) where
  submitted-IsCleared :
      (session : ProviderSession) (dto : KycSubmitDto) (e : KycVerification)
      → IsCleared env (submitted env session dto e)
  unfolding submitted
  submitted-IsCleared session dto e = elim (Bool-cases (is_sanctioned env dto.full_name)) [
    | inl hit ↦ rw hit (λ k. cc)
    | inr clean ↦
        rw clean (λ k. inl (dto.full_name, refl, screened-IsClean env dto.full_name clean))
  ]

  didit-IsCleared :
      (selfie : Bool) (given : Option Text) (id : Result IdCheck) (b : Result Biometrics)
      (e : KycVerification)
      → ((x : IdCheck) → id ≡ ok x → has_chars (name_of given (id_name x)) ≡ true)
      → IsCleared env (didit_row env selfie given id b e)
  unfolding with_didit
  didit-IsCleared selfie given (err x) b e named = λ k. cc
  didit-IsCleared selfie given (ok id) (err x) e named = λ k. cc
  didit-IsCleared selfie given (ok id) (ok b) e named = λ k.
      let name = name_of given (id_name id) in
      inl (
        name,
        stored_name name e.full_name (named id refl),
        screened-IsClean env name (clean (is_sanctioned env name) k),
      )
    where
      clean : (s : Bool) → is_approved (didit_status env id b s) ≡ true → s ≡ false
      clean s k = ground arith

  zentto-IsCleared :
      (given : Option Text) (s : Result ZenttoSession) (e : KycVerification)
      → ((x : ZenttoSession)
          → s ≡ ok x
          → has_chars (name_of given (text_or_empty x.full_name)) ≡ true)
      → IsCleared env (zentto_row env given s e)
  unfolding with_zentto
  zentto-IsCleared given (err x) e named = λ k. cc
  zentto-IsCleared given (ok s) e named = λ k.
      let name = name_of given (text_or_empty s.full_name) in
      inl (
        name,
        stored_name name e.full_name (named s refl),
        screened-IsClean env name (clean s.verdict (is_sanctioned env name) k),
      )
    where
      clean : (t : Verdict) (h : Bool) → is_approved (zentto_status env t h) ≡ true → h ≡ false
      clean declined_verdict h k = cc
      clean approved_verdict h k = ground arith
      clean other_verdict h k = cc

  pub Fills-IsCleared : (c : Call) → IsNamed c → Fills env (IsCleared env) c
  Fills-IsCleared (starts session id name) named =
      λ e k. absurd (clash (sym (initial_open session.initial_status) ∙ k))
    where
      clash : false ≡ true → ⊥
      clash h = cc
  Fills-IsCleared (submits session id dto) named = submitted-IsCleared session dto
  Fills-IsCleared (uploads files given a session id) named = (
    λ e. didit-IsCleared files.selfie given a.id (biometrics files.selfie a) e named.0,
    λ e. zentto-IsCleared given session e named.1,
  )
  Fills-IsCleared (hands_off token files given a session) named = (
    λ e. didit-IsCleared files.selfie given a.id (biometrics files.selfie a) e named.0,
    λ e. zentto-IsCleared given session e named.1,
  )
