-- ===== src/Examples/KycTests.antt =====
-- Identity: a passport, a list of sanctions, uploads and webhooks.
use zentto_web.Prelude.{
  ℕ, ◌≡◌, refl, true, false, none, some, List, [], ◌∷◌, ◌++◌, ◌==◌, find, arith, replicate, All,
}
use zentto_web.Prelude.Texts.{text_eq, text_eq_refl}
use zentto_web.Money.{is_space, trim, Text}
use zentto_web.Errors.{ok, err, not_found}
use zentto_web.Database.{Database, empty_database}
use zentto_web.Database.Identity.{KycStatus, KycVerification, Provider}
use zentto_web.Action.{returned}
use zentto_web.Kyc.Mrz.{char_value, check_digit, parse_td3, parse_line, cleaned, line_errors}
use zentto_web.Kyc.Mrz.Detection.{parse_td3_detects, document}
use zentto_web.Kyc.Screening.{Unicode, load_list, screen, tokens}
use zentto_web.Kyc.Service.{
  KycEnvironment, InitialStatus, new_verification, is_verified, find_verification,
  open_verification, is_sanctioned, start_session,
}
use zentto_web.Kyc.Documents.{
  DiditStatus, DiditAnswers, verify_with_documents, verify_with_didit, with_didit,
}
use zentto_web.Kyc.Webhooks.{DiditBody, DiditHeaders, DiditNews, canonical, handle_didit_webhook}
use zentto_web.Kyc.Calls.{Call, starts, uploads}
use zentto_web.Kyc.Cleared.{IsCleared}
use zentto_web.Kyc.Gate.{
  Event, called, reviewed, run, run_events, run_events-IsCleared, approved_stays,
}
use zentto_web.Kyc.Forgery.{webhook_approves_anyone}

-- The second line of the passport of ICAO 9303: L898902C3, born 740812, expires 120415.
abbrev number_part : Text
number_part = b'8' ∷ b'9' ∷ b'8' ∷ b'9' ∷ b'0' ∷ b'2' ∷ b'C' ∷ b'3' ∷ []

abbrev rest_of_line : Text
rest_of_line =
    b'6' ∷ b'U' ∷ b'T' ∷ b'O' ∷ b'7' ∷ b'4' ∷ b'0' ∷ b'8' ∷ b'1' ∷ b'2' ∷ b'2' ∷ b'F' ∷ b'1' ∷ b'2'
    ∷ b'0' ∷ b'4' ∷ b'1' ∷ b'5' ∷ b'9' ∷ b'Z' ∷ b'E' ∷ b'1' ∷ b'8' ∷ b'4' ∷ b'2' ∷ b'2' ∷ b'6'
    ∷ b'B' ∷ b'<' ∷ b'<' ∷ b'<' ∷ b'<' ∷ b'<' ∷ b'1' ∷ b'0' ∷ []

abbrev passport : ℕ → Text
passport first = replicate 44 b'<' ++ (first ∷ (number_part ++ rest_of_line))

passport_is_valid : (parse_td3 (passport b'l')).valid ≡ true
unfolding parse_td3 parse_line cleaned line_errors check_digit char_value is_space
passport_is_valid = refl

parse_td3_detects_example : (parse_td3 (passport b'M')).valid ≡ false
unfolding parse_td3 parse_line cleaned line_errors check_digit char_value is_space
parse_td3_detects_example =
    parse_td3_detects document (passport b'L') (passport b'M') [] number_part b'L' b'M' 21 22 refl
      refl refl refl refl (omega arith) refl

abbrev unicode : Unicode
unicode = record { nfd = λ t. t; to_upper = λ t. t }

abbrev listed : Text
listed = b'V' ∷ b'B' ∷ 32 ∷ b'T' ∷ b'A' ∷ []

abbrev kyc_env : KycEnvironment
kyc_env = record {
  unicode = unicode;
  sanctions = load_list unicode (listed ∷ []);
  provider = Provider.didit;
  zentto_enabled = false;
  didit_enabled = true;
  sign_handoff = λ id. id;
  verify_handoff_token = λ t. some (record { sub = some t; is_handoff = true });
  hmac = λ secret payload. payload;
  didit_secret = b's' ∷ [];
  zentto_secret = b's' ∷ [];
}

-- The words in another order are found; one of them alone is not.
reordered_is_found : is_sanctioned kyc_env (b'T' ∷ b'A' ∷ 32 ∷ b'V' ∷ b'B' ∷ []) ≡ true
unfolding screen tokens text_eq is_space
reordered_is_found = refl

one_word_is_not : is_sanctioned kyc_env (b'T' ∷ b'A' ∷ []) ≡ false
unfolding screen tokens text_eq is_space
one_word_is_not = refl

abbrev row : ℕ → ℕ → KycStatus → KycVerification
row id user_id status = record (new_verification id user_id) { status = status; aml_match = true }

abbrev approved_row : KycVerification
approved_row = record (new_verification 1 11) { status = KycStatus.approved }

abbrev rows : Database
rows = record empty_database {
  next_id = 5;
  kyc_verifications = row 2 12 KycStatus.in_review ∷ approved_row ∷ [];
}

abbrev answers : Text → DiditAnswers
answers name = record {
  id = ok (record {
    status = DiditStatus.approved;
    first_name = some name;
    last_name = none;
    document_type = none;
    document_number = none;
    nationality = none;
    birth_date = none;
  });
  liveness = ok DiditStatus.approved;
  face = ok DiditStatus.approved;
}

abbrev calls : List Call
calls =
    starts (record { ref = some 9; initial_status = InitialStatus.pending }) 11 none
    ∷ uploads (record { front = true; selfie = true }) none (answers listed) (err not_found) 12
    ∷ uploads (record { front = true; selfie = true }) none (answers (b'A' ∷ [])) (err not_found) 13
    ∷ []

-- An upload approves a name that is on no list, and sends a listed one to review.
uploads_decide :
    (is_verified 12 (run kyc_env calls rows) ≡ false)
    × (is_verified 13 (run kyc_env calls rows) ≡ true)
unfolding is_verified start_session open_verification verify_with_documents verify_with_didit
    with_didit screen tokens text_eq trim is_space
uploads_decide = (refl, refl)

approved_stays_example :
    find (λ (r : KycVerification). r.id == 1) (run kyc_env calls rows).kyc_verifications
    ≡ some approved_row
approved_stays_example =
    approved_stays kyc_env calls approved_row rows refl (omega arith)
      (record { found = refl; only = (λ e. absurd (omega (arith, e)), (λ _. refl, tt)) })

abbrev reviewing : Database
reviewing = record rows { kyc_verifications = row 2 12 KycStatus.in_review ∷ [] }

-- An upload of user 13 with the name A, and the approval of the row in review.
abbrev named_events : List Event
named_events =
    called (
      uploads (record { front = true; selfie = true }) (some (b'A' ∷ [])) (answers (b'A' ∷ []))
        (err not_found) 13)
    ∷ reviewed 2 true 77 none
    ∷ []

run_events-IsCleared_example :
    All (IsCleared kyc_env) (run_events kyc_env named_events reviewing).kyc_verifications
unfolding trim is_space
run_events-IsCleared_example =
    run_events-IsCleared kyc_env named_events reviewing (((λ id e. refl), (λ s e. refl)), (tt, tt))
      ((λ e. cc), tt)

abbrev body : DiditBody
body = record {
  created_at = some 1000;
  session_id = some 9;
  session_text = b'9' ∷ [];
  status = DiditNews.approved;
  status_text = b'A' ∷ [];
  webhook_type = b's' ∷ [];
  vendor_data = 11;
  encoded = [];
}

abbrev headers : DiditHeaders
headers = record { simple = some (canonical 1000 body); v2 = none }

webhook_approves_anyone_example :
    (db' : Database) × (handle_didit_webhook kyc_env 1100
        (record body { vendor_data = 12 })
        headers
        rows
      ≡ returned tt db')
    × (is_verified 12 db' ≡ true)
    × (v' : KycVerification) × (find_verification 12 db' ≡ some v')
    × (v'.aml_match ≡ true)
    × (v'.reviewed_by ≡ none)
webhook_approves_anyone_example =
    webhook_approves_anyone kyc_env 1100 1000 12 body headers (row 2 12 KycStatus.in_review) rows
      refl refl refl (text_eq_refl (canonical 1000 body)) refl refl
