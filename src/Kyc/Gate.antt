-- ===== src/Kyc/Gate.antt =====
-- Who is approved, and what takes an approval back.
use zentto_web.Prelude.{
  ℕ, ◌<◌, ◌≡◌, refl, sym, ap, ◌∙◌, Bool, true, false, Option, some, is_some, List, [], ◌∷◌, ◌==◌,
  find, arith, Bool-cases, Option-cases, inl, inr, All, ==_iff, ne→==, ◌≢◌,
}
use zentto_web.Database.{Database}
use zentto_web.Database.Identity.{KycVerification}
use zentto_web.Action.{after}
use zentto_web.Auth.Sessions.{All-find}
use zentto_web.Kyc.Service.{KycEnvironment, is_approved, replace_row, save_row}
use zentto_web.Kyc.Webhooks.{decided, decide}
use zentto_web.Kyc.Calls.{
  RowStep, no_change, refilled, filled, Call, starts, submits, uploads, hands_off, apply, Fills,
  apply-Effect,
}
use zentto_web.Kyc.Cleared.{IsCleared}
use zentto_web.Kyc.Names.{IsNamed, Fills-IsCleared}

All-replace_row :
    (P : KycVerification → Type 0) (v : KycVerification) (rows : List KycVerification)
    → P v
    → All P rows
    → All P (replace_row v rows)
All-replace_row P v [] p h = tt
All-replace_row P v (r ∷ rows) p h = elim (Bool-cases (r.id == v.id)) [
  | inl same ↦ rw same (p, All-replace_row P v rows p h.1)
  | inr other ↦ rw other (h.0, All-replace_row P v rows p h.1)
]

All-save_row :
    (P : KycVerification → Type 0) (v : KycVerification) (rows : List KycVerification)
    → P v
    → All P rows
    → All P (save_row v rows)
All-save_row P v rows p h =
    elim (Bool-cases (is_some (find (λ (r : KycVerification). r.id == v.id) rows))) [
      | inl there ↦ rw there (All-replace_row P v rows p h)
      | inr new ↦ rw new (p, h)
    ]

-- The row of another id is found as it was.
find-replace_row :
    (id : ℕ) (v : KycVerification) (rows : List KycVerification)
    → (v.id == id) ≡ false
    → find (λ (r : KycVerification). r.id == id) (replace_row v rows)
      ≡ find (λ (r : KycVerification). r.id == id) rows
find-replace_row id v [] other = refl
find-replace_row id v (r ∷ rows) other = elim (Bool-cases (r.id == v.id)) [
  | inl same ↦
      let e : (r.id == id) ≡ false = rw ((==_iff r.id v.id).0 same) other in
      rw (same, other, e) (find-replace_row id v rows other)
  | inr kept ↦ elim (Bool-cases (r.id == id)) [
    | inl hit ↦ rw (kept, hit) refl
    | inr miss ↦ rw (kept, miss) (find-replace_row id v rows other)
  ]
]

find-save_row :
    (id : ℕ) (v : KycVerification) (rows : List KycVerification)
    → (v.id == id) ≡ false
    → find (λ (r : KycVerification). r.id == id) (save_row v rows)
      ≡ find (λ (r : KycVerification). r.id == id) rows
find-save_row id v rows other =
    elim (Bool-cases (is_some (find (λ (r : KycVerification). r.id == v.id) rows))) [
      | inl there ↦ rw there (find-replace_row id v rows other)
      | inr new ↦ rw (new, other) refl
    ]

-- The row with this id is `v`, and no other row has its id.
pub record IsOnly (v : KycVerification) (rows : List KycVerification) : Type 0 where
  pub found : find (λ (r : KycVerification). r.id == v.id) rows ≡ some v
  pub only : All (λ (r : KycVerification). r.id ≡ v.id → r ≡ v) rows

-- A call of a user, or the decision of a reviewer on a verification.
pub data Event : Type 0 where
  called : Call → Event
  reviewed : ℕ → Bool → ℕ → Option ℕ → Event

abbrev pub IsNamedEvent : Event → Type 0
IsNamedEvent (called c) = IsNamed c
IsNamedEvent (reviewed id approve reviewer reason) = Unit

module _ (env : KycEnvironment) where
  -- The database after calls of users, from the first on.
  abbrev pub run : List Call → Database → Database
  run [] db = db
  run (c ∷ cs) db = run cs (apply env c db)

  abbrev pub run_events : List Event → Database → Database
  run_events [] db = db
  run_events (called c ∷ es) db = run_events es (apply env c db)
  run_events (reviewed id approve reviewer reason ∷ es) db =
      run_events es (after (decide env id approve reviewer reason db))

  step-All :
      (P : KycVerification → Type 0) {id : ℕ} {rows rows' : List KycVerification}
      → RowStep P id rows rows'
      → All P rows
      → All P rows'
  step-All P no_change h = h
  step-All P {rows = rows} (refilled test e v there open_still same good) h =
      All-save_row P v rows good h
  step-All P {rows = rows} (filled v new good) h = All-save_row P v rows good h

  decided-IsCleared :
      (id : ℕ) (approve : Bool) (reviewer : ℕ) (reason : Option ℕ) (db : Database)
      → All (IsCleared env) db.kyc_verifications
      → All (IsCleared env) (after (decide env id approve reviewer reason db)).kyc_verifications
  unfolding decide
  decided-IsCleared id approve reviewer reason db h =
      elim (Option-cases (find (λ (r : KycVerification). r.id == id) db.kyc_verifications)) [
        | inl gone ↦ rw gone h
        | inr (v, there) ↦ rw there (
            All-save_row (IsCleared env) (decided env approve reviewer reason v)
              db.kyc_verifications (λ k. inr refl) h)
      ]

  -- After any sequence of submissions, sessions, uploads, handoffs and decisions of reviewers, where no upload
  -- or handoff comes with a blank name, every approved verification was decided by a reviewer or is stored
  -- with a name that is on no list of sanctions, if that held before: the name has neither the words of an
  -- entry nor two words or more that are all among an entry's. Webhooks are not among these calls.
  pub run_events-IsCleared :
      (es : List Event) (db : Database)
      → All IsNamedEvent es
      → All (IsCleared env) db.kyc_verifications
      → All (IsCleared env) (run_events es db).kyc_verifications
  run_events-IsCleared [] db named h = h
  run_events-IsCleared (called c ∷ es) db named h =
      run_events-IsCleared es (apply env c db) named.1 (
        step-All (IsCleared env)
          (apply-Effect env (IsCleared env) c db (Fills-IsCleared env c named.0)).rows h)
  run_events-IsCleared (reviewed id approve reviewer reason ∷ es) db named h =
      run_events-IsCleared es (after (decide env id approve reviewer reason db)) named.1
        (decided-IsCleared id approve reviewer reason db h)

  step-IsOnly :
      {id : ℕ} {rows rows' : List KycVerification} (v : KycVerification)
      → RowStep (λ _. Unit) id rows rows'
      → is_approved v.status ≡ true
      → v.id < id
      → IsOnly v rows
      → IsOnly v rows'
  step-IsOnly v no_change done old h = h
  step-IsOnly {rows} v (refilled test e w there open_still same good) done old h =
      let other : w.id ≢ v.id = λ k. clash (
        sym (
          ap (λ (r : KycVerification). is_approved r.status)
            (All-find (λ (r : KycVerification). r.id ≡ v.id → r ≡ v) test rows e h.only there
              (sym same ∙ k))
          ∙ done)
        ∙ open_still) in
      record {
        found = find-save_row v.id w rows (ne→== w.id v.id other) ∙ h.found;
        only =
            All-save_row (λ (r : KycVerification). r.id ≡ v.id → r ≡ v) w rows
              (λ k. absurd (other k)) h.only;
      }
    where
      clash : true ≡ false → ⊥
      clash k = cc
  step-IsOnly {rows} v (filled w new good) done old h =
      let other : w.id ≢ v.id = λ k. omega (arith, k, new, old) in
      record {
        found = find-save_row v.id w rows (ne→== w.id v.id other) ∙ h.found;
        only =
            All-save_row (λ (r : KycVerification). r.id ≡ v.id → r ≡ v) w rows
              (λ k. absurd (other k)) h.only;
      }

  nothing_asked : (c : Call) → Fills env (λ _. Unit) c
  nothing_asked (starts session id name) = λ e. tt
  nothing_asked (submits session id dto) = λ e. tt
  nothing_asked (uploads files given a session id) = (λ e. tt, λ e. tt)
  nothing_asked (hands_off token files given a session) = (λ e. tt, λ e. tt)

  run-IsOnly :
      (cs : List Call) (v : KycVerification) (db : Database)
      → is_approved v.status ≡ true
      → v.id < db.next_id
      → IsOnly v db.kyc_verifications
      → IsOnly v (run cs db).kyc_verifications
  run-IsOnly [] v db done old h = h
  run-IsOnly (c ∷ cs) v db done old h =
      let effect = apply-Effect env (λ _. Unit) c db (nothing_asked c) in
      run-IsOnly cs v (apply env c db) done (omega (arith, old, effect.ids))
        (step-IsOnly v effect.rows done old h)

  -- An approved verification, whose id no other row has, is found unchanged after any sequence of
  -- submissions, sessions, uploads and handoffs, by any users: none of them takes the approval back or
  -- rewrites what was approved.
  pub approved_stays :
      (cs : List Call) (v : KycVerification) (db : Database)
      → is_approved v.status ≡ true
      → v.id < db.next_id
      → IsOnly v db.kyc_verifications
      → find (λ (r : KycVerification). r.id == v.id) (run cs db).kyc_verifications ≡ some v
  approved_stays cs v db done old h = (run-IsOnly cs v db done old h).found
