-- ===== src/Kyc/Cleared.antt =====
-- kyc/aml-screening.service.ts: what a hit on a list of sanctions is, told apart from the code of `screen`.
use mathlib.Core.List.{Memᴰ}
use zentto_web.Prelude.{
  ◌≤◌, ◌≡◌, ◌⊎◌, inl, inr, refl, sym, ◌∙◌, Bool, true, false, some, is_some, List, [], ◌∷◌, map,
  filter, all, leb, length, arith, All, Bool-cases,
}
use zentto_web.Prelude.Texts.{text_eq, text_eq_refl}
use zentto_web.Money.{Text}
use zentto_web.Database.Identity.{KycVerification}
use zentto_web.Kyc.Screening.{
  Unicode, tokens, ListEntry, same_words, includes, is_hit, screen, is_match,
}
use zentto_web.Kyc.Service.{KycEnvironment, is_approved, is_sanctioned}

-- A name of at least one word is a hit on an entry if it has the entry's words, in order, or if it has two
-- words or more that are all among the entry's.
abbrev pub IsHit : Unicode → Text → ListEntry → Type 0
IsHit u name e =
    (1 ≤ length (tokens u name))
    × ((e.tokens ≡ tokens u name)
        ⊎ ((2 ≤ length (tokens u name)) × All (λ (t : Text). Memᴰ t e.tokens) (tokens u name)))

-- The name is no hit on any entry of the list.
abbrev pub IsClean : KycEnvironment → Text → Type 0
IsClean env name = All (λ (e : ListEntry). ¬ IsHit env.unicode name e) env.sanctions

-- An approved verification was decided by a reviewer, or it is stored with a name that is on no list.
abbrev pub IsCleared : KycEnvironment → KycVerification → Type 0
IsCleared env v =
    is_approved v.status ≡ true
    → ((name : Text) × (v.full_name ≡ some name) × IsClean env name)
      ⊎ (is_some v.reviewed_by ≡ true)

same_words_refl : (words : List Text) → same_words words words ≡ true
same_words_refl [] = refl
same_words_refl (w ∷ words) = rw (text_eq_refl w, same_words_refl words)

includes-Memᴰ : (t : Text) (words : List Text) → Memᴰ t words → includes words t ≡ true
includes-Memᴰ t [] m = elim m [ ]
includes-Memᴰ t (w ∷ words) (Memᴰ.head e) = rw (e, text_eq_refl w)
includes-Memᴰ t (w ∷ words) (Memᴰ.tail m) = elim (Bool-cases (text_eq w t)) [
  | inl same ↦ rw same
  | inr other ↦ rw other (includes-Memᴰ t words m)
]

all_included :
    (words query : List Text)
    → All (λ (t : Text). Memᴰ t words) query
    → all (λ (t : Text). includes words t) query ≡ true
all_included words [] h = refl
all_included words (t ∷ query) h = rw (includes-Memᴰ t words h.0, all_included words query h.1)

-- What the description calls a hit, the code finds.
hit_found :
    (u : Unicode) (name : Text) (e : ListEntry) → IsHit u name e → is_hit (tokens u name) e ≡ true
hit_found u name e (some_words, inl same) = rw (same, same_words_refl (tokens u name))
hit_found u name e (some_words, inr (two, inside)) =
    let included = all_included e.tokens (tokens u name) inside in ground (arith, two, included)

match_found :
    (test : ListEntry → Bool) (entries : List ListEntry)
    → is_match (map (λ (e : ListEntry). e.name) (filter test entries)) ≡ false
    → All (λ (e : ListEntry). test e ≡ false) entries
match_found test [] h = tt
match_found test (e ∷ entries) h = elim (Bool-cases (test e)) [
  | inl hit ↦ absurd (clash (rw hit at h))
  | inr miss ↦ (miss, match_found test entries (rw miss at h))
]
  where
    clash : true ≡ false → ⊥
    clash k = cc

-- A name that the screening passes is clean.
pub screened-IsClean :
    (env : KycEnvironment) (name : Text) → is_sanctioned env name ≡ false → IsClean env name
unfolding screen
screened-IsClean env name h = elim (Bool-cases (leb 1 (length (tokens env.unicode name)))) [
  | inl words ↦
      clean env.sanctions
        (match_found (is_hit (tokens env.unicode name)) env.sanctions (rw words at h))
  | inr empty ↦ wordless env.sanctions empty
]
  where
    clash : true ≡ false → ⊥
    clash k = cc

    clean :
        (entries : List ListEntry)
        → All (λ (e : ListEntry). is_hit (tokens env.unicode name) e ≡ false) entries
        → All (λ (e : ListEntry). ¬ IsHit env.unicode name e) entries
    clean [] h = tt
    clean (e ∷ entries) h =
        (λ k. clash (sym (hit_found env.unicode name e k) ∙ h.0), clean entries h.1)

    wordless :
        (entries : List ListEntry)
        → leb 1 (length (tokens env.unicode name)) ≡ false
        → All (λ (e : ListEntry). ¬ IsHit env.unicode name e) entries
    wordless [] h = tt
    wordless (e ∷ entries) h = (λ k. ground (arith, h, k.0), wordless entries h)
