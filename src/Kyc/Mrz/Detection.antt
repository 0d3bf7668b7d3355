-- ===== src/Kyc/Mrz/Detection.antt =====
-- What the check digits of a passport find.
use zentto_web.Prelude.{
  ℕ, zero, suc, ◌+◌, ◌*◌, ◌%◌, ◌≡◌, ◌≢◌, refl, sym, ap, ◌∙◌, true, false, Option, none, some, List,
  [], ◌∷◌, ◌++◌, arith, Bool-cases, Option-cases, inl, inr, some_inj, drop, length, ◌==◌, ==_iff,
}
use zentto_web.Money.{Text}
use zentto_web.Kyc.Mrz.{
  char_value, weight, next_place, weighted, check_digit, slice, number, same_digit, expect,
  is_empty, line_errors, parse_line, parse_td3, cleaned, MrzError, bad_document_digit,
  bad_birth_digit, bad_expiry_digit,
}

place_after : ℕ → Text → ℕ
place_after place [] = place
place_after place (c ∷ s) = place_after (next_place place) s

-- Two sums that differ in one character differ by the difference of its values, times the weight.
weighted_apart :
    (place : ℕ) (pre post : Text) (c c' v v' n n' : ℕ)
    → char_value c ≡ some v
    → char_value c' ≡ some v'
    → weighted place (pre ++ c ∷ post) ≡ some n
    → weighted place (pre ++ c' ∷ post) ≡ some n'
    → n + v' * weight (place_after place pre) ≡ n' + v * weight (place_after place pre)
unfolding weighted place_after
weighted_apart place [] post c c' v v' n n' hc hc' h h' =
    elim (Option-cases (weighted (next_place place) post)) [
      | inl bad ↦ let e : none ≡ some n = rw (hc, bad) at h in cc
      | inr (m, sum) ↦
          let e = some_inj (rw (hc, sum) at h) in
          let e' = some_inj (rw (hc', sum) at h') in omega (arith, e, e')
    ]
weighted_apart place (d ∷ pre) post c c' v v' n n' hc hc' h h' =
    elim (Option-cases (char_value d)) [
      | inl bad ↦ let e : none ≡ some n = rw bad at h in cc
      | inr (x, good) ↦ elim (Option-cases (weighted (next_place place) (pre ++ c ∷ post))) [
        | inl bad ↦ let e : none ≡ some n = rw (good, bad) at h in cc
        | inr (m, sum) ↦ elim (Option-cases (weighted (next_place place) (pre ++ c' ∷ post))) [
          | inl bad ↦ let e : none ≡ some n' = rw (good, bad) at h' in cc
          | inr (m', sum') ↦
              let e = some_inj (rw (good, sum) at h) in
              let e' = some_inj (rw (good, sum') at h') in
              let rest =
                weighted_apart (next_place place) pre post c c' v v' m m' hc hc' sum sum' in
              omega (arith, e, e', rest)
        ]
      ]
    ]

-- The weights are units modulo 10.
weight_cancel :
    (place n n' v v' : ℕ)
    → n + v' * weight place ≡ n' + v * weight place
    → n % 10 ≡ n' % 10
    → v % 10 ≡ v' % 10
weight_cancel zero n n' v v' h same = omega (arith, h, same)
weight_cancel (suc zero) n n' v v' h same = omega (arith, h, same)
weight_cancel (suc (suc i)) n n' v v' h same = omega (arith, h, same)

-- The check digit of a text changes with any one of its characters, unless the values of the two
-- characters are equal modulo 10.
pub check_digit_detects :
    (pre post : Text) (c c' v v' digit : ℕ)
    → char_value c ≡ some v
    → char_value c' ≡ some v'
    → v % 10 ≢ v' % 10
    → check_digit (pre ++ c ∷ post) ≡ some digit
    → check_digit (pre ++ c' ∷ post) ≢ some digit
unfolding check_digit
check_digit_detects pre post c c' v v' digit hc hc' apart h h' =
    elim (Option-cases (weighted 0 (pre ++ c ∷ post))) [
      | inl bad ↦ let e : none ≡ some digit = rw bad at h in cc
      | inr (n, sum) ↦ elim (Option-cases (weighted 0 (pre ++ c' ∷ post))) [
        | inl bad ↦ let e : none ≡ some digit = rw bad at h' in cc
        | inr (n', sum') ↦
            let e = some_inj (rw sum at h) in
            let e' = some_inj (rw sum' at h') in
            apart (
              weight_cancel (place_after 0 pre) n n' v v'
                (weighted_apart 0 pre post c c' v v' n n' hc hc' sum sum') (e ∙ sym e'))
      ]
    ]

-- A field of the second line that has a check digit of its own.
pub data Field : Type 0 where
  document birth expiry : Field

abbrev pub field_text : Field → Text → Text
field_text document l2 = slice 0 9 l2
field_text birth l2 = slice 13 19 l2
field_text expiry l2 = slice 21 27 l2

abbrev pub field_digit : Field → Text → Text
field_digit document l2 = slice 9 10 l2
field_digit birth l2 = slice 19 20 l2
field_digit expiry l2 = slice 27 28 l2

abbrev pub second_line : Text → Text
second_line raw = drop 44 (cleaned raw)

empty_append :
    {A : Type 0} (xs ys : List A)
    → is_empty (xs ++ ys) ≡ true
    → (is_empty xs ≡ true) × (is_empty ys ≡ true)
empty_append [] ys h = (refl, h)
empty_append (x ∷ xs) ys h = cc

expected :
    (label : MrzError) (field cd : Text)
    → is_empty (expect label field cd) ≡ true
    → same_digit (check_digit field) (number cd) ≡ true
unfolding expect
expected label field cd h = elim (Bool-cases (same_digit (check_digit field) (number cd))) [
  | inl same ↦ same
  | inr other ↦ let e : false ≡ true = rw other at h in cc
]

line_digit :
    (f : Field) (l2 : Text)
    → is_empty (line_errors l2) ≡ true
    → same_digit (check_digit (field_text f l2)) (number (field_digit f l2)) ≡ true
unfolding line_errors
line_digit f l2 h =
    let (d, h1) = empty_append (expect bad_document_digit (slice 0 9 l2) (slice 9 10 l2)) _ h in
    let (b, h2) = empty_append (expect bad_birth_digit (slice 13 19 l2) (slice 19 20 l2)) _ h1 in
    let (x, h3) = empty_append (expect bad_expiry_digit (slice 21 27 l2) (slice 27 28 l2)) _ h2 in
    pick f (expected bad_document_digit (slice 0 9 l2) (slice 9 10 l2) d)
      (expected bad_birth_digit (slice 13 19 l2) (slice 19 20 l2) b)
      (expected bad_expiry_digit (slice 21 27 l2) (slice 27 28 l2) x)
  where
    pick :
        (g : Field)
        → same_digit (check_digit (slice 0 9 l2)) (number (slice 9 10 l2)) ≡ true
        → same_digit (check_digit (slice 13 19 l2)) (number (slice 19 20 l2)) ≡ true
        → same_digit (check_digit (slice 21 27 l2)) (number (slice 27 28 l2)) ≡ true
        → same_digit (check_digit (field_text g l2)) (number (field_digit g l2)) ≡ true
    pick document d b x = d
    pick birth d b x = b
    pick expiry d b x = x

valid_digit :
    (f : Field) (raw : Text)
    → (parse_td3 raw).valid ≡ true
    → (digit : ℕ) × (check_digit (field_text f (second_line raw)) ≡ some digit)
      × (number (field_digit f (second_line raw)) ≡ some digit)
unfolding parse_td3 parse_line
valid_digit f raw h = elim (Bool-cases (length (cleaned raw) == 88)) [
  | inr short ↦ let e : false ≡ true = rw short at h in cc
  | inl long ↦
      let e : is_empty (line_errors (second_line raw)) ≡ true = rw long at h in
      both (check_digit (field_text f (second_line raw))) (number (field_digit f (second_line raw)))
        (line_digit f (second_line raw) e)
]
  where
    both :
        (a b : Option ℕ) → same_digit a b ≡ true → (digit : ℕ) × (a ≡ some digit) × (b ≡ some digit)
    both none b h = cc
    both (some x) none h = cc
    both (some x) (some y) h = (x, refl, ap some (sym ((==_iff x y).0 h)))

-- Of two machine readable zones with the same check digit for the number of the document, or for one of the
-- two dates, in which that field differs in just one character, whose values differ modulo 10, at most
-- one is valid.
pub parse_td3_detects :
    (f : Field) (raw raw' pre post : Text) (c c' v v' : ℕ)
    → field_text f (second_line raw) ≡ pre ++ c ∷ post
    → field_text f (second_line raw') ≡ pre ++ c' ∷ post
    → field_digit f (second_line raw) ≡ field_digit f (second_line raw')
    → char_value c ≡ some v
    → char_value c' ≡ some v'
    → v % 10 ≢ v' % 10
    → (parse_td3 raw).valid ≡ true
    → (parse_td3 raw').valid ≡ false
parse_td3_detects f raw raw' pre post c c' v v' text text' same hc hc' apart good =
    elim (Bool-cases (parse_td3 raw').valid) [
      | inr bad ↦ bad
      | inl good' ↦
          let (d, calc, given) = valid_digit f raw good in
          let (d', calc', given') = valid_digit f raw' good' in
          let e : d ≡ d' = some_inj (sym given ∙ ap number same ∙ given') in
          absurd (
            check_digit_detects pre post c c' v v' d hc hc' apart (ap check_digit (sym text) ∙ calc)
              (ap check_digit (sym text') ∙ calc' ∙ ap some (sym e)))
    ]
