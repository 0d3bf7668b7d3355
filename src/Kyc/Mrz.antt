-- ===== src/Kyc/Mrz.antt =====
-- kyc/mrz.service.ts: the machine readable zone of a passport. Upper case is that of the ASCII letters.
pub mod Detection
use zentto_web.Prelude.{
  ℕ, zero, suc, ◌+◌, ◌-◌, ◌*◌, ◌%◌, Bool, true, false, not, ◌&&◌, ◌||◌, Option, none, some, List,
  [], ◌∷◌, ◌++◌, map, if◌then◌else◌, ◌==◌, leb, length, take, drop, filter,
}
use zentto_web.Money.{Text, is_space}

-- The value of a character; none stands for -1.
unfoldable pub char_value : ℕ → Option ℕ
char_value c =
    if c == b'<'
    then some 0
    else if leb b'0' c && leb c b'9'
    then some (c - 48)
    else if leb b'A' c && leb c b'Z'
    then some (c - 55)
    else none

-- weights[i % 3]
abbrev pub weight : ℕ → ℕ
weight zero = 7
weight (suc zero) = 3
weight (suc (suc i)) = 1

abbrev pub next_place : ℕ → ℕ
next_place zero = 1
next_place (suc zero) = 2
next_place (suc (suc i)) = 0

abbrev pub add_char : ℕ → Option ℕ → Option ℕ → Option ℕ
add_char place none total = none
add_char place (some v) none = none
add_char place (some v) (some total) = some (v * weight place + total)

-- The sum of the loop, from the character at `place` on, which counts modulo 3.
unfoldable pub weighted : ℕ → Text → Option ℕ
weighted place [] = some 0
weighted place (c ∷ s) = add_char place (char_value c) (weighted (next_place place) s)

abbrev pub last_digit : Option ℕ → Option ℕ
last_digit none = none
last_digit (some total) = some (total % 10)

unfoldable pub check_digit : Text → Option ℕ
unfolding weighted
check_digit input = last_digit (weighted 0 input)

pub record MrzFields : Type 0 where
  pub document_number : Text
  pub nationality : Text
  pub birth_date : Text
  pub sex : Text
  pub expiry_date : Text

pub data MrzError : Type 0 where
  bad_length bad_document_digit bad_birth_digit bad_expiry_digit bad_composite_digit : MrzError

pub record MrzResult : Type 0 where
  pub valid : Bool
  pub fields : Option MrzFields
  pub errors : List MrzError

abbrev pub to_upper : ℕ → ℕ
to_upper c = if leb b'a' c && leb c b'z' then c - 32 else c

unfoldable pub cleaned : Text → Text
cleaned raw = filter (λ (c : ℕ). not (is_space c)) (map to_upper raw)

-- text.slice(from, to)
abbrev pub slice : ℕ → ℕ → Text → Text
slice from to s = take (to - from) (drop from s)

-- Number(cd) of one character: only a digit is a number.
abbrev pub number : Text → Option ℕ
number (c ∷ []) = if leb b'0' c && leb c b'9' then some (c - 48) else none
number _ = none

abbrev pub same_digit : Option ℕ → Option ℕ → Bool
same_digit (some a) (some b) = a == b
same_digit _ _ = false

unfoldable pub expect : MrzError → Text → Text → List MrzError
expect label field cd = if same_digit (check_digit field) (number cd) then [] else label ∷ []

abbrev pub is_empty {ℓ} : {A : Type ℓ} → List A → Bool
is_empty [] = true
is_empty (x ∷ xs) = false

-- What the second line holds.
unfoldable pub composite : Text → Text
composite l2 = slice 0 10 l2 ++ (slice 13 20 l2 ++ slice 21 43 l2)

unfoldable pub line_errors : Text → List MrzError
unfolding expect composite
line_errors l2 =
    expect bad_document_digit (slice 0 9 l2) (slice 9 10 l2)
    ++ (expect bad_birth_digit (slice 13 19 l2) (slice 19 20 l2)
        ++ (expect bad_expiry_digit (slice 21 27 l2) (slice 27 28 l2)
            ++ expect bad_composite_digit (composite l2) (slice 43 44 l2)))

abbrev pub line_fields : Text → MrzFields
line_fields l2 = record {
  document_number = filter (λ (c : ℕ). not (c == b'<')) (slice 0 9 l2);
  nationality = slice 10 13 l2;
  birth_date = slice 13 19 l2;
  sex = slice 20 21 l2;
  expiry_date = slice 21 27 l2;
}

unfoldable pub parse_line : Text → MrzResult
parse_line l2 = record {
  valid = is_empty (line_errors l2);
  fields = some (line_fields l2);
  errors = line_errors l2;
}

unfoldable pub parse_td3 : Text → MrzResult
parse_td3 raw =
    if length (cleaned raw) == 88
    then parse_line (drop 44 (cleaned raw))
    else record { valid = false; fields = none; errors = bad_length ∷ [] }
