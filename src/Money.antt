-- ===== src/Money.antt =====
-- common/money.util.ts: exact money arithmetic on decimal texts, through integers of 10^-18 units.
-- A text is the list of its code points.
pub mod Digits
pub mod Points
pub mod RoundTrip
pub mod Amount
use zentto_web.Prelude.{
  ℕ, zero, suc, ◌+◌, ◌-◌, ◌*◌, ◌/◌, ◌%◌, ◌^◌, Bool, true, false, not, ◌&&◌, ◌||◌, List, [], ◌∷◌,
  ◌++◌, ltb, leb, ◌==◌, if◌then◌else◌, length, take, drop, replicate, all, ◌≡◌, refl,
}
use zentto_web.Prelude.Int.{ℤ, pos, negsuc, pos_part, neg_part, ◌+ℤ◌, ◌-ℤ◌, ltb_ℤ}

abbrev pub Text : Type 0
Text = List ℕ

-- `none` is the error that `toBase` throws, "Importe inválido".
pub data Parsed (A : Type 0) : Type 0 where
  parsed : A → Parsed A
  invalid_amount : Parsed A

infixl 5 ◌>>=◌
abbrev pub ◌>>=◌ : {A B : Type 0} → Parsed A → (A → Parsed B) → Parsed B
parsed a >>= f = f a
invalid_amount >>= f = invalid_amount

-- const SCALE
abbrev pub scale : ℕ
scale = 18

abbrev pub unit_base : ℕ
unit_base = 1000000000000000000

-- The white space that String.prototype.trim takes off.
unfoldable pub is_space : ℕ → Bool
is_space c =
    leb 9 c && leb c 13
    || c == 32
    || c == 160
    || c == 0x1680
    || leb 0x2000 c && leb c 0x200a
    || c == 0x2028
    || c == 0x2029
    || c == 0x202f
    || c == 0x205f
    || c == 0x3000
    || c == 0xfeff

unfoldable pub is_digit : ℕ → Bool
is_digit c = leb b'0' c && leb c b'9'

pub trim_start : Text → Text
trim_start [] = []
trim_start (c ∷ s) = if is_space c then trim_start s else c ∷ s

abbrev pub is_empty : Text → Bool
is_empty [] = true
is_empty (c ∷ s) = false

pub trim_end : Text → Text
trim_end [] = []
trim_end (c ∷ s) = let rest = trim_end s in if is_space c && is_empty rest then [] else c ∷ rest

unfoldable pub trim : Text → Text
unfolding trim_start trim_end
trim s = trim_end (trim_start s)

-- `s.split('.')`: the text before the first dot, and after it up to the next one.
pub before_dot : Text → Text
before_dot [] = []
before_dot (c ∷ s) = let rest = before_dot s in if c == b'.' then [] else c ∷ rest

pub after_dot : Text → Text
unfolding before_dot
after_dot [] = []
after_dot (c ∷ s) = if c == b'.' then before_dot s else after_dot s

-- The text begins with a minus sign.
abbrev pub starts_minus : Text → Bool
starts_minus [] = false
starts_minus (c ∷ s) = c == b'-'

-- `s.slice(1)` of a negative text.
abbrev pub drop_minus : Text → Text
drop_minus s = if starts_minus s then drop 1 s else s

-- /^\d+(\.\d+)?$/: digits, and if a dot follows, digits after it to the end.
pub decimal_from : Bool → Text → Bool
decimal_from seen [] = seen
decimal_from seen (c ∷ s) =
    let frac = all is_digit s && not (is_empty s) in
    let more = decimal_from true s in if is_digit c then more else seen && c == b'.' && frac

-- The test /^-?\d+(\.\d+)?$/ of `toBase`.
pub matches_amount : Text → Bool
unfolding decimal_from is_digit
matches_amount s = decimal_from false (drop_minus s)

-- `BigInt` of a text of digits.
pub value_from : ℕ → Text → ℕ
value_from acc [] = acc
value_from acc (c ∷ s) = value_from (acc * 10 + (c - b'0')) s

abbrev pub negate_if : Bool → ℕ → ℤ
negate_if neg n = if neg then pos 0 -ℤ pos n else pos n

-- `(intPart || '0') + frac`, with the fraction filled up with zeros and cut at `SCALE` digits.
pub base_digits : Text → Text
unfolding before_dot after_dot
base_digits u =
    let int_part = before_dot u in
    let frac = take scale (after_dot u ++ replicate scale b'0') in
    (if is_empty int_part then b'0' ∷ [] else int_part) ++ frac

-- toBase
unfoldable pub to_base : Text → Parsed ℤ
unfolding trim matches_amount value_from base_digits is_space
to_base amount =
    let s = trim amount in
    if matches_amount s
    then parsed (negate_if (starts_minus s) (value_from 0 (base_digits (drop_minus s))))
    else invalid_amount

-- The decimal digits of a number, as BigInt.prototype.toString prints it; `n + 1` rounds are enough.
pub digits_fuel : ℕ → ℕ → Text → Text
digits_fuel zero n acc = acc
digits_fuel (suc f) n acc = elim (ltb n 10) [
  | true ↦ (b'0' + n) ∷ acc
  | false ↦ digits_fuel f (n / 10) ((b'0' + n % 10) ∷ acc)
]

pub digits : ℕ → Text
unfolding digits_fuel
digits n = digits_fuel (suc n) n []

-- `padStart(n, '0')`
pub pad_start : ℕ → Text → Text
pad_start n s = replicate (n - length s) b'0' ++ s

-- `replace(/0+$/, '')`
pub strip_zeros : Text → Text
strip_zeros [] = []
strip_zeros (c ∷ s) =
    let rest = strip_zeros s in if c == b'0' && is_empty rest then [] else c ∷ rest

-- The text of `fromBase` without its sign, from the padded digits.
pub point_text : Text → Text
unfolding strip_zeros
point_text a =
    let frac = strip_zeros (drop (length a - scale) a) in
    take (length a - scale) a ++ (if is_empty frac then [] else b'.' ∷ frac)

-- fromBase
unfoldable pub from_base : ℤ → Text
unfolding digits pad_start point_text
from_base (pos n) = point_text (pad_start (scale + 1) (digits n))
from_base (negsuc n) = b'-' ∷ point_text (pad_start (scale + 1) (digits (suc n)))

unfoldable pub add_str : Text → Text → Parsed Text
add_str a b = do x ← to_base a; y ← to_base b; parsed (from_base (x +ℤ y))

unfoldable pub sub_str : Text → Text → Parsed Text
sub_str a b = do x ← to_base a; y ← to_base b; parsed (from_base (x -ℤ y))

-- -1, 0 or 1
pub data Sign : Type 0 where
  less equal greater : Sign

abbrev pub compare_ℤ : ℤ → ℤ → Sign
compare_ℤ x y = if ltb_ℤ x y then less else if ltb_ℤ y x then greater else equal

abbrev pub sign_of : ℤ → Sign
sign_of d = compare_ℤ d (pos 0)

unfoldable pub cmp_str : Text → Text → Parsed Sign
cmp_str a b = do x ← to_base a; y ← to_base b; parsed (sign_of (x -ℤ y))

pub is_positive : Text → Parsed Bool
is_positive a = do x ← to_base a; parsed (ltb_ℤ (pos 0) x)
