-- ===== src/Money/Digits.antt =====
-- The printer of digits and the reader of digits (BigInt's, in toBase and fromBase) are inverse.
use zentto_web.Prelude.{
  ℕ, zero, suc, ◌+◌, ◌-◌, ◌*◌, ◌/◌, ◌%◌, ◌≤◌, ◌<◌, true, [], ◌∷◌, ◌++◌, ltb, length, replicate, all,
  ◌≡◌, refl, ap, ◌∙◌, arith, Bool-cases, inl, inr, ltb→lt, length-append, length-replicate,
  all-append, all-replicate,
}
use zentto_web.Money.{Text, is_digit, value_from, digits_fuel, digits, pad_start}

pub value_from-append :
    (acc : ℕ) (xs ys : Text) → value_from acc (xs ++ ys) ≡ value_from (value_from acc xs) ys
unfolding value_from
value_from-append acc [] ys = refl
value_from-append acc (c ∷ xs) ys = value_from-append (acc * 10 + (c - b'0')) xs ys

pub value_from-zeros : (n : ℕ) (s : Text) → value_from 0 (replicate n b'0' ++ s) ≡ value_from 0 s
unfolding value_from
value_from-zeros zero s = refl
value_from-zeros (suc n) s = value_from-zeros n s

last_digit : (n : ℕ) → n / 10 * 10 + (b'0' + n % 10 - b'0') ≡ n
last_digit n = omega arith

one_digit : (n : ℕ) → 0 * 10 + (b'0' + n - b'0') ≡ n
one_digit n = omega arith

value_from-digits_fuel :
    (f n : ℕ) (acc : Text) → n < f → value_from 0 (digits_fuel f n acc) ≡ value_from n acc
unfolding value_from digits_fuel
value_from-digits_fuel zero n acc h = elim h [ ]
value_from-digits_fuel (suc f) n acc h = elim (Bool-cases (ltb n 10)) [
  | inl small ↦ rw (small, digits_fuel) (ap (λ (k : ℕ). value_from k acc) (one_digit n))
  | inr big ↦
      rw (big, digits_fuel)
        (value_from-digits_fuel f (n / 10) ((b'0' + n % 10) ∷ acc) (ground arith)
          ∙ ap (λ (k : ℕ). value_from k acc) (last_digit n))
]

-- What `toString` prints reads as the number.
pub value_from-digits : (n : ℕ) → value_from 0 (digits n) ≡ n
unfolding digits value_from
value_from-digits n = value_from-digits_fuel (suc n) n [] (omega arith)

is_digit_small : (n : ℕ) → n < 10 → is_digit (b'0' + n) ≡ true
unfolding is_digit
is_digit_small n h = ground arith

all-digits_fuel :
    (f n : ℕ) (acc : Text) → all is_digit acc ≡ true → all is_digit (digits_fuel f n acc) ≡ true
unfolding digits_fuel
all-digits_fuel zero n acc h = h
all-digits_fuel (suc f) n acc h = elim (Bool-cases (ltb n 10)) [
  | inl small ↦ rw (small, digits_fuel) (rw (is_digit_small n (ltb→lt n 10 small)) h)
  | inr big ↦
      rw (big, digits_fuel)
        (all-digits_fuel f (n / 10) ((b'0' + n % 10) ∷ acc)
          (rw (is_digit_small (n % 10) (omega arith)) h))
]

-- A padded number is of digits, long enough, and still reads as the number.
pub all-pad_start : (k n : ℕ) → all is_digit (pad_start k (digits n)) ≡ true
unfolding pad_start digits
all-pad_start k n =
    all-append is_digit (replicate (k - length (digits n)) b'0') (digits n)
      (all-replicate is_digit _ b'0' (unfold is_digit in refl)) (all-digits_fuel (suc n) n [] refl)

pub value_from-pad_start : (k n : ℕ) → value_from 0 (pad_start k (digits n)) ≡ n
unfolding pad_start
value_from-pad_start k n = value_from-zeros (k - length (digits n)) (digits n) ∙ value_from-digits n

pub length-pad_start : (k : ℕ) (s : Text) → k ≤ length (pad_start k s)
unfolding pad_start
length-pad_start k s = omega (
  arith,
  length-append (replicate (k - length s) b'0') s,
  length-replicate {A = ℕ} (k - length s) b'0',
)
