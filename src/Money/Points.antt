-- ===== src/Money/Points.antt =====
-- The shape of the texts that fromBase makes: digits, and if there is a fraction, a dot and its digits.
use zentto_web.Prelude.{
  ℕ, zero, suc, ◌≤◌, ◌<◌, Bool, true, false, not, [], ◌∷◌, ◌++◌, ◌==◌, length, take, replicate, all,
  ◌≡◌, refl, ap, arith, and-true,
}
use zentto_web.Money.{
  Text, is_space, is_digit, is_empty, trim_end, trim, before_dot, after_dot, decimal_from,
  strip_zeros, starts_minus,
}

digit_not_dot : (c : ℕ) → is_digit c ≡ true → (c == b'.') ≡ false
unfolding is_digit
digit_not_dot c h = ground arith

pub before_dot_digits : (s : Text) → all is_digit s ≡ true → before_dot s ≡ s
unfolding before_dot
before_dot_digits [] h = refl
before_dot_digits (c ∷ s) h =
    let k = and-true (is_digit c) (all is_digit s) h in
    rw (digit_not_dot c k.0) (ap (λ r. c ∷ r) (before_dot_digits s k.1))

pub before_dot-append : (s t : Text) → all is_digit s ≡ true → before_dot (s ++ b'.' ∷ t) ≡ s
unfolding before_dot
before_dot-append [] t h = refl
before_dot-append (c ∷ s) t h =
    let k = and-true (is_digit c) (all is_digit s) h in
    rw (digit_not_dot c k.0) (ap (λ r. c ∷ r) (before_dot-append s t k.1))

pub after_dot_digits : (s : Text) → all is_digit s ≡ true → after_dot s ≡ []
unfolding after_dot
after_dot_digits [] h = refl
after_dot_digits (c ∷ s) h =
    let k = and-true (is_digit c) (all is_digit s) h in
    rw (digit_not_dot c k.0) (after_dot_digits s k.1)

pub after_dot-append :
    (s t : Text) → all is_digit s ≡ true → after_dot (s ++ b'.' ∷ t) ≡ before_dot t
unfolding after_dot
after_dot-append [] t h = refl
after_dot-append (c ∷ s) t h =
    let k = and-true (is_digit c) (all is_digit s) h in
    rw (digit_not_dot c k.0) (after_dot-append s t k.1)

pub decimal_from_digits : (s : Text) → all is_digit s ≡ true → decimal_from true s ≡ true
unfolding decimal_from
decimal_from_digits [] h = refl
decimal_from_digits (c ∷ s) h =
    let k = and-true (is_digit c) (all is_digit s) h in rw k.0 (decimal_from_digits s k.1)

pub decimal_from-append :
    (s t : Text)
    → all is_digit s ≡ true
    → all is_digit t ≡ true
    → is_empty t ≡ false
    → decimal_from true (s ++ b'.' ∷ t) ≡ true
unfolding decimal_from
decimal_from-append [] t h k e = unfold is_digit in rw (k, e)
decimal_from-append (c ∷ s) t h k e =
    let d = and-true (is_digit c) (all is_digit s) h in rw d.0 (decimal_from-append s t d.1 k e)

-- No white space, so `trim` changes nothing.
abbrev pub is_graph : ℕ → Bool
is_graph c = not (is_space c)

trim_end_graph : (s : Text) → all is_graph s ≡ true → trim_end s ≡ s
unfolding trim_end
trim_end_graph [] h = refl
trim_end_graph (c ∷ s) h =
    let k = and-true (is_graph c) (all is_graph s) h in ground (arith, trim_end_graph s k.1)

pub trim_graph : (s : Text) → all is_graph s ≡ true → trim s ≡ s
unfolding trim
trim_graph [] h = refl
trim_graph (c ∷ s) h = ground (arith, trim_end_graph (c ∷ s) h)

digit_is_graph : (c : ℕ) → is_digit c ≡ true → is_graph c ≡ true
unfolding is_digit is_space
digit_is_graph c h = ground arith

pub all_graph : (s : Text) → all is_digit s ≡ true → all is_graph s ≡ true
all_graph [] h = refl
all_graph (c ∷ s) h =
    let k = and-true (is_digit c) (all is_digit s) h in rw (digit_is_graph c k.0) (all_graph s k.1)

pub starts_minus_digits :
    (s t : Text) → all is_digit s ≡ true → 0 < length s → starts_minus (s ++ t) ≡ false
starts_minus_digits [] t h l = absurd (omega arith)
starts_minus_digits (c ∷ s) t h l =
    let k = and-true (is_digit c) (all is_digit s) h in unfold is_digit in ground arith

-- Filling the stripped fraction up with zeros gives the fraction back.
pub strip_zeros-fill :
    (n : ℕ) (s : Text) → length s ≤ n → take (length s) (strip_zeros s ++ replicate n b'0') ≡ s
unfolding strip_zeros
strip_zeros-fill n [] h = refl
strip_zeros-fill zero (c ∷ s) h = elim h [ ]
strip_zeros-fill (suc n) (c ∷ s) h =
    ground (arith, strip_zeros-fill n s (omega arith), strip_zeros-fill (suc n) s (omega arith))

pub all-strip_zeros : (s : Text) → all is_digit s ≡ true → all is_digit (strip_zeros s) ≡ true
unfolding strip_zeros
all-strip_zeros [] h = refl
all-strip_zeros (c ∷ s) h =
    let k = and-true (is_digit c) (all is_digit s) h in ground (arith, all-strip_zeros s k.1)
