-- ===== src/Money/RoundTrip.antt =====
-- toBase and fromBase are inverse on what fromBase prints, so the text operations are the operations
-- on the integers of base units.
use zentto_web.Prelude.{
  ℕ, zero, suc, ◌+◌, ◌-◌, ◌*◌, ◌^◌, ◌≤◌, ◌<◌, true, false, [], ◌∷◌, ◌++◌, length, take, drop,
  replicate, all, ◌≡◌, refl, sym, ap, ◌∙◌, arith, if◌then◌else◌, length-drop, length-append,
  take-append-drop, all-take, all-drop, all-append, and-true,
}
use zentto_web.Prelude.Int.{ℤ, pos, negsuc, ◌+ℤ◌, ◌-ℤ◌, ltb_ℤ, int_laws}
use mathlib.Core.List.{append-nil}
use native.Mathlib.Nat.{pow-suc}
use zentto_web.Money.{
  Text, parsed, scale, unit_base, is_digit, is_space, is_empty, before_dot, after_dot, starts_minus,
  decimal_from, value_from, base_digits, to_base, digits, pad_start, strip_zeros, point_text,
  from_base, add_str, sub_str, cmp_str, is_positive, sign_of, compare_ℤ,
}
use zentto_web.Money.Digits.{
  all-pad_start, value_from-pad_start, value_from-append, length-pad_start,
}
use zentto_web.Money.Points.{
  before_dot_digits, before_dot-append, after_dot_digits, after_dot-append, decimal_from_digits,
  decimal_from-append, is_graph, trim_graph, all_graph, strip_zeros-fill, all-strip_zeros,
}

-- Digits, or digits with a dot and more digits.
abbrev pub pointed : Text → Text → Text
pointed int frac = int ++ (if is_empty frac then [] else b'.' ∷ frac)

pointed_before : (int frac : Text) → all is_digit int ≡ true → before_dot (pointed int frac) ≡ int
pointed_before int [] h = rw append-nil (before_dot_digits int h)
pointed_before int (c ∷ frac) h = before_dot-append int (c ∷ frac) h

pointed_after :
    (int frac : Text)
    → all is_digit int ≡ true
    → all is_digit frac ≡ true
    → after_dot (pointed int frac) ≡ frac
pointed_after int [] h k = rw append-nil (after_dot_digits int h)
pointed_after int (c ∷ frac) h k =
    after_dot-append int (c ∷ frac) h ∙ before_dot_digits (c ∷ frac) k

pointed_decimal :
    (int frac : Text)
    → all is_digit int ≡ true
    → all is_digit frac ≡ true
    → decimal_from true (pointed int frac) ≡ true
pointed_decimal int [] h k = rw append-nil (decimal_from_digits int h)
pointed_decimal int (c ∷ frac) h k = decimal_from-append int (c ∷ frac) h k refl

pointed_graph :
    (int frac : Text)
    → all is_digit int ≡ true
    → all is_digit frac ≡ true
    → all is_graph (pointed int frac) ≡ true
pointed_graph int [] h k = rw append-nil (all_graph int h)
pointed_graph int (c ∷ frac) h k =
    all-append is_graph int (b'.' ∷ c ∷ frac) (all_graph int h)
      (unfold is_space in all_graph (c ∷ frac) k)

-- Of a text whose first character is a digit.
pointed_matches :
    (int frac : Text)
    → all is_digit int ≡ true
    → all is_digit frac ≡ true
    → 0 < length int
    → (decimal_from false (pointed int frac) ≡ true)
      × (starts_minus (pointed int frac) ≡ false)
      × (is_empty int ≡ false)
unfolding decimal_from
pointed_matches [] frac h k l = absurd (omega arith)
pointed_matches (c ∷ int) frac h k l =
    let d = and-true (is_digit c) (all is_digit int) h in
    (rw d.0 (pointed_decimal int frac d.1 k), unfold is_digit in ground arith, refl)

module _ (a : Text) (long : scale < length a) (good : all is_digit a ≡ true) where
  abbrev int_of : Text
  int_of = take (length a - scale) a

  abbrev frac_of : Text
  frac_of = drop (length a - scale) a

  length-frac_of : length frac_of ≡ scale
  length-frac_of = omega (arith, length-drop (length a - scale) a)

  length-int_of : 0 < length int_of
  length-int_of = omega (
    arith,
    length-frac_of,
    length-append int_of frac_of,
    ap length (take-append-drop (length a - scale) a),
  )

  good_int : all is_digit int_of ≡ true
  good_int = all-take is_digit (length a - scale) a good

  good_frac : all is_digit (strip_zeros frac_of) ≡ true
  good_frac = all-strip_zeros frac_of (all-drop is_digit (length a - scale) a good)

  filled : take scale (strip_zeros frac_of ++ replicate scale b'0') ≡ frac_of
  filled = rw length-frac_of at (strip_zeros-fill scale frac_of (omega (arith, length-frac_of)))

  -- What the text of `fromBase` without its sign gives back to `toBase`.
  pub point_text_lem :
      (all is_graph (point_text a) ≡ true)
      × (decimal_from false (point_text a) ≡ true)
      × (starts_minus (point_text a) ≡ false)
      × (base_digits (point_text a) ≡ a)
  unfolding point_text base_digits
  point_text_lem =
      let m = pointed_matches int_of (strip_zeros frac_of) good_int good_frac length-int_of in
      (
        pointed_graph int_of (strip_zeros frac_of) good_int good_frac,
        m.0,
        m.1,
        rw
            (
              pointed_before int_of (strip_zeros frac_of) good_int,
              pointed_after int_of (strip_zeros frac_of) good_int good_frac,
              m.2,
              filled,
            )
            (take-append-drop (length a - scale) a),
      )

padded : ℕ → Text
padded n = pad_start (scale + 1) (digits n)

padded_text :
    (n : ℕ)
    → (all is_graph (point_text (padded n)) ≡ true)
      × (decimal_from false (point_text (padded n)) ≡ true)
      × (starts_minus (point_text (padded n)) ≡ false)
      × (base_digits (point_text (padded n)) ≡ padded n)
unfolding padded
padded_text n =
    point_text_lem (padded n) (length-pad_start (scale + 1) (digits n))
      (all-pad_start (scale + 1) n)

negated : (n : ℕ) → pos 0 -ℤ pos (suc n) ≡ negsuc n
negated n = omega int_laws

-- Every integer that `fromBase` prints is read back by `toBase` as that integer, of either sign.
pub to_base-from_base : (v : ℤ) → to_base (from_base v) ≡ parsed v
unfolding to_base from_base padded
to_base-from_base (pos n) =
    let t = padded_text n in
    rw (trim_graph (point_text (padded n)) t.0, t.2, t.1, t.3, value_from-pad_start (scale + 1) n)
to_base-from_base (negsuc n) =
    let t = padded_text (suc n) in
    let g : all is_graph (b'-' ∷ point_text (padded (suc n))) ≡ true = unfold is_space in t.0 in
    rw (trim_graph (b'-' ∷ point_text (padded (suc n))) g, t.1, t.3)
      (rw (value_from-pad_start (scale + 1) (suc n)) (ap parsed (negated n)))

sign_of_sub : (a b : ℤ) → sign_of (a -ℤ b) ≡ compare_ℤ a b
unfolding ◌-ℤ◌
sign_of_sub a b = ground arith

-- On printed amounts the text operations are the integer ones: `addStr` and `subStr` print the sum
-- and the difference, `cmpStr` gives the order of the integers, and `isPositive` whether the integer is above zero.
pub text_operations :
    (a b : ℤ)
    → (add_str (from_base a) (from_base b) ≡ parsed (from_base (a +ℤ b)))
      × (sub_str (from_base a) (from_base b) ≡ parsed (from_base (a -ℤ b)))
      × (cmp_str (from_base a) (from_base b) ≡ parsed (compare_ℤ a b))
      × (is_positive (from_base a) ≡ parsed (ltb_ℤ (pos 0) a))
unfolding add_str sub_str cmp_str is_positive
text_operations a b =
    let f = to_base-from_base a in
    let g = to_base-from_base b in
    (rw (f, g), rw (f, g), rw (f, g) (ap parsed (sign_of_sub a b)), rw f)

weight_step : (acc d p v : ℕ) → (acc * 10 + d) * p + v ≡ acc * (p * 10) + ((0 * 10 + d) * p + v)
weight_step acc d p v = omega arith

value_from_weight : (acc : ℕ) (s : Text) → value_from acc s ≡ acc * 10 ^ length s + value_from 0 s
unfolding value_from
value_from_weight acc [] = omega arith
value_from_weight acc (c ∷ s) =
    let d : ℕ = c - b'0' in
    value_from_weight (acc * 10 + d) s
    ∙ weight_step acc d (10 ^ length s) (value_from 0 s)
    ∙ ap (λ (r : ℕ). acc * (10 ^ length s * 10) + r) (sym (value_from_weight (0 * 10 + d) s))
    ∙ ap (λ (r : ℕ). acc * r + value_from (0 * 10 + d) s) (sym (pow-suc 10 (length s)))

length-take : (n : ℕ) (s : Text) → n ≤ length s → length (take n s) ≡ n
length-take zero s h = refl
length-take (suc n) [] h = elim h [ ]
length-take (suc n) (c ∷ s) h = ap suc (length-take n s (omega arith))

eighteen : (frac : Text) → length (take scale (frac ++ replicate scale b'0')) ≡ scale
eighteen frac =
    length-take scale (frac ++ replicate scale b'0')
      (omega (arith, length-append frac (replicate scale b'0')))

base_value :
    (int frac : Text)
    → length frac ≡ scale
    → value_from 0 (int ++ frac) ≡ value_from 0 int * unit_base + value_from 0 frac
base_value int frac h =
    value_from-append 0 int frac
    ∙ value_from_weight (value_from 0 int) frac
    ∙ ap (λ (n : ℕ). value_from 0 int * 10 ^ n + value_from 0 frac) h

-- A text of digits with a dot and further digits, or without them, is read as its integer part times
-- 10^18 plus the first eighteen decimals, filled up with zeros; what comes after them is cut off.
pub to_base_value :
    (int frac : Text)
    → all is_digit int ≡ true
    → 0 < length int
    → all is_digit frac ≡ true
    → to_base (pointed int frac)
      ≡ parsed (
          pos (
            value_from 0 int * unit_base
            + value_from 0 (take scale (frac ++ replicate scale b'0'))))
unfolding to_base
to_base_value int frac hi li hf =
    let m = pointed_matches int frac hi hf li in
    rw
      (
        trim_graph (pointed int frac) (pointed_graph int frac hi hf),
        m.1,
        m.0,
        pointed_before int frac hi,
        m.2,
        pointed_after int frac hi hf,
      )
      (ap (λ (n : ℕ). parsed (pos n)) (base_value int _ (eighteen frac)))
