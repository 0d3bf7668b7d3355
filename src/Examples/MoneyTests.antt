-- ===== src/Examples/MoneyTests.antt =====
-- common/money.util.ts, with the cases of common/money.util.spec.ts.
use zentto_web.Prelude.{◌≡◌, refl, [], ◌∷◌}
use zentto_web.Prelude.Int.{pos, negsuc, ◌+ℤ◌, ◌-ℤ◌, ltb_ℤ}
use zentto_web.Money.{
  Text, less, parsed, invalid_amount, to_base, from_base, add_str, sub_str, cmp_str, is_positive,
  compare_ℤ,
}
use zentto_web.Money.RoundTrip.{to_base-from_base, text_operations}

abbrev one_and_a_half : Text
one_and_a_half = b'1' ∷ b'.' ∷ b'5' ∷ []

abbrev tenth : Text
tenth = b'0' ∷ b'.' ∷ b'1' ∷ []

abbrev fifth : Text
fifth = b'0' ∷ b'.' ∷ b'2' ∷ []

prints_one_and_a_half : from_base (pos 1500000000000000000) ≡ one_and_a_half
unfolding from_base
prints_one_and_a_half = refl

reads_negative : to_base (b'-' ∷ one_and_a_half) ≡ parsed (negsuc 1499999999999999999)
unfolding to_base ◌-ℤ◌
reads_negative = refl

refuses_comma : to_base (b'1' ∷ b',' ∷ b'5' ∷ []) ≡ invalid_amount
unfolding to_base
refuses_comma = refl

refuses_exponent : to_base (b'1' ∷ b'e' ∷ b'-' ∷ b'7' ∷ []) ≡ invalid_amount
unfolding to_base
refuses_exponent = refl

adds_tenths : add_str tenth fifth ≡ parsed (b'0' ∷ b'.' ∷ b'3' ∷ [])
unfolding add_str to_base from_base ◌+ℤ◌
adds_tenths = refl

compares : cmp_str one_and_a_half (b'2' ∷ []) ≡ parsed less
unfolding cmp_str to_base ◌-ℤ◌
compares = refl

to_base-from_base_example : to_base (from_base (negsuc 4)) ≡ parsed (negsuc 4)
to_base-from_base_example = to_base-from_base (negsuc 4)

text_operations_example :
    (add_str (from_base (pos 3)) (from_base (negsuc 4)) ≡ parsed (from_base (pos 3 +ℤ negsuc 4)))
    × (sub_str (from_base (pos 3)) (from_base (negsuc 4)) ≡ parsed (from_base (pos 3 -ℤ negsuc 4)))
    × (cmp_str (from_base (pos 3)) (from_base (negsuc 4)) ≡ parsed (compare_ℤ (pos 3) (negsuc 4)))
    × (is_positive (from_base (pos 3)) ≡ parsed (ltb_ℤ (pos 0) (pos 3)))
text_operations_example = text_operations (pos 3) (negsuc 4)
