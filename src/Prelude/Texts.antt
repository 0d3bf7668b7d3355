-- ===== src/Prelude/Texts.antt =====
-- Equality of texts, which are lists of code points.
use Prim.Native.Nat.{ℕ}
use mathlib.Core.Path.{◌≡◌, refl, sym, ap, ◌∙◌}
use mathlib.Core.Logic.{◌⊎◌, inl, inr, ◌≢◌}
use mathlib.Core.Bool.{Bool, true, false, ◌&&◌}
use mathlib.Core.List.{List, [], ◌∷◌, ◌++◌}
use native.Mathlib.Omega.{arith}
use zentto_web.Prelude.Tests.{◌==◌, Bool-cases}
use zentto_web.Prelude.Lists.{length}

unfoldable pub text_eq : List ℕ → List ℕ → Bool
text_eq [] [] = true
text_eq (c ∷ s) (d ∷ t) = c == d && text_eq s t
text_eq _ _ = false

pub text_eq_refl : (s : List ℕ) → text_eq s s ≡ true
unfolding text_eq
text_eq_refl [] = refl
text_eq_refl (c ∷ s) = ground (arith, text_eq_refl s)

pub text_eq_sound : (s t : List ℕ) → text_eq s t ≡ true → s ≡ t
unfolding text_eq
text_eq_sound [] [] h = refl
text_eq_sound [] (d ∷ t) h = cc
text_eq_sound (c ∷ s) [] h = cc
text_eq_sound (c ∷ s) (d ∷ t) h = ground (arith, text_eq_sound s t)

pub text_ne : (s t : List ℕ) → s ≢ t → text_eq s t ≡ false
text_ne s t ne = elim (Bool-cases (text_eq s t)) [
  | inl same ↦ absurd (ne (text_eq_sound s t same))
  | inr apart ↦ apart
]

-- Two texts are equal or not.
pub text_cases : (s t : List ℕ) → (s ≡ t) ⊎ (s ≢ t)
text_cases s t = elim (Bool-cases (text_eq s t)) [
  | inl same ↦ inl (text_eq_sound s t same)
  | inr apart ↦ inr (λ e. true_not_false (sym (text_eq_refl s) ∙ ap (text_eq s) e ∙ apart))
]
  where
    true_not_false : true ≡ false → ⊥
    true_not_false h = cc

-- Texts that are put together from parts of the same lengths agree only if the parts do.
pub append_injective :
    (a b c d : List ℕ) → length a ≡ length b → a ++ c ≡ b ++ d → (a ≡ b) × (c ≡ d)
append_injective [] [] c d l e = (refl, e)
append_injective [] (y ∷ b) c d l e = absurd (omega (arith, l))
append_injective (x ∷ a) [] c d l e = absurd (omega (arith, l))
append_injective (x ∷ a) (y ∷ b) c d l e =
    ground (arith, append_injective a b c d (omega (arith, l)))
