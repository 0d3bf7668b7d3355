-- ===== src/Money/Amount.antt =====
-- An amount as the services pass it on: a decimal text, by the two integers of base units that are
-- ever read from it. The texts that the DTOs admit may have more than eighteen decimals; toBase cuts
-- the rest off and PostgreSQL rounds it, so the two integers may differ by one.
use zentto_web.Prelude.{◌≡◌, Bool}
use zentto_web.Prelude.Int.{ℤ, pos, ltb_ℤ}

pub record Amount : Type 0 where
  pub base : ℤ  -- what `toBase` gives
  pub stored : ℤ  -- what a numeric(38, 18) column holds after it is written

-- A text that `fromBase` printed, or that came out of such a column.
abbrev pub exact : ℤ → Amount
exact v = record { base = v; stored = v }

abbrev pub IsExact : Amount → Type 0
IsExact a = a.base ≡ a.stored

-- isPositive
abbrev pub is_positive : Amount → Bool
is_positive a = ltb_ℤ (pos 0) a.base
