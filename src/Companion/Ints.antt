-- ===== src/Companion/Ints.antt =====
-- Integers over the native numbers, for the counts and percentages of AtamuraOKK/web/api/v1/hygiene.py.
use atamura_okk.Base.{ℕ, zero, suc, ◌+◌, ◌-◌, ◌*◌, leb, if◌then◌else◌}
use atamura_okk.Scoring.Percent.{round_half_even}

pub data ℤ : Type 0 where
  pos negsuc : ℕ → ℤ

abbrev pub neg : ℕ → ℤ
neg zero = pos 0
neg (suc n) = negsuc n

-- The difference of two natural numbers.
unfoldable pub difference : ℕ → ℕ → ℤ
difference a b = if leb b a then pos (a - b) else neg (b - a)

infixl 60 ◌+ℤ◌
unfoldable pub ◌+ℤ◌ : ℤ → ℤ → ℤ
unfolding difference
(pos a) +ℤ (pos b) = pos (a + b)
(pos a) +ℤ (negsuc b) = difference a (suc b)
(negsuc a) +ℤ (pos b) = difference b (suc a)
(negsuc a) +ℤ (negsuc b) = negsuc (a + suc b)

-- `round` of a fraction; it rounds to even, so it is the same on both sides of 0.
abbrev pub round_fraction : ℤ → ℕ → ℤ
round_fraction (pos a) b = pos (round_half_even a b)
round_fraction (negsuc a) b = neg (round_half_even (suc a) b)

abbrev pub times : ℕ → ℤ → ℤ
times k (pos a) = pos (k * a)
times k (negsuc a) = neg (k * suc a)
