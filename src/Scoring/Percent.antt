-- ===== src/Scoring/Percent.antt =====
-- `round(100.0 * yes / applicable, 2)`, as a number of hundredths. Python rounds the double that is
-- nearest to the quotient, half to even. For denominators below 4000 a quotient that lies halfway
-- between two hundredths is a dyadic fraction, hence exact, so this integer rounding agrees.
use atamura_okk.Base.{ℕ, ◌+◌, ◌*◌, ◌/◌, ◌%◌, ◌&&◌, ◌||◌, ltb, ◌==◌, if◌then◌else◌}

-- `a / b` rounded half to even.
unfoldable pub round_half_even : ℕ → ℕ → ℕ
round_half_even a b =
    let q = a / b in
    let r = a % b in if ltb b (2 * r) || ((2 * r) == b && (q % 2) == 1) then q + 1 else q

unfoldable pub percent : ℕ → ℕ → ℕ
percent points applicable =
    if applicable == 0 then 0 else round_half_even (10000 * points) applicable
