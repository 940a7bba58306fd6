-- ===== src/Scoring/Bounds.antt =====
-- Numbers of the score: rounding and the zone.
use native.Mathlib.Nat.{div-add-mod, mod-lt, mul-le-mul_left}
use atamura_okk.Base.{
  ℕ, ◌+◌, ◌*◌, ◌/◌, ◌%◌, ◌≤◌, ◌<◌, ◌≡◌, refl, inl, inr, ◌⊎◌, false, ◌&&◌, ◌||◌, arith, ltb, leb,
  ◌==◌, Bool-cases, leb→le,
}
use atamura_okk.Scoring.Rubric.{Zone, Zones, zone_for}
use atamura_okk.Scoring.Percent.{round_half_even, percent}

-- Rounding goes up by one, or not, by the remainder.
round-cases :
    (a b : ℕ)
    → ((round_half_even a b ≡ a / b + 1) × (b ≤ 2 * (a % b)))
      ⊎ ((round_half_even a b ≡ a / b) × (2 * (a % b) ≤ b))
unfolding round_half_even
round-cases a b =
    elim (Bool-cases (ltb b (2 * (a % b)) || ((2 * (a % b)) == b && (a / b % 2) == 1))) [
      | inl e ↦ inl (rw e refl, ground arith)
      | inr e ↦ inr (rw e refl, ground arith)
    ]

-- The rounded quotient is a nearest one: twice the error is at most the denominator.
pub round-nearest :
    (a b : ℕ)
    → 0 < b
    → (2 * (b * round_half_even a b) ≤ 2 * a + b) × (2 * a ≤ 2 * (b * round_half_even a b) + b)
round-nearest a b pos =
    let eq = div-add-mod a b in
    let lt = mod-lt a pos in
    elim (round-cases a b) [
      | inl (up, far) ↦ rw up (omega (arith, eq, lt, far), omega (arith, eq, lt, far))
      | inr (down, near) ↦ rw down (omega (arith, eq, lt, near), omega (arith, eq, lt, near))
    ]

-- A percentage, in hundredths, is at most 100 % and is the nearest one: scaled by the number of
-- applicable elements it differs from the exact share by at most half of that number.
pub percent-nearest :
    (points applicable : ℕ)
    → 0 < applicable
    → points ≤ applicable
    → (percent points applicable ≤ 10000)
      × (2 * (applicable * percent points applicable) ≤ 20000 * points + applicable)
      × (20000 * points ≤ 2 * (applicable * percent points applicable) + applicable)
unfolding percent
percent-nearest points applicable pos within =
    let zero : (applicable == 0) ≡ false = ground arith in
    let (above, below) = round-nearest (10000 * points) applicable pos in
    rw zero (capped, omega (arith, above), omega (arith, below))
  where
    capped : round_half_even (10000 * points) applicable ≤ 10000
    capped =
        let x = round_half_even (10000 * points) applicable in
        elim (Bool-cases (leb x 10000)) [
          | inl e ↦ leb→le x 10000 e
          | inr e ↦
              let over : 10001 ≤ x = ground arith in
              absurd (
                omega (
                  arith,
                  pos,
                  within,
                  mul-le-mul_left applicable over,
                  (round-nearest (10000 * points) applicable pos).0,
                ))
        ]

-- The zones in order.
abbrev pub rank : Zone → ℕ
rank Zone.risk = 0
rank Zone.borderline = 1
rank Zone.normal = 2
rank Zone.strong = 3

-- A higher percentage is never in a lower zone, whatever the thresholds are.
pub zone_for_mono : (z : Zones) (p q : ℕ) → p ≤ q → rank (zone_for z p) ≤ rank (zone_for z q)
unfolding zone_for
zone_for_mono z p q h = ground arith
