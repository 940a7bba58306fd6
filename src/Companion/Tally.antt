-- ===== src/Companion/Tally.antt =====
-- The counts behind a criterion of the hygiene: what passes and what fails make up the base.
use native.Mathlib.Nat.{mul-le-mul_left}
use atamura_okk.Base.{
  ℕ, String, ◌+◌, ◌*◌, ◌≤◌, ◌<◌, ◌≡◌, refl, ap, ◌∙◌, inl, inr, Bool, true, false, Option, none,
  some, List, [], ◌∷◌, length, take, ltb, leb, ◌==◌, arith, Bool-cases,
}
use atamura_okk.Base.Slices.{length-take-le, length-take, take-all}
use atamura_okk.Scoring.Percent.{round_half_even}
use atamura_okk.Scoring.Bounds.{round-nearest}
use atamura_okk.Companion.Ints.{pos}
use atamura_okk.Companion.Cards.{
  Card, HygieneSettings, Score, pct, scored, scored_capped, tally, over,
}

pub round-bound : (a b : ℕ) → 0 < b → a ≤ 1000 * b → round_half_even a b ≤ 1000
round-bound a b above_zero within =
    let x = round_half_even a b in
    elim (Bool-cases (leb x 1000)) [
      | inl e ↦ ground arith
      | inr e ↦
          let more : 1001 ≤ x = ground arith in
          absurd (
            omega
              (arith, above_zero, within, mul-le-mul_left b more, (round-nearest a b above_zero).0))
    ]

-- What a scored criterion has: a base, of which the numerator is in good standing. The others fail,
-- and are listed up to the cap; the list says whether it leaves some out.
abbrev pub IsCounted : ℕ → Option Score → Type 0
IsCounted most none = Unit {0}
IsCounted most (some r) =
    (n : ℕ) × (r.numerator ≡ pos n)
    × (0 < r.denominator)
    × (n + length r.failed_items ≤ r.denominator)
    × (length r.failed_items ≤ most)
    × (r.failed_truncated ≡ false → n + length r.failed_items ≡ r.denominator)
    × (r.failed_truncated ≡ true → length r.failed_items ≡ most)
    × ((p : ℕ) × (r.pct ≡ some (pos p))
        × (p ≤ 1000)
        × (2 * (r.denominator * p) ≤ 2000 * n + r.denominator)
        × (2000 * n ≤ 2 * (r.denominator * p) + r.denominator))

pct-nearest :
    (n d : ℕ)
    → 0 < d
    → n ≤ d
    → (p : ℕ) × (pct (pos n) d ≡ some (pos p))
      × (p ≤ 1000)
      × (2 * (d * p) ≤ 2000 * n + d)
      × (2000 * n ≤ 2 * (d * p) + d)
unfolding pct
pct-nearest n d above_zero within =
    let zero : (d == 0) ≡ false = ground arith in
    let (above, below) = round-nearest (1000 * n) d above_zero in
    (
      round_half_even (1000 * n) d,
      rw zero refl,
      round-bound (1000 * n) d above_zero (omega arith),
      omega (arith, above),
      omega (arith, below),
    )

-- A score with the failing entries cut to the cap.
pub scored-IsCounted :
    (most : ℕ) (key : String) (n d : ℕ) (failed : List ℕ) (truncated : Bool)
    → 0 < d
    → n + length failed ≡ d
    → truncated ≡ ltb most (length failed)
    → IsCounted most (scored key (pos n) d (take most failed) truncated).score
unfolding scored
scored-IsCounted most key n d failed truncated above_zero sum flag =
    let short = length-take-le most failed in
    elim (Bool-cases (ltb most (length failed))) [
      | inl e ↦
          let full = length-take most failed (ground arith) in
          let less : most < length failed = ground arith in
          (
            n,
            refl,
            above_zero,
            omega (arith, sum, full, less),
            short,
            (λ h. absurd (cc (flag ∙ e, h))),
            (λ h. full),
            pct-nearest n d above_zero (omega (arith, sum)),
          )
      | inr e ↦
          let all : take most failed ≡ failed = take-all most failed (ground arith) in
          let same : length (take most failed) ≡ length failed = ap (λ l. length l) all in
          (
            n,
            refl,
            above_zero,
            omega (arith, sum, same),
            short,
            (λ h. omega (arith, sum, same)),
            (λ h. absurd (cc (flag ∙ e, h))),
            pct-nearest n d above_zero (omega (arith, sum)),
          )
    ]

tally-sum :
    (passes : Card → Bool) (ds : List Card)
    → (tally passes ds).0 + length (tally passes ds).1 ≡ length ds
unfolding tally
tally-sum passes [] = refl
tally-sum passes (d ∷ ds) =
    let rest = tally-sum passes ds in
    elim (Bool-cases (passes d)) [
      | inl e ↦ rw e (omega (arith, rest))
      | inr e ↦ rw e (omega (arith, rest))
    ]

pub over-IsCounted :
    (s : HygieneSettings) (key : String) (passes : Card → Bool) (ds : List Card)
    → IsCounted s.failed_max_items (over s key passes ds).score
unfolding over scored_capped
over-IsCounted s key passes [] = tt
over-IsCounted s key passes (d ∷ ds) =
    scored-IsCounted s.failed_max_items key (tally passes (d ∷ ds)).0 (length (d ∷ ds))
      (tally passes (d ∷ ds)).1 (ltb s.failed_max_items (length (tally passes (d ∷ ds)).1))
      (omega arith) (tally-sum passes (d ∷ ds)) refl
