-- ===== src/Base/Distinct.antt =====
-- Lists of rows whose keys are all different, under selection, sorting and slicing.
use Prim.Native.Nat.{ℕ, zero, suc}
use mathlib.Core.Path.{◌≡◌, refl}
use mathlib.Core.Logic.{inl, inr}
use mathlib.Core.Bool.{Bool, false, ◌||◌}
use mathlib.Core.List.{List, [], ◌∷◌, map}
use native.Mathlib.Omega.{arith}
use atamura_okk.Base.Tests.{Bool-cases, ◌==◌}
use atamura_okk.Base.Lists.{mem, take, select, insert_by, sort_by}

abbrev pub IsDistinct : List ℕ → Type 0
IsDistinct [] = Unit {0}
IsDistinct (i ∷ is) = (mem i is ≡ false) × IsDistinct is

module _ {ℓ} {A : Type ℓ} (key : A → ℕ) where
  abbrev pub keys : List A → List ℕ
  keys xs = map key xs

  not-mem-select :
      (p : A → Bool) (i : ℕ) (xs : List A)
      → mem i (keys xs) ≡ false
      → mem i (keys (select p xs)) ≡ false
  not-mem-select p i [] h = refl
  not-mem-select p i (x ∷ xs) h = elim (Bool-cases (p x)) [
    | inl e ↦ rw e (ground (arith, not-mem-select p i xs))
    | inr e ↦ rw e (not-mem-select p i xs (ground arith))
  ]

  not-mem-take :
      (n i : ℕ) (xs : List A) → mem i (keys xs) ≡ false → mem i (keys (take n xs)) ≡ false
  not-mem-take zero i xs h = refl
  not-mem-take (suc n) i [] h = refl
  not-mem-take (suc n) i (x ∷ xs) h = ground (arith, not-mem-take n i xs)

  mem-insert_by :
      (le : A → A → Bool) (i : ℕ) (x : A) (xs : List A)
      → mem i (keys (insert_by le x xs)) ≡ ((key x == i) || mem i (keys xs))
  mem-insert_by le i x [] = refl
  mem-insert_by le i x (y ∷ ys) = elim (Bool-cases (le x y)) [
    | inl e ↦ rw e refl
    | inr e ↦ rw e (ground (arith, mem-insert_by le i x ys))
  ]

  mem-sort_by :
      (le : A → A → Bool) (i : ℕ) (xs : List A) → mem i (keys (sort_by le xs)) ≡ mem i (keys xs)
  unfolding sort_by
  mem-sort_by le i [] = refl
  mem-sort_by le i (x ∷ xs) = rw (mem-insert_by le i x (sort_by le xs), mem-sort_by le i xs) refl

  pub select-IsDistinct :
      (p : A → Bool) (xs : List A) → IsDistinct (keys xs) → IsDistinct (keys (select p xs))
  select-IsDistinct p [] h = tt
  select-IsDistinct p (x ∷ xs) h = elim (Bool-cases (p x)) [
    | inl e ↦ rw e (not-mem-select p (key x) xs h.0, select-IsDistinct p xs h.1)
    | inr e ↦ rw e (select-IsDistinct p xs h.1)
  ]

  pub take-IsDistinct : (n : ℕ) (xs : List A) → IsDistinct (keys xs) → IsDistinct (keys (take n xs))
  take-IsDistinct zero xs h = tt
  take-IsDistinct (suc n) [] h = tt
  take-IsDistinct (suc n) (x ∷ xs) h = (not-mem-take n (key x) xs h.0, take-IsDistinct n xs h.1)

  insert_by-IsDistinct :
      (le : A → A → Bool) (x : A) (xs : List A)
      → mem (key x) (keys xs) ≡ false
      → IsDistinct (keys xs)
      → IsDistinct (keys (insert_by le x xs))
  insert_by-IsDistinct le x [] fresh h = (refl, tt)
  insert_by-IsDistinct le x (y ∷ ys) fresh h = elim (Bool-cases (le x y)) [
    | inl e ↦ rw e (fresh, h)
    | inr e ↦ rw e (
      rw (mem-insert_by le (key y) x ys) (ground (arith, h.0)),
      insert_by-IsDistinct le x ys (ground arith) h.1,
    )
  ]

  pub sort_by-IsDistinct :
      (le : A → A → Bool) (xs : List A) → IsDistinct (keys xs) → IsDistinct (keys (sort_by le xs))
  unfolding sort_by
  sort_by-IsDistinct le [] h = tt
  sort_by-IsDistinct le (x ∷ xs) h =
      insert_by-IsDistinct le x (sort_by le xs) (rw (mem-sort_by le (key x) xs) h.0)
        (sort_by-IsDistinct le xs h.1)
