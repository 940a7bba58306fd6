-- ===== src/Base/Lists.antt =====
-- Lists over the native numbers: selection by a Boolean test, membership of ids, a stable
-- insertion sort by a Boolean order, and a predicate on all elements.
use Prim.Native.Nat.{ℕ, zero, suc}
use mathlib.Core.Path.{◌≡◌}
use mathlib.Core.Logic.{inl, inr}
use mathlib.Core.Bool.{false≢true, Bool, true, false, ◌||◌}
use mathlib.Core.List.{List, [], ◌∷◌, map}
use atamura_okk.Base.Tests.{Bool-cases, ==_iff, ◌==◌, if◌then◌else◌}

module _ {ℓ} {A : Type ℓ} where
  abbrev pub length : List A → ℕ
  length [] = 0
  length (_ ∷ xs) = suc (length xs)

  abbrev pub take : ℕ → List A → List A
  take zero xs = []
  take (suc n) [] = []
  take (suc n) (x ∷ xs) = x ∷ take n xs

  abbrev pub drop : ℕ → List A → List A
  drop zero xs = xs
  drop (suc n) [] = []
  drop (suc n) (x ∷ xs) = drop n xs

  -- The rows for which a test holds, in order.
  abbrev pub select : (A → Bool) → List A → List A
  select p [] = []
  select p (x ∷ xs) = let rest = select p xs in if p x then x ∷ rest else rest

  -- Insertion behind equal keys keeps the sort stable.
  abbrev pub insert_by : (A → A → Bool) → A → List A → List A
  insert_by le x [] = x ∷ []
  insert_by le x (y ∷ ys) = let rest = insert_by le x ys in if le x y then x ∷ y ∷ ys else y ∷ rest

  unfoldable pub sort_by : (A → A → Bool) → List A → List A
  sort_by le [] = []
  sort_by le (x ∷ xs) = insert_by le x (sort_by le xs)

  -- `for x in xs: …`, with what the loop carries.
  unfoldable pub sweep {κ} : {S : Type κ} → (A → S → S) → List A → S → S
  sweep one [] acc = acc
  sweep one (x ∷ xs) acc = sweep one xs (one x acc)

  abbrev pub All {κ} : (A → Type κ) → List A → Type κ
  All P [] = Unit
  All P (x ∷ xs) = P x × All P xs

-- Membership of a number, the `in` of the source on lists and sets of ids.
abbrev pub mem : ℕ → List ℕ → Bool
mem i [] = false
mem i (j ∷ js) = (j == i) || mem i js

module _ {ℓ κ μ} {A : Type ℓ} (P : A → Type κ) (Q : A → Type μ) where
  pub All-imp : ((x : A) → P x → Q x) → (xs : List A) → All P xs → All Q xs
  All-imp f [] h = tt
  All-imp f (x ∷ xs) h = (f x h.0, All-imp f xs h.1)

module _ {ℓ κ} {A : Type ℓ} (P : A → Type κ) where
  pub All-take : (n : ℕ) (xs : List A) → All P xs → All P (take n xs)
  All-take zero xs h = tt
  All-take (suc n) [] h = tt
  All-take (suc n) (x ∷ xs) h = (h.0, All-take n xs h.1)

  -- What is selected has the property and passes the test.
  pub All-select :
      (p : A → Bool) (xs : List A) → All P xs → All (λ x. P x × (p x ≡ true)) (select p xs)
  All-select p [] h = tt
  All-select p (x ∷ xs) h = elim (Bool-cases (p x)) [
    | inl e ↦ rw e ((h.0, e), All-select p xs h.1)
    | inr e ↦ rw e (All-select p xs h.1)
  ]

  All-insert_by :
      (le : A → A → Bool) (x : A) (xs : List A) → P x → All P xs → All P (insert_by le x xs)
  All-insert_by le x [] px h = (px, tt)
  All-insert_by le x (y ∷ ys) px h = elim (Bool-cases (le x y)) [
    | inl e ↦ rw e (px, h)
    | inr e ↦ rw e (h.0, All-insert_by le x ys px h.1)
  ]

  pub All-sort_by : (le : A → A → Bool) (xs : List A) → All P xs → All P (sort_by le xs)
  unfolding sort_by
  All-sort_by le [] h = tt
  All-sort_by le (x ∷ xs) h = All-insert_by le x (sort_by le xs) h.0 (All-sort_by le xs h.1)

  -- The element behind a key that a list of keys holds.
  pub mem-map_elim :
      (key : A → ℕ) (i : ℕ) (xs : List A)
      → mem i (map key xs) ≡ true
      → All P xs
      → (x : A) × (key x ≡ i) × P x
  mem-map_elim key i [] m h = absurd (false≢true m)
  mem-map_elim key i (x ∷ xs) m h = elim (Bool-cases (key x == i)) [
    | inl e ↦ (x, (==_iff _ _).0 e, h.0)
    | inr e ↦ mem-map_elim key i xs (rw e at m) h.1
  ]
