-- ===== src/Meetings/Table.antt =====
-- Laws of the table of recordings: reads after a write of one row, and sums over the rows.
use atamura_okk.Base.{
  ℕ, ◌+◌, ◌≡◌, refl, inl, inr, Bool, true, false, some, List, [], ◌∷◌, arith, ◌==◌, ==_refl,
  Bool-cases, mem, All, All-imp, All-select, All-sort_by, All-take, select, sort_by, take,
}
use atamura_okk.Base.Distinct.{
  IsDistinct, keys, select-IsDistinct, sort_by-IsDistinct, take-IsDistinct,
}
use atamura_okk.Meetings.Recordings.{Recording, get, set}

abbrev pub ids : List Recording → List ℕ
ids rows = keys (λ r. r.file_id) rows

abbrev pub HasKeys : List Recording → Type 0
HasKeys rows = IsDistinct (ids rows)

-- The row that its own id finds.
abbrev pub IsRowOf : List Recording → Recording → Type 0
IsRowOf rows r = get r.file_id rows ≡ some r

get-mem :
    (i : ℕ) (rows : List Recording) {r : Recording} → get i rows ≡ some r → mem i (ids rows) ≡ true
unfolding get
get-mem i [] h = cc
get-mem i (d ∷ ds) h = elim (Bool-cases (d.file_id == i)) [
  | inl e ↦ rw e
  | inr e ↦ rw e (get-mem i ds (rw e at h))
]

get_behind :
    (c : Recording) (rows : List Recording)
    → mem c.file_id (ids rows) ≡ false
    → (d : Recording) → IsRowOf rows d
    → IsRowOf (c ∷ rows) d
unfolding get
get_behind c rows fresh d h = elim (Bool-cases (c.file_id == d.file_id)) [
  | inl e ↦ absurd (ground (arith, get-mem d.file_id rows h))
  | inr e ↦ rw e h
]

pub All-IsRowOf : (rows : List Recording) → HasKeys rows → All (IsRowOf rows) rows
unfolding get
All-IsRowOf [] h = tt
All-IsRowOf (r ∷ rs) h = (
  rw (==_refl r.file_id) refl,
  All-imp (IsRowOf rs) (IsRowOf (r ∷ rs)) (get_behind r rs h.0) rs (All-IsRowOf rs h.1),
)

-- What a claim hands out: rows as they stand in the table that pass its test.
abbrev pub IsPicked : (Recording → Bool) → List Recording → Recording → Type 0
IsPicked test rows r = IsRowOf rows r × (test r ≡ true)

pub picked-All :
    (test : Recording → Bool) (rows : List Recording)
    → HasKeys rows
    → All (IsPicked test rows) (select test rows)
picked-All test rows h = All-select (IsRowOf rows) test rows (All-IsRowOf rows h)

pub claimed-All :
    (test : Recording → Bool) (le : Recording → Recording → Bool) (limit : ℕ)
    (rows : List Recording)
    → HasKeys rows
    → All (IsPicked test rows) (take limit (sort_by le (select test rows)))
claimed-All test le limit rows h =
    All-take (IsPicked test rows) limit (sort_by le (select test rows))
      (All-sort_by (IsPicked test rows) le (select test rows) (picked-All test rows h))

pub claimed-HasKeys :
    (test : Recording → Bool) (le : Recording → Recording → Bool) (limit : ℕ)
    (rows : List Recording)
    → HasKeys rows
    → HasKeys (take limit (sort_by le (select test rows)))
claimed-HasKeys test le limit rows h =
    let id = λ (r : Recording). r.file_id in
    take-IsDistinct id limit (sort_by le (select test rows))
      (sort_by-IsDistinct id le (select test rows) (select-IsDistinct id test rows h))

module _ (f : Recording → Recording) (same : (r : Recording) → (f r).file_id ≡ r.file_id) where
  pub ids-set : (i : ℕ) (rows : List Recording) → ids (set i f rows) ≡ ids rows
  unfolding set
  ids-set i [] = refl
  ids-set i (r ∷ rs) = ground (arith, same r, ids-set i rs)

  pub get-set_other :
      (i j : ℕ) (rows : List Recording) → (i == j) ≡ false → get j (set i f rows) ≡ get j rows
  unfolding set get
  get-set_other i j [] h = refl
  get-set_other i j (r ∷ rs) h = ground (arith, same r, get-set_other i j rs h)

set-absent :
    (f : Recording → Recording) (i : ℕ) (rows : List Recording)
    → mem i (ids rows) ≡ false
    → set i f rows ≡ rows
unfolding set
set-absent f i [] h = refl
set-absent f i (r ∷ rs) h = ground (arith, set-absent f i rs)

-- The sum of a number over the rows.
pub total : (Recording → ℕ) → List Recording → ℕ
total cost [] = 0
total cost (r ∷ rs) = cost r + total cost rs

pub total-set :
    (cost : Recording → ℕ) (f : Recording → Recording) (i : ℕ) (rows : List Recording)
    {r : Recording}
    → HasKeys rows
    → get i rows ≡ some r
    → total cost (set i f rows) + cost r ≡ total cost rows + cost (f r)
unfolding total set get
total-set cost f i [] h found = cc
total-set cost f i (d ∷ ds) {r} h found = elim (Bool-cases (d.file_id == i)) [
  | inl e ↦
      let absent = set-absent f i ds (ground (arith, h.0)) in
      let here : d ≡ r = ground arith in rw (e, absent) (rw here (omega arith))
  | inr e ↦ rw e (omega (arith, total-set cost f i ds h.1 (rw e at found)))
]

pub All-get :
    (P : Recording → Type 0) (i : ℕ) (rows : List Recording) {r : Recording}
    → All P rows
    → get i rows ≡ some r
    → P r
unfolding get
All-get P i [] h found = cc
All-get P i (d ∷ ds) {r} h found = elim (Bool-cases (d.file_id == i)) [
  | inl e ↦ let here : d ≡ r = ground arith in rw here at h.0
  | inr e ↦ All-get P i ds h.1 (rw e at found)
]

pub All-set :
    (P : Recording → Type 0) (f : Recording → Recording) (i : ℕ) (rows : List Recording)
    {r : Recording}
    → HasKeys rows
    → get i rows ≡ some r
    → All P rows
    → P (f r)
    → All P (set i f rows)
unfolding set get
All-set P f i [] h found all new = tt
All-set P f i (d ∷ ds) {r} h found all new = elim (Bool-cases (d.file_id == i)) [
  | inl e ↦
      let absent = set-absent f i ds (ground (arith, h.0)) in
      let here : r ≡ d = ground arith in rw (e, absent) ((rw here at new), all.1)
  | inr e ↦ rw e (all.0, All-set P f i ds h.1 (rw e at found) all.1 new)
]
