-- ===== src/Pipeline/Tracks/Writes.antt =====
-- The three ways of writing rows: one row under its key, all rows that pass a test, a list of rows.
use atamura_okk.Base.{
  ℕ, ◌≡◌, refl, ◌∙◌, inl, inr, Bool, true, false, Option, none, some, List, [], ◌∷◌, arith, ◌==◌,
  Bool-cases, All, subst,
}
use atamura_okk.Store.{ids, Call, get, put, update_where}
use atamura_okk.Store.Laws.{
  ids-put, ids-update_where, get-put_found, get-put_other, get-update_where, alter,
}
use atamura_okk.Settings.{Settings}
use atamura_okk.Ingestion.Scope.{put_all}
use atamura_okk.Pipeline.Rows.{RowStep, same, Evolves, absent, row}

module _ (s : Settings) where
  -- Under every key the row evolves by one row step.
  abbrev pub Follows : (ℕ → Bool) → (ℕ → Bool) → List Call → List Call → Type 0
  Follows t t' cs cs' = (j : ℕ) → Evolves s (t j) (t' j) (get j cs) (get j cs')

  -- So it does, and no key is added, lost or changed.
  abbrev pub Tracks : (ℕ → Bool) → (ℕ → Bool) → List Call → List Call → Type 0
  Tracks t t' cs cs' = (ids cs' ≡ ids cs) × Follows t t' cs cs'

  pub Evolves-refl : (b b' : Bool) → b' ≡ b → (o : Option Call) → Evolves s b b' o o
  Evolves-refl b b' h none = absent h
  Evolves-refl b b' h (some c) = row (same h)

  pub Tracks-refl : (t : ℕ → Bool) (cs : List Call) → Tracks t t cs cs
  Tracks-refl t cs = (refl, λ j. Evolves-refl (t j) (t j) refl (get j cs))

  -- No row disappears.
  none_left : {b b' : Bool} {c : Call} → Evolves s b b' (some c) none → ⊥
  none_left ev = elim ev [ ]

  pub put-Tracks :
      (t t' : ℕ → Bool) (i : ℕ) (cs : List Call) (c c' : Call)
      → get i cs ≡ some c
      → c'.id ≡ i
      → RowStep s (t i) (t' i) c c'
      → ((j : ℕ) → (i == j) ≡ false → t' j ≡ t j)
      → Tracks t t' cs (put c' cs)
  put-Tracks t t' i cs c c' found key st flags = (
    ids-put c' cs,
    λ j. elim (Bool-cases (c'.id == j)) [
      | inl e ↦
          let at_j : i ≡ j = ground arith in
          subst (λ k. Evolves s (t k) (t' k) (get k cs) (get k (put c' cs))) at_j
            (rw (found, get-put_found i c' cs key found) (row st))
      | inr e ↦
          rw (get-put_other j c' cs e)
            (Evolves-refl (t j) (t' j) (flags j (ground arith)) (get j cs))
    ],
  )

  pub update-Tracks :
      (t : ℕ → Bool) (p : Call → Bool) (f : Call → Call)
      → ((c : Call) → (f c).id ≡ c.id)
      → (cs : List Call)
      → ((j : ℕ) (c : Call) → get j cs ≡ some c → p c ≡ true → RowStep s (t j) (t j) c (f c))
      → Tracks t t cs (update_where p f cs)
  update-Tracks t p f keeps cs st = (
    ids-update_where p f keeps cs,
    λ j. rw (get-update_where p f keeps j cs) (at_row j (get j cs) refl),
  )
    where
      at_row : (j : ℕ) (o : Option Call) → get j cs ≡ o → Evolves s (t j) (t j) o (alter p f o)
      at_row j none e = absent refl
      at_row j (some c) e = elim (Bool-cases (p c)) [
        | inl hit ↦ rw hit (row (st j c e hit))
        | inr miss ↦ rw miss (row (same refl))
      ]

  -- A row that was derived from the row that `cs` has under its key.
  abbrev pub IsDerived : (ℕ → Bool) → List Call → Call → Type 0
  IsDerived t cs c' = (c : Call) × (get c'.id cs ≡ some c) × RowStep s (t c'.id) (t c'.id) c c'

  -- Writing a derived row over a table that already went on from `cs`.
  pub put_derived :
      (t : ℕ → Bool) (cs now : List Call) (c' : Call)
      → Tracks t t cs now
      → IsDerived t cs c'
      → Tracks t t cs (put c' now)
  put_derived t cs now c' (same_ids, so_far) (c, found, st) = (
    ids-put c' now ∙ same_ids,
    λ j. elim (Bool-cases (c'.id == j)) [
      | inl e ↦
          let at_j : c'.id ≡ j = ground arith in
          subst (λ k. Evolves s (t k) (t k) (get k cs) (get k (put c' now))) at_j
            (over (get c'.id now) refl (rw found at (so_far c'.id)))
      | inr e ↦ rw (get-put_other j c' now e) (so_far j)
    ],
  )
    where
      over :
          (o : Option Call)
          → get c'.id now ≡ o
          → Evolves s (t c'.id) (t c'.id) (some c) o
          → Evolves s (t c'.id) (t c'.id) (get c'.id cs) (get c'.id (put c' now))
      over none e ev = elim (none_left ev) [ ]
      over (some d) e ev = rw (found, get-put_found c'.id c' now refl e) (row st)

  pub put_all-Tracks :
      (t : ℕ → Bool) (cs : List Call) (rows now : List Call)
      → Tracks t t cs now
      → All (IsDerived t cs) rows
      → Tracks t t cs (put_all rows now)
  unfolding put_all
  put_all-Tracks t cs [] now so_far h = so_far
  put_all-Tracks t cs (c ∷ rows) now so_far h =
      put_all-Tracks t cs rows (put c now) (put_derived t cs now c so_far h.0) h.1
