-- ===== src/Meetings/Sweep.antt =====
-- A loop over claimed recordings that changes, for each of them, its own row: what it keeps and
-- what it costs.
use atamura_okk.Base.{
  ℕ, ◌+◌, ◌≤◌, ◌≡◌, sym, Bool, true, false, List, [], ◌∷◌, arith, ◌∙◌, subst, mem, All, sweep,
}
use atamura_okk.Base.Distinct.{IsDistinct}
use atamura_okk.Meetings.Recordings.{Recording, set}
use atamura_okk.Meetings.Table.{
  ids, HasKeys, IsRowOf, IsPicked, ids-set, get-set_other, total, total-set, All-get, All-set,
}

module _ {X : Type 0} (table : X → List Recording) (gained : X → ℕ) (P : Recording → Type 0)
    (cost : Recording → ℕ) where
  -- A step writes one row, keeps the property and pays for what it gains.
  abbrev pub Pays : Recording → X → X → Type 0
  Pays r x y =
      (f : Recording → Recording) × ((d : Recording) → (f d).file_id ≡ d.file_id)
      × (table y ≡ set r.file_id f (table x))
      × P (f r)
      × (cost (f r) + gained y ≤ cost r + gained x)

  abbrev pub IsFine : X → Type 0
  IsFine x = HasKeys (table x) × All P (table x)

  module _ (test : Recording → Bool) (one : Recording → X → X)
      (pays : (r : Recording) (x : X)
        → IsRowOf (table x) r
        → test r ≡ true
        → P r
        → Pays r x (one r x)) where
    one_lem :
        (r : Recording) (x : X)
        → IsPicked test (table x) r
        → IsFine x
        → IsFine (one r x)
          × (total cost (table (one r x)) + gained (one r x) ≤ total cost (table x) + gained x)
    one_lem r x (row, passed) (distinct, all) =
        let (f, same, eq, new, cheap) =
          pays r x row passed (All-get P r.file_id (table x) all row) in
        let sum = total-set cost f r.file_id (table x) distinct row in
        rw eq (
          (
            subst IsDistinct (sym (ids-set f same r.file_id (table x))) distinct,
            All-set P f r.file_id (table x) distinct row all new,
          ),
          omega (arith, sum, cheap),
        )

    others :
        (r : Recording) (x : X)
        → IsPicked test (table x) r
        → All P (table x)
        → (rs : List Recording) → mem r.file_id (ids rs) ≡ false
        → All (IsPicked test (table x)) rs
        → All (IsPicked test (table (one r x))) rs
    others r x p all [] fresh h = tt
    others r x p all (d ∷ ds) fresh h =
        let (f, same, eq, new, cheap) = pays r x p.0 p.1 (All-get P r.file_id (table x) all p.0) in
        let other = get-set_other f same r.file_id d.file_id (table x) (ground arith) in
        ((rw eq (other ∙ h.0.0), h.0.1), others r x p all ds (ground arith) h.1)

    -- The whole loop.
    pub sweep_lem :
        (rs : List Recording) (x : X)
        → HasKeys rs
        → All (IsPicked test (table x)) rs
        → IsFine x
        → IsFine (sweep one rs x)
          × (total cost (table (sweep one rs x)) + gained (sweep one rs x)
              ≤ total cost (table x) + gained x)
    unfolding sweep
    sweep_lem [] x distinct picked fine = (fine, omega arith)
    sweep_lem (r ∷ rs) x distinct picked fine =
        let (fine', cheap) = one_lem r x picked.0 fine in
        let rest = others r x picked.0 fine.1 rs distinct.0 picked.1 in
        let (fine'', cheap') = sweep_lem rs (one r x) distinct.1 rest fine' in
        (fine'', omega (arith, cheap, cheap'))
