-- ===== src/Scoring/Total.antt =====
-- `_assemble` over the whole sheet: what it accepts, and what its totals are.
use atamura_okk.Base.{
  sort_by, leb, ℕ, ◌≤◌, ◌≡◌, refl, sym, ap, ◌∙◌, inl, inr, String, false, Option, List, [], ◌∷◌,
  ◌++◌, arith, ◌==◌, str_eq, Bool-cases, All, length,
}
use mathlib.Core.List.{append-nil, append_assoc}
use atamura_okk.Scoring.Rubric.{Criterion, Block, Rubric, block_list, zone_for}
use atamura_okk.Scoring.CallScore.{CriterionScore, CallScore}
use atamura_okk.Scoring.Percent.{percent}
use atamura_okk.Scoring.Flat.{
  kept_criteria, applicable_entries, unanswered, total_yes, IsTallyOf, entries_join,
  unanswered_join, total_join, length_join, tally_block-IsTallyOf, IsSheetOf, IsNewId, store-sums,
  store-IsNewId,
}
use atamura_okk.Scoring.Assemble.{
  Entry, Tally, empty_tally, tally_block, Sheet, empty_sheet, to_block_score, add_block, is_dropped,
  sheet_step, sheet_of, sum_score, sum_max, payload_of, payload, omitted, Payload, assemble, finish,
}

-- Block ids are distinct, as the rubric files have them.
abbrev pub IsDistinctIds : List Block → Type 0
IsDistinctIds [] = Unit {0}
IsDistinctIds (b ∷ bs) = All (λ c. str_eq b.id c.id ≡ false) bs × IsDistinctIds bs

-- The sums over the blocks are the sums over the rows.
abbrev IsSummed : Sheet → Type 0
IsSummed s =
    (sum_score s.blocks ≡ total_yes s.per_criterion) × (sum_max s.blocks ≡ length s.per_criterion)

module _ (r : CallScore) where
  abbrev verdicts : List CriterionScore
  verdicts = r.criteria

  no_entries : (es : List Entry) → length es ≡ 0 → es ≡ []
  no_entries [] h = refl
  no_entries (e ∷ es) h = absurd (omega (arith, h))

  add_block-IsSheetOf :
      (b : Block) (cs : List Criterion) (t : Tally) (s : Sheet)
      → IsTallyOf verdicts cs empty_tally t
      → IsSheetOf verdicts cs s (add_block b t s)
  unfolding add_block
  add_block-IsSheetOf b cs t s (e, m, y, a) = elim (Bool-cases (t.applicable == 0)) [
    | inl z ↦
        let none_left : applicable_entries verdicts cs ≡ [] =
          no_entries (applicable_entries verdicts cs) (ground (arith, a)) in
        rw z (
          sym (append-nil s.per_criterion) ∙ ap (λ es. s.per_criterion ++ es) (sym none_left),
          ap (λ ms. s.missing ++ ms) m,
        )
    | inr z ↦ rw z (ap (λ es. s.per_criterion ++ es) e, ap (λ ms. s.missing ++ ms) m)
  ]

  add_block-IsSummed :
      (b : Block) (cs : List Criterion) (t : Tally) (s : Sheet)
      → IsTallyOf verdicts cs empty_tally t
      → IsNewId b.id s.blocks
      → IsSummed s
      → IsSummed (add_block b t s)
  unfolding add_block
  add_block-IsSummed b cs t s (e, m, y, a) new (h, k) = elim (Bool-cases (t.applicable == 0)) [
    | inl z ↦ rw z (h, k)
    | inr z ↦
        let (score_sum, max_sum) = store-sums (to_block_score b t) s.blocks new in
        rw z (
          omega (
            arith,
            score_sum,
            h,
            y,
            ap total_yes e,
            total_join verdicts s.per_criterion t.entries,
          ),
          omega (arith, max_sum, k, a, ap length e, length_join verdicts s.per_criterion t.entries),
        )
  ]

  add_block-IsNewId :
      (id : String) (b : Block) (t : Tally) (s : Sheet)
      → str_eq b.id id ≡ false
      → IsNewId id s.blocks
      → IsNewId id (add_block b t s).blocks
  unfolding add_block
  add_block-IsNewId id b t s h k = elim (Bool-cases (t.applicable == 0)) [
    | inl z ↦ rw z k
    | inr z ↦ rw z (store-IsNewId id (to_block_score b t) s.blocks h k)
  ]

  -- The ids of the blocks that are still to come are new to the sheet.
  abbrev AreNew : List Block → Sheet → Type 0
  AreNew bs s = All (λ b. IsNewId b.id s.blocks) bs

  sheet_step-AreNew :
      (b : Block) (bs : List Block) (s : Sheet)
      → All (λ c. str_eq b.id c.id ≡ false) bs
      → AreNew bs s
      → AreNew bs (sheet_step r b s)
  unfolding sheet_step
  sheet_step-AreNew b [] s h k = tt
  sheet_step-AreNew b (c ∷ cs) s h k = (at_first, sheet_step-AreNew b cs s h.1 k.1)
    where
      at_first : IsNewId c.id (sheet_step r b s).blocks
      at_first = elim (Bool-cases (is_dropped r b)) [
        | inl d ↦ rw d k.0
        | inr d ↦
            rw d (add_block-IsNewId c.id b (tally_block verdicts b.criteria empty_tally) s h.0 k.0)
      ]

  sheet_step-IsSummed :
      (b : Block) (s : Sheet) → IsNewId b.id s.blocks → IsSummed s → IsSummed (sheet_step r b s)
  unfolding sheet_step
  sheet_step-IsSummed b s new h = elim (Bool-cases (is_dropped r b)) [
    | inl d ↦ rw d h
    | inr d ↦ rw d (
        add_block-IsSummed b b.criteria _ s (tally_block-IsTallyOf verdicts b.criteria empty_tally)
          new h)
  ]

  sheet_of-IsSummed :
      (bs : List Block) (s : Sheet)
      → IsDistinctIds bs
      → AreNew bs s
      → IsSummed s
      → IsSummed (sheet_of r bs s)
  unfolding sheet_of
  sheet_of-IsSummed [] s d new h = h
  sheet_of-IsSummed (b ∷ bs) s d new h =
      sheet_of-IsSummed bs (sheet_step r b s) d.1 (sheet_step-AreNew b bs s d.0 new.1)
        (sheet_step-IsSummed b s new.0 h)

  IsSheetOf-join :
      (cs ds : List Criterion) (s s1 s2 : Sheet)
      → IsSheetOf verdicts cs s s1
      → IsSheetOf verdicts ds s1 s2
      → IsSheetOf verdicts (cs ++ ds) s s2
  IsSheetOf-join cs ds s s1 s2 (e1, m1) (e2, m2) =
      rw (entries_join verdicts cs ds, unanswered_join verdicts cs ds)
        (
          e2
              ∙ (ap (λ xs. xs ++ applicable_entries verdicts ds) e1
                  ∙ append_assoc s.per_criterion (applicable_entries verdicts cs)
                      (applicable_entries verdicts ds)),
          m2
              ∙ (ap (λ xs. xs ++ unanswered verdicts ds) m1
                  ∙ append_assoc s.missing (unanswered verdicts cs) (unanswered verdicts ds)),
        )

  sheet_of-IsSheetOf :
      (bs : List Block) (s : Sheet) → IsSheetOf verdicts (kept_criteria r bs) s (sheet_of r bs s)
  unfolding sheet_of sheet_step applicable_entries unanswered
  sheet_of-IsSheetOf [] s = (sym (append-nil s.per_criterion), sym (append-nil s.missing))
  sheet_of-IsSheetOf (b ∷ bs) s = elim (Bool-cases (is_dropped r b)) [
    | inl d ↦ rw (d, sheet_of, sheet_step) (sheet_of-IsSheetOf bs s)
    | inr d ↦
        let t = tally_block verdicts b.criteria empty_tally in
        rw (d, sheet_of, sheet_step)
          (IsSheetOf-join b.criteria (kept_criteria r bs) s (add_block b t s)
            (sheet_of r bs (add_block b t s))
            (add_block-IsSheetOf b b.criteria t s
              (tally_block-IsTallyOf verdicts b.criteria empty_tally))
            (sheet_of-IsSheetOf bs (add_block b t s)))
  ]

  -- Each row scores at most one point.
  total_yes-le :
      (cs : List Criterion)
      → total_yes (applicable_entries verdicts cs) ≤ length (applicable_entries verdicts cs)
  unfolding applicable_entries
  total_yes-le [] = omega arith
  total_yes-le (c ∷ cs) = ground (arith, total_yes-le cs)

  AreNew-empty : (bs : List Block) → AreNew bs empty_sheet
  AreNew-empty [] = tt
  AreNew-empty (b ∷ bs) = (tt, AreNew-empty bs)

module _ (r : CallScore) (rubric : Rubric) (category : Option String) where
  abbrev kept : List Criterion
  kept = kept_criteria r (block_list rubric)

  abbrev rows : List Entry
  rows = applicable_entries r.criteria kept

  -- An assessment that leaves out a mandatory element is refused, and the refusal names exactly the
  -- elements that are left out, in ascending order.
  pub assemble-omitted :
      (m : ℕ) (ms : List ℕ)
      → unanswered r.criteria kept ≡ m ∷ ms
      → assemble r rubric category ≡ omitted (sort_by leb (m ∷ ms))
  unfolding assemble
  assemble-omitted m ms h =
      let (e, missing) = sheet_of-IsSheetOf r (block_list rubric) empty_sheet in
      ap (λ xs. finish r rubric category (sheet_of r (block_list rubric) empty_sheet) xs)
        (missing ∙ h)

  abbrev pub IsFlat : Payload → Type 0
  IsFlat p =
      (p.per_criterion ≡ rows)
      × (p.raw_points ≡ total_yes rows)
      × (p.max_points ≡ length rows)
      × (p.percent ≡ percent (total_yes rows) (length rows))
      × (p.zone ≡ zone_for rubric.zones p.percent)
      × (total_yes rows ≤ length rows)

  -- Where no two blocks of the rubric have the same id, an assessment that answers every mandatory
  -- element is scored by the flat model: the breakdown is the list of the applicable elements of the blocks that count, in sheet order; the points are
  -- the number of ДА among them and the maximum is their number, however they are spread over the
  -- blocks; percent and zone follow from the two.
  pub assemble-IsFlat :
      IsDistinctIds (block_list rubric)
      → unanswered r.criteria kept ≡ []
      → (p : Payload) × (assemble r rubric category ≡ payload p) × IsFlat p
  unfolding assemble payload_of
  assemble-IsFlat distinct h =
      let s = sheet_of r (block_list rubric) empty_sheet in
      let (e, missing) = sheet_of-IsSheetOf r (block_list rubric) empty_sheet in
      let (yes_sum, max_sum) =
        sheet_of-IsSummed r (block_list rubric) empty_sheet distinct
          (AreNew-empty r (block_list rubric)) (refl, refl) in
      let points : sum_score s.blocks ≡ total_yes rows = yes_sum ∙ ap total_yes e in
      let most : sum_max s.blocks ≡ length rows = max_sum ∙ ap length e in
      (
        payload_of r rubric category s,
        ap (λ xs. finish r rubric category s xs) (missing ∙ h),
        (
          e,
          points,
          most,
          ap (λ n. percent n (sum_max s.blocks)) points ∙ ap (λ n. percent (total_yes rows) n) most,
          refl,
          total_yes-le r kept,
        ),
      )
