-- ===== src/Meetings/Worst.antt =====
-- What `_merge` chooses for each criterion of a long meeting.
use mathlib.Core.List.{Memᴰ}
use atamura_okk.Base.{
  ℕ, ◌≤◌, ◌≡◌, refl, sym, subst, inl, inr, Bool, true, false, some, List, [], ◌∷◌, arith, ltb, ◌==◌,
  ==_iff, mem, map, select, All, Bool-cases, Option-cases, if◌then◌else◌,
}
use atamura_okk.Meetings.Checklist.{
  Criterion, Rubric, sum_max, is_valid, CriterionScore, CallForScoring, ScoreResult, sum_score,
}
use atamura_okk.Meetings.Merge.{
  contains, scores_of, all_scores, pick_from, choose, chosen, Scorer, merge,
}
use atamura_okk.Meetings.Marks.{criterion_ids, is_valid-parts}

-- The lowest of two, or the highest.
abbrev pub Beats : Bool → CriterionScore → CriterionScore → Type 0
Beats true cs d = cs.score ≤ d.score
Beats false cs d = d.score ≤ cs.score

-- A score that one of the chunks gave for this criterion.
abbrev pub Fits : List Criterion → CriterionScore → Type 0
Fits crits d = All (λ c. c.id ≡ d.id → (d.block ≡ c.block) × (d.score ≤ c.max_score)) crits

abbrev pub IsGiven : Criterion → CriterionScore → Type 0
IsGiven crit d = (d.id ≡ crit.id) × (d.block ≡ crit.block) × (d.score ≤ crit.max_score)

Beats-refl : (lowest : Bool) (cs : CriterionScore) → Beats lowest cs cs
Beats-refl true cs = omega arith
Beats-refl false cs = omega arith

Beats-trans :
    (lowest : Bool) (a b c : CriterionScore)
    → Beats lowest a b
    → Beats lowest b c
    → Beats lowest a c
Beats-trans true a b c h k = omega arith
Beats-trans false a b c h k = omega arith

abbrev better : Bool → CriterionScore → CriterionScore → CriterionScore
better lowest cs best =
    if (if lowest then ltb cs.score best.score else ltb best.score cs.score) then cs else best

better-Beats :
    (lowest : Bool) (cs best : CriterionScore)
    → Beats lowest (better lowest cs best) cs × Beats lowest (better lowest cs best) best
better-Beats true cs best = ground arith
better-Beats false cs best = ground arith

better-keeps :
    (P : CriterionScore → Type 0) (lowest : Bool) (cs best : CriterionScore)
    → P cs
    → P best
    → P (better lowest cs best)
better-keeps P lowest cs best h k =
    elim (Bool-cases (if lowest then ltb cs.score best.score else ltb best.score cs.score)) [
      | inl e ↦ rw e h
      | inr e ↦ rw e k
    ]

pick_from-keeps :
    (P : CriterionScore → Type 0) (lowest : Bool) (best : CriterionScore)
    (rest : List CriterionScore)
    → P best
    → All P rest
    → P (pick_from lowest best rest)
unfolding pick_from
pick_from-keeps P lowest best [] h all = h
pick_from-keeps P lowest best (cs ∷ rest) h all =
    pick_from-keeps P lowest (better lowest cs best) rest (better-keeps P lowest cs best all.0 h)
      all.1

pick_from-Beats :
    (lowest : Bool) (best : CriterionScore) (rest : List CriterionScore)
    → Beats lowest (pick_from lowest best rest) best
      × All (Beats lowest (pick_from lowest best rest)) rest
unfolding pick_from
pick_from-Beats lowest best [] = (Beats-refl lowest best, tt)
pick_from-Beats lowest best (cs ∷ rest) =
    let next = better lowest cs best in
    let (first, all) = pick_from-Beats lowest next rest in
    let (over, under) = better-Beats lowest cs best in
    let pick = pick_from lowest next rest in
    (
      Beats-trans lowest pick next best first under,
      (Beats-trans lowest pick next cs first over, all),
    )

All-mem :
    (P : Criterion → Type 0) (crit : Criterion) (crits : List Criterion)
    → Memᴰ crit crits
    → All P crits
    → P crit
All-mem P crit [] m all = elim m [ ]
All-mem P crit (c ∷ crits) (Memᴰ.head e) all = rw e all.0
All-mem P crit (c ∷ crits) (Memᴰ.tail m) all = All-mem P crit crits m all.1

module _ (rubric : Rubric) (scores : List CriterionScore) where
  -- What the merge may put down for a criterion: one of the chunks' scores for it, of which none is
  -- lower in a block that counts the worst chunk, and none is higher in another.
  abbrev pub Settles : Criterion → CriterionScore → Type 0
  Settles crit cs =
      IsGiven crit cs
      × Memᴰ cs scores
      × All (λ d. d.id ≡ crit.id → Beats (contains crit.block rubric.min_merge_blocks) cs d) scores

  scores_of-IsGiven :
      (crit : Criterion)
      → Memᴰ crit rubric.criteria
      → (ds : List CriterionScore) → All (Fits rubric.criteria) ds
      → All (IsGiven crit) (scores_of crit.id ds)
  unfolding scores_of
  scores_of-IsGiven crit m [] h = tt
  scores_of-IsGiven crit m (d ∷ ds) h = elim (Bool-cases (d.id == crit.id)) [
    | inl e ↦
        let same = (==_iff d.id crit.id).0 e in
        let fit =
          All-mem (λ c. c.id ≡ d.id → (d.block ≡ c.block) × (d.score ≤ c.max_score)) crit
            rubric.criteria m h.0 (sym same) in
        rw e ((same, fit.0, fit.1), scores_of-IsGiven crit m ds h.1)
    | inr e ↦ rw e (scores_of-IsGiven crit m ds h.1)
  ]

  scores_of-Mem :
      (i : ℕ) (ds : List CriterionScore)
      → ((d : CriterionScore) → Memᴰ d ds → Memᴰ d scores)
      → All (λ d. Memᴰ d scores) (scores_of i ds)
  unfolding scores_of
  scores_of-Mem i [] within = tt
  scores_of-Mem i (d ∷ ds) within =
      let rest = scores_of-Mem i ds (λ c m. within c (Memᴰ.tail m)) in
      elim (Bool-cases (d.id == i)) [
        | inl e ↦ rw e (within d (Memᴰ.head refl), rest)
        | inr e ↦ rw e rest
      ]

  spread :
      (P : CriterionScore → Type 0) (i : ℕ) (ds : List CriterionScore)
      → All P (scores_of i ds)
      → All (λ d. d.id ≡ i → P d) ds
  unfolding scores_of
  spread P i [] h = tt
  spread P i (d ∷ ds) h = elim (Bool-cases (d.id == i)) [
    | inl e ↦ let (here, rest) = rw e at h in ((λ _. here), spread P i ds rest)
    | inr e ↦ ((λ same. absurd (ground arith)), spread P i ds (rw e at h))
  ]

  choose-Settles :
      (crit : Criterion) (ds : List CriterionScore)
      → scores_of crit.id scores ≡ ds
      → All (IsGiven crit) ds
      → {cs : CriterionScore} → choose rubric ds ≡ some cs
      → Settles crit cs
  unfolding choose
  choose-Settles crit [] e given h = cc
  choose-Settles crit (d ∷ ds) e given {cs} h =
      let lowest = contains crit.block rubric.min_merge_blocks in
      let first : pick_from (contains d.block rubric.min_merge_blocks) d ds ≡ cs = cc in
      let pick : pick_from lowest d ds ≡ cs =
        subst (λ b. pick_from (contains b rubric.min_merge_blocks) d ds ≡ cs) given.0.1 first in
      let (own, all) = pick_from-Beats lowest d ds in
      let listed = rw e at (scores_of-Mem crit.id scores (λ c m. m)) in
      subst (Settles crit) pick (
        pick_from-keeps (IsGiven crit) lowest d ds given.0 given.1,
        pick_from-keeps (λ c. Memᴰ c scores) lowest d ds listed.0 listed.1,
        spread (Beats lowest (pick_from lowest d ds)) crit.id scores (rw e (own, all)),
      )

  -- The chosen scores, for a part of the rubric's criteria.
  chosen_lem :
      All (Fits rubric.criteria) scores
      → (crits : List Criterion)
      → ((crit : Criterion) → Memᴰ crit crits → Memᴰ crit rubric.criteria)
      → All
          (λ cs. (crit : Criterion) × Memᴰ crit rubric.criteria × Settles crit cs)
          (chosen rubric scores crits)
        × (sum_score (chosen rubric scores crits) ≤ sum_max crits)
  unfolding chosen sum_score sum_max
  chosen_lem fits [] within = (tt, omega arith)
  chosen_lem fits (crit ∷ crits) within =
      let here = within crit (Memᴰ.head refl) in
      let (rest, sum) = chosen_lem fits crits (λ c m. within c (Memᴰ.tail m)) in
      let given = scores_of-IsGiven crit here scores fits in
      elim (Option-cases (choose rubric (scores_of crit.id scores))) [
        | inl e ↦ rw (e, chosen) (rest, omega (arith, sum))
        | inr (cs, e) ↦
            let settled = choose-Settles crit (scores_of crit.id scores) refl given e in
            rw (e, chosen) (((crit, here, settled), rest), omega (arith, sum, settled.0.2))
      ]

  -- Whether a chunk scores the criterion.
  abbrev pub is_scored : Criterion → Bool
  is_scored crit = mem crit.id (map (λ d. d.id) scores)

  unscored :
      (i : ℕ) (ds : List CriterionScore) → mem i (map (λ d. d.id) ds) ≡ false → scores_of i ds ≡ []
  unfolding scores_of
  unscored i [] h = refl
  unscored i (d ∷ ds) h =
      let other : (d.id == i) ≡ false = ground arith in rw other (unscored i ds (ground arith))

  scored :
      (i : ℕ) (ds : List CriterionScore)
      → mem i (map (λ d. d.id) ds) ≡ true
      → (d : CriterionScore) × (rest : List CriterionScore) × (scores_of i ds ≡ d ∷ rest)
  unfolding scores_of
  scored i [] h = absurd (cc)
  scored i (d ∷ ds) h = elim (Bool-cases (d.id == i)) [
    | inl e ↦ (d, scores_of i ds, rw e refl)
    | inr e ↦ let (c, rest, eq) = scored i ds (rw e at h) in (c, rest, rw e eq)
  ]

  ids-chosen :
      All (Fits rubric.criteria) scores
      → (crits : List Criterion)
      → ((crit : Criterion) → Memᴰ crit crits → Memᴰ crit rubric.criteria)
      → map (λ cs. cs.id) (chosen rubric scores crits) ≡ criterion_ids (select is_scored crits)
  unfolding chosen choose
  ids-chosen fits [] within = refl
  ids-chosen fits (crit ∷ crits) within =
      let here = within crit (Memᴰ.head refl) in
      let rest = ids-chosen fits crits (λ c m. within c (Memᴰ.tail m)) in
      let given = scores_of-IsGiven crit here scores fits in
      elim (Bool-cases (is_scored crit)) [
        | inr e ↦ rw (e, unscored crit.id scores e, chosen) rest
        | inl e ↦
            let (d, ds, eq) = scored crit.id scores e in
            let pick = choose-Settles crit (d ∷ ds) eq (rw eq at given) refl in
            rw (e, eq, chosen) (rw (pick.0.0, rest) refl)
      ]

-- Merging the chunks of a long meeting, where the rubric is valid and the chunks' scores are within it:
-- every score of the result is one that a chunk gave for a criterion of the rubric. In the blocks that describe
-- the whole meeting no chunk has a lower score for it, so a clean chunk hides nothing; in the others
-- none has a higher one. The result has each criterion that a chunk scores once, in the rubric's
-- order. The total is at most the rubric's maximum.
pub merge-Settles :
    (s : Scorer) (first : ScoreResult) (rest : List ScoreResult) (call : CallForScoring)
    → is_valid s.rubric ≡ true
    → All (Fits s.rubric.criteria) (all_scores (first ∷ rest))
    → let r = merge s first rest call in
      All
        (λ cs.
          (crit : Criterion) × Memᴰ crit s.rubric.criteria
          × Settles s.rubric (all_scores (first ∷ rest)) crit cs)
        r.criteria
      × (map (λ cs. cs.id) r.criteria
          ≡ criterion_ids
              (select (is_scored s.rubric (all_scores (first ∷ rest))) s.rubric.criteria))
      × (r.total_score ≤ r.max_total)
unfolding merge
merge-Settles s first rest call valid fits =
    let (sums, distinct) = is_valid-parts s.rubric valid in
    let (all, total) =
      chosen_lem s.rubric (all_scores (first ∷ rest)) fits s.rubric.criteria (λ c m. m) in
    let ids = ids-chosen s.rubric (all_scores (first ∷ rest)) fits s.rubric.criteria (λ c m. m) in
    (all, ids, omega (arith, sums, total))
