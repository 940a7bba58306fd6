-- ===== src/Scoring/Flat.antt =====
-- The flat model of the score: `_assemble` (AtamuraOKK/scoring/worker.py) against a description that
-- lists the applicable elements of the sheet in order.
use atamura_okk.Base.{
  ℕ, ◌+◌, ◌≡◌, refl, sym, ap, ◌∙◌, inl, inr, String, false, ◌&&◌, not, none, some, List, [], ◌∷◌,
  ◌++◌, arith, str_eq, if◌then◌else◌, Bool-cases, Option-cases, All, length,
}
use mathlib.Core.List.{append-nil, append_assoc}
use atamura_okk.Scoring.Rubric.{Criterion, na_allowed, Block}
use atamura_okk.Scoring.CallScore.{CriterionScore, CallScore}
use atamura_okk.Scoring.Assemble.{
  Entry, BlockScore, by_id, to_entry, Tally, tally_one, tally_block, Sheet, store_block, is_dropped,
  sum_score, sum_max,
}

-- The criteria of the blocks that count, in sheet order.
abbrev pub kept_criteria : CallScore → List Block → List Criterion
kept_criteria r [] = []
kept_criteria r (b ∷ bs) =
    let rest = kept_criteria r bs in if is_dropped r b then rest else b.criteria ++ rest

-- The rows of the elements that have a verdict and apply.
unfoldable pub applicable_entries : List CriterionScore → List Criterion → List Entry
applicable_entries verdicts [] = []
applicable_entries verdicts (c ∷ cs) =
    let rest = applicable_entries verdicts cs in
    elim (by_id c.id verdicts) [
      | none ↦ rest
      | some v ↦ if na_allowed c && not v.applicable then rest else to_entry c v ∷ rest
    ]

-- The mandatory elements without a verdict.
unfoldable pub unanswered : List CriterionScore → List Criterion → List ℕ
unanswered verdicts [] = []
unanswered verdicts (c ∷ cs) =
    let rest = unanswered verdicts cs in
    elim (by_id c.id verdicts) [ none ↦ if na_allowed c then rest else c.id ∷ rest | some v ↦ rest ]

-- The number of ДА.
abbrev pub total_yes : List Entry → ℕ
total_yes [] = 0
total_yes (e ∷ es) = e.score + total_yes es

-- One element, and one block, as the inner loop treats them.
abbrev pub IsTallyOf : List CriterionScore → List Criterion → Tally → Tally → Type 0
IsTallyOf verdicts cs t t' =
    (t'.entries ≡ t.entries ++ applicable_entries verdicts cs)
    × (t'.missing ≡ t.missing ++ unanswered verdicts cs)
    × (t'.yes ≡ t.yes + total_yes (applicable_entries verdicts cs))
    × (t'.applicable ≡ t.applicable + length (applicable_entries verdicts cs))

module _ (verdicts : List CriterionScore) where
  kept_tally : (t : Tally) → (t.entries ≡ t.entries ++ []) × (t.missing ≡ t.missing ++ [])
  kept_tally t = (sym (append-nil t.entries), sym (append-nil t.missing))

  tally_one-IsTallyOf :
      (c : Criterion) (t : Tally) → IsTallyOf verdicts (c ∷ []) t (tally_one verdicts c t)
  unfolding tally_one applicable_entries unanswered
  tally_one-IsTallyOf c t = elim (Option-cases (by_id c.id verdicts)) [
    | inl e ↦ elim (Bool-cases (na_allowed c)) [
      | inl a ↦ ground (arith, kept_tally t)
      | inr a ↦ ground (arith, kept_tally t)
    ]
    | inr (v, e) ↦ elim (Bool-cases (na_allowed c && not v.applicable)) [
      | inl a ↦ ground (arith, kept_tally t)
      | inr a ↦ ground (arith, kept_tally t)
    ]
  ]

  pub entries_join :
      (cs ds : List Criterion)
      → applicable_entries verdicts (cs ++ ds)
        ≡ applicable_entries verdicts cs ++ applicable_entries verdicts ds
  unfolding applicable_entries
  entries_join [] ds = refl
  entries_join (c ∷ cs) ds = ground (arith, entries_join cs ds)

  pub unanswered_join :
      (cs ds : List Criterion)
      → unanswered verdicts (cs ++ ds) ≡ unanswered verdicts cs ++ unanswered verdicts ds
  unfolding unanswered
  unanswered_join [] ds = refl
  unanswered_join (c ∷ cs) ds = ground (arith, unanswered_join cs ds)

  pub total_join : (es fs : List Entry) → total_yes (es ++ fs) ≡ total_yes es + total_yes fs
  total_join [] fs = omega arith
  total_join (e ∷ es) fs = omega (arith, total_join es fs)

  pub length_join : (es fs : List Entry) → length (es ++ fs) ≡ length es + length fs
  length_join [] fs = omega arith
  length_join (e ∷ es) fs = omega (arith, length_join es fs)

  IsTallyOf-join :
      (cs ds : List Criterion) (t t1 t2 : Tally)
      → IsTallyOf verdicts cs t t1
      → IsTallyOf verdicts ds t1 t2
      → IsTallyOf verdicts (cs ++ ds) t t2
  IsTallyOf-join cs ds t t1 t2 (e1, m1, y1, a1) (e2, m2, y2, a2) =
      let es = applicable_entries verdicts cs in
      let fs = applicable_entries verdicts ds in
      rw (entries_join cs ds, unanswered_join cs ds)
        (
          e2 ∙ (ap (λ xs. xs ++ fs) e1 ∙ append_assoc t.entries es fs),
          m2
              ∙ (ap (λ xs. xs ++ unanswered verdicts ds) m1
                  ∙ append_assoc t.missing (unanswered verdicts cs) (unanswered verdicts ds)),
          omega (arith, y1, y2, total_join es fs),
          omega (arith, a1, a2, length_join es fs),
        )

  pub tally_block-IsTallyOf :
      (cs : List Criterion) (t : Tally) → IsTallyOf verdicts cs t (tally_block verdicts cs t)
  unfolding tally_block applicable_entries unanswered
  tally_block-IsTallyOf [] t = let (e, m) = kept_tally t in (e, m, omega arith, omega arith)
  tally_block-IsTallyOf (c ∷ cs) t =
      IsTallyOf-join (c ∷ []) cs t (tally_one verdicts c t) _ (tally_one-IsTallyOf c t)
        (tally_block-IsTallyOf cs (tally_one verdicts c t))

-- The sheet after some blocks, against the list of the criteria that count.
abbrev pub IsSheetOf : List CriterionScore → List Criterion → Sheet → Sheet → Type 0
IsSheetOf verdicts cs s s' =
    (s'.per_criterion ≡ s.per_criterion ++ applicable_entries verdicts cs)
    × (s'.missing ≡ s.missing ++ unanswered verdicts cs)

-- A block whose id is new to the sheet adds its numbers to the sums.
abbrev pub IsNewId : String → List BlockScore → Type 0
IsNewId id bs = All (λ b. str_eq b.id id ≡ false) bs

pub store-sums :
    (b : BlockScore) (bs : List BlockScore)
    → IsNewId b.id bs
    → (sum_score (store_block b bs) ≡ b.score + sum_score bs)
      × (sum_max (store_block b bs) ≡ b.max + sum_max bs)
unfolding store_block sum_score sum_max
store-sums b [] h = (refl, refl)
store-sums b (c ∷ cs) h = ground (arith, store-sums b cs h.1)

pub store-IsNewId :
    (id : String) (b : BlockScore) (bs : List BlockScore)
    → str_eq b.id id ≡ false
    → IsNewId id bs
    → IsNewId id (store_block b bs)
unfolding store_block
store-IsNewId id b [] h k = (h, tt)
store-IsNewId id b (c ∷ cs) h k = elim (Bool-cases (str_eq c.id b.id)) [
  | inl e ↦ rw e (h, k.1)
  | inr e ↦ rw e (k.0, store-IsNewId id b cs h k.1)
]
