-- ===== src/Meetings/Marks.antt =====
-- What `assemble_score` awards, and that no criterion gets more than its maximum.
use Prim.Native.Nat.{min}
use mathlib.Core.List.{append_assoc, append-nil}
use atamura_okk.Base.{
  ℕ, ◌+◌, ◌*◌, ◌≤◌, ◌<◌, ◌≡◌, refl, sym, ◌∙◌, inl, inr, String, Bool, true, false, Option, none,
  some, List, [], ◌∷◌, ◌++◌, map, arith, leb, ltb, ◌==◌, ==_refl, ==_iff, str_eq, mem, not, is_some,
  All, Bool-cases, Option-cases, and_true, if◌then◌else◌,
}
use atamura_okk.Base.Distinct.{IsDistinct}
use atamura_okk.Meetings.Checklist.{
  Criterion, Rubric, auto_score, auto_scores, sum_max, has_duplicates, is_valid, Points,
  non_negative, negative, LlmScore, CriterionScore, CallForScoring, ScoreResult, sum_score,
}
use atamura_okk.Meetings.Assemble.{
  Marked, to_score, mark_points, mark_one, mark_all, assemble_score, tenths, bonus, finish,
}

abbrev pub points : ℕ → Option Points → ℕ
points most none = 0
points most (some (negative n)) = 0
points most (some (non_negative n)) = min n most

abbrev pub award_of : Criterion → Option ℕ → Option Points → ℕ
award_of crit (some fixed) raw = fixed
award_of crit none raw = points crit.max_score raw

-- The points of a criterion: what its rule fixes, or what the model answers, within 0 and the
-- maximum; nothing for no answer.
abbrev pub award : (ℕ → Option ℕ) → (ℕ → Option Points) → Criterion → CriterionScore
award auto scores crit =
    to_score crit (award_of crit (auto crit.id) (scores crit.id)) (is_some (auto crit.id))

mark_points-criteria :
    (crit : Criterion) (raw : Points) (m : Marked)
    → (mark_points crit raw m).criteria
      ≡ m.criteria ++ (to_score crit (points crit.max_score (some raw)) false ∷ [])
unfolding mark_points
mark_points-criteria crit (negative n) m = refl
mark_points-criteria crit (non_negative n) m = elim (Bool-cases (ltb crit.max_score n)) [
  | inl e ↦ rw e refl
  | inr e ↦ let small : min n crit.max_score ≡ n = ground arith in rw (e, small) refl
]

module _ (auto : ℕ → Option ℕ) (scores : ℕ → Option Points) where
  mark_one-criteria :
      (crit : Criterion) (m : Marked)
      → (mark_one auto scores crit m).criteria ≡ m.criteria ++ (award auto scores crit ∷ [])
  unfolding mark_one
  mark_one-criteria crit m = elim (Option-cases (auto crit.id)) [
    | inr (fixed, e) ↦ rw (e, mark_one) refl
    | inl e ↦ elim (Option-cases (scores crit.id)) [
      | inl k ↦ rw (e, mark_one) (rw k refl)
      | inr (raw, k) ↦ rw (e, mark_one) (rw k (mark_points-criteria crit raw m))
    ]
  ]

  mark_all-criteria :
      (crits : List Criterion) (m : Marked)
      → (mark_all auto scores crits m).criteria ≡ m.criteria ++ map (award auto scores) crits
  unfolding mark_all
  mark_all-criteria [] m = sym (append-nil m.criteria)
  mark_all-criteria (crit ∷ crits) m =
      mark_all-criteria crits (mark_one auto scores crit m)
      ∙ rw (mark_one-criteria crit m)
          (append_assoc m.criteria (award auto scores crit ∷ []) (map (award auto scores) crits))

no_duplicates : (is : List ℕ) → has_duplicates is ≡ false → IsDistinct is
no_duplicates [] h = tt
no_duplicates (i ∷ is) h = elim (Bool-cases (mem i is)) [
  | inl e ↦ absurd (cc (rw e at h))
  | inr e ↦ (e, no_duplicates is (rw e at h))
]

abbrev pub criterion_ids : List Criterion → List ℕ
criterion_ids crits = map (λ c. c.id) crits

-- A score within the range of its criterion.
abbrev pub IsInRange : CriterionScore → Type 0
IsInRange cs = cs.score ≤ cs.max_score

abbrev IsCapped : ℕ → Option ℕ → Type 0
IsCapped most none = Unit {0}
IsCapped most (some p) = p ≤ most

module _ (duration_sec : ℕ) where
  auto_score-IsCapped : (crit : Criterion) → IsCapped crit.max_score (auto_score duration_sec crit)
  unfolding auto_score
  auto_score-IsCapped crit = elim (Option-cases crit.auto_check) [
    | inl e ↦ rw (e, auto_score) tt
    | inr (rule, e) ↦ rw (e, auto_score) (rule_capped rule)
  ]
    where
      rule_capped :
          (rule : String)
          → IsCapped crit.max_score (
              if str_eq rule "duration <= 300"
              then some (if leb duration_sec 300 then crit.max_score else 0)
              else if str_eq rule "default_full"
              then some crit.max_score
              else none)
      rule_capped rule = elim (Bool-cases (str_eq rule "duration <= 300")) [
        | inl e ↦ rw e (elim (Bool-cases (leb duration_sec 300)) [
          | inl k ↦ rw k (omega arith)
          | inr k ↦ rw k (omega arith)
        ])
        | inr e ↦ rw e (elim (Bool-cases (str_eq rule "default_full")) [
          | inl k ↦ rw k (omega arith)
          | inr k ↦ rw k tt
        ])
      ]

  auto_scores-absent :
      (crits : List Criterion) (i : ℕ)
      → mem i (criterion_ids crits) ≡ false
      → auto_scores duration_sec crits i ≡ none
  unfolding auto_scores
  auto_scores-absent [] i h = refl
  auto_scores-absent (crit ∷ crits) i h =
      let rest = auto_scores-absent crits i (ground arith) in
      let other : (crit.id == i) ≡ false = ground arith in rw (rest, auto_scores) (rw other refl)

  -- An entry of one criterion more, for an id that is not its own.
  auto_scores-other :
      (crit : Criterion) (crits : List Criterion) (i : ℕ)
      → (crit.id == i) ≡ false
      → auto_scores duration_sec (crit ∷ crits) i ≡ auto_scores duration_sec crits i
  unfolding auto_scores
  auto_scores-other crit crits i h = elim (Option-cases (auto_scores duration_sec crits i)) [
    | inl e ↦ rw (e, auto_scores) (rw h refl)
    | inr (p, e) ↦ rw (e, auto_scores) refl
  ]

  abbrev Capped : List Criterion → Criterion → Type 0
  Capped crits crit = IsCapped crit.max_score (auto_scores duration_sec crits crit.id)

  still :
      (crit : Criterion) (crits cs : List Criterion)
      → mem crit.id (criterion_ids cs) ≡ false
      → All (Capped crits) cs
      → All (Capped (crit ∷ crits)) cs
  still crit crits [] h all = tt
  still crit crits (d ∷ ds) h all = (
    rw (auto_scores-other crit crits d.id (ground arith)) all.0,
    still crit crits ds (ground arith) all.1,
  )

  auto_scores-Capped :
      (crits : List Criterion) → IsDistinct (criterion_ids crits) → All (Capped crits) crits
  unfolding auto_scores
  auto_scores-Capped [] h = tt
  auto_scores-Capped (crit ∷ crits) h =
      let own : crit.id == crit.id ≡ true = ==_refl crit.id in
      (
        rw (auto_scores-absent crits crit.id h.0, auto_scores) (rw own (auto_score-IsCapped crit)),
        still crit crits crits h.0 (auto_scores-Capped crits h.1),
      )

  -- No award is above the criterion's maximum.
  award-le :
      (crit : Criterion) (fixed : Option ℕ) (raw : Option Points)
      → IsCapped crit.max_score fixed
      → award_of crit fixed raw ≤ crit.max_score
  award-le crit (some p) raw h = h
  award-le crit none none h = omega arith
  award-le crit none (some (negative n)) h = omega arith
  award-le crit none (some (non_negative n)) h = omega arith

  awards-IsInRange :
      (scores : ℕ → Option Points) (crits cs : List Criterion)
      → All (Capped crits) cs
      → All IsInRange (map (award (auto_scores duration_sec crits) scores) cs)
  awards-IsInRange scores crits [] h = tt
  awards-IsInRange scores crits (c ∷ cs) h = (
    award-le c (auto_scores duration_sec crits c.id) (scores c.id) h.0,
    awards-IsInRange scores crits cs h.1,
  )

  sum-awards-le :
      (scores : ℕ → Option Points) (crits cs : List Criterion)
      → All (Capped crits) cs
      → sum_score (map (award (auto_scores duration_sec crits) scores) cs) ≤ sum_max cs
  unfolding sum_score sum_max
  sum-awards-le scores crits [] h = omega arith
  sum-awards-le scores crits (c ∷ cs) h = omega (
    arith,
    award-le c (auto_scores duration_sec crits c.id) (scores c.id) h.0,
    sum-awards-le scores crits cs h.1,
  )

pub is_valid-parts :
    (r : Rubric)
    → is_valid r ≡ true
    → (sum_max r.criteria ≡ r.max_total_score) × IsDistinct (criterion_ids r.criteria)
unfolding is_valid
is_valid-parts r h =
    let parts =
      and_true (sum_max r.criteria == r.max_total_score)
        (not (has_duplicates (map (λ c. c.id) r.criteria))) h in
    (
      (==_iff _ _).0 parts.0,
      no_duplicates (criterion_ids r.criteria)
          (not_true (has_duplicates (criterion_ids r.criteria)) parts.1),
    )
  where
    not_true : (b : Bool) → not b ≡ true → b ≡ false
    not_true true h = cc
    not_true false h = refl

-- Scoring a meeting against a valid rubric whose maximum is at least 1 gives a result. It marks each criterion, in the rubric's
-- order, with what its rule fixes, or with the model's points cut to 0 and the maximum, or with 0
-- for no answer; no mark is above its maximum, the total is the sum of the marks and at most the
-- rubric's maximum, and the meeting passes exactly if the percentage with the bonus, at most 100,
-- reaches the threshold.
pub assemble_score_lem :
    (llm : LlmScore) (rubric : Rubric) (call : CallForScoring) (language provider model : String)
    (pass_threshold kev_bonus_points : ℕ)
    → is_valid rubric ≡ true
    → 0 < rubric.max_total_score
    → (r : ScoreResult) × (assemble_score llm rubric call language provider model pass_threshold
          kev_bonus_points
        ≡ some r)
      × (r.criteria
          ≡ map (award (auto_scores call.duration_sec rubric.criteria) llm.scores) rubric.criteria)
      × All IsInRange r.criteria
      × (r.total_score ≡ sum_score r.criteria)
      × (r.total_score ≤ rubric.max_total_score)
      × (r.score_pct
          ≡ min 1000 (
              tenths r.total_score rubric.max_total_score
              + 10 * bonus kev_bonus_points llm.client_agreed_meeting))
      × (r.passed ≡ leb (10 * pass_threshold) r.score_pct)
unfolding assemble_score
assemble_score_lem llm rubric call language provider model pass_threshold kev_bonus_points valid
      pos =
    let (sums, distinct) = is_valid-parts rubric valid in
    let auto = auto_scores call.duration_sec rubric.criteria in
    let capped = auto_scores-Capped call.duration_sec rubric.criteria distinct in
    let marks =
      mark_all-criteria auto llm.scores rubric.criteria
        (record { criteria = []; missing = []; clamped = 0 }) in
    let marked =
      mark_all auto llm.scores rubric.criteria
        (record { criteria = []; missing = []; clamped = 0 }) in
    let zero : (rubric.max_total_score == 0) ≡ false = ground arith in
    (
      finish llm rubric call language provider model pass_threshold kev_bonus_points marked,
      rw zero refl,
      marks,
      rw marks
          (awards-IsInRange call.duration_sec llm.scores rubric.criteria rubric.criteria capped),
      refl,
      rw marks (
          omega (
            arith,
            sums,
            sum-awards-le call.duration_sec llm.scores rubric.criteria rubric.criteria capped,
          )),
      refl,
      refl,
    )
