-- ===== src/Samples/Sheets.antt =====
-- The properties of the score and of the drivers, on concrete inputs.
use atamura_okk.Base.{sort_by, ◌≡◌, ◌≤◌, ◌+◌, ◌*◌, refl, none, [], ◌∷◌, arith}
use atamura_okk.Scoring.Rubric.{blocks_of, call_criteria, to_criterion}
use atamura_okk.Scoring.Percent.{percent}
use atamura_okk.Scoring.Assemble.{Payload, payload, omitted, assemble, by_id}
use atamura_okk.Scoring.Bounds.{percent-nearest}
use atamura_okk.Scoring.Flat.{unanswered}
use atamura_okk.Scoring.Total.{IsFlat, assemble-IsFlat, assemble-omitted}
use atamura_okk.Samples.Data.{assessed, rubric, verdict}

assemble-IsFlat_example :
    (p : Payload) × (assemble assessed rubric none ≡ payload p) × IsFlat assessed rubric none p
unfolding blocks_of call_criteria to_criterion unanswered by_id
assemble-IsFlat_example = assemble-IsFlat assessed rubric none ((refl, tt), (tt, tt)) refl

assemble-omitted_example :
    assemble (record assessed { criteria = verdict ∷ [] }) rubric none ≡ omitted (2 ∷ [])
unfolding sort_by blocks_of call_criteria to_criterion unanswered by_id
assemble-omitted_example =
    assemble-omitted (record assessed { criteria = verdict ∷ [] }) rubric none 2 [] refl

percent-nearest_example :
    (percent 2 3 ≤ 10000)
    × (2 * (3 * percent 2 3) ≤ 20000 * 2 + 3)
    × (20000 * 2 ≤ 2 * (3 * percent 2 3) + 3)
percent-nearest_example = percent-nearest 2 3 (omega arith) (omega arith)
