-- ===== src/Scoring/Assemble.antt =====
-- AtamuraOKK/scoring/worker.py, `_assemble`: the payload from binary verdicts.
use atamura_okk.Base.{
  sort_by, ℕ, ◌+◌, String, Bool, ◌&&◌, not, Option, none, some, List, [], ◌∷◌, ◌++◌, leb, ◌==◌,
  str_eq, if◌then◌else◌,
}
use atamura_okk.Scoring.Rubric.{Criterion, na_allowed, Block, Zone, Rubric, block_list, zone_for}
use atamura_okk.Scoring.CallScore.{CriterionScore, CallScore}
use atamura_okk.Scoring.Percent.{percent}

-- One row of the breakdown.
pub record Entry : Type 0 where
  pub id : ℕ
  pub block_id : String
  pub block_name : String
  pub text : String
  pub score : ℕ
  pub max : ℕ
  pub justification : String
  pub evidence : String
  pub recommendation : String

pub record BlockScore : Type 0 where
  pub id : String
  pub name : String
  pub score : ℕ
  pub max : ℕ
  pub percent : ℕ

-- `by_id.get(id)`: the dictionary keeps the last verdict of an id.
unfoldable pub by_id : ℕ → List CriterionScore → Option CriterionScore
by_id i [] = none
by_id i (c ∷ cs) =
    let here : Option CriterionScore = if c.id == i then some c else none in
    elim (by_id i cs) [ none ↦ here | some later ↦ some later ]

-- ДА = 1, НЕТ = 0.
abbrev pub binary : CriterionScore → ℕ
binary cs = if leb 1 cs.score then 1 else 0

abbrev pub to_entry : Criterion → CriterionScore → Entry
to_entry crit cs = record {
  id = crit.id;
  block_id = crit.block_id;
  block_name = crit.block_name;
  text = crit.text;
  score = binary cs;
  max = 1;
  justification = cs.justification;
  evidence = cs.evidence;
  recommendation = cs.recommendation;
}

-- What the inner loop adds up over one block.
pub record Tally : Type 0 where
  pub yes : ℕ
  pub applicable : ℕ
  pub entries : List Entry
  pub missing : List ℕ

abbrev pub empty_tally : Tally
empty_tally = record { yes = 0; applicable = 0; entries = []; missing = [] }

-- The body of the inner loop.
unfoldable pub tally_one : List CriterionScore → Criterion → Tally → Tally
tally_one verdicts crit t = elim (by_id crit.id verdicts) [
  | none ↦ if na_allowed crit then t else record t { missing = t.missing ++ (crit.id ∷ []) }
  | some cs ↦ if na_allowed crit && not cs.applicable then t else record t {
    yes = t.yes + binary cs;
    applicable = t.applicable + 1;
    entries = t.entries ++ (to_entry crit cs ∷ []);
  }
]

unfoldable pub tally_block : List CriterionScore → List Criterion → Tally → Tally
unfolding tally_one
tally_block verdicts [] t = t
tally_block verdicts (crit ∷ crits) t = tally_block verdicts crits (tally_one verdicts crit t)

-- What the outer loop carries.
pub record Sheet : Type 0 where
  pub per_criterion : List Entry
  pub blocks : List BlockScore
  pub missing : List ℕ

abbrev pub empty_sheet : Sheet
empty_sheet = record { per_criterion = []; blocks = []; missing = [] }

abbrev pub to_block_score : Block → Tally → BlockScore
to_block_score b t = record {
  id = b.id;
  name = b.name;
  score = t.yes;
  max = t.applicable;
  percent = percent t.yes t.applicable;
}

-- `blocks[block.id] = …`: a later block with the same id takes the place of the earlier one.
unfoldable pub store_block : BlockScore → List BlockScore → List BlockScore
store_block b [] = b ∷ []
store_block b (c ∷ cs) =
    let rest = store_block b cs in if str_eq c.id b.id then b ∷ cs else c ∷ rest

-- The end of the outer loop's body: a block with no applicable element drops out.
unfoldable pub add_block : Block → Tally → Sheet → Sheet
unfolding store_block
add_block b t s =
    if t.applicable == 0 then record s { missing = s.missing ++ t.missing } else record s {
      per_criterion = s.per_criterion ++ t.entries;
      blocks = store_block (to_block_score b t) s.blocks;
      missing = s.missing ++ t.missing;
    }

abbrev pub is_dropped : CallScore → Block → Bool
is_dropped result b = b.na_if_no_objections && not result.objections_present

unfoldable pub sheet_step : CallScore → Block → Sheet → Sheet
unfolding add_block tally_block
sheet_step result b s =
    if is_dropped result b
    then s
    else add_block b (tally_block result.criteria b.criteria empty_tally) s

unfoldable pub sheet_of : CallScore → List Block → Sheet → Sheet
unfolding sheet_step
sheet_of result [] s = s
sheet_of result (b ∷ bs) s = sheet_of result bs (sheet_step result b s)

pub record Payload : Type 0 where
  pub per_criterion : List Entry
  pub blocks : List BlockScore
  pub raw_points : ℕ
  pub max_points : ℕ
  pub percent : ℕ
  pub zone : Zone
  pub result : CallScore
  pub client_category : Option String

-- `ValueError("scorer omitted criteria: …")` carries the ids, sorted.
pub data Assembled : Type 0 where
  payload : Payload → Assembled
  omitted : List ℕ → Assembled

unfoldable pub sum_score : List BlockScore → ℕ
sum_score [] = 0
sum_score (b ∷ bs) = b.score + sum_score bs

unfoldable pub sum_max : List BlockScore → ℕ
sum_max [] = 0
sum_max (b ∷ bs) = b.max + sum_max bs

unfoldable pub payload_of : CallScore → Rubric → Option String → Sheet → Payload
unfolding sum_score sum_max
payload_of result rubric category s = record {
  per_criterion = s.per_criterion;
  blocks = s.blocks;
  raw_points = sum_score s.blocks;
  max_points = sum_max s.blocks;
  percent = percent (sum_score s.blocks) (sum_max s.blocks);
  zone = zone_for rubric.zones (percent (sum_score s.blocks) (sum_max s.blocks));
  result = result;
  client_category = category;
}

abbrev pub finish : CallScore → Rubric → Option String → Sheet → List ℕ → Assembled
finish result rubric category s [] = payload (payload_of result rubric category s)
finish result rubric category s (m ∷ ms) = omitted (sort_by leb (m ∷ ms))

-- `_assemble`
unfoldable pub assemble : CallScore → Rubric → Option String → Assembled
unfolding sheet_of payload_of
assemble result rubric category =
    let s = sheet_of result (block_list rubric) empty_sheet in
    finish result rubric category s s.missing
