-- ===== src/Scoring/Rubric.antt =====
-- AtamuraOKK/scoring/rubric.py: the loaded rubric. JSON decoding is not modelled: a raw block is
-- the record that the decoder gives, and `block_list` filters and converts it.
use atamura_okk.Base.{
  ℕ, ◌*◌, String, Bool, false, not, Option, none, some, List, [], ◌∷◌, str_eq, leb, non_empty,
  if◌then◌else◌,
}

-- The dictionary of one criterion, each key with its default (`c.get("source", "call")`);
-- `where_to_look` is `where`.
pub record RawCriterion : Type 0 where
  pub id : ℕ
  pub text : String
  pub max : ℕ
  pub source : String
  pub yes : String
  pub no : String
  pub na : Option String
  pub where_to_look : String

pub record RawBlock : Type 0 where
  pub id : String
  pub name : String
  pub criteria : List RawCriterion
  pub na_if_no_objections : Bool

pub record Criterion : Type 0 where
  pub id : ℕ
  pub text : String
  pub max : ℕ
  pub source : String
  pub block_id : String
  pub block_name : String
  pub yes_rule : String
  pub no_rule : String
  pub na_rule : Option String
  pub where_to_look : String

-- `bool(self.na_rule)`: the empty text is false too.
abbrev pub na_allowed : Criterion → Bool
na_allowed c = elim c.na_rule [ none ↦ false | some rule ↦ not (str_eq rule "") ]

pub record Block : Type 0 where
  pub id : String
  pub name : String
  pub criteria : List Criterion
  pub na_if_no_objections : Bool

pub record Zones : Type 0 where
  pub strong : ℕ
  pub normal : ℕ
  pub borderline : ℕ

pub record Rubric : Type 0 where
  pub version : String
  pub name : String
  pub zones : Zones
  pub raw_blocks : List RawBlock

unfoldable pub to_criterion : RawBlock → RawCriterion → Criterion
to_criterion b c = record {
  id = c.id;
  text = c.text;
  max = c.max;
  source = c.source;
  block_id = b.id;
  block_name = b.name;
  yes_rule = c.yes;
  no_rule = c.no;
  na_rule = non_empty c.na;
  where_to_look = c.where_to_look;
}

unfoldable pub call_criteria : RawBlock → List RawCriterion → List Criterion
call_criteria b [] = []
call_criteria b (c ∷ cs) =
    let rest = call_criteria b cs in
    if str_eq c.source "call" then to_criterion b c ∷ rest else rest

unfoldable pub blocks_of : List RawBlock → List Block
blocks_of [] = []
blocks_of (b ∷ bs) =
    record {
      id = b.id;
      name = b.name;
      criteria = call_criteria b b.criteria;
      na_if_no_objections = b.na_if_no_objections;
    }
    ∷ blocks_of bs

abbrev pub block_list : Rubric → List Block
block_list r = blocks_of r.raw_blocks

pub data Zone : Type 0 where
  strong normal borderline risk : Zone

-- `zone_for`. A percent is given in hundredths, as `round(…, 2)` leaves it.
unfoldable pub zone_for : Zones → ℕ → Zone
zone_for z percent =
    if leb (100 * z.strong) percent
    then Zone.strong
    else if leb (100 * z.normal) percent
    then Zone.normal
    else if leb (100 * z.borderline) percent
    then Zone.borderline
    else Zone.risk
