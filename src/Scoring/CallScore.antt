-- ===== src/Scoring/CallScore.antt =====
-- AtamuraOKK/scoring/base.py: the validated output of the scoring model.
use atamura_okk.Base.{ℕ, String, Bool, Option, List}

pub data PaymentMethod : Type 0 where
  cash mortgage instalments other not_discussed : PaymentMethod

pub data ManagerSide : Type 0 where
  side_a side_b side_unknown : ManagerSide

-- `score` is an `int` of the model's; `_assemble` only asks whether it is at least 1, so a negative
-- one stands here as 0.
pub record CriterionScore : Type 0 where
  pub id : ℕ
  pub score : ℕ
  pub applicable : Bool
  pub justification : String
  pub evidence : String
  pub recommendation : String

pub record CallScore : Type 0 where
  pub call_type : String
  pub is_qualification_call : Bool
  pub manager_identified : Bool
  pub manager_spoken_name : Option String
  pub manager_side : ManagerSide
  pub criteria : List CriterionScore
  pub objections_present : Bool
  pub sentiment_customer : String
  pub sentiment_agent : String
  pub summary : String
  pub red_flags : List String
  pub target_status : String
  pub strengths : String
  pub growth_zone : String
  pub training_recommendation : String
  pub payment_method : PaymentMethod
  pub wants_to_visit : Bool
  pub on_premises : Bool
