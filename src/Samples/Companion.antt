-- ===== src/Samples/Companion.antt =====
-- The hygiene screen of one manager, with a read that fails.
use atamura_okk.Base.{arith, refl, String, true, false, none, some, [], ◌∷◌, str_eq}
use atamura_okk.Companion.Cards.{Value, text, missing, Card, Text, HygieneSettings}
use atamura_okk.Companion.Hygiene.{Markup, Portal, get_hygiene}
use atamura_okk.Companion.Sheet.{IsSheet, AllSheets, get_hygiene-IsSheet}

abbrev settings : HygieneSettings
settings = record {
  anketa_fields = "UF_CRM_a" ∷ [];
  norm_pct = 85;
  deals_max_scan = 3000;
  stale_days = 14;
  notes_max_deals = 800;
  notes_max_calls = 4000;
  failed_max_items = 50;
  note_min_chars = 3;
  note_template_marker = "";
  cache_ttl_seconds = 600;
}

abbrev plain_text : Text
plain_text = record { strip = λ s. s; upper = λ s. s }

abbrev markup : Markup
markup = record { plain = λ s. s; lower = λ s. s; has = λ needle s. str_eq needle s }

abbrev answers : String → Value
answers field = text "да"

abbrev no_answers : String → Value
no_answers field = missing

abbrev kept_card : Card
kept_card = record {
  id = 1;
  stage_id = "C24:EXECUTING";
  closed = "N";
  stage_semantic_id = "P";
  last_activity = some 2000000;
  fields = answers;
}

abbrev stale_card : Card
stale_card = record kept_card { id = 2; last_activity = some 10; fields = no_answers }

abbrev portal : Portal
portal = record {
  client_works = true;
  deals = some (kept_card ∷ stale_card ∷ []);
  task_owners = none;
  deadlines = record { due = some 2; overdue = some 1; items = some (1 ∷ []) };
  calls = record {
    owners = some (1 ∷ 2 ∷ 1 ∷ []);
    comments = λ deals. some (λ deal. []);
    titles = λ deals. true;
  };
}

get_hygiene-IsSheet_example :
    IsSheet settings
      (get_hygiene settings plain_text markup "" false 7 "2026-W10" 100 2000000 1800000 2100000
        portal []).0
    × AllSheets settings
        (get_hygiene settings plain_text markup "" false 7 "2026-W10" 100 2000000 1800000 2100000
          portal []).1
get_hygiene-IsSheet_example =
    get_hygiene-IsSheet settings (omega arith) plain_text markup "" false 7 "2026-W10" 100 2000000
      1800000 2100000 portal [] (omega arith, refl) tt
