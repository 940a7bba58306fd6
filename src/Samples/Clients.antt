-- ===== src/Samples/Clients.antt =====
-- A contact with one deal, which entered the qualified stage twice, and two calls of one phone.
use atamura_okk.Base.{
  ℕ, ◌≡◌, refl, Option, none, some, List, [], ◌∷◌, str_eq, is_some, arith, String, ltb, ◌&&◌,
}
use Prim.Native.Char.{code}
use atamura_okk.Ingestion.Mapping.{Row, Parsers, digits_of, client_key}
use atamura_okk.Ingestion.Keys.{client_key-prefix}
use atamura_okk.Bitrix.Client.{returned, page_size}
use atamura_okk.Bitrix.Paging.{page_of}
use atamura_okk.Ingestion.Clients.{Text, Portal, qualified}
use atamura_okk.Ingestion.Qualified.{Finds, IsEarliest, qualified-IsEarliest}

abbrev plain_text : Text
plain_text = record {
  fold = λ s. s;
  starts_with = λ prefix s. str_eq prefix s;
  split = λ key. ("CONTACT", "5");
  strip = λ s. s;
}

abbrev entries : List (Option ℕ)
entries = some 300 ∷ none ∷ some 200 ∷ []

abbrev portal : Portal
portal = record {
  deals_of = λ field id. returned ("31" ∷ []);
  history = λ deals stages cursor. returned (page_of page_size entries cursor);
}

qualified-IsEarliest_example :
    (m : Option ℕ) × (qualified 4 plain_text portal ("C24:PREPAYMENT_INVOIC" ∷ []) "CONTACT:5"
      ≡ some (record { qualified = some (is_some m); at = m }))
    × IsEarliest entries m
qualified-IsEarliest_example =
    qualified-IsEarliest plain_text portal "C24:PREPAYMENT_INVOIC" [] "CONTACT:5" "CONTACT" "5" "31"
      [] entries 4 refl (Finds.by_contact "5" ("31" ∷ []) refl) (λ cursor. refl) (omega arith)

abbrev parsers : Parsers
parsers = record {
  int = λ s. none;
  time = λ s. none;
  is_digit = λ c. ltb 47 (code c) && ltb (code c) 58;
}

abbrev called : String → Row
called phone = record {
  call_id = "c";
  id = none;
  portal_user_id = none;
  call_type = some "2";
  call_start_date = none;
  call_duration = some "60";
  phone_number = some phone;
  crm_entity_type = some "CONTACT";
  crm_entity_id = some "";
  crm_activity_id = none;
  call_record_url = none;
  record_file_id = none;
}

client_key-prefix_example :
    (client_key parsers (called "8 (701) 234-56-78") ≡ some "PHONE:77012345678")
    × (client_key parsers (called "+77012345678") ≡ some "PHONE:77012345678")
unfolding digits_of
client_key-prefix_example =
    client_key-prefix parsers (called "8 (701) 234-56-78") (called "+77012345678")
      "8 (701) 234-56-78" "+77012345678" "7012345678" refl refl refl refl refl refl refl
