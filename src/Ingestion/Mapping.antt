-- ===== src/Ingestion/Mapping.antt =====
-- AtamuraOKK/ingestion/mapping.py: a row of the telephony statistics as the columns of a call. Python's
-- `int`, `datetime.fromisoformat` and the class of digits are parameters; every value of a row is a
-- text or missing, as Bitrix sends them.
use Prim.Native.Char.{Char, code}
use Prim.Native.String.{◌++◌, count}
use atamura_okk.Base.{ℕ, String, Bool, ◌&&◌, Option, none, some, str_eq, ◌==◌, if◌then◌else◌}
use atamura_okk.Store.{CallDirection}
use atamura_okk.Ingestion.Upsert.{CallFields}

pub record Row : Type 0 where
  pub call_id : String
  pub id : Option String
  pub portal_user_id : Option String
  pub call_type : Option String
  pub call_start_date : Option String
  pub call_duration : Option String
  pub phone_number : Option String
  pub crm_entity_type : Option String
  pub crm_entity_id : Option String
  pub crm_activity_id : Option String
  pub call_record_url : Option String
  pub record_file_id : Option String

pub record Parsers : Type 0 where
  pub int : String → Option ℕ
  pub time : String → Option ℕ
  pub is_digit : Char → Bool

-- `map_direction`
unfoldable pub map_direction : Option String → CallDirection
map_direction none = CallDirection.unknown
map_direction (some t) =
    if str_eq t "1"
    then CallDirection.outbound
    else if str_eq t "2"
    then CallDirection.inbound
    else CallDirection.unknown

-- `_NON_DIGITS.sub("", phone)`
unfoldable pub digits_of : Parsers → String → String
digits_of x String.[] = String.[]
digits_of x (String.◌∷◌ c s) =
    let rest = digits_of x s in if x.is_digit c then String.◌∷◌ c rest else rest

-- The country's prefix: 8 counts as 7.
abbrev pub with_prefix : String → String
with_prefix String.[] = String.[]
with_prefix (String.◌∷◌ c s) =
    if count (String.◌∷◌ c s) == 11 && code c == 56 then String.◌∷◌ "7" s else String.◌∷◌ c s

-- `_normalize_phone`
unfoldable pub normalize_phone : Parsers → String → String
unfolding digits_of
normalize_phone x phone = with_prefix (digits_of x phone)

-- A text that counts as true.
abbrev pub present : Option String → Option String
present none = none
present (some s) = if str_eq s "" then none else some s

abbrev pub phone_key : String → Option String
phone_key normalized = if str_eq normalized "" then none else some ("PHONE:" ++ normalized)

abbrev pub by_phone : Parsers → Option String → Option String
by_phone x none = none
by_phone x (some phone) = phone_key (normalize_phone x phone)

abbrev pub by_entity : Option String → Option String → Option String → Option String
by_entity other (some kind) (some id) = some (kind ++ (":" ++ id))
by_entity other (some kind) none = other
by_entity other none id = other

-- `client_key`
unfoldable pub client_key : Parsers → Row → Option String
unfolding normalize_phone
client_key x r =
    by_entity (by_phone x (present r.phone_number)) (present r.crm_entity_type)
      (present r.crm_entity_id)

-- `parse_started_at`
abbrev pub parse_started_at : Parsers → Option String → Option ℕ
parse_started_at x none = none
parse_started_at x (some raw) = if str_eq raw "" then none else x.time raw

-- `_as_int`
abbrev pub as_int : Parsers → Option String → Option ℕ
as_int x none = none
as_int x (some s) = x.int s

abbrev or_zero : Option ℕ → ℕ
or_zero none = 0
or_zero (some n) = n

-- `to_call_fields`
unfoldable pub to_call_fields : Parsers → Row → CallFields
unfolding map_direction client_key
to_call_fields x r = record {
  bitrix_call_id = r.call_id;
  bitrix_row_id = as_int x r.id;
  portal_user_id = as_int x r.portal_user_id;
  direction = map_direction r.call_type;
  started_at = parse_started_at x r.call_start_date;
  duration_sec = or_zero (as_int x r.call_duration);
  phone_number = present r.phone_number;
  crm_entity_type = present r.crm_entity_type;
  crm_entity_id = as_int x r.crm_entity_id;
  crm_activity_id = as_int x r.crm_activity_id;
  client_key = client_key x r;
  recording_url = present r.call_record_url;
  record_file_id = as_int x r.record_file_id;
}
