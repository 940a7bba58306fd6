-- ===== src/Ingestion/Clients.antt =====
-- AtamuraOKK/ingestion/qualification.py and category.py: whether and when a client qualified, and
-- which category the client has, from the deals in Bitrix. The portal's answers are parameters, by
-- call; texts are compared by functions that stand for `str.partition`, `str.strip`,
-- `str.casefold` and `str.startswith`.
use atamura_okk.Base.{
  ℕ, zero, suc, String, Bool, false, ◌&&◌, Option, none, some, List, [], ◌∷◌, ltb, str_eq, is_some,
  if◌then◌else◌,
}
use atamura_okk.Bitrix.Client.{
  Code, Called, returned, raised, Page, Ending, finished, unfinished, failed,
}
use atamura_okk.Ingestion.Scope.{Qualification, unknown_qualification}

-- A row of `crm.status.list`.
pub record Status : Type 0 where
  pub entity_id : String
  pub name : String
  pub status_id : String

pub record Text : Type 0 where
  pub fold : String → String
  pub starts_with : String → String → Bool
  pub split : String → String × String
  pub strip : String → String

-- The values of `settings` that the checkers read.
pub record ClientSettings : Type 0 where
  pub qualified_deal_stage_ids : List String
  pub qualified_stage_name : String
  pub category_field : String
  pub category_value_map : List (String × String)

-- The loop of `discover_qualified_stage_ids`; `fold` strips and folds the case.
unfoldable pub named_stages : Text → String → List Status → List String
named_stages x target [] = []
named_stages x target (st ∷ sts) =
    let rest = named_stages x target sts in
    if x.starts_with "DEAL_STAGE" st.entity_id && str_eq (x.fold st.name) target
    then st.status_id ∷ rest
    else rest

-- `discover_qualified_stage_ids`
unfoldable pub discover : Text → ClientSettings → List Status → List String
unfolding named_stages
discover x s statuses = elim s.qualified_deal_stage_ids [
  | [] ↦ named_stages x (x.fold s.qualified_stage_name) statuses
  | i ∷ is ↦ i ∷ is
]

-- `if earliest is None or at < earliest`; an entry has the time that parses.
abbrev pub earlier : Option ℕ → Option ℕ → Option ℕ
earlier best none = best
earlier none (some t) = some t
earlier (some b) (some t) = if ltb t b then some t else some b

unfoldable pub earliest_of : Option ℕ → List (Option ℕ) → Option ℕ
earliest_of best [] = best
earliest_of best (item ∷ items) = earliest_of (earlier best item) items

-- What the loop over the history gives. `no_fuel` is the model's.
pub data Earliest : Type 0 where
  earliest : Option ℕ → Earliest
  history_failed : Code → Earliest
  no_fuel : Earliest

abbrev pub next_page : (Option ℕ → ℕ → Earliest) → Option ℕ → Option ℕ → Earliest
next_page again best none = earliest best
next_page again best (some cursor) = again best cursor

-- The loop of `_earliest_qualified_at`: the pages of the stage history from a cursor on.
unfoldable pub earliest_from : ℕ → (ℕ → Called (Page (Option ℕ))) → Option ℕ → ℕ → Earliest
unfolding earliest_of
earliest_from zero fetch best cursor = no_fuel
earliest_from (suc fuel) fetch best cursor = elim (fetch cursor) [
  | raised code ↦ history_failed code
  | returned page ↦ next_page (earliest_from fuel fetch) (earliest_of best page.result) page.next
]

-- What Bitrix answers: the deals of a client, by the field of the filter, and the pages of the
-- history of some deals at some stages.
pub record Portal : Type 0 where
  pub deals_of : String → String → Called (List String)
  pub history : List String → List String → ℕ → Called (Page (Option ℕ))

-- What a check gives, without its exception's code.
pub data Checked : Type 0 where
  checked : Qualification → Checked
  check_failed : Checked
  out_of_fuel : Checked

abbrev pub of_earliest : Earliest → Checked
of_earliest (earliest at_time) =
    checked (record { qualified = some (is_some at_time); at = at_time })
of_earliest (history_failed code) = check_failed
of_earliest no_fuel = out_of_fuel

-- The part of `_check` behind the deals.
unfoldable pub of_deals : ℕ → Portal → List String → List String → Checked
unfolding earliest_from
of_deals fuel p stage_ids [] = checked (record { qualified = some false; at = none })
of_deals fuel p stage_ids (d ∷ ds) =
    of_earliest (earliest_from fuel (p.history (d ∷ ds) stage_ids) none 0)

unfoldable pub of_found : ℕ → Portal → List String → Called (List String) → Checked
unfolding of_deals
of_found fuel p stage_ids (raised code) = check_failed
of_found fuel p stage_ids (returned ids) = of_deals fuel p stage_ids ids

-- `_check`
unfoldable pub check : ℕ → Portal → List String → String → String → Checked
unfolding of_found
check fuel p stage_ids entity_type entity_id =
    if str_eq entity_type "CONTACT"
    then of_found fuel p stage_ids (p.deals_of "CONTACT_ID" entity_id)
    else if str_eq entity_type "COMPANY"
    then of_found fuel p stage_ids (p.deals_of "COMPANY_ID" entity_id)
    else if str_eq entity_type "DEAL"
    then of_deals fuel p stage_ids (entity_id ∷ [])
    else checked unknown_qualification

abbrev pub or_unknown : Checked → Option Qualification
or_unknown (checked q) = some q
or_unknown check_failed = some unknown_qualification
or_unknown out_of_fuel = none

-- `qualified`, read at a key; nothing is the model's, without fuel.
unfoldable pub qualified : ℕ → Text → Portal → List String → String → Option Qualification
unfolding check
qualified fuel x p [] key = some unknown_qualification
qualified fuel x p (i ∷ is) key =
    let (entity_type, entity_id) = x.split key in
    or_unknown (check fuel p (i ∷ is) entity_type entity_id)

-- `self._value_map.get(raw)`
unfoldable pub letter_of : List (String × String) → String → Option String
letter_of [] raw = none
letter_of ((value, letter) ∷ rest) raw =
    if str_eq value raw then some letter else letter_of rest raw

-- What `_latest_category` gives or raises.
pub data Category : Type 0 where
  category : Option String → Category
  category_failed : Category

-- The loop over the deals, newest first, as far as the listing gives them; the first letter ends it.
unfoldable pub latest_category : Text → List (String × String) → Ending → List String → Category
unfolding letter_of
latest_category x map (failed code) [] = category_failed
latest_category x map unfinished [] = category_failed
latest_category x map finished [] = category none
latest_category x map end (raw ∷ rest) = elim (letter_of map (x.strip raw)) [
  | some letter ↦ category (some letter)
  | none ↦ latest_category x map end rest
]

abbrev pub or_none : Category → Option String
or_none (category c) = c
or_none category_failed = none

-- `_category` in the `try` of `categorize`; `deals` lists the field's value on the deals by the
-- filter's field.
unfoldable pub categorize :
    Text → ClientSettings → (String → String → List String × Ending) → String → Option String
unfolding latest_category
categorize x s deals key =
    let (entity_type, entity_id) = x.split key in
    let by = λ (field : String).
      let (values, end) = deals field entity_id in
      or_none (latest_category x s.category_value_map end values) in
    if str_eq s.category_field ""
    then none
    else if str_eq entity_type "CONTACT"
    then by "CONTACT_ID"
    else if str_eq entity_type "COMPANY"
    then by "COMPANY_ID"
    else if str_eq entity_type "DEAL"
    then by "ID"
    else none
