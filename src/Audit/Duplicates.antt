-- ===== src/Audit/Duplicates.antt =====
-- AtamuraOKK/audit/duplicates.py: is the number of a deal closed as a duplicate on another one.
-- The look-ups in the CRM are parameters, each of which may fail; so is the search of a title for a
-- word.
use atamura_okk.Base.{
  ℕ, String, Bool, true, false, ◌||◌, Option, none, some, List, [], ◌∷◌, ◌==◌, str_eq, not, leb,
  mem, select, sort_by, if◌then◌else◌,
}
use atamura_okk.Audit.Deals.{Deal, AuditSettings, Kind, same, other}

-- `_PROJECT_ALIASES`
abbrev pub project_aliases : List (String × String)
project_aliases =
    ("keruen", "keruen")
    ∷ ("керуен", "keruen")
    ∷ ("aqsai", "aqsai")
    ∷ ("аксай", "aqsai")
    ∷ ("amaia", "amaia")
    ∷ ("амая", "amaia")
    ∷ ("aura", "aura")
    ∷ ("аура", "aura")
    ∷ ("atmosfera", "atmosfera")
    ∷ ("атмосфера", "atmosfera")
    ∷ ("uia", "uia")
    ∷ ("bravo", "bravo")
    ∷ ("браво", "bravo")
    ∷ ("dion", "dion")
    ∷ ("дион", "dion")
    ∷ ("arlan", "arlan")
    ∷ ("арлан", "arlan")
    ∷ ("ayala", "ayala")
    ∷ ("аяла", "ayala")
    ∷ ("atakent", "atakent")
    ∷ ("атакент", "atakent")
    ∷ ("neo", "neo")
    ∷ ("нео", "neo")
    ∷ ("monarch", "monarch")
    ∷ ("монарх", "monarch")
    ∷ ("discovery", "discovery")
    ∷ ("дискавери", "discovery")
    ∷ ("dulati", "dulati")
    ∷ ("дулати", "dulati")
    ∷ ("olympic", "olympic")
    ∷ ("олимпик", "olympic")
    ∷ []

-- A deal of `_deals_of_contacts`.
pub record OtherDeal : Type 0 where
  pub id : ℕ
  pub title : String
  pub category_id : String

-- What Bitrix answers; `none` is an exception. `has_word word title` is the search of a pattern.
pub record Crm : Type 0 where
  pub contacts_with : List String → Option (List ℕ)
  pub deals_of : List ℕ → Option (List OtherDeal)
  pub leads_with : List String → Option (List ℕ)
  pub has_word : String → String → Bool

unfoldable pub first_project : (String → Bool) → List (String × String) → Option String
first_project found [] = none
first_project found ((word, project) ∷ rest) =
    if found word then some project else first_project found rest

-- `project_of`
unfoldable pub project_of : Crm → String → Option String
unfolding first_project
project_of crm title = first_project (λ word. crm.has_word word title) project_aliases

abbrev pub contains : String → List String → Bool
contains s [] = false
contains s (t ∷ ts) = str_eq t s || contains s ts

-- The set of the projects that the deals name. The source sorts it, for the details only.
unfoldable pub projects_of : Crm → List OtherDeal → List String
unfolding project_of
projects_of crm [] = []
projects_of crm (d ∷ ds) =
    let rest = projects_of crm ds in
    elim (project_of crm d.title) [
      | none ↦ rest
      | some p ↦ if contains p rest then rest else p ∷ rest
    ]

abbrev pub kind_eq : Kind → Kind → Bool
kind_eq same same = true
kind_eq other other = true
kind_eq _ _ = false

pub record Subtype : Type 0 where
  pub is_right : Option Bool
  pub expected : Option Kind
  pub projects : List String

abbrev decide : Option String → List String → Kind → Subtype
decide none theirs kind = record { is_right = none; expected = none; projects = theirs }
decide (some mine) [] kind = record { is_right = none; expected = none; projects = [] }
decide (some mine) (p ∷ ps) kind =
    let expected = if contains mine (p ∷ ps) then same else other in
    record { is_right = some (kind_eq expected kind); expected = some expected; projects = p ∷ ps }

-- `_subtype`
unfoldable pub subtype : Crm → String → List OtherDeal → Kind → Subtype
unfolding project_of projects_of
subtype crm title tm_duplicates kind =
    decide (project_of crm title) (projects_of crm tm_duplicates) kind

-- `sorted(set | {own})`
unfoldable pub sorted_set : ℕ → List ℕ → List ℕ
sorted_set own ids = sort_by leb (add own (unique ids))
  where
    add : ℕ → List ℕ → List ℕ
    add i is = if mem i is then is else i ∷ is

    unique : List ℕ → List ℕ
    unique [] = []
    unique (i ∷ is) = add i (unique is)

-- `_duplicate_contact_ids`
unfoldable pub duplicate_contact_ids : Crm → List String → ℕ → Option (List ℕ)
unfolding sorted_set
duplicate_contact_ids crm phones own = elim (crm.contacts_with phones) [
  | none ↦ none
  | some ids ↦ some (sorted_set own ids)
]

-- `_deals_of_contacts`
unfoldable pub other_deals : Crm → List ℕ → ℕ → Option (List OtherDeal)
other_deals crm contacts deal_id = elim (crm.deals_of contacts) [
  | none ↦ none
  | some ds ↦ some (select (λ d. not (d.id == deal_id)) ds)
]

-- `DuplicateCheck`, with the details that follow from the look-ups.
pub record DuplicateCheck : Type 0 where
  pub verdict : String
  pub other_deals : List OtherDeal
  pub leads : List ℕ
  pub subtype : Option Subtype

abbrev pub bare : String → DuplicateCheck
bare verdict = record { verdict = verdict; other_deals = []; leads = []; subtype = none }

-- The deals of the telemarketing funnel.
abbrev pub tm_deals : AuditSettings → List OtherDeal → List OtherDeal
tm_deals s others = select (λ d. str_eq d.category_id s.companion_tm_category_id) others

-- The end of `check_one`, by the deals of that funnel.
unfoldable pub by_funnel : Crm → Deal → Kind → List OtherDeal → List OtherDeal → DuplicateCheck
unfolding subtype
by_funnel crm deal kind others [] = record (bare "supported") { other_deals = others }
by_funnel crm deal kind others (t ∷ ts) = record (bare "supported") {
  other_deals = others;
  subtype = some (subtype crm deal.title (t ∷ ts) kind);
}

-- The part of `check_one` behind the look-ups.
unfoldable pub conclude :
    AuditSettings → Crm → Deal → Kind → List OtherDeal → List ℕ → DuplicateCheck
unfolding by_funnel
conclude s crm deal kind [] [] = bare "contradicted"
conclude s crm deal kind [] (l ∷ ls) = record (bare "supported") { leads = l ∷ ls }
conclude s crm deal kind (d ∷ ds) leads = by_funnel crm deal kind (d ∷ ds) (tm_deals s (d ∷ ds))

abbrev pub with_leads : Option (List ℕ) → Option (List OtherDeal × List ℕ)
with_leads none = none
with_leads (some leads) = some ([], leads)

-- Leads are looked up only if no other deal is found.
abbrev pub then_leads : Option (List ℕ) → Option (List OtherDeal) → Option (List OtherDeal × List ℕ)
then_leads leads none = none
then_leads leads (some []) = with_leads leads
then_leads leads (some (d ∷ ds)) = some (d ∷ ds, [])

-- The `try` of `check_one`.
unfoldable pub look_up : Crm → Deal → List String → Option (List OtherDeal × List ℕ)
unfolding duplicate_contact_ids other_deals
look_up crm deal phones = elim (duplicate_contact_ids crm phones deal.contact) [
  | none ↦ none
  | some contacts ↦ then_leads (crm.leads_with phones) (other_deals crm contacts deal.id)
]

unfoldable pub of_look_up :
    AuditSettings → Crm → Deal → Kind → Option (List OtherDeal × List ℕ) → DuplicateCheck
unfolding conclude
of_look_up s crm deal kind none = bare "error"
of_look_up s crm deal kind (some (others, leads)) = conclude s crm deal kind others leads

-- `check_one`
unfoldable pub check_one : AuditSettings → Crm → Deal → Kind → List String → DuplicateCheck
unfolding look_up of_look_up
check_one s crm deal kind [] = bare "not_determinable"
check_one s crm deal kind (p ∷ ps) =
    if deal.contact == 0
    then bare "not_determinable"
    else of_look_up s crm deal kind (look_up crm deal (p ∷ ps))
