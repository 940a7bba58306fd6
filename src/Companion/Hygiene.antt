-- ===== src/Companion/Hygiene.antt =====
-- AtamuraOKK/web/api/v1/hygiene.py: the criteria over the activities of a period, and the view with
-- its cache. A read of Bitrix is an argument, with nothing for a failure. The period is an argument, for
-- `okk.parse_period` reads the clock; a mean of percentages is rounded as they are.
use Prim.Native.Nat.{min}
use Prim.Native.String.{count}
use atamura_okk.Base.{
  ℕ, zero, suc, ◌+◌, max, String, Bool, true, false, ◌&&◌, ◌||◌, not, Option, none, some, List, [],
  ◌∷◌, ◌++◌, length, take, select, mem, ltb, leb, ◌==◌, str_eq, if◌then◌else◌,
}
use atamura_okk.Companion.Ints.{ℤ, pos, difference, ◌+ℤ◌, round_fraction}
use atamura_okk.Bitrix.Client.{page_size}
use atamura_okk.Drivers.Submit.{chunks_from}
use atamura_okk.Companion.Cards.{
  Card, Text, HygieneSettings, Score, Criterion, unavailable, scored, statuses, anketa, tasks_set,
}

-- What the three reads of `_tasks_on_time` answer, one after the other: the number of activities that
-- are due, the number of those that are open, and the owners of the open ones, in the portal's order.
pub record Deadlines : Type 0 where
  pub due : Option ℕ
  pub overdue : Option ℕ
  pub items : Option (List ℕ)

-- `await _overdue_items(…) if overdue else []`; a listing with a limit of 0 gives one row.
abbrev pub overdue_items : HygieneSettings → ℕ → Option (List ℕ) → Option (List ℕ)
overdue_items s zero items = some []
overdue_items s (suc n) none = none
overdue_items s (suc n) (some owners) = some (take (max 1 s.failed_max_items) owners)

-- The part of `_tasks_on_time` behind the reads. The reads may disagree, so the difference may be
-- below 0.
abbrev pub on_time : ℕ → ℕ → Option (List ℕ) → Criterion
on_time due overdue none = unavailable "tasks_on_time"
on_time zero overdue (some failed) = unavailable "tasks_on_time"
on_time (suc n) overdue (some failed) =
    scored "tasks_on_time" (difference (suc n) overdue) (suc n) failed (ltb (length failed) overdue)

abbrev pub of_counts : HygieneSettings → Option ℕ → Option ℕ → Option (List ℕ) → Criterion
of_counts s none overdue items = unavailable "tasks_on_time"
of_counts s (some due) none items = unavailable "tasks_on_time"
of_counts s (some due) (some overdue) items = on_time due overdue (overdue_items s overdue items)

-- `_tasks_on_time`
unfoldable pub tasks_on_time : HygieneSettings → ℕ → ℕ → ℕ → Deadlines → Criterion
unfolding scored
tasks_on_time s now start end r =
    if leb (min end now) start
    then unavailable "tasks_on_time"
    else of_counts s r.due r.overdue r.items

-- The loop of `_called_deals` over the owners of the calls; 0 is no owner.
unfoldable pub called_from : ℕ → List ℕ → List ℕ → List ℕ × Bool
called_from most seen [] = ([], false)
called_from most seen (o ∷ os) =
    let skipped = called_from most seen os in
    let (rest, truncated) = called_from most (o ∷ seen) os in
    if o == 0 || mem o seen
    then skipped
    else if leb most (length seen + 1)
    then (o ∷ [], true)
    else (o ∷ rest, truncated)

-- `_called_deals`
unfoldable pub called_deals : HygieneSettings → List ℕ → List ℕ × Bool
unfolding called_from
called_deals s owners = called_from s.notes_max_deals [] (take (max 1 s.notes_max_calls) owners)

-- A comment of a deal's timeline.
pub record Comment : Type 0 where
  pub author_id : ℕ
  pub created : Option ℕ
  pub text : String

-- The text of a comment without its markup, `str.lower`, and the search in a text.
pub record Markup : Type 0 where
  pub plain : String → String
  pub lower : String → String
  pub has : String → String → Bool

-- `_is_note`
unfoldable pub is_note : HygieneSettings → Markup → String → String → Bool
is_note s u marker text =
    let stripped = u.plain text in
    not (ltb (count stripped) s.note_min_chars)
    && (not (str_eq stripped "") && (str_eq marker "" || u.has marker (u.lower stripped)))

-- `_in_period`
abbrev pub in_period : ℕ → ℕ → Option ℕ → Bool
in_period start end none = false
in_period start end (some t) = leb start t && ltb t end

abbrev pub any_note : HygieneSettings → Markup → String → ℕ → ℕ → ℕ → List Comment → Bool
any_note s u marker uid start end [] = false
any_note s u marker uid start end (c ∷ cs) =
    (c.author_id == uid && (in_period start end c.created && is_note s u marker c.text))
    || any_note s u marker uid start end cs

-- What the reads of `_notes` find: the owners of the calls, the comments of a batch of deals, and
-- whether the titles can be read.
pub record Calls : Type 0 where
  pub owners : Option (List ℕ)
  pub comments : List ℕ → Option (ℕ → List Comment)
  pub titles : List ℕ → Bool

-- `noted_in`, by what the batch gives.
abbrev pub noted_in : (List Comment → Bool) → List ℕ → Option (ℕ → List Comment) → Option (List ℕ)
noted_in note deal_ids none = none
noted_in note deal_ids (some comments) = some (select (λ i. note (comments i)) deal_ids)

abbrev pub both : Option (List ℕ) → Option (List ℕ) → Option (List ℕ)
both none more = none
both (some ids) none = none
both (some ids) (some more) = some (ids ++ more)

-- The noted deals of all batches; a failure of one fails them all.
unfoldable pub noted_all :
    (List Comment → Bool) → (List ℕ → Option (ℕ → List Comment)) → List (List ℕ) → Option (List ℕ)
noted_all note comments [] = some []
noted_all note comments (c ∷ cs) = both (noted_in note c (comments c)) (noted_all note comments cs)

-- The end of `_notes`, with the noted deals.
unfoldable pub notes_of : HygieneSettings → (List ℕ → Bool) → List ℕ → Option (List ℕ) → Criterion
unfolding scored
notes_of s titles deal_ids none = unavailable "notes"
notes_of s titles deal_ids (some noted) =
    let absent = select (λ i. not (mem i noted)) deal_ids in
    let capped = take s.failed_max_items absent in
    if length capped == 0 || titles capped
    then scored "notes" (pos (length noted)) (length deal_ids) capped
        (ltb (length capped) (length absent))
    else unavailable "notes"

abbrev pub over_deals : HygieneSettings → (List Comment → Bool) → Calls → List ℕ → Criterion
over_deals s note r [] = unavailable "notes"
over_deals s note r (d ∷ ds) =
    notes_of s r.titles (d ∷ ds)
      (noted_all note r.comments (chunks_from page_size page_size (d ∷ ds)))

abbrev pub of_calls : HygieneSettings → (List Comment → Bool) → Calls → Option (List ℕ) → Criterion
of_calls s note r none = unavailable "notes"
of_calls s note r (some owners) = over_deals s note r (called_deals s owners).0

-- `_notes`; `marker` is the setting, stripped and in lower case.
unfoldable pub notes : HygieneSettings → Markup → String → ℕ → ℕ → ℕ → Calls → Criterion
unfolding called_deals noted_all notes_of is_note chunks_from
notes s u marker uid start end r = of_calls s (any_note s u marker uid start end) r r.owners

-- What Bitrix answers to the reads of a view. `client_works` says that the client itself does not
-- raise.
pub record Portal : Type 0 where
  pub client_works : Bool
  pub deals : Option (List Card)
  pub task_owners : Option (List ℕ)
  pub deadlines : Deadlines
  pub calls : Calls

pub record HygieneView : Type 0 where
  pub manager : ℕ
  pub period : String
  pub norm_pct : ℕ
  pub overall_pct : Option ℤ
  pub criteria : List Criterion

-- `_truncated_deals`
abbrev pub truncated_deals : HygieneSettings → Option (List Card) → Bool
truncated_deals s none = false
truncated_deals s (some deals) = leb s.deals_max_scan (length deals)

-- The note on a partial sample.
abbrev pub mark_partial : Bool → Criterion → Criterion
mark_partial truncated c = record c { is_partial = truncated }

abbrev pub pct_of : Option Score → Option ℤ
pct_of none = none
pct_of (some r) = r.pct

abbrev pub with_pct : Option ℤ → List ℤ → List ℤ
with_pct none ps = ps
with_pct (some p) ps = p ∷ ps

unfoldable pub live : List Criterion → List ℤ
live [] = []
live (c ∷ cs) = with_pct (pct_of c.score) (live cs)

unfoldable pub sum_of : List ℤ → ℤ
unfolding ◌+ℤ◌
sum_of [] = pos 0
sum_of (n ∷ ns) = n +ℤ sum_of ns

-- `round(sum(live) / len(live), 1) if live else None`
abbrev pub overall : List ℤ → Option ℤ
overall [] = none
overall (p ∷ ps) = some (round_fraction (sum_of (p ∷ ps)) (length (p ∷ ps)))

-- The five criteria of a view.
unfoldable pub criteria_of :
    HygieneSettings → Text → Markup → String → ℕ → ℕ → ℕ → ℕ → Portal → List Criterion
unfolding statuses anketa tasks_set tasks_on_time notes
criteria_of s x u marker uid now start end p =
    let partly = truncated_deals s p.deals in
    mark_partial partly (statuses s x now end p.deals)
    ∷ mark_partial partly (anketa s x p.deals)
    ∷ mark_partial partly (tasks_set s x p.deals p.task_owners)
    ∷ tasks_on_time s now start end p.deadlines
    ∷ notes s u marker uid start end p.calls
    ∷ []

-- `_cache`: the views by manager and period, with the time at which each expires. An entry in front
-- hides the older ones of its key.
pub record Cached : Type 0 where
  pub manager : ℕ
  pub period : String
  pub expiry : ℕ
  pub view : HygieneView

unfoldable pub cache_get : ℕ → String → List Cached → Option Cached
cache_get uid label [] = none
cache_get uid label (e ∷ es) =
    let rest = cache_get uid label es in
    if e.manager == uid && str_eq e.period label then some e else rest

abbrev pub fresh : ℕ → Option Cached → Option HygieneView
fresh clock none = none
fresh clock (some e) = if ltb clock e.expiry then some e.view else none

-- A view that is read from the portal, with what goes into the cache.
unfoldable pub read_view :
    HygieneSettings
    → Text
    → Markup
    → String
    → ℕ
    → String
    → ℕ
    → ℕ
    → ℕ
    → ℕ
    → Portal
    → List Cached
    → HygieneView × List Cached
unfolding criteria_of live sum_of
read_view s x u marker uid label clock now start end p cache =
    let criteria = criteria_of s x u marker uid now start end p in
    let view : HygieneView = record {
      manager = uid;
      period = label;
      norm_pct = s.norm_pct;
      overall_pct = overall (live criteria);
      criteria = criteria;
    } in
    if p.client_works
    then (
      view,
      record { manager = uid; period = label; expiry = clock + s.cache_ttl_seconds; view = view }
          ∷ cache,
    )
    else (record view { overall_pct = none; criteria = [] }, cache)

abbrev pub look_up : Bool → ℕ → Option Cached → Option HygieneView
look_up true clock hit = none
look_up false clock hit = fresh clock hit

-- The view of a hit, or else the one that is read.
abbrev pub serve :
    HygieneView × List Cached → List Cached → Option HygieneView → HygieneView × List Cached
serve read cache none = read
serve read cache (some view) = (view, cache)

-- `get_hygiene`. `clock` is `time.monotonic()`, and the period is `start`, `end` and its label.
unfoldable pub get_hygiene :
    HygieneSettings
    → Text
    → Markup
    → String
    → Bool
    → ℕ
    → String
    → ℕ
    → ℕ
    → ℕ
    → ℕ
    → Portal
    → List Cached
    → HygieneView × List Cached
unfolding read_view cache_get
get_hygiene s x u marker refresh uid label clock now start end p cache =
    serve (read_view s x u marker uid label clock now start end p cache) cache
      (look_up refresh clock (cache_get uid label cache))
