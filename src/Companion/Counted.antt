-- ===== src/Companion/Counted.antt =====
-- AtamuraOKK/web/api/v1/hygiene.py: the numbers of each criterion add up.
use Prim.Native.Nat.{min}
use atamura_okk.Base.{
  subst, ℕ, zero, suc, true, max, ◌+◌, ◌-◌, ◌≤◌, ◌<◌, ◌≡◌, refl, inl, inr, String, Bool, ◌||◌, not,
  Option, none, some, List, [], ◌∷◌, length, take, select, map, mem, ltb, leb, ◌==◌, arith, All,
  Bool-cases, Option-cases,
}
use atamura_okk.Base.Distinct.{IsDistinct}
use atamura_okk.Base.Slices.{length-take, take-all}
use atamura_okk.Bitrix.Client.{page_size}
use atamura_okk.Drivers.Submit.{chunks_from}
use atamura_okk.Companion.Ints.{difference}
use atamura_okk.Companion.Cards.{
  Card, Text, HygieneSettings, Criterion, statuses, anketa, anketa_of, tasks_set, is_maintained,
  missing_fields, owes_anketa, owes_task,
}
use atamura_okk.Companion.Hygiene.{
  Deadlines, on_time, of_counts, tasks_on_time, called_deals, Comment, Markup, any_note, Calls,
  noted_all, notes_of, over_deals, of_calls, notes, Portal, criteria_of,
}
use atamura_okk.Companion.Tally.{IsCounted, scored-IsCounted, over-IsCounted}
use atamura_okk.Companion.Noted.{part-sum, noted-IsPart, called_deals-IsDistinct}

module _ {ℓ} {A : Type ℓ} where
  length-select : (p : A → Bool) (xs : List A) → length (select p xs) ≤ length xs
  length-select p [] = omega arith
  length-select p (x ∷ xs) = ground (arith, length-select p xs)

  length-map : {B : Type ℓ} (f : A → B) (xs : List A) → length (map f xs) ≡ length xs
  length-map f [] = refl
  length-map f (x ∷ xs) = omega (arith, length-map f xs)

  ltb-take : (n : ℕ) (xs : List A) → ltb (length (take n xs)) (length xs) ≡ ltb n (length xs)
  ltb-take n xs = elim (Bool-cases (ltb n (length xs))) [
    | inl e ↦ let full = length-take n xs (ground arith) in rw full refl
    | inr e ↦
        let all : take n xs ≡ xs = take-all n xs (ground arith) in rw e (rw all (ground arith))
  ]

-- What `IsCounted` says, with the cap of the settings.
abbrev pub Counts : HygieneSettings → Criterion → Type 0
Counts s c = IsCounted s.failed_max_items c.score

-- The three reads of the deadlines, if none fails, see the same activities: those that are open are
-- among those that are due, and as many as are counted are listed.
abbrev pub Agree : Option ℕ → Option ℕ → Option (List ℕ) → Type 0
Agree (some due) (some overdue) (some owners) = (overdue ≤ due) × (length owners ≡ overdue)
Agree _ _ _ = Unit {0}

abbrev no_owners : List ℕ
no_owners = []

take-none : (n : ℕ) → take n no_owners ≡ no_owners
take-none zero = refl
take-none (suc n) = refl

module _ (s : HygieneSettings) (lists : 0 < s.failed_max_items) where
  listed-IsCounted :
      (n overdue : ℕ) (owners : List ℕ)
      → overdue ≤ suc n
      → length owners ≡ overdue
      → Counts s (on_time (suc n) overdue (some (take (max 1 s.failed_max_items) owners)))
  unfolding difference
  listed-IsCounted n overdue owners within same =
      let most : max 1 s.failed_max_items ≡ s.failed_max_items = omega arith in
      let whole : leb overdue (suc n) ≡ true = ground arith in
      rw (most, whole)
        (scored-IsCounted s.failed_max_items "tasks_on_time" (suc n - overdue) (suc n) owners
          (ltb (length (take s.failed_max_items owners)) overdue) (omega arith)
          (omega (arith, within, same)) (rw⁻¹ same (ltb-take s.failed_max_items owners)))

  of_counts-IsCounted :
      (due overdue : Option ℕ) (items : Option (List ℕ))
      → Agree due overdue items
      → Counts s (of_counts s due overdue items)
  of_counts-IsCounted none overdue items h = tt
  of_counts-IsCounted (some due) none items h = tt
  of_counts-IsCounted (some zero) (some zero) items h = tt
  of_counts-IsCounted (some (suc n)) (some zero) items h =
      subst (λ xs. Counts s (on_time (suc n) 0 (some xs))) (take-none (max 1 s.failed_max_items))
        (listed-IsCounted n 0 [] (omega arith) refl)
  of_counts-IsCounted (some due) (some (suc o)) none h = tt
  of_counts-IsCounted (some zero) (some (suc o)) (some owners) h = tt
  of_counts-IsCounted (some (suc n)) (some (suc o)) (some owners) h =
      listed-IsCounted n (suc o) owners h.0 h.1

  tasks_on_time-IsCounted :
      (now start end : ℕ) (r : Deadlines)
      → Agree r.due r.overdue r.items
      → Counts s (tasks_on_time s now start end r)
  unfolding tasks_on_time
  tasks_on_time-IsCounted now start end r agree = elim (Bool-cases (leb (min end now) start)) [
    | inl e ↦ rw e tt
    | inr e ↦ rw e (of_counts-IsCounted r.due r.overdue r.items agree)
  ]

  notes_of-IsCounted :
      (titles : List ℕ → Bool) (ids noted : List ℕ)
      → 0 < length ids
      → length noted + length (select (λ i. not (mem i noted)) ids) ≡ length ids
      → Counts s (notes_of s titles ids (some noted))
  unfolding notes_of
  notes_of-IsCounted titles ids noted above_zero sum =
      let absent = select (λ i. not (mem i noted)) ids in
      elim (Bool-cases
        (length (take s.failed_max_items absent) == 0 || titles (take s.failed_max_items absent))) [
          | inl e ↦ rw e (
              scored-IsCounted s.failed_max_items "notes" (length noted) (length ids) absent
                (ltb (length (take s.failed_max_items absent)) (length absent)) above_zero sum
                (ltb-take s.failed_max_items absent))
          | inr e ↦ rw e tt
        ]

  over_deals-IsCounted :
      (note : List Comment → Bool) (r : Calls) (ids : List ℕ)
      → IsDistinct ids
      → Counts s (over_deals s note r ids)
  unfolding notes_of
  over_deals-IsCounted note r [] distinct = tt
  over_deals-IsCounted note r (d ∷ ds) distinct =
      elim (Option-cases (noted_all note r.comments (chunks_from page_size page_size (d ∷ ds)))) [
        | inl e ↦ rw e tt
        | inr (noted, e) ↦
            let part = noted-IsPart note r.comments page_size (d ∷ ds) noted e in
            rw e (notes_of-IsCounted r.titles (d ∷ ds) noted (omega arith) (part-sum part distinct))
      ]

  of_calls-IsCounted :
      (note : List Comment → Bool) (r : Calls) (owners : Option (List ℕ))
      → Counts s (of_calls s note r owners)
  of_calls-IsCounted note r none = tt
  of_calls-IsCounted note r (some owners) =
      over_deals-IsCounted note r (called_deals s owners).0 (called_deals-IsDistinct s owners)

  notes-IsCounted :
      (u : Markup) (marker : String) (uid start end : ℕ) (r : Calls)
      → Counts s (notes s u marker uid start end r)
  unfolding notes
  notes-IsCounted u marker uid start end r =
      of_calls-IsCounted (any_note s u marker uid start end) r r.owners

  statuses-IsCounted :
      (x : Text) (now end : ℕ) (deals : Option (List Card)) → Counts s (statuses s x now end deals)
  unfolding statuses
  statuses-IsCounted x now end none = tt
  statuses-IsCounted x now end (some deals) =
      over-IsCounted s "statuses" (is_maintained s x (min end now)) deals

  anketa_of-IsCounted : (x : Text) (deals : Option (List Card)) → Counts s (anketa_of s x deals)
  unfolding anketa_of
  anketa_of-IsCounted x none = tt
  anketa_of-IsCounted x (some deals) =
      over-IsCounted s "anketa" (λ d. missing_fields x d s.anketa_fields == 0)
        (select (owes_anketa x) deals)

  anketa-IsCounted : (x : Text) (deals : Option (List Card)) → Counts s (anketa s x deals)
  unfolding anketa
  anketa-IsCounted x deals = elim (Bool-cases (length s.anketa_fields == 0)) [
    | inl e ↦ rw e tt
    | inr e ↦ rw e (anketa_of-IsCounted x deals)
  ]

  tasks_set-IsCounted :
      (x : Text) (deals : Option (List Card)) (owners : Option (List ℕ))
      → Counts s (tasks_set s x deals owners)
  unfolding tasks_set
  tasks_set-IsCounted x none owners = tt
  tasks_set-IsCounted x (some deals) none = tt
  tasks_set-IsCounted x (some deals) (some ids) =
      over-IsCounted s "tasks_set" (λ d. mem d.id ids) (select (owes_task x) deals)

  pub criteria_of-IsCounted :
      (x : Text) (u : Markup) (marker : String) (uid now start end : ℕ) (p : Portal)
      → Agree p.deadlines.due p.deadlines.overdue p.deadlines.items
      → All (Counts s) (criteria_of s x u marker uid now start end p)
  unfolding criteria_of
  criteria_of-IsCounted x u marker uid now start end p agree = (
    statuses-IsCounted x now end p.deals,
    (
      anketa-IsCounted x p.deals,
      (
        tasks_set-IsCounted x p.deals p.task_owners,
        (
          tasks_on_time-IsCounted now start end p.deadlines agree,
          (notes-IsCounted u marker uid start end p.calls, tt),
        ),
      ),
    ),
  )
