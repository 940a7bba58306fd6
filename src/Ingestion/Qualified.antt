-- ===== src/Ingestion/Qualified.antt =====
-- AtamuraOKK/ingestion/qualification.py: the moment at which a client qualified, over all pages of
-- the stage history.
use mathlib.Core.List.{Memᴰ}
use atamura_okk.Base.{
  ℕ, zero, suc, ◌+◌, ◌≤◌, ◌<◌, ◌≡◌, refl, ap, ◌∙◌, inl, inr, ◌⊎◌, String, Option, none, some, List,
  [], ◌∷◌, length, take, drop, ltb, is_some, All, arith, Bool-cases,
}
use atamura_okk.Base.Slices.{take-all, length-drop, drop-add}
use atamura_okk.Bitrix.Client.{Called, returned, Page, page_size}
use atamura_okk.Bitrix.Paging.{page_of}
use atamura_okk.Ingestion.Clients.{
  Text, earlier, earliest_of, earliest, earliest_from, Portal, of_earliest, of_deals, of_found,
  check, or_unknown, qualified,
}

-- No later than an entry; an entry without a time bounds nothing.
abbrev pub NoLater : Option ℕ → Option ℕ → Type 0
NoLater m none = Unit {0}
NoLater none (some u) = ⊥
NoLater (some t) (some u) = t ≤ u

-- The earliest time among the entries, or nothing if no entry has one.
abbrev pub IsEarliest : List (Option ℕ) → Option ℕ → Type 0
IsEarliest items m = All (NoLater m) items × ((m ≡ none) ⊎ Memᴰ m items)

NoLater-refl : (m : Option ℕ) → NoLater m m
NoLater-refl none = tt
NoLater-refl (some t) = omega arith

NoLater-trans : (a b c : Option ℕ) → NoLater a b → NoLater b c → NoLater a c
NoLater-trans a b none h k = tt
NoLater-trans a none (some u) h k = absurd k
NoLater-trans none (some t) (some u) h k = absurd h
NoLater-trans (some s) (some t) (some u) h k = omega arith

earlier-NoLater :
    (best item : Option ℕ)
    → NoLater (earlier best item) best
      × NoLater (earlier best item) item
      × ((earlier best item ≡ best) ⊎ (earlier best item ≡ item))
earlier-NoLater none none = (tt, tt, inl refl)
earlier-NoLater (some b) none = (omega arith, tt, inl refl)
earlier-NoLater none (some t) = (tt, omega arith, inr refl)
earlier-NoLater (some b) (some t) = elim (Bool-cases (ltb t b)) [
  | inl e ↦ rw e (ground arith, omega arith, inr refl)
  | inr e ↦ rw e (omega arith, ground arith, inl refl)
]

earliest_of-NoLater :
    (best : Option ℕ) (items : List (Option ℕ))
    → NoLater (earliest_of best items) best
      × All (NoLater (earliest_of best items)) items
      × ((earliest_of best items ≡ best) ⊎ Memᴰ (earliest_of best items) items)
unfolding earliest_of
earliest_of-NoLater best [] = (NoLater-refl best, tt, inl refl)
earliest_of-NoLater best (item ∷ items) =
    let m = earliest_of (earlier best item) items in
    let (below, all, place) = earliest_of-NoLater (earlier best item) items in
    let (left_one, right_one, which) = earlier-NoLater best item in
    (
      NoLater-trans m (earlier best item) best below left_one,
      (NoLater-trans m (earlier best item) item below right_one, all),
      elim place [
        | inr m ↦ inr (Memᴰ.tail m)
        | inl e ↦ elim which [ inl f ↦ inl (e ∙ f) | inr f ↦ inr (Memᴰ.head (e ∙ f)) ]
      ],
    )

earliest_of-split :
    (n : ℕ) (best : Option ℕ) (items : List (Option ℕ))
    → earliest_of (earliest_of best (take n items)) (drop n items) ≡ earliest_of best items
unfolding earliest_of
earliest_of-split zero best items = refl
earliest_of-split (suc n) best [] = refl
earliest_of-split (suc n) best (item ∷ items) = earliest_of-split n (earlier best item) items

module _ (rows : List (Option ℕ)) (fetch : ℕ → Called (Page (Option ℕ)))
    (served : (cursor : ℕ) → fetch cursor ≡ returned (page_of page_size rows cursor)) where
  earliest_from-served :
      (fuel : ℕ) (best : Option ℕ) (cursor : ℕ)
      → cursor ≤ length rows
      → length rows < cursor + fuel
      → earliest_from fuel fetch best cursor ≡ earliest (earliest_of best (drop cursor rows))
  unfolding earliest_from
  earliest_from-served zero best cursor within enough = absurd (omega arith)
  earliest_from-served (suc fuel) best cursor within enough =
      let behind = drop cursor rows in
      elim (Bool-cases (ltb (cursor + page_size) (length rows))) [
        | inl more ↦
            let best' = earliest_of best (take page_size behind) in
            let rest =
              earliest_from-served fuel best' (cursor + page_size) (ground arith) (omega arith) in
            rw (served cursor, earliest_from)
              (rw more (
                rest
                ∙ rw (drop-add cursor page_size rows)
                    (ap earliest (earliest_of-split page_size best behind))))
        | inr end ↦
            let left = length-drop cursor rows in
            let whole : take page_size behind ≡ behind = take-all page_size behind (ground arith) in
            rw (served cursor, earliest_from) (rw (end, whole) refl)
      ]

-- How a client's deals are found.
pub data Finds (p : Portal) : String → String → List String → Type 0 where
  by_contact :
      (id : String) (deals : List String)
      → p.deals_of "CONTACT_ID" id ≡ returned deals
      → Finds p "CONTACT" id deals
  by_company :
      (id : String) (deals : List String)
      → p.deals_of "COMPANY_ID" id ≡ returned deals
      → Finds p "COMPANY" id deals
  by_deal : (id : String) → Finds p "DEAL" id (id ∷ [])

check-found :
    (fuel : ℕ) (p : Portal) (stage_ids : List String) {kind id : String} {deals : List String}
    → Finds p kind id deals
    → check fuel p stage_ids kind id ≡ of_deals fuel p stage_ids deals
unfolding check of_found
check-found fuel p stage_ids (by_contact id deals e) = rw e refl
check-found fuel p stage_ids (by_company id deals e) = rw e refl
check-found fuel p stage_ids (by_deal id) = refl

-- A client whose contact, company or deal leads to deals is qualified exactly if their history has
-- an entry into a qualified stage with a time, and then as of the earliest of all such entries,
-- wherever in the pages it stands: if the portal serves the history in pages of 50 with the next
-- cursor as long as there are more. One round for each entry, and one more, is enough.
pub qualified-IsEarliest :
    (x : Text) (p : Portal) (stage : String) (stages : List String) (key kind id deal : String)
    (deals : List String) (rows : List (Option ℕ)) (fuel : ℕ)
    → x.split key ≡ (kind, id)
    → Finds p kind id (deal ∷ deals)
    → ((cursor : ℕ)
        → p.history (deal ∷ deals) (stage ∷ stages) cursor
          ≡ returned (page_of page_size rows cursor))
    → length rows < fuel
    → (m : Option ℕ) × (qualified fuel x p (stage ∷ stages) key
        ≡ some (record { qualified = some (is_some m); at = m }))
      × IsEarliest rows m
unfolding qualified of_deals
qualified-IsEarliest x p stage stages key kind id deal deals rows fuel parted found served enough =
    let (none_later, all, place) = earliest_of-NoLater none rows in
    let run =
      earliest_from-served rows (p.history (deal ∷ deals) (stage ∷ stages)) served fuel none 0
        (omega arith) (omega arith) in
    (
      earliest_of none rows,
      rw parted (ap or_unknown (check-found fuel p (stage ∷ stages) found ∙ ap of_earliest run)),
      (all, place),
    )
