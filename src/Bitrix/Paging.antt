-- ===== src/Bitrix/Paging.antt =====
-- AtamuraOKK/bitrix/client.py, `list`: the pages of a list method, put together again.
use atamura_okk.Base.{
  ℕ, zero, suc, ◌+◌, ◌-◌, ◌≤◌, ◌<◌, ◌≡◌, refl, ap, sym, ◌∙◌, inl, inr, true, false, Option, none,
  some, List, [], ◌∷◌, length, take, drop, leb, ltb, max, if◌then◌else◌, Bool-cases, arith,
}
use atamura_okk.Base.Slices.{
  take-all, take-nil, drop-all, length-take_pos, length-take-le, length-take-le_length, length-take,
  length-drop, take-take, drop-add, take-add,
}
use atamura_okk.Bitrix.Client.{
  Python, Retries, Reply, response, envelope, Called, returned, Page, Ending, finished, is_capped,
  yield_rows, after_rows, list_page, list_from, list_rows, invoke, page_size,
}
use atamura_okk.Bitrix.Retry.{is_transient, invoke-after}

-- The limit acts as the bound `most`, up to so many rows.
abbrev ActsAs : Option ℕ → ℕ → ℕ → Type 0
ActsAs limit most total = (y : ℕ) → 0 < y → y ≤ total → is_capped limit y ≡ leb most y

module _ {ℓ} {A : Type ℓ} where
  -- The slice of the rows that a portal serves at a cursor, with the next cursor while there are
  -- more rows.
  abbrev pub page_of : ℕ → List A → ℕ → Page A
  page_of size rows start = record {
    result = take size (drop start rows);
    next = if ltb (start + size) (length rows) then some (start + size) else none;
  }

  -- The rows that a caller asks for: all, or the first ones. A limit of 0 gives one row.
  abbrev pub capped : Option ℕ → List A → List A
  capped none rows = rows
  capped (some max_items) rows = take (max 1 max_items) rows

  yield_rows_lem :
      (limit : Option ℕ) (most yielded : ℕ) (rows : List A)
      → yielded < most
      → ActsAs limit most (yielded + length rows)
      → yield_rows limit yielded rows ≡ (
        take (most - yielded) rows,
        yielded + length (take (most - yielded) rows),
        leb (most - yielded) (length rows),
      )
  unfolding yield_rows
  yield_rows_lem limit most yielded [] room acts =
      let e : most - yielded ≡ suc (most - (yielded + 1)) = omega arith in
      let same : yielded + 0 ≡ yielded = omega arith in
      let open_end : leb (most - yielded) 0 ≡ false = ground arith in rw (open_end, e, same) refl
  yield_rows_lem limit most yielded (row ∷ rows) room acts =
      let e : most - yielded ≡ suc (most - (yielded + 1)) = omega arith in
      let test = acts (yielded + 1) (omega arith) (omega arith) in
      elim (Bool-cases (leb most (yielded + 1))) [
        | inl stop ↦
            let last : most - (yielded + 1) ≡ 0 = ground arith in
            rw (e, last, test, stop) (ground arith)
        | inr more ↦
            let rest =
              yield_rows_lem limit most (yielded + 1) rows (ground arith)
                (λ y p q. acts y p (omega arith)) in
            rw (e, test, more, rest) (ground arith)
      ]

  -- What one round does with a page that is not empty.
  list_page_lem :
      (again : ℕ → ℕ → List A × Ending) (limit : Option ℕ) (yielded : ℕ) (rows : List A)
      (next : Option ℕ)
      → 0 < length rows
      → list_page again limit yielded rows next
        ≡ after_rows again next (yield_rows limit yielded rows)
  list_page_lem again limit yielded [] next h = absurd (omega arith)
  list_page_lem again limit yielded (row ∷ rows) next h = refl

  module _ (size : ℕ) (sized : 0 < size) (rows : List A) (limit : Option ℕ) (most : ℕ) where
    -- A round from a cursor inside the rows: it ends with what was asked for, or goes on behind
    -- the page with the rest.
    round_lem :
        (again : ℕ → ℕ → List A × Ending) (start : ℕ)
        → start < length rows
        → start < most
        → ActsAs limit most (length rows)
        → (start + size < length rows
            → start + size < most
            → again (start + size) (start + size)
              ≡ (take (most - (start + size)) (drop (start + size) rows), finished))
        → list_page again limit start
            (page_of size rows start).result
            (page_of size rows start).next
          ≡ (take (most - start) (drop start rows), finished)
    round_lem again start inside room acts rest =
        let behind = drop start rows in
        let left = length-drop start rows in
        let short = length-take-le size behind in
        let part = length-take-le_length size behind in
        let full = length-take size behind in
        let yielded =
          yield_rows_lem limit most start (take size behind) room
            (λ y p q. acts y p (omega arith)) in
        let step =
          list_page_lem again limit start (take size behind) (page_of size rows start).next
            (length-take_pos size behind sized (omega arith)) in
        rw (step, yielded)
          (elim (Bool-cases (leb (most - start) (length (take size behind)))) [
            | inl stop ↦
                rw stop
                  (ap (λ l. (l, finished)) (take-take (most - start) size behind (ground arith)))
            | inr more ↦
                let all : take (most - start) (take size behind) ≡ take size behind =
                  take-all (most - start) (take size behind) (ground arith) in
                elim (Bool-cases (ltb (start + size) (length rows))) [
                  | inl next ↦
                      let exact : length (take size behind) ≡ size = full (ground arith) in
                      let go = rest (ground arith) (ground arith) in
                      let sum : size + (most - (start + size)) ≡ most - start = ground arith in
                      rw
                        (
                          all,
                          more,
                          exact,
                          next,
                          go,
                          drop-add start size rows,
                          take-add size (most - (start + size)) behind,
                          sum,
                        )
                        refl
                  | inr end ↦
                      let whole : take size behind ≡ behind = take-all size behind (ground arith) in
                      let more' = take-all (most - start) behind (ground arith) in
                      rw (all, more, end) (ap (λ l. (l, finished)) (whole ∙ sym more'))
                ]
          ])

  module _ (size : ℕ) (sized : 0 < size) (rows : List A) (fetch : ℕ → Called (Page A))
      (served : (start : ℕ) → fetch start ≡ returned (page_of size rows start)) (limit : Option ℕ)
      (most : ℕ) (acts : ActsAs limit most (length rows)) where
    -- From a cursor on, the loop gives the rows behind it, up to the bound.
    list_from-served :
        (fuel start : ℕ)
        → start ≤ length rows
        → length rows < start + fuel
        → start < most
        → list_from fuel fetch limit start start ≡ (take (most - start) (drop start rows), finished)
    unfolding list_from
    list_from-served zero start within enough room = absurd (omega arith)
    list_from-served (suc fuel) start within enough room =
        elim (Bool-cases (ltb start (length rows))) [
          | inl inside ↦
              rw (served start, list_from)
                (round_lem size sized rows limit most (list_from fuel fetch limit) start
                  (ground arith) room acts
                  (λ p q. list_from-served fuel (start + size) (omega arith) (omega arith) q))
          | inr over ↦
              let gone = drop-all start rows (ground arith) in
              rw (served start, list_from) (rw (gone, take-nil size, take-nil (most - start)) refl)
        ]

  limit-ActsAs :
      (limit : Option ℕ) (rows : List A)
      → (most : ℕ) × (0 < most)
        × ActsAs limit most (length rows)
        × (take most rows ≡ capped limit rows)
  limit-ActsAs none rows = (
    length rows + 1,
    omega arith,
    λ y pos within. ground arith,
    take-all (length rows + 1) rows (omega arith),
  )
  limit-ActsAs (some max_items) rows =
      (max 1 max_items, omega arith, λ y pos within. ground arith, refl)

module _ {ℓ} {A : Type ℓ} (py : Python) (r : Retries) (rows : List A) where
  -- Listing a method gives the portal's rows, all of them and in order, or the first `max_items`
  -- (at least one), and ends: if the portal serves pages of 50 rows with the next cursor as long as
  -- there are more, and fails any call in a transient way fewer times than the client retries. One
  -- round for each row, and one more, is enough.
  pub list_rows_complete :
      (send : ℕ → ℕ → Reply (Page A)) (limit : Option ℕ) (fuel : ℕ) (failures : ℕ → ℕ)
      → ((start : ℕ) → failures start < r.max_retries)
      → ((start j : ℕ) → j < failures start → is_transient py (send start (1 + j)) ≡ true)
      → ((start : ℕ)
          → send start (1 + failures start)
            ≡ response 200 none (envelope (page_of page_size rows start)))
      → length rows < fuel
      → list_rows fuel py r send limit ≡ (capped limit rows, finished)
  unfolding list_rows
  list_rows_complete send limit fuel failures few transient answers enough =
      let (most, pos, acts, same) = limit-ActsAs limit rows in
      let whole : most - 0 ≡ most = omega arith in
      list_from-served page_size (omega arith) rows (λ start. (invoke py r (send start)).0)
        (λ start.
          ap (λ c. c.0)
            (invoke-after py r (send start) (failures start) (few start) (transient start)
              (rw (answers start) refl))
          ∙ rw (answers start) refl)
        limit most acts fuel 0 (omega arith) (omega arith) pos
      ∙ rw whole (ap (λ l. (l, finished)) same)
