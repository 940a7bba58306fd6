-- ===== src/Samples/Bitrix.antt =====
-- A list method behind one failure, on concrete rows.
use atamura_okk.Base.{
  ℕ, zero, suc, ◌+◌, ◌<◌, ◌≡◌, refl, true, false, ◌&&◌, none, some, List, [], ◌∷◌, ltb, arith,
}
use atamura_okk.Bitrix.Client.{
  Python, Retries, Reply, transport_error, response, envelope, Page, finished, page_size, invoke,
  list_rows,
}
use atamura_okk.Bitrix.Retry.{is_transient, conclude, waits, invoke-decides}
use atamura_okk.Bitrix.Paging.{page_of, capped, list_rows_complete}

abbrev python : Python
python = record { float = λ text. none; upper = λ text. text }

abbrev retries : Retries
retries = record { max_retries = 3; base_delay = 5 }

abbrev rows : List ℕ
rows = 7 ∷ 8 ∷ 9 ∷ []

-- Every call fails once on the way, and then answers.
abbrev flaky : ℕ → ℕ → Reply (Page ℕ)
flaky start zero = transport_error
flaky start (suc zero) = transport_error
flaky start (suc (suc attempt)) = response 200 none (envelope (page_of page_size rows start))

fails_once : (start j : ℕ) → j < 1 → is_transient python (flaky start (1 + j)) ≡ true
fails_once start zero h = refl
fails_once start (suc j) h = absurd (omega arith)

invoke-decides_example :
    (n : ℕ) × (n < 3)
    × ((j : ℕ) → j < n → is_transient python (flaky 0 (1 + j)) ≡ true)
    × ((is_transient python (flaky 0 (1 + n)) && ltb (1 + n) 3) ≡ false)
    × (invoke python retries (flaky 0)
        ≡ (conclude python (flaky 0 (1 + n)), waits python (flaky 0) n 1 5))
invoke-decides_example = invoke-decides python retries (flaky 0) (omega arith)

list_rows_complete_example :
    list_rows 4 python retries flaky (some 2) ≡ (capped (some 2) rows, finished)
list_rows_complete_example =
    list_rows_complete python retries rows flaky (some 2) 4 (λ start. 1) (λ start. omega arith)
      fails_once (λ start. refl) (omega arith)
