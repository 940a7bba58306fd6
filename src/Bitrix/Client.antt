-- ===== src/Bitrix/Client.antt =====
-- AtamuraOKK/bitrix/client.py: one REST call with backoff, a batch of reads, and the pages of a
-- list method. The network is a parameter: what each post of a call gets for a reply.
use atamura_okk.Base.{
  ℕ, zero, suc, ◌+◌, ◌*◌, String, Bool, true, false, ◌&&◌, ◌||◌, not, Option, none, some, List, [],
  ◌∷◌, ◌++◌, length, leb, ltb, ◌==◌, str_eq, select, if◌then◌else◌,
}

-- `PAGE_SIZE`
abbrev pub page_size : ℕ
page_size = 50

-- The values of `settings` that the client reads.
pub record Retries : Type 0 where
  pub max_retries : ℕ
  pub base_delay : ℕ

-- What `float(value)` gives for a header's text.
pub data Number : Type 0 where
  non_negative negative : ℕ → Number

-- The body of a response: not JSON, an envelope with `error`, or any other.
pub data Body {ℓ} (A : Type ℓ) : Type ℓ where
  non_json : Body A
  error : String → Body A
  envelope : A → Body A

pub data Reply {ℓ} (A : Type ℓ) : Type ℓ where
  transport_error : Reply A
  response : ℕ → Option String → Body A → Reply A

-- `_RETRYABLE_CODES`
abbrev pub is_retryable_code : String → Bool
is_retryable_code c =
    str_eq c "QUERY_LIMIT_EXCEEDED"
    || (str_eq c "OPERATION_TIME_LIMIT" || str_eq c "INTERNAL_SERVER_ERROR")

-- `_RETRYABLE_STATUS`
abbrev pub is_retryable_status : ℕ → Bool
is_retryable_status s = s == 429 || (s == 500 || (s == 502 || (s == 503 || s == 504)))

-- `float` and `str.upper` of Python.
pub record Python : Type 0 where
  pub float : String → Option Number
  pub upper : String → String

-- `_parse_retry_after`; `float` is a parameter.
unfoldable pub parse_retry_after : (String → Option Number) → Option String → Option ℕ
parse_retry_after float none = none
parse_retry_after float (some value) = if str_eq value "" then none else elim (float value) [
  | none ↦ none
  | some (non_negative n) ↦ some n
  | some (negative n) ↦ some 0
]

-- The `code` of a `BitrixError`. `reported` has the code that Bitrix gave, in upper case; descriptions, which are
-- for people, are left out.
pub data Code : Type 0 where
  transport invalid_json retries_exhausted : Code
  http : ℕ → Code
  reported : String → Code

-- What a call returns or raises.
pub data Called {ℓ} (A : Type ℓ) : Type ℓ where
  returned : A → Called A
  raised : Code → Called A

-- What the loop's body does with a reply: `continue` after a wait, or leave the loop.
pub data Reaction {ℓ} (A : Type ℓ) : Type ℓ where
  backoff : ℕ → Reaction A
  leave : Called A → Reaction A

abbrev pub or_else : Option ℕ → ℕ → ℕ
or_else none d = d
or_else (some w) d = w

module _ {ℓ} {A : Type ℓ} (py : Python) where
  -- The part below the status tests. `more` is `attempt < last`.
  unfoldable pub react_body : Bool → ℕ → Body A → Reaction A
  react_body more delay non_json = leave (raised invalid_json)
  react_body more delay (envelope e) = leave (returned e)
  react_body more delay (error code) =
      if is_retryable_code (py.upper code) && more
      then backoff delay
      else leave (raised (reported (py.upper code)))

  unfoldable pub react : Bool → ℕ → Reply A → Reaction A
  unfolding react_body parse_retry_after
  react more delay transport_error = if more then backoff delay else leave (raised transport)
  react more delay (response status retry_after body) =
      if is_retryable_status status && more
      then backoff (or_else (parse_retry_after py.float retry_after) delay)
      else if leb 400 status
      then leave (raised (http status))
      else react_body more delay body

  -- The loop of `_invoke`, with the replies to its posts by the number of the attempt. It gives
  -- what the call returns or raises and the waits before that.
  unfoldable pub invoke_from : (ℕ → Reply A) → ℕ → ℕ → ℕ → ℕ → Called A × List ℕ
  unfolding react
  invoke_from send last zero attempt delay = (raised retries_exhausted, [])
  invoke_from send last (suc left) attempt delay =
      elim (react (ltb attempt last) delay (send attempt)) [
        | leave c ↦ (c, [])
        | backoff wait ↦
            let (c, waits) = invoke_from send last left (attempt + 1) (delay * 2) in
            (c, wait ∷ waits)
      ]

  -- `_invoke`
  unfoldable pub invoke : Retries → (ℕ → Reply A) → Called A × List ℕ
  unfolding invoke_from
  invoke r send = invoke_from send r.max_retries r.max_retries 1 r.base_delay

-- An envelope of a list method.
pub record Page {ℓ} (A : Type ℓ) : Type ℓ where
  pub result : List A
  pub next : Option ℕ

-- How the generator of `list` ends. `unfinished` is the model's: its fuel ran out.
pub data Ending : Type 0 where
  finished unfinished : Ending
  failed : Code → Ending

-- The test after each `yield`.
abbrev pub is_capped : Option ℕ → ℕ → Bool
is_capped none yielded = false
is_capped (some max_items) yielded = leb max_items yielded

module _ {ℓ} {A : Type ℓ} where
  -- The inner loop of `list`: the rows that it yields, how many were yielded by then, and whether
  -- it returned.
  unfoldable pub yield_rows : Option ℕ → ℕ → List A → List A × ℕ × Bool
  yield_rows limit yielded [] = ([], yielded, false)
  yield_rows limit yielded (row ∷ rows) =
      let (out, total, stop) = yield_rows limit (yielded + 1) rows in
      if is_capped limit (yielded + 1)
      then (row ∷ [], yielded + 1, true)
      else (row ∷ out, total, stop)

  -- The rest of the outer loop's body; `again` is its next round.
  abbrev pub after_rows : (ℕ → ℕ → List A × Ending) → Option ℕ → List A × ℕ × Bool → List A × Ending
  after_rows again next (rows, total, true) = (rows, finished)
  after_rows again none (rows, total, false) = (rows, finished)
  after_rows again (some start) (rows, total, false) =
      let (more, end) = again start total in (rows ++ more, end)

  abbrev pub list_page :
      (ℕ → ℕ → List A × Ending) → Option ℕ → ℕ → List A → Option ℕ → List A × Ending
  list_page again limit yielded [] next = ([], finished)
  list_page again limit yielded (row ∷ rows) next =
      after_rows again next (yield_rows limit yielded (row ∷ rows))

  -- `list`, from a cursor on and after so many rows: `fetch start` is the call of `call_raw`.
  unfoldable pub list_from : ℕ → (ℕ → Called (Page A)) → Option ℕ → ℕ → ℕ → List A × Ending
  unfolding yield_rows
  list_from zero fetch limit start yielded = ([], unfinished)
  list_from (suc fuel) fetch limit start yielded = elim (fetch start) [
    | raised code ↦ ([], failed code)
    | returned page ↦ list_page (list_from fuel fetch limit) limit yielded page.result page.next
  ]

  -- `list`, over the replies to each post of each call.
  unfoldable pub list_rows :
      ℕ → Python → Retries → (ℕ → ℕ → Reply (Page A)) → Option ℕ → List A × Ending
  unfolding list_from invoke
  list_rows fuel py r send limit = list_from fuel (λ start. (invoke py r (send start)).0) limit 0 0

-- The envelope of the `batch` method: `result` and `result_error`, by the caller's keys.
pub record BatchReply {ℓ} (A : Type ℓ) : Type ℓ where
  pub result : List (String × A)
  pub result_error : List (String × String)

-- `batch` raises a `ValueError` on more than a page of commands.
pub data Batched {ℓ} (A : Type ℓ) : Type ℓ where
  too_many : Batched A
  batch_failed : Code → Batched A
  batched : List (String × A) → Batched A

abbrev pub has_key {ℓ} : {A : Type ℓ} → String → List (String × A) → Bool
has_key k [] = false
has_key k ((j, _) ∷ rest) = str_eq j k || has_key k rest

module _ {ℓ} {A : Type ℓ} where
  -- `{key: value for key, value in result.items() if key not in errors}`
  abbrev pub without_errors : BatchReply A → List (String × A)
  without_errors e = select (λ kv. not (has_key kv.0 e.result_error)) e.result

  -- `batch`; `post` makes the call with the commands.
  unfoldable pub batch :
      {C : Type ℓ} (post : List (String × C) → Called (BatchReply A))
      → List (String × C)
      → Batched A
  batch post [] = batched []
  batch post (c ∷ cs) = if ltb page_size (length (c ∷ cs)) then too_many else elim (post (c ∷ cs)) [
    | raised code ↦ batch_failed code
    | returned e ↦ batched (without_errors e)
  ]
