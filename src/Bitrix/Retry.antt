-- ===== src/Bitrix/Retry.antt =====
-- AtamuraOKK/bitrix/client.py, `_invoke`: which attempt decides a call.
use atamura_okk.Base.{
  ℕ, zero, suc, ◌+◌, ◌-◌, ◌*◌, ◌≤◌, ◌<◌, ◌≡◌, refl, inl, inr, Bool, true, false, ◌&&◌, ◌||◌, not,
  List, [], ◌∷◌, leb, ltb, if◌then◌else◌, Bool-cases, arith,
}
use atamura_okk.Bitrix.Client.{
  Python, Retries, Body, non_json, error, envelope, Reply, transport_error, response, Called,
  returned, raised, transport, invalid_json, http, reported, backoff, leave, is_retryable_code,
  is_retryable_status, parse_retry_after, or_else, react, invoke_from, invoke,
}

module _ {ℓ} {A : Type ℓ} (py : Python) where
  abbrev is_throttled : Body A → Bool
  is_throttled non_json = false
  is_throttled (error code) = is_retryable_code (py.upper code)
  is_throttled (envelope _) = false

  -- A failure that another attempt may not meet.
  abbrev pub is_transient : Reply A → Bool
  is_transient transport_error = true
  is_transient (response status _ body) =
      is_retryable_status status || (not (leb 400 status) && is_throttled body)

  abbrev conclude_body : Body A → Called A
  conclude_body non_json = raised invalid_json
  conclude_body (error code) = raised (reported (py.upper code))
  conclude_body (envelope e) = returned e

  -- What a reply means for the call if there is no other attempt.
  abbrev pub conclude : Reply A → Called A
  conclude transport_error = raised transport
  conclude (response status _ body) =
      if leb 400 status then raised (http status) else conclude_body body

module _ {ℓ} {A : Type ℓ} (py : Python) where
  -- The wait after a transient failure.
  abbrev pub wait_of : ℕ → Reply A → ℕ
  wait_of delay transport_error = delay
  wait_of delay (response status retry_after _) =
      if is_retryable_status status
      then or_else (parse_retry_after py.float retry_after) delay
      else delay

  -- The waits after `n` transient failures; the delay doubles.
  abbrev pub waits : (ℕ → Reply A) → ℕ → ℕ → ℕ → List ℕ
  waits send zero attempt delay = []
  waits send (suc n) attempt delay =
      wait_of delay (send attempt) ∷ waits send n (attempt + 1) (delay * 2)

  react-backoff :
      (delay : ℕ) (reply : Reply A)
      → is_transient py reply ≡ true
      → react py true delay reply ≡ backoff (wait_of delay reply)
  unfolding react
  react-backoff delay transport_error h = refl
  react-backoff delay (response status after non_json) h = ground arith
  react-backoff delay (response status after (error code)) h = ground arith
  react-backoff delay (response status after (envelope e)) h = ground arith

  react-leave :
      (more : Bool) (delay : ℕ) (reply : Reply A)
      → (is_transient py reply && more) ≡ false
      → react py more delay reply ≡ leave (conclude py reply)
  unfolding react
  react-leave more delay transport_error h = ground arith
  react-leave more delay (response status after non_json) h = ground arith
  react-leave more delay (response status after (error code)) h = ground arith
  react-leave more delay (response status after (envelope e)) h = ground arith

  -- From an attempt on, with `left` more to come, the first reply that is not transient decides, or
  -- the last one.
  invoke_from-decides :
      (send : ℕ → Reply A) (last n left attempt delay : ℕ)
      → n ≤ left
      → attempt + left ≡ last
      → ((j : ℕ) → j < n → is_transient py (send (attempt + j)) ≡ true)
      → (is_transient py (send (attempt + n)) && ltb (attempt + n) last) ≡ false
      → invoke_from py send last (suc left) attempt delay
        ≡ (conclude py (send (attempt + n)), waits send n attempt delay)
  unfolding invoke_from
  invoke_from-decides send last zero left attempt delay within ends before settles =
      let same : attempt + 0 ≡ attempt = omega arith in
      let stop = react-leave (ltb attempt last) delay (send attempt) (rw same at settles) in
      rw same (rw (stop, invoke_from) refl)
  invoke_from-decides send last (suc n) zero attempt delay within ends before settles =
      absurd (omega arith)
  invoke_from-decides send last (suc n) (suc left) attempt delay within ends before settles =
      let more : ltb attempt last ≡ true = ground arith in
      let same : attempt + 0 ≡ attempt = omega arith in
      let next : attempt + suc n ≡ (attempt + 1) + n = omega arith in
      let first : is_transient py (send attempt) ≡ true = rw same at (before 0 (omega arith)) in
      let rest =
        invoke_from-decides send last n left (attempt + 1) (delay * 2) (omega arith) (omega arith)
          (λ j h.
            let e : attempt + suc j ≡ (attempt + 1) + j = omega arith in
            rw e at (before (suc j) (omega arith)))
          (rw next at settles) in
      let again : react py (ltb attempt last) delay (send attempt)
          ≡ backoff (wait_of delay (send attempt)) =
        rw more (react-backoff delay (send attempt) first) in
      rw next (rw (again, invoke_from) (rw rest refl))

  -- Facts about the attempts behind the first, with the first.
  later :
      (send : ℕ → Reply A) (attempt n : ℕ)
      → is_transient py (send attempt) ≡ true
      → ((j : ℕ) → j < n → is_transient py (send ((attempt + 1) + j)) ≡ true)
      → (j : ℕ) → j < suc n
      → is_transient py (send (attempt + j)) ≡ true
  later send attempt n first rest zero h =
      let same : attempt ≡ attempt + 0 = omega arith in rw same at first
  later send attempt n first rest (suc j) h =
      let next : (attempt + 1) + j ≡ attempt + suc j = omega arith in
      rw next at (rest j (omega arith))

  -- The attempt that decides exists: the search for it ends at the last one.
  settled_at :
      (send : ℕ → Reply A) (last left attempt : ℕ)
      → attempt + left ≡ last
      → (n : ℕ) × (n ≤ left)
        × ((j : ℕ) → j < n → is_transient py (send (attempt + j)) ≡ true)
        × ((is_transient py (send (attempt + n)) && ltb (attempt + n) last) ≡ false)
  settled_at send last zero attempt ends =
      (0, omega arith, λ j h. absurd (omega arith), ground arith)
  settled_at send last (suc left) attempt ends =
      elim (Bool-cases (is_transient py (send attempt))) [
        | inl more ↦
            let (n, within, before, settles) =
              settled_at send last left (attempt + 1) (omega arith) in
            let next : (attempt + 1) + n ≡ attempt + suc n = omega arith in
            (suc n, omega arith, later send attempt n more before, rw next at settles)
        | inr stop ↦
            let same : attempt ≡ attempt + 0 = omega arith in
            (0, omega arith, λ j h. absurd (omega arith), rw (rw same at stop) refl)
      ]

  -- If the client may post at all (`max_retries` is at least 1), a call makes at most that many posts. It waits after each transient failure but the last
  -- possible one, a time that doubles unless the portal names another, and returns or raises what
  -- the first reply says that is not transient, or the last reply. So the error after the loop
  -- (`RETRIES_EXHAUSTED`) is then never raised.
  pub invoke-decides :
      (r : Retries) (send : ℕ → Reply A)
      → 0 < r.max_retries
      → (n : ℕ) × (n < r.max_retries)
        × ((j : ℕ) → j < n → is_transient py (send (1 + j)) ≡ true)
        × ((is_transient py (send (1 + n)) && ltb (1 + n) r.max_retries) ≡ false)
        × (invoke py r send ≡ (conclude py (send (1 + n)), waits send n 1 r.base_delay))
  unfolding invoke
  invoke-decides r send pos =
      let left = r.max_retries - 1 in
      let (n, within, before, settles) = settled_at send r.max_retries left 1 (omega arith) in
      let all : suc left ≡ r.max_retries = omega arith in
      let run =
        invoke_from-decides send r.max_retries n left 1 r.base_delay within (omega arith) before
          settles in
      (n, omega arith, before, settles, rw all at run)

  -- A call that fails `n` times, fewer than it may retry, and then does not.
  pub invoke-after :
      (r : Retries) (send : ℕ → Reply A) (n : ℕ)
      → n < r.max_retries
      → ((j : ℕ) → j < n → is_transient py (send (1 + j)) ≡ true)
      → is_transient py (send (1 + n)) ≡ false
      → invoke py r send ≡ (conclude py (send (1 + n)), waits send n 1 r.base_delay)
  unfolding invoke
  invoke-after r send n few before stop =
      let left = r.max_retries - 1 in
      let all : suc left ≡ r.max_retries = omega arith in
      rw all at (
        invoke_from-decides send r.max_retries n left 1 r.base_delay (omega arith) (omega arith)
          before (rw stop refl))
