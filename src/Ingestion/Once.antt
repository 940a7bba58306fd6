-- ===== src/Ingestion/Once.antt =====
-- What a second pass of ingestion over the same calls does (AtamuraOKK/ingestion/service.py).
use atamura_okk.Base.{
  ℕ, ◌+◌, ◌≡◌, ◌⊎◌, ◌<◌, ◌≤◌, refl, true, false, ◌&&◌, none, some, List, [], ◌∷◌, arith, inl, inr,
  str_eq, eq_iff, ◌≢◌, Option, String, ltb, Bool-cases, ◌==◌,
}
use atamura_okk.Store.{CallStatus, Call, get, update_where}
use atamura_okk.Settings.{Settings}
use atamura_okk.Ingestion.Scope.{
  Qualification, IngestStats, is_after, is_frozen, skip_reason_of, apply_scope,
}
use atamura_okk.Ingestion.Upsert.{
  CallFields, inserted, refreshed, upsert_rows, is_unattributed, attribute_manager,
}

module _ (f : CallFields) where
  -- A call that is delivered again is written once: repeating the upsert with the same fields
  -- changes nothing, whatever the time and the next free id are by then.
  pub upsert_rows-twice :
      (now later i j : ℕ) (cs : List Call)
      → upsert_rows later j f (upsert_rows now i f cs) ≡ upsert_rows now i f cs
  unfolding upsert_rows inserted refreshed
  upsert_rows-twice now later i j [] = ground (arith, eq_iff f.bitrix_call_id f.bitrix_call_id)
  upsert_rows-twice now later i j (c ∷ cs) = ground (arith, upsert_rows-twice now later i j cs)

-- The columns that something other than the upsert writes.
pub record SameWork (c c' : Call) : Type 0 where
  pub status : c'.status ≡ c.status
  pub analyzable : c'.analyzable ≡ c.analyzable
  pub skip_reason : c'.skip_reason ≡ c.skip_reason
  pub audio_object_key : c'.audio_object_key ≡ c.audio_object_key
  pub is_stereo : c'.is_stereo ≡ c.is_stereo
  pub language : c'.language ≡ c.language
  pub manager_id : c'.manager_id ≡ c.manager_id
  pub is_first_call : c'.is_first_call ≡ c.is_first_call
  pub client_qualified : c'.client_qualified ≡ c.client_qualified
  pub client_category : c'.client_category ≡ c.client_category
  pub client_qualified_at : c'.client_qualified_at ≡ c.client_qualified_at
  pub error : c'.error ≡ c.error
  pub attempts : c'.attempts ≡ c.attempts
  pub claimed_at : c'.claimed_at ≡ c.claimed_at

-- Ingesting a call again, or any other call, keeps the work on every call that is in the table: no
-- column changes that the scope rule, the attribution or the stages write.
pub upsert_rows-keeps :
    (f : CallFields) (now i j : ℕ) (cs : List Call) {c : Call}
    → get j cs ≡ some c
    → (c' : Call) × (get j (upsert_rows now i f cs) ≡ some c') × SameWork c c'
unfolding get upsert_rows refreshed
upsert_rows-keeps f now i j [] h = cc h
upsert_rows-keeps f now i j (d ∷ ds) {c} h = elim (Bool-cases (d.id == j)) [
  | inl e ↦ elim (Bool-cases (str_eq d.bitrix_call_id f.bitrix_call_id)) [
    | inl q ↦
        let here : some d ≡ some c = rw e at h in (refreshed f d, rw q (rw e refl), ground arith)
    | inr q ↦ let here : some d ≡ some c = rw e at h in (d, rw q (rw e refl), ground arith)
  ]
  | inr e ↦ elim (Bool-cases (str_eq d.bitrix_call_id f.bitrix_call_id)) [
    | inl q ↦ (c, rw q (rw e (rw e at h)), ground arith)
    | inr q ↦
        let (c', found, same) = upsert_rows-keeps f now i j ds (rw e at h) in
        (c', rw q (rw e found), same)
  ]
]

-- Attribution names the first manager only: no later pass, for whatever manager, changes a row that
-- an earlier pass for the same Bitrix user attributed.
pub attribute_manager-first :
    (user first second : ℕ) (cs : List Call)
    → attribute_manager user second (attribute_manager user first cs)
      ≡ attribute_manager user first cs
unfolding attribute_manager update_where is_unattributed
attribute_manager-first user first second [] = refl
attribute_manager-first user first second (c ∷ cs) =
    ground (arith, attribute_manager-first user first second cs)

module _ (s : Settings) (q : Qualification) where
  -- The call starts after the moment of qualification, and that counts.
  pub data IsLate (c : Call) : Type 0 where
    late :
        (started at : ℕ)
        → s.ingest_until_qualified ≡ true
        → c.started_at ≡ some started
        → q.at ≡ some at
        → at < started
        → IsLate c

  -- What the rule leaves of a row that it decides on.
  abbrev pub Skips : Call → Call → String → Type 0
  Skips c c' why =
      c' ≡ record c { status = CallStatus.skipped; analyzable = false; skip_reason = some why }

  abbrev pub ScopeOutcome : Call → IngestStats → Type 0
  ScopeOutcome c st =
      let (c', st') = apply_scope s q c st in
      ((c.status ≢ CallStatus.new) × (c.status ≢ CallStatus.skipped) × (c' ≡ c) × (st' ≡ st))
      ⊎ (((c.status ≡ CallStatus.new) ⊎ (c.status ≡ CallStatus.skipped))
          × (((c.duration_sec < s.ingest_min_duration_sec)
                × Skips c c' "too_short"
                × (st' ≡ record st { skipped = st.skipped + 1; too_short = st.too_short + 1 }))
              ⊎ (((s.ingest_min_duration_sec ≤ c.duration_sec)
                    × IsLate c
                    × Skips c c' "after_qualification"
                    × (st' ≡ record st {
                      skipped = st.skipped + 1;
                      after_qualification = st.after_qualification + 1;
                    }))
                  ⊎ ((s.ingest_min_duration_sec ≤ c.duration_sec)
                      × (¬ IsLate c)
                      × (c' ≡ record c {
                        status = CallStatus.new;
                        analyzable = true;
                        skip_reason = none;
                      })
                      × (st' ≡ record st { analyzable = st.analyzable + 1 })))))

  is_after-IsLate :
      (c : Call) → (s.ingest_until_qualified && is_after c.started_at q.at) ≡ true → IsLate c
  is_after-IsLate c h = at_times c.started_at q.at refl refl h
    where
      at_times :
          (started at : Option ℕ)
          → c.started_at ≡ started
          → q.at ≡ at
          → (s.ingest_until_qualified && is_after started at) ≡ true
          → IsLate c
      at_times none at e f h = absurd (ground arith)
      at_times (some a) none e f h = absurd (ground arith)
      at_times (some a) (some b) e f h = late a b (ground arith) e f (ground arith)

  IsLate-is_after :
      (c : Call) → IsLate c → (s.ingest_until_qualified && is_after c.started_at q.at) ≡ true
  IsLate-is_after c (late a b until e f less) = rw (until, e, f) (ground arith)

  open_cases :
      (c : Call)
      → is_frozen c ≡ false
      → (c.status ≡ CallStatus.new) ⊎ (c.status ≡ CallStatus.skipped)
  unfolding is_frozen
  open_cases c h = ground arith

  frozen_cases :
      (c : Call)
      → is_frozen c ≡ true
      → (c.status ≢ CallStatus.new) × (c.status ≢ CallStatus.skipped)
  unfolding is_frozen
  frozen_cases c h = ((λ e. cc (rw e at h)), (λ e. cc (rw e at h)))

  decided : (c : Call) (st : IngestStats) → is_frozen c ≡ false → ScopeOutcome c st
  unfolding skip_reason_of apply_scope
  decided c st h = elim (Bool-cases (ltb c.duration_sec s.ingest_min_duration_sec)) [
    | inl e ↦ inr (
      open_cases c h,
      inl (ground arith, rw (h, e, apply_scope) refl, rw (h, e, apply_scope) refl),
    )
    | inr e ↦ elim (Bool-cases (s.ingest_until_qualified && is_after c.started_at q.at)) [
      | inl l ↦ inr (
        open_cases c h,
        inr (
            inl (
              ground arith,
              is_after-IsLate c l,
              rw (h, e, l, apply_scope) refl,
              rw (h, e, l, apply_scope) refl,
            )),
      )
      | inr l ↦ inr (
        open_cases c h,
        inr (
            inr (
              ground arith,
              (λ k. cc (l, IsLate-is_after c k)),
              rw (h, e, l, apply_scope) refl,
              rw (h, e, l, apply_scope) refl,
            )),
      )
    ]
  ]

  -- The scope rule, on every branch. A call whose status is neither NEW nor SKIPPED stays as it is, and
  -- no counter moves. Any other call, whatever reason it was skipped for before, is skipped as too short
  -- if it is shorter than the threshold, else skipped as after qualification if the rule is on and the
  -- call starts after the moment of qualification, and is else NEW and analyzable without a reason. No
  -- other column changes, and the counters of that outcome go up by one.
  pub apply_scope_lem : (c : Call) (st : IngestStats) → ScopeOutcome c st
  unfolding apply_scope
  apply_scope_lem c st = elim (Bool-cases (is_frozen c)) [
    | inl e ↦
        let (not_new, not_skipped) = frozen_cases c e in
        inl (not_new, not_skipped, rw (e, apply_scope) refl, rw (e, apply_scope) refl)
    | inr e ↦ decided c st e
  ]

  -- Applying the rule again to a row gives the row back.
  pub apply_scope-twice :
      (c : Call) (st st' : IngestStats)
      → (apply_scope s q (apply_scope s q c st).0 st').0 ≡ (apply_scope s q c st).0
  unfolding apply_scope skip_reason_of is_frozen
  apply_scope-twice c st st' = ground arith
