-- ===== src/Audit/Polling.antt =====
-- AtamuraOKK/audit/batch.py: the judge's requests as batches, and the poll that settles the deals
-- of those that have ended. The batch service and the parsing of an answer are parameters; a poll
-- runs as one process that no other interrupts. The tally of the verdicts and the model's name are
-- left out, and so is a failure of the service while it lists the results of an ended batch.
use atamura_okk.Base.{
  ℕ, ◌+◌, String, Bool, true, false, ◌&&◌, not, Option, none, some, List, [], ◌∷◌, ◌++◌, length,
  select, mem, ◌==◌, str_eq, if◌then◌else◌,
}
use atamura_okk.Drivers.Submit.{chunks_from}
use atamura_okk.Audit.Deals.{AuditVerdict, get}
use atamura_okk.Audit.Service.{has_verdict, stored_name}

-- A row of `audit_batches`. `id` stands for both of its ids.
pub record AuditBatch : Type 0 where
  pub id : String
  pub is_open : Bool
  pub deal_ids : List ℕ
  pub succeeded : ℕ
  pub errored : ℕ

-- The body of the loop of `submit_targets` over its chunks. `create` gives the id of the new batch,
-- if the service takes it.
unfoldable pub submit_chunk :
    (List ℕ → Option String) → List ℕ → List AuditBatch × List ℕ → List AuditBatch × List ℕ
submit_chunk create chunk (batches, submitted) = elim (create chunk) [
  | none ↦ (batches, submitted)
  | some id ↦ (
    batches
        ++ (record { id = id; is_open = true; deal_ids = chunk; succeeded = 0; errored = 0 } ∷ []),
    submitted ++ chunk,
  )
]

unfoldable pub submit_chunks :
    (List ℕ → Option String) → List (List ℕ) → List AuditBatch × List ℕ → List AuditBatch × List ℕ
unfolding submit_chunk
submit_chunks create [] acc = acc
submit_chunks create (chunk ∷ chunks) acc =
    submit_chunks create chunks (submit_chunk create chunk acc)

-- `submit_targets`, over the ids of the targets: the batches that it adds, and the deals that went
-- out. `size` is `anthropic_batch_size`.
unfoldable pub submit_targets : (List ℕ → Option String) → ℕ → List ℕ → List AuditBatch × List ℕ
unfolding submit_chunks chunks_from
submit_targets create size targets = submit_chunks create (chunks_from size size targets) ([], [])

-- Whether the deal's row is a pending one.
abbrev pub is_awaited : ℕ → List AuditVerdict → Bool
is_awaited i rows = has_verdict (λ v. str_eq v "pending") (get i rows)

-- `_drop_pending`
unfoldable pub drop_pending : List ℕ → List AuditVerdict → List AuditVerdict
drop_pending deal_ids rows =
    select (λ v. not (mem v.deal_id deal_ids && str_eq v.verdict "pending")) rows

-- The write of `_settle`, to the row that it has read.
unfoldable pub write_verdict : ℕ → String → List AuditVerdict → List AuditVerdict
write_verdict i name [] = []
write_verdict i name (v ∷ vs) =
    let rest = write_verdict i name vs in
    if v.deal_id == i then record v { verdict = name } ∷ vs else v ∷ rest

-- `_settle`, by the verdict that the answer names; the flag says that it has written.
unfoldable pub settle : ℕ → Option String → List AuditVerdict → List AuditVerdict × Bool
unfolding write_verdict
settle i answer rows =
    if is_awaited i rows then (write_verdict i (stored_name answer) rows, true) else (rows, false)

-- The result of one request: an answer, and whether it is cut off, or none.
pub data Judged : Type 0 where
  answered : Bool → Option String → Judged
  lost : Judged

-- A result of a batch, with the deal of its `custom_id` (`_deal_id`).
pub record BatchEntry : Type 0 where
  pub deal_id : Option ℕ
  pub judged : Judged

-- What `_drain` carries.
pub record Drained : Type 0 where
  pub verdicts : List AuditVerdict
  pub settled : ℕ
  pub failed : ℕ
  pub seen : List ℕ

abbrev pub count : ℕ → List AuditVerdict × Bool → Drained → Drained
count i (rows, true) st = record st {
  verdicts = rows;
  settled = st.settled + 1;
  seen = i ∷ st.seen;
}
count i (rows, false) st = record st { verdicts = rows; failed = st.failed + 1; seen = i ∷ st.seen }

-- The part of the loop's body behind the test of the id.
unfoldable pub drain_deal : ℕ → Judged → Drained → Drained
unfolding settle drop_pending
drain_deal i lost st = count i (drop_pending (i ∷ []) st.verdicts, false) st
drain_deal i (answered true answer) st = count i (drop_pending (i ∷ []) st.verdicts, false) st
drain_deal i (answered false answer) st = count i (settle i answer st.verdicts) st

abbrev pub drain_one : BatchEntry → Drained → Drained
drain_one e st = elim e.deal_id [ none ↦ st | some i ↦ drain_deal i e.judged st ]

unfoldable pub drain_entries : List BatchEntry → Drained → Drained
unfolding drain_deal
drain_entries [] st = st
drain_entries (e ∷ es) st = drain_entries es (drain_one e st)

-- The deals that the batch never reported.
abbrev pub unreported : List ℕ → List ℕ → List ℕ
unreported seen deal_ids = select (λ i. not (mem i seen)) deal_ids

-- `_drain`
unfoldable pub drain : List ℕ → List BatchEntry → List AuditVerdict → Drained
unfolding drain_entries drop_pending
drain deal_ids es rows =
    let st = drain_entries es (record { verdicts = rows; settled = 0; failed = 0; seen = [] }) in
    let missing = unreported st.seen deal_ids in
    record st { verdicts = drop_pending missing st.verdicts; failed = st.failed + length missing }

-- What the service says of a batch.
pub data Retrieved : Type 0 where
  unreachable processing : Retrieved
  ended : List BatchEntry → Retrieved

abbrev pub close : Drained → AuditBatch → AuditBatch
close st b = record b { is_open = false; succeeded = st.settled; errored = st.failed }

-- The body of the loop of `poll_batches`, for an open batch.
abbrev pub poll_one : Retrieved → AuditBatch → List AuditVerdict → AuditBatch × List AuditVerdict
poll_one unreachable b rows = (b, rows)
poll_one processing b rows = (b, rows)
poll_one (ended es) b rows = let st = drain b.deal_ids es rows in (close st b, st.verdicts)

-- Only the batches in flight are read; the flag is the test.
abbrev pub poll_row :
    Bool → Retrieved → AuditBatch → List AuditVerdict → AuditBatch × List AuditVerdict
poll_row true r b rows = poll_one r b rows
poll_row false r b rows = (b, rows)

-- `poll_batches`
unfoldable pub poll_batches :
    (AuditBatch → Retrieved)
    → List AuditBatch
    → List AuditVerdict
    → List AuditBatch × List AuditVerdict
unfolding drain
poll_batches retrieve [] rows = ([], rows)
poll_batches retrieve (b ∷ bs) rows =
    let (b', rows') = poll_row b.is_open (retrieve b) b rows in
    let (bs', rows'') = poll_batches retrieve bs rows' in (b' ∷ bs', rows'')
