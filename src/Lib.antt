-- ===== src/Lib.antt =====
-- AtamuraOKK: a pipeline that takes telephone calls from a Bitrix portal, stores their recordings,
-- transcribes them, scores the conversation against a rubric and alerts managers of buyers who pay
-- cash. Postgres is the source of truth: a call is a row of `calls` with a status, each stage claims
-- rows by moving them from its ready status to its in-flight status, works outside the database, and
-- settles the row in a last transaction that checks the claim again. A dispatcher claims and
-- enqueues, a reconciler takes claims back that are too old, an operator's job retries failures.
--
-- The files, with the code that each is about (paths from the repository's root):
--   Base         Boolean tests on numbers, lists, membership
--   Settings     AtamuraOKK/settings.py, the knobs that the modelled code reads
--   Store        AtamuraOKK/db/models: the rows (Models), reads and writes of tables (Tables) and
--                what a read gives after a write (Laws)
--   Dispatch     AtamuraOKK/dispatch/claim.py: claim_ready, reclaim_stale, reclaim_all_stale (Claim),
--                the reconciler's pass (Reconcile)
--   Stages       the units of work: AtamuraOKK/ingestion/download.py (Download),
--                AtamuraOKK/transcription/worker.py (Transcribe), AtamuraOKK/scoring/worker.py
--                (Score, Labels, Alert), AtamuraOKK/scoring/batch.py (Batch); Tasks composes
--                download_one, transcribe_one and score_one; Once is about repeated scoring
--   Scoring      AtamuraOKK/scoring/rubric.py (Rubric), base.py (CallScore) and `_assemble` of
--                worker.py (Assemble, Percent); Bounds, Flat and Total are about its result
--   Ingestion    AtamuraOKK/ingestion/service.py: the scope rule (Scope), the upsert and manager
--                attribution (Upsert), the rule and repeated passes (Once), a requalification pass
--                whose calls move on while it waits (Race); qualification.py and category.py
--                (Clients; Qualified is about the moment of qualification); mapping.py (Mapping;
--                Keys is about the key of a client)
--   Ops          AtamuraOKK/ops/retry.py (Retry) and the operator's bulk requeues (Requeue)
--   Pipeline     the transition system over all of these: Rows says how one row can change in one
--                transaction, System has one constructor for each transaction, Keys and Tracks show
--                that each transaction changes each row by one such step; Invariant, Attempts,
--                Graph, DeadLetters, Leases, Queue, Retries and Redelivery are named for what they
--                show
--   Drivers      the loops: dispatch_tick and run_ingestion (Tick), submit_pending (Submit),
--                poll_batches and _drain_results (Batches), download_pending and transcribe_pending
--                (Sweeps); Commits and Drained are about them
--   Meetings     AtamuraOKK/scoring/meetings, which scores recordings of meetings. chunking.py
--                (Chunking; Bound is about the cap, Lossless about the lines). store.py, the rows of
--                recordings and their changes (Recordings, Requeue); download.py, transcribe.py and
--                recordings.py, a pass of each stage (Passes); push.py and recordings.py, the push,
--                `run_pipeline` and `drain_pipeline` (Drain). Table, Sweep, Sound and Effects carry
--                the proofs of Invariant and Ends. rubric.py, schema.py and base.py (Checklist),
--                result.py (Assemble; Marks is about it), meeting.py and cleanup.py (Merge; Worst
--                is about it)
--   Audit        AtamuraOKK/audit, which checks the reasons that deals were closed for: the deals and
--                the stored verdicts (Deals), duplicates.py (Duplicates; Verdicts is about it),
--                telephony.py (Telephony), service.py (Service; Settled, Names and Cursor are about
--                a pass and its cursor), batch.py (Polling; Awaited and Polled are about it)
--   Companion    AtamuraOKK/web/api/v1/hygiene.py, a screen of the managers' cabinet: the criteria over
--                deals (Cards), those over activities and the view with its cache (Hygiene), integers (Ints);
--                Tally, Noted, Counted and Sheet are about its numbers
--   Bitrix       AtamuraOKK/bitrix/client.py, through which all of these read the portal: a call with
--                its retries, a batch, the pages of a list (Client; Retry and Paging are about it)
--   Samples      concrete inputs
--
-- How state is modelled. `Db` has the five tables as lists of rows. A transaction is a function on
-- `Db`, or a constructor of `Step` that applies one. Several processes write at once, so the
-- properties of the pipeline are stated for every sequence of transactions, in any order, with tasks
-- that end, are delivered again, or are lost in a crash between their transactions. Time, rows that
-- other transactions have locked, and whatever comes from Bitrix, the storage, the speech engine,
-- the scoring model, the batch service or the broker are arguments. A task's error is a text.
--
-- Numbers are natural numbers, but for the counts of the hygiene, which can be below 0 (Ints); times are
-- seconds on one clock; a percentage is in hundredths, as `round(…, 2)` leaves it, and that of a
-- meeting or of the hygiene in tenths. Loops are structural on the list, the text or the number of
-- passes or attempts that they walk, but for the pages of a list method, whose end the portal decides:
-- `list_from` and `earliest_from` take fuel, and one round for each row and one more is enough.
-- The drivers are modelled as they run when no other process writes between their transactions; the
-- transition system has every interleaving of those transactions, but for two things: the flush of a
-- requalification pass over a call that changed since the pass read it, which Ingestion/Race is about,
-- and the moment between the query and the flush of the other passes that do not lock their rows.
--
-- Not modelled: the rest of the companion API (the day plan, the analytics, the queries behind the
-- cabinet and its exports), reports and summaries, the creation of managers, the detection of
-- manipulation and the schedule of the meetings' worker, prompts, adapters, migrations and scripts.
-- They read the same tables, render for people, or call outside services. Also left out are log
-- lines, the ingestion cursor, the columns `updated_at` (a parameter where it orders a query) and
-- those that nothing here reads.
pub mod Audit
pub mod Base
pub mod Bitrix
pub mod Companion
pub mod Dispatch
pub mod Drivers
pub mod Ingestion
pub mod Meetings
pub mod Ops
pub mod Pipeline
pub mod Samples
pub mod Scoring
pub mod Settings
pub mod Stages
pub mod Store
