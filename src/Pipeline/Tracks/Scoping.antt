-- ===== src/Pipeline/Tracks/Scoping.antt =====
-- Passes that load rows, change them one by one and flush them: the scope rule and the retry.
use atamura_okk.Base.{
  non_empty, ℕ, ◌≡◌, refl, sym, subst, ◌∙◌, inl, inr, Bool, true, false, ◌⊎◌, Option, none, some,
  List, [], ◌∷◌, arith, leb, Bool-cases, All, All-take, All-sort_by, All-imp, String, select,
  Option-cases, ap, ==_iff, eq_iff, str_eq, ◌==◌,
}
use atamura_okk.Store.{CallStatus, Call, Db, status_eq, get, ids, has_transcript, updated_le}
use atamura_okk.Settings.{Settings}
use atamura_okk.Ingestion.Scope
use atamura_okk.Ingestion.Scope.{
  Qualification, IngestStats, no_stats, apply_scope, stamp, first_call, scope_rows,
  recompute_client, refresh_rows, refresh_qualification, has_key, history_le, requalifiable,
  option_eq, bool_eq, written, flush_row,
}
use atamura_okk.Ops.Retry
use atamura_okk.Ops.Retry.{RetryStats, requeue_one, requeue_rows, requeue_failed, failed_calls}
use atamura_okk.Pipeline.Rows.{same, requeued, scoped}
use atamura_okk.Pipeline.Keys.{IsDistinct, IsRowOf}
use atamura_okk.Pipeline.Tracks.Writes.{Tracks, Tracks-refl, IsDerived, put_derived, put_all-Tracks}
use atamura_okk.Pipeline.Tracks.Claims.{select_rows, status_eq→eq}

-- The row that the scope rule gives does not depend on the counters, and keeps its id.
apply_scope_row :
    (s : Settings) (q : Qualification) (c : Call) (st st' : IngestStats)
    → (apply_scope s q c st).0 ≡ (apply_scope s q c st').0
unfolding apply_scope
apply_scope_row s q c st st' = ground arith

apply_scope_id :
    (s : Settings) (q : Qualification) (c : Call) (st : IngestStats)
    → (apply_scope s q c st).0.id ≡ c.id
unfolding apply_scope
apply_scope_id s q c st = ground arith

stamp_id :
    (q : Qualification) (category : Option String) (c : Call) → (stamp q category c).id ≡ c.id
unfolding stamp
stamp_id q category c = refl

-- A flush that finds the row as it was read writes the row as it was set.
written-same :
    {A : Type 0} (eq : A → A → Bool) (read new : A)
    → (eq read new ≡ true → read ≡ new)
    → written eq read new read ≡ new
written-same eq read new sound = elim (Bool-cases (eq read new)) [
  | inl e ↦ rw e (sound e)
  | inr e ↦ rw e refl
]

option_eq→eq :
    {A : Type 0} (eq : A → A → Bool)
    → ((a b : A) → eq a b ≡ true → a ≡ b)
    → (a b : Option A) → option_eq eq a b ≡ true
    → a ≡ b
option_eq→eq eq sound none none h = refl
option_eq→eq eq sound none (some b) h = absurd (cc h)
option_eq→eq eq sound (some a) none h = absurd (cc h)
option_eq→eq eq sound (some a) (some b) h = ap some (sound a b h)

bool_eq→eq : (a b : Bool) → bool_eq a b ≡ true → a ≡ b
bool_eq→eq true b h = sym h
bool_eq→eq false true h = absurd (cc h)
bool_eq→eq false false h = refl

-- The row with the six columns that the pass can set.
abbrev set_columns : Call → Call → Call
set_columns c d = record c {
  client_qualified = d.client_qualified;
  client_qualified_at = d.client_qualified_at;
  client_category = d.client_category;
  analyzable = d.analyzable;
  status = d.status;
  skip_reason = d.skip_reason;
}

flush_row-same : (c d : Call) → flush_row c d c ≡ set_columns c d
unfolding flush_row
flush_row-same c d =
    rw
      (
        written-same (option_eq bool_eq) c.client_qualified d.client_qualified
            (option_eq→eq bool_eq bool_eq→eq _ _),
        written-same (option_eq ◌==◌) c.client_qualified_at d.client_qualified_at
            (option_eq→eq ◌==◌ (λ a b. (==_iff a b).0) _ _),
        written-same (option_eq str_eq) c.client_category d.client_category
            (option_eq→eq str_eq (λ a b. (eq_iff a b).0) _ _),
        written-same bool_eq c.analyzable d.analyzable (bool_eq→eq _ _),
        written-same status_eq c.status d.status (status_eq→eq _ _),
        written-same (option_eq str_eq) c.skip_reason d.skip_reason
            (option_eq→eq str_eq (λ a b. (eq_iff a b).0) _ _),
      )
      refl

scope-columns :
    (s : Settings) (q : Qualification) (category : Option String) (c : Call) (st : IngestStats)
    → set_columns c (apply_scope s q (stamp q category c) st).0
      ≡ (apply_scope s q (stamp q category c) st).0
unfolding apply_scope stamp
scope-columns s q category c st = ground arith

scope-flush :
    (s : Settings) (q : Qualification) (category : Option String) (c : Call) (st : IngestStats)
    → flush_row c (apply_scope s q (stamp q category c) st).0 c
      ≡ (apply_scope s q (stamp q category c) st).0
scope-flush s q category c st =
    flush_row-same c (apply_scope s q (stamp q category c) st).0 ∙ scope-columns s q category c st

module _ (s : Settings) (db : Db) where
  abbrev flags : ℕ → Bool
  flags j = has_transcript j db.transcripts

  scoped-IsDerived :
      (q : Qualification) (category : Option String) (c c0 : Call) (st : IngestStats)
      → IsRowOf db.calls c
      → ((b : Bool) × (c0 ≡ first_call b c)) ⊎ (c0 ≡ c)
      → c0.id ≡ c.id
      → IsDerived s flags db.calls (apply_scope s q (stamp q category c0) st).0
  scoped-IsDerived q category c c0 st found from key =
      let key' : (apply_scope s q (stamp q category c0) st).0.id ≡ c.id =
        apply_scope_id s q (stamp q category c0) st ∙ (stamp_id q category c0 ∙ key) in
      (
        c,
        subst (λ k. get k db.calls ≡ some c) (sym key') found,
        rw (apply_scope_row s q (stamp q category c0) st no_stats) (scoped q category c0 from refl),
      )

  scope_rows-IsDerived :
      (q : Qualification) (category : Option String) (b : Bool) (rows : List Call)
      (st : IngestStats)
      → All (IsRowOf db.calls) rows
      → All (IsDerived s flags db.calls) (scope_rows s q category b rows st).0
  unfolding scope_rows
  scope_rows-IsDerived q category b [] st h = tt
  scope_rows-IsDerived q category b (c ∷ rows) st h = (
    scoped-IsDerived q category c (first_call b c) st h.0 (inl (b, refl)) refl,
    scope_rows-IsDerived q category false rows _ h.1,
  )

  refresh_rows-IsDerived :
      (quals : String → Qualification) (cats : String → Option String) (rows : List Call)
      (st : IngestStats)
      → All (IsRowOf db.calls) rows
      → All (IsDerived s flags db.calls) (refresh_rows s quals cats db.calls rows st).0
  unfolding refresh_rows
  refresh_rows-IsDerived quals cats [] st h = tt
  refresh_rows-IsDerived quals cats (c ∷ rows) st h = elim (Option-cases (non_empty c.client_key)) [
    | inl e ↦ rw (e, refresh_rows) (refresh_rows-IsDerived quals cats rows st h.1)
    | inr (key, e) ↦
        let c' = (apply_scope s (quals key) (stamp (quals key) (cats key) c) st).0 in
        let unchanged : flush_row c c' c ≡ c' = scope-flush s (quals key) (cats key) c st in
        rw (e, refresh_rows)
          (rw h.0 (
            subst (IsDerived s flags db.calls) (sym unchanged)
                (scoped-IsDerived (quals key) (cats key) c c st h.0 (inr refl) refl),
            refresh_rows-IsDerived quals cats rows _ h.1,
          ))
  ]

  module _ (distinct : IsDistinct (ids db.calls)) where
    found_rows : (p : Call → Bool) → All (IsRowOf db.calls) (select p db.calls)
    found_rows p =
        All-imp _ (IsRowOf db.calls) (λ c h. h.0) (select p db.calls)
          (select_rows db.calls distinct p)

    pub recompute-Tracks :
        (quals : String → Qualification) (cats : String → Option String) (key : String)
        (st : IngestStats)
        → Tracks s flags flags db.calls (recompute_client s quals cats key db st).0.calls
    unfolding recompute_client
    recompute-Tracks quals cats key st =
        put_all-Tracks s flags db.calls _ db.calls (Tracks-refl s flags db.calls) (
          scope_rows-IsDerived (quals key) (cats key) true _ st
            (All-sort_by (IsRowOf db.calls) history_le _ (found_rows (has_key key))))

    pub refresh-Tracks :
        (now : ℕ) (quals : String → Qualification) (cats : String → Option String) (limit : ℕ)
        (read : List Call)
        → All (IsRowOf db.calls) (requalifiable now limit read)
        → Tracks s flags flags db.calls
            (refresh_qualification now s quals cats limit read db).0.calls
    unfolding refresh_qualification
    refresh-Tracks now quals cats limit read undisturbed =
        put_all-Tracks s flags db.calls _ db.calls (Tracks-refl s flags db.calls)
          (refresh_rows-IsDerived quals cats _ Scope.no_stats undisturbed)

    abbrev IsFailedRow : Call → Type 0
    IsFailedRow c = IsRowOf db.calls c × (status_eq c.status CallStatus.failed ≡ true)

    requeue_one-IsDerived :
        (c : Call) (st : RetryStats)
        → IsFailedRow c
        → IsDerived s flags db.calls (requeue_one s db.transcripts c st).0
    unfolding requeue_one
    requeue_one-IsDerived c st (found, is_failed) =
        elim (Bool-cases (leb s.max_retries c.attempts)) [
          | inl dead ↦ rw dead (c, found, same refl)
          | inr alive ↦
              rw alive (c, found, requeued (status_eq→eq _ _ is_failed) (ground arith) refl)
        ]

    requeue_rows-Tracks :
        (rows : List Call) (now : List Call) (st : RetryStats)
        → Tracks s flags flags db.calls now
        → All IsFailedRow rows
        → Tracks s flags flags db.calls (requeue_rows s db.transcripts rows now st).0
    unfolding requeue_rows
    requeue_rows-Tracks [] now st so_far h = so_far
    requeue_rows-Tracks (c ∷ rows) now st so_far h =
        requeue_rows-Tracks rows _ _
          (put_derived s flags db.calls now (requeue_one s db.transcripts c st).0 so_far
            (requeue_one-IsDerived c st h.0))
          h.1

    pub retry-Tracks :
        (updated_at : ℕ → ℕ) (limit : ℕ)
        → Tracks s flags flags db.calls (requeue_failed updated_at s limit db).0.calls
    unfolding requeue_failed
    retry-Tracks updated_at limit =
        requeue_rows-Tracks _ db.calls Retry.no_stats (Tracks-refl s flags db.calls) (
          All-take IsFailedRow limit _ (
            All-sort_by IsFailedRow (updated_le updated_at) _
              (select_rows db.calls distinct (λ c. status_eq c.status CallStatus.failed))))
