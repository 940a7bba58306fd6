-- ===== src/Store/Tables.antt =====
-- Reads and writes of the tables. Each transaction of the source is one function on `Db`.
use atamura_okk.Base.{
  ℕ, String, Bool, true, false, ◌&&◌, ◌||◌, Option, none, some, List, [], ◌∷◌, map, leb, ◌==◌,
  str_eq, if◌then◌else◌,
}
use atamura_okk.Store.Models.{CallStatus, Db, status_eq, Call, Transcript, Score}

-- `session.get(Call, call_id)`
unfoldable pub get : ℕ → List Call → Option Call
get i [] = none
get i (c ∷ cs) = let rest = get i cs in if c.id == i then some c else rest

-- Flush of a mutated row: the row with its primary key is replaced.
unfoldable pub put : Call → List Call → List Call
put c [] = []
put c (d ∷ ds) = (if d.id == c.id then c else d) ∷ put c ds

-- `UPDATE calls SET … WHERE …`
unfoldable pub update_where : (Call → Bool) → (Call → Call) → List Call → List Call
update_where p f [] = []
update_where p f (c ∷ cs) = (if p c then f c else c) ∷ update_where p f cs

abbrev pub ids : List Call → List ℕ
ids cs = map (λ c. c.id) cs

-- `ORDER BY started_at ASC`: a missing value sorts last, as in Postgres.
abbrev pub started_le : Call → Call → Bool
started_le c d = key_le c.started_at d.started_at
  where
    key_le : Option ℕ → Option ℕ → Bool
    key_le none none = true
    key_le none (some _) = false
    key_le (some _) none = true
    key_le (some a) (some b) = leb a b

-- `ORDER BY updated_at ASC`. The column is kept by the database layer (`onupdate`), so its values
-- are a parameter, by call id.
abbrev pub updated_le : (ℕ → ℕ) → Call → Call → Bool
updated_le updated_at c d = leb (updated_at c.id) (updated_at d.id)

-- Whether a transcript row exists for the call (`uq transcripts.call_id`).
unfoldable pub has_transcript : ℕ → List Transcript → Bool
has_transcript i [] = false
has_transcript i (t ∷ ts) = (t.call_id == i) || has_transcript i ts

unfoldable pub get_transcript : ℕ → List Transcript → Option Transcript
get_transcript i [] = none
get_transcript i (t ∷ ts) =
    let rest = get_transcript i ts in if t.call_id == i then some t else rest

-- `INSERT … ON CONFLICT (call_id) DO UPDATE` of the transcript's four content columns.
unfoldable pub upsert_transcript : Transcript → List Transcript → List Transcript
upsert_transcript t [] = t ∷ []
upsert_transcript t (u ∷ us) =
    let rest = upsert_transcript t us in
    if u.call_id == t.call_id
    then record u {
      language = t.language;
      full_text = t.full_text;
      segments = t.segments;
      model = t.model;
    }
      ∷ us
    else u ∷ rest

unfoldable pub put_transcript : Transcript → List Transcript → List Transcript
put_transcript t [] = []
put_transcript t (u ∷ us) = (if u.call_id == t.call_id then t else u) ∷ put_transcript t us

abbrev pub same_score : ℕ → String → Score → Bool
same_score i version s = (s.call_id == i) && str_eq s.rubric_version version

unfoldable pub get_score : ℕ → String → List Score → Option Score
get_score i version [] = none
get_score i version (s ∷ ss) =
    let rest = get_score i version ss in if same_score i version s then some s else rest

-- `INSERT … ON CONFLICT (call_id, rubric_version) DO UPDATE`: `notified_at` is not written.
unfoldable pub upsert_score : Score → List Score → List Score
upsert_score s [] = s ∷ []
upsert_score s (r ∷ rs) =
    let rest = upsert_score s rs in
    if same_score s.call_id s.rubric_version r
    then record r {
      total_score = s.total_score;
      criteria = s.criteria;
      sentiment_customer = s.sentiment_customer;
      sentiment_agent = s.sentiment_agent;
      summary = s.summary;
      flags = s.flags;
      model = s.model;
      manager_spoken_name = s.manager_spoken_name;
    }
      ∷ rest
    else r ∷ rest

unfoldable pub put_score : Score → List Score → List Score
put_score s [] = []
put_score s (r ∷ rs) = (if same_score s.call_id s.rubric_version r then s else r) ∷ put_score s rs

-- `call is None or call.status != …`: the claimed row, if the claim holds.
unfoldable pub claimed : CallStatus → ℕ → Db → Option Call
claimed st i db = elim (get i db.calls) [
  | none ↦ none
  | some c ↦ if status_eq c.status st then some c else none
]
