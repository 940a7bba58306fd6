-- ===== src/Store/Laws.antt =====
-- Laws of the table operations: what a read by primary key gives after a write.
use atamura_okk.Base.{
  ℕ, ◌≡◌, refl, inl, inr, Bool, true, false, ◌||◌, Option, none, some, List, [], ◌∷◌, arith, ◌==◌,
  ==_refl, if◌then◌else◌, Bool-cases,
}
use atamura_okk.Store.Models.{CallStatus, Call, Transcript, status_eq}
use atamura_okk.Store.Tables.{
  get, put, update_where, ids, has_transcript, upsert_transcript, put_transcript,
}

-- The row found has the key that was asked for.
pub get-id : (i : ℕ) (cs : List Call) {c : Call} → get i cs ≡ some c → c.id ≡ i
unfolding get
get-id i [] h = cc
get-id i (d ∷ ds) h = elim (Bool-cases (d.id == i)) [
  | inl e ↦ ground (arith)
  | inr e ↦ get-id i ds (rw (e) at h)
]

-- A row that is replaced under its own key, or not at all.
abbrev pub overwrite : Call → Option Call → Option Call
overwrite c none = none
overwrite c (some _) = some c

pub get-put :
    (j : ℕ) (c : Call) (cs : List Call)
    → get j (put c cs) ≡ (if c.id == j then overwrite c (get j cs) else get j cs)
unfolding get put
get-put j c [] = ground arith
get-put j c (d ∷ ds) = ground (arith, get-put j c ds)

abbrev pub alter : (Call → Bool) → (Call → Call) → Option Call → Option Call
alter p f none = none
alter p f (some c) = some (if p c then f c else c)

pub get-update_where :
    (p : Call → Bool) (f : Call → Call)
    → ((c : Call) → (f c).id ≡ c.id)
    → (j : ℕ) (cs : List Call) → get j (update_where p f cs) ≡ alter p f (get j cs)
unfolding get update_where
get-update_where p f k j [] = refl
get-update_where p f k j (d ∷ ds) = ground (arith, k d, get-update_where p f k j ds)

pub ids-put : (c : Call) (cs : List Call) → ids (put c cs) ≡ ids cs
unfolding put
ids-put c [] = refl
ids-put c (d ∷ ds) = ground (arith, ids-put c ds)

pub ids-update_where :
    (p : Call → Bool) (f : Call → Call)
    → ((c : Call) → (f c).id ≡ c.id)
    → (cs : List Call) → ids (update_where p f cs) ≡ ids cs
unfolding update_where
ids-update_where p f k [] = refl
ids-update_where p f k (d ∷ ds) = ground (arith, k d, ids-update_where p f k ds)

pub has-upsert :
    (j : ℕ) (t : Transcript) (ts : List Transcript)
    → has_transcript j (upsert_transcript t ts) ≡ ((t.call_id == j) || has_transcript j ts)
unfolding has_transcript upsert_transcript
has-upsert j t [] = refl
has-upsert j t (u ∷ us) = ground (arith, has-upsert j t us)

pub has-put :
    (j : ℕ) (t : Transcript) (ts : List Transcript)
    → has_transcript j (put_transcript t ts) ≡ has_transcript j ts
unfolding has_transcript put_transcript
has-put j t [] = refl
has-put j t (u ∷ us) = ground (arith, has-put j t us)

pub get-put_found :
    (i : ℕ) (c : Call) (cs : List Call) {d : Call}
    → c.id ≡ i
    → get i cs ≡ some d
    → get i (put c cs) ≡ some c
get-put_found i c cs key found = rw (get-put i c cs) (rw (found, key, ==_refl i))

pub get-put_other :
    (j : ℕ) (c : Call) (cs : List Call) → (c.id == j) ≡ false → get j (put c cs) ≡ get j cs
get-put_other j c cs other = rw (get-put j c cs) (rw other)

pub status_eq_refl : (a : CallStatus) → status_eq a a ≡ true
status_eq_refl CallStatus.new = refl
status_eq_refl _ = refl
