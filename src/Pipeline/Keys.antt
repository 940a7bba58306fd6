-- ===== src/Pipeline/Keys.antt =====
-- The primary key: no transaction duplicates or changes an id.
use atamura_okk.Base.{
  ℕ, ◌≤◌, ◌≡◌, refl, inl, inr, true, false, some, List, [], ◌∷◌, arith, ◌==◌, ==_refl, All, All-imp,
  Bool-cases, mem, str_eq,
}
pub use atamura_okk.Base.Distinct.{IsDistinct}
use atamura_okk.Store.{Call, Db, get, ids}
use atamura_okk.Store.Laws.{ids-update_where}
use atamura_okk.Ingestion.Upsert.{CallFields, upsert_rows, upsert_call, next_id, attribute_manager}

abbrev pub HasKeys : Db → Type 0
HasKeys db = IsDistinct (ids db.calls)

pub ids-attribute : (u m : ℕ) (cs : List Call) → ids (attribute_manager u m cs) ≡ ids cs
unfolding attribute_manager
ids-attribute u m cs = ids-update_where _ _ (λ c. refl) cs

-- An id that no row has reached yet.
not-mem_below : (i : ℕ) (cs : List Call) → next_id cs ≤ i → mem i (ids cs) ≡ false
unfolding next_id
not-mem_below i [] h = refl
not-mem_below i (c ∷ cs) h = ground (arith, not-mem_below i cs)

mem-upsert :
    (now i j : ℕ) (f : CallFields) (cs : List Call)
    → mem j (ids cs) ≡ false
    → (i == j) ≡ false
    → mem j (ids (upsert_rows now i f cs)) ≡ false
unfolding upsert_rows
mem-upsert now i j f [] h e = ground arith
mem-upsert now i j f (c ∷ cs) h e = ground (arith, mem-upsert now i j f cs)

upsert-IsDistinct :
    (now i : ℕ) (f : CallFields) (cs : List Call)
    → mem i (ids cs) ≡ false
    → IsDistinct (ids cs)
    → IsDistinct (ids (upsert_rows now i f cs))
unfolding upsert_rows
upsert-IsDistinct now i f [] h d = (refl, tt)
upsert-IsDistinct now i f (c ∷ cs) h d =
    elim (Bool-cases (str_eq c.bitrix_call_id f.bitrix_call_id)) [
      | inl e ↦ rw e d
      | inr e ↦ rw e (
        mem-upsert now i c.id f cs d.0 (ground arith),
        upsert-IsDistinct now i f cs (ground arith) d.1,
      )
    ]

pub upsert_call-HasKeys :
    (now : ℕ) (f : CallFields) (db : Db) → HasKeys db → HasKeys (upsert_call now f db)
unfolding upsert_call
upsert_call-HasKeys now f db d =
    upsert-IsDistinct now (next_id db.calls) f db.calls (not-mem_below _ db.calls (omega arith)) d

-- With distinct ids, every row is the one that its id finds.
abbrev pub IsRowOf : List Call → Call → Type 0
IsRowOf cs c = get c.id cs ≡ some c

get-mem : (i : ℕ) (cs : List Call) {c : Call} → get i cs ≡ some c → mem i (ids cs) ≡ true
unfolding get
get-mem i [] h = cc
get-mem i (d ∷ ds) h = elim (Bool-cases (d.id == i)) [
  | inl e ↦ rw e
  | inr e ↦ rw e (get-mem i ds (rw e at h))
]

get_behind :
    (c : Call) (cs : List Call)
    → mem c.id (ids cs) ≡ false
    → (d : Call) → IsRowOf cs d
    → IsRowOf (c ∷ cs) d
unfolding get
get_behind c cs fresh d h = elim (Bool-cases (c.id == d.id)) [
  | inl e ↦ absurd (ground (arith, get-mem d.id cs h))
  | inr e ↦ rw e h
]

pub rows_found : (cs : List Call) → IsDistinct (ids cs) → All (IsRowOf cs) cs
unfolding get
rows_found [] h = tt
rows_found (c ∷ cs) h = (
  rw (==_refl c.id),
  All-imp (IsRowOf cs) (IsRowOf (c ∷ cs)) (get_behind c cs h.0) cs (rows_found cs h.1),
)
