-- ===== src/Audit/Awaited.antt =====
-- AtamuraOKK/audit/batch.py, `_drop_pending` and `_settle`: what they do to the verdicts that wait.
use atamura_okk.Base.{
  ℕ, ◌≡◌, refl, sym, ap, ◌∙◌, inl, inr, String, Bool, true, false, ◌&&◌, Option, none, some, List,
  [], ◌∷◌, arith, ◌==◌, ==_iff, str_eq, mem, Bool-cases,
}
use atamura_okk.Audit.Deals.{AuditVerdict, get}
use atamura_okk.Audit.Service.{has_verdict, stored_name}
use atamura_okk.Audit.Settled.{name_of, verdict_at}
use atamura_okk.Audit.Polling.{
  is_awaited, drop_pending, write_verdict, settle, Judged, answered, lost,
}

-- A step that changes no verdict but those that wait.
abbrev pub Keeps : List AuditVerdict → List AuditVerdict → Type 0
Keeps rows rows' = (i : ℕ) → is_awaited i rows ≡ false → verdict_at i rows' ≡ verdict_at i rows

abbrev is_waiting : Option String → Bool
is_waiting none = false
is_waiting (some name) = str_eq name "pending"

-- Waiting is seen at the verdict.
waits : (o : Option AuditVerdict) → has_verdict (λ v. str_eq v "pending") o ≡ is_waiting (name_of o)
waits none = refl
waits (some v) = refl

pub is_awaited-by :
    (i : ℕ) (rows rows' : List AuditVerdict)
    → verdict_at i rows' ≡ verdict_at i rows
    → is_awaited i rows ≡ false
    → is_awaited i rows' ≡ false
is_awaited-by i rows rows' e h =
    waits (get i rows') ∙ ap is_waiting e ∙ sym (waits (get i rows)) ∙ h

pub Keeps-trans : (a b c : List AuditVerdict) → Keeps a b → Keeps b c → Keeps a c
Keeps-trans a b c f g i h = g i (is_awaited-by i a b (f i h) h) ∙ f i h

pub drop_pending-Keeps :
    (ids : List ℕ) (rows : List AuditVerdict) → Keeps rows (drop_pending ids rows)
unfolding drop_pending get
drop_pending-Keeps ids [] i h = refl
drop_pending-Keeps ids (v ∷ vs) i h = elim (Bool-cases (v.deal_id == i)) [
  | inl e ↦
      let settled : str_eq v.verdict "pending" ≡ false = rw e at h in
      let kept : (mem v.deal_id ids && str_eq v.verdict "pending") ≡ false =
        rw settled (ground arith) in
      rw (kept, e) refl
  | inr e ↦
      let rest = drop_pending-Keeps ids vs i (rw e at h) in
      elim (Bool-cases (mem v.deal_id ids && str_eq v.verdict "pending")) [
        | inl gone ↦ rw (gone, e) rest
        | inr kept ↦ rw (kept, e) rest
      ]
]

pub drop_pending-frees :
    (ids : List ℕ) (rows : List AuditVerdict) (i : ℕ)
    → mem i ids ≡ true
    → is_awaited i (drop_pending ids rows) ≡ false
unfolding drop_pending get
drop_pending-frees ids [] i m = refl
drop_pending-frees ids (v ∷ vs) i m =
    let rest = drop_pending-frees ids vs i m in
    elim (Bool-cases (v.deal_id == i)) [
      | inl e ↦
          let here : mem v.deal_id ids ≡ true = rw ((==_iff v.deal_id i).0 e) m in
          elim (Bool-cases (str_eq v.verdict "pending")) [
            | inl waiting ↦ rw (here, waiting) rest
            | inr settled ↦ rw (here, settled, e) settled
          ]
      | inr e ↦ elim (Bool-cases (mem v.deal_id ids && str_eq v.verdict "pending")) [
        | inl gone ↦ rw gone rest
        | inr kept ↦ rw (kept, e) rest
      ]
    ]

write_verdict-other :
    (j : ℕ) (name : String) (rows : List AuditVerdict) (i : ℕ)
    → (j == i) ≡ false
    → verdict_at i (write_verdict j name rows) ≡ verdict_at i rows
unfolding write_verdict get
write_verdict-other j name [] i apart = refl
write_verdict-other j name (v ∷ vs) i apart =
    let rest = write_verdict-other j name vs i apart in
    elim (Bool-cases (v.deal_id == j)) [
      | inl e ↦ let other : (v.deal_id == i) ≡ false = ground arith in rw (e, other) refl
      | inr e ↦ elim (Bool-cases (v.deal_id == i)) [
        | inl k ↦ rw (e, k) refl
        | inr k ↦ rw (e, k) rest
      ]
    ]

write_verdict-own :
    (i : ℕ) (name : String) (rows : List AuditVerdict)
    → is_awaited i rows ≡ true
    → verdict_at i (write_verdict i name rows) ≡ some name
unfolding write_verdict get
write_verdict-own i name [] h = cc
write_verdict-own i name (v ∷ vs) h = elim (Bool-cases (v.deal_id == i)) [
  | inl e ↦ rw e (rw e refl)
  | inr e ↦ rw e (rw e (write_verdict-own i name vs (rw e at h)))
]

pub settle-Keeps :
    (j : ℕ) (answer : Option String) (rows : List AuditVerdict)
    → Keeps rows (settle j answer rows).0
unfolding settle
settle-Keeps j answer rows i h = elim (Bool-cases (is_awaited j rows)) [
  | inr e ↦ rw e refl
  | inl e ↦ elim (Bool-cases (j == i)) [
    | inl same ↦ let there : is_awaited i rows ≡ true = rw ((==_iff j i).0 same) at e in absurd (cc)
    | inr apart ↦ rw e (write_verdict-other j (stored_name answer) rows i apart)
  ]
]

-- An answer that does not itself say `pending`.
abbrev pub IsAnswer : Judged → Type 0
IsAnswer (answered cut answer) = str_eq (stored_name answer) "pending" ≡ false
IsAnswer lost = Unit {0}

pub settle-frees :
    (i : ℕ) (answer : Option String) (rows : List AuditVerdict)
    → str_eq (stored_name answer) "pending" ≡ false
    → is_awaited i (settle i answer rows).0 ≡ false
unfolding settle
settle-frees i answer rows said = elim (Bool-cases (is_awaited i rows)) [
  | inr e ↦ rw e e
  | inl e ↦ rw e (
      waits (get i (write_verdict i (stored_name answer) rows))
      ∙ ap is_waiting (write_verdict-own i (stored_name answer) rows e)
      ∙ said)
]
