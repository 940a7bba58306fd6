-- ===== src/Audit/Names.antt =====
-- The verdicts that the checks and the judge of the audit give, and the route of a deal that has one
-- (AtamuraOKK/audit/service.py).
use atamura_okk.Base.{
  ℕ, ◌≡◌, ◌≢◌, refl, inl, inr, subst, String, Bool, true, false, Option, none, some, List, [], ◌∷◌,
  ◌==◌, str_eq, not, Bool-cases,
}
use atamura_okk.Audit.Deals.{Deal, AuditSettings, AuditVerdict, Kind, get, dup_kind}
use atamura_okk.Audit.Duplicates
use atamura_okk.Audit.Duplicates.{Crm, OtherDeal, tm_deals}
use atamura_okk.Audit.Telephony
use atamura_okk.Audit.Telephony.{Statistics, Attempt, audit_window, answered_of}
use atamura_okk.Audit.Service.{
  Route, World, has_verdict, first_reason, or_empty, is_member, by_transcript, by_reason,
  is_in_flight, is_done, route, stored_name, told_name, call_ids,
}
use atamura_okk.Audit.Settled.{name_of, verdict_at}

-- An answer that names a verdict, of those that a judge may give.
abbrev pub IsNamed : Option String → Type 0
IsNamed none = ⊥
IsNamed (some v) = (str_eq v "" ≡ false) × (str_eq v "pending" ≡ false)

-- A verdict that a later pass does not revise.
abbrev pub IsFinal : Option String → Type 0
IsFinal none = ⊥
IsFinal (some v) = (str_eq v "error" ≡ false) × (str_eq v "pending" ≡ false)

module _ (s : AuditSettings) (d : Deal) where
  by_funnel-IsNamed :
      (crm : Crm) (k : Kind) (others tm : List OtherDeal)
      → IsNamed (some (Duplicates.by_funnel crm d k others tm).verdict)
  unfolding Duplicates.by_funnel
  by_funnel-IsNamed crm k others [] = (refl, refl)
  by_funnel-IsNamed crm k others (t ∷ ts) = (refl, refl)

  conclude-IsNamed :
      (crm : Crm) (k : Kind) (found : Option (List OtherDeal × List ℕ))
      → IsNamed (some (Duplicates.of_look_up s crm d k found).verdict)
  unfolding Duplicates.of_look_up Duplicates.conclude
  conclude-IsNamed crm k none = (refl, refl)
  conclude-IsNamed crm k (some ([], [])) = (refl, refl)
  conclude-IsNamed crm k (some ([], l ∷ ls)) = (refl, refl)
  conclude-IsNamed crm k (some (o ∷ os, ls)) =
      by_funnel-IsNamed crm k (o ∷ os) (tm_deals s (o ∷ os))

  pub check_one-IsNamed :
      (crm : Crm) (k : Kind) (phones : List String)
      → IsNamed (some (Duplicates.check_one s crm d k phones).verdict)
  unfolding Duplicates.check_one
  check_one-IsNamed crm k [] = (refl, refl)
  check_one-IsNamed crm k (p ∷ ps) = elim (Bool-cases (d.contact == 0)) [
    | inl e ↦ rw e (refl, refl)
    | inr e ↦ rw e (conclude-IsNamed crm k (Duplicates.look_up crm d (p ∷ ps)))
  ]

  answers-IsNamed :
      (rows answered : List Attempt) → IsNamed (some (Telephony.conclude rows answered).verdict)
  unfolding Telephony.conclude
  answers-IsNamed rows [] = (refl, refl)
  answers-IsNamed rows (a ∷ as') = (refl, refl)

  attempts-IsNamed :
      (found : Option (List Attempt)) → IsNamed (some (Telephony.of_attempts s found).verdict)
  unfolding Telephony.of_attempts
  attempts-IsNamed none = (refl, refl)
  attempts-IsNamed (some rows) = answers-IsNamed rows (answered_of s rows)

  window-IsNamed :
      (stats : Statistics) (phones : List String) (window : Option (ℕ × ℕ))
      → IsNamed (some (Telephony.in_window s stats phones window).verdict)
  unfolding Telephony.in_window
  window-IsNamed stats phones none = (refl, refl)
  window-IsNamed stats phones (some window) =
      attempts-IsNamed (Telephony.all_attempts stats window phones)

  pub dialled-IsNamed :
      (stats : Statistics) (phones : List String)
      → IsNamed (some (Telephony.check_one s stats d phones).verdict)
  unfolding Telephony.check_one
  dialled-IsNamed stats [] = (refl, refl)
  dialled-IsNamed stats (p ∷ ps) = window-IsNamed stats (p ∷ ps) (audit_window d)

not-true : (b : Bool) → not b ≡ true → b ≡ false
not-true true h = cc
not-true false h = refl

-- A named verdict by which a deal counts as done is stored as it is, and final.
pub named-IsFinal :
    (o : Option String)
    → IsNamed o
    → not (str_eq (told_name o) "error") ≡ true
    → IsFinal (some (stored_name o))
named-IsFinal none named done = absurd named
named-IsFinal (some v) named done =
    let full = named.0 in rw full (not-true (str_eq v "error") done, named.1)

-- The route of a deal that has no verdict.
abbrev pub IsFresh : Route → Type 0
IsFresh Route.in_flight = ⊥
IsFresh Route.already_done = ⊥
IsFresh _ = Unit {0}

module _ (s : AuditSettings) (w : World) where
  by_transcript-IsFresh : (calls : List ℕ) → IsFresh (by_transcript s calls)
  by_transcript-IsFresh [] = tt
  by_transcript-IsFresh (i ∷ is) = elim (Bool-cases s.llm_judge_enabled) [
    | inl e ↦ rw e tt
    | inr e ↦ rw e tt
  ]

  pub by_reason-IsFresh : (d : Deal) (k : Option Kind) → IsFresh (by_reason s w d k)
  unfolding by_reason
  by_reason-IsFresh d (some k) = tt
  by_reason-IsFresh d none =
      elim (Bool-cases (is_member s.never_reached_reason_ids (first_reason d))) [
        | inl e ↦ rw e tt
        | inr e ↦ rw e (by_transcript-IsFresh (call_ids w d))
      ]

  by_reason-ne : (d : Deal) (k : Option Kind) → by_reason s w d k ≢ Route.already_done
  by_reason-ne d k h = subst IsFresh h (by_reason-IsFresh d k)

  stored-IsFinal :
      (o : Option AuditVerdict)
      → has_verdict (λ v. str_eq v "pending") o ≡ false
      → has_verdict (λ v. not (str_eq v "error")) o ≡ true
      → IsFinal (name_of o)
  stored-IsFinal none h k = absurd (cc)
  stored-IsFinal (some v) h k = (not-true (str_eq v.verdict "error") k, h)

  pub route-IsFinal :
      (rows : List AuditVerdict) (d : Deal)
      → route s w rows d ≡ Route.already_done
      → IsFinal (verdict_at d.id rows)
  unfolding route
  route-IsFinal rows d h = elim (Bool-cases (is_in_flight rows d)) [
    | inl e ↦ absurd (cc (rw e at h))
    | inr e ↦ elim (Bool-cases (is_done rows d)) [
      | inl k ↦ stored-IsFinal (get d.id rows) e k
      | inr k ↦
          absurd (by_reason-ne d (dup_kind s (or_empty (first_reason d))) (rw k at (rw e at h)))
    ]
  ]

  final-known :
      (o : Option AuditVerdict)
      → IsFinal (name_of o)
      → (has_verdict (λ v. str_eq v "pending") o ≡ false)
        × (has_verdict (λ v. not (str_eq v "error")) o ≡ true)
  final-known none h = absurd h
  final-known (some v) h = let plain = h.0 in (h.1, rw plain refl)

  -- A deal with a final verdict is not looked at again.
  pub final-route :
      (rows : List AuditVerdict) (d : Deal)
      → IsFinal (verdict_at d.id rows)
      → route s w rows d ≡ Route.already_done
  unfolding route
  final-route rows d h =
      let (waits, done) = final-known (get d.id rows) h in rw waits (rw done refl)
