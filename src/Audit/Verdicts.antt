-- ===== src/Audit/Verdicts.antt =====
-- When the audit's checks accuse (AtamuraOKK/audit/duplicates.py, AtamuraOKK/audit/telephony.py).
use atamura_okk.Base.{
  ℕ, ◌≡◌, ◌≢◌, ◌↔◌, refl, inl, inr, String, false, Option, none, some, List, [], ◌∷◌, arith, ◌==◌,
  eq_iff, ==_iff, All, select, not, true, Bool-cases, Option-cases,
}
use atamura_okk.Audit.Deals.{Deal, AuditSettings, Kind}
use atamura_okk.Audit.Duplicates.{
  Crm, OtherDeal, sorted_set, then_leads, duplicate_contact_ids, other_deals, by_funnel, conclude,
  look_up, of_look_up, check_one, tm_deals,
}

-- All three look-ups in the CRM gave an answer: the contacts with the numbers; the deals of those
-- contacts and of the deal's own, each of which is the deal itself; and no lead.
pub data IsUnknown (crm : Crm) (d : Deal) (phones : List String) : Type 0 where
  unknown :
      (contacts : List ℕ) (deals : List OtherDeal)
      → crm.contacts_with phones ≡ some contacts
      → crm.deals_of (sorted_set d.contact contacts) ≡ some deals
      → All (λ o. o.id ≡ d.id) deals
      → crm.leads_with phones ≡ some []
      → IsUnknown crm d phones

none_other :
    (i : ℕ) (ds : List OtherDeal) → All (λ o. o.id ≡ i) ds → select (λ o. not (o.id == i)) ds ≡ []
none_other i [] h = refl
none_other i (d ∷ ds) h =
    let mine : (d.id == i) ≡ true = (==_iff _ _).1 h.0 in rw mine (none_other i ds h.1)

other_none :
    (i : ℕ) (ds : List OtherDeal) → select (λ o. not (o.id == i)) ds ≡ [] → All (λ o. o.id ≡ i) ds
other_none i [] h = tt
other_none i (d ∷ ds) h = elim (Bool-cases (d.id == i)) [
  | inl e ↦ ((==_iff _ _).0 e, other_none i ds (rw e at h))
  | inr e ↦ absurd (cc (rw e at h))
]

module _ (s : AuditSettings) (crm : Crm) (d : Deal) (k : Kind) where
  look_up-empty :
      (phones : List String) → look_up crm d phones ≡ some ([], []) → IsUnknown crm d phones
  unfolding look_up duplicate_contact_ids other_deals
  look_up-empty phones h = elim (Option-cases (crm.contacts_with phones)) [
    | inl e ↦ absurd (cc (rw (e, look_up) at h))
    | inr (contacts, e) ↦
        let h' = rw (e, look_up) at h in
        elim (Option-cases (crm.deals_of (sorted_set d.contact contacts))) [
          | inl f ↦ absurd (cc (rw (f, other_deals) at h'))
          | inr (deals, f) ↦
              by_deals contacts deals e f (rw (f, other_deals) at h')
                (select (λ o. not (o.id == d.id)) deals) refl
        ]
  ]
    where
      by_deals :
          (contacts : List ℕ) (deals : List OtherDeal)
          → crm.contacts_with phones ≡ some contacts
          → crm.deals_of (sorted_set d.contact contacts) ≡ some deals
          → then_leads (crm.leads_with phones) (some (select (λ o. not (o.id == d.id)) deals))
            ≡ some ([], [])
          → (others : List OtherDeal) → select (λ o. not (o.id == d.id)) deals ≡ others
          → IsUnknown crm d phones
      by_deals contacts deals e f k [] others = elim (Option-cases (crm.leads_with phones)) [
        | inl g ↦ absurd (cc (rw (others, g) at k))
        | inr ([], g) ↦ unknown contacts deals e f (other_none d.id deals others) g
        | inr (l ∷ ls, g) ↦ absurd (cc (rw (others, g) at k))
      ]
      by_deals contacts deals e f k (o ∷ os) others = absurd (cc (rw others at k))

  others-supported : (os ts : List OtherDeal) → (by_funnel crm d k os ts).verdict ≢ "contradicted"
  unfolding by_funnel
  others-supported os [] h = cc ((eq_iff "supported" "contradicted").1 h)
  others-supported os (t ∷ ts) h = cc ((eq_iff "supported" "contradicted").1 h)

  concluded :
      (found : Option (List OtherDeal × List ℕ))
      → (of_look_up s crm d k found).verdict ≡ "contradicted"
      → found ≡ some ([], [])
  unfolding of_look_up conclude
  concluded none h = absurd (cc ((eq_iff "error" "contradicted").1 h))
  concluded (some ([], [])) h = refl
  concluded (some ([], l ∷ ls)) h = absurd (cc ((eq_iff "supported" "contradicted").1 h))
  concluded (some (o ∷ os, ls)) h = absurd (others-supported (o ∷ os) (tm_deals s (o ∷ os)) h)

  contradicted-IsUnknown :
      (phones : List String)
      → (check_one s crm d k phones).verdict ≡ "contradicted"
      → (phones ≢ []) × (d.contact ≢ 0) × IsUnknown crm d phones
  unfolding check_one
  contradicted-IsUnknown [] h = absurd (cc ((eq_iff "not_determinable" "contradicted").1 h))
  contradicted-IsUnknown (p ∷ ps) h = elim (Bool-cases (d.contact == 0)) [
    | inl e ↦ absurd (cc ((eq_iff "not_determinable" "contradicted").1 (rw e at h)))
    | inr e ↦ (
      (λ empty. cc),
      (λ zero. let there = e in ground arith),
      look_up-empty (p ∷ ps) (concluded (look_up crm d (p ∷ ps)) (rw e at h)),
    )
  ]

  unknown-contradicted :
      (phones : List String)
      → phones ≢ []
      → d.contact ≢ 0
      → IsUnknown crm d phones
      → (check_one s crm d k phones).verdict ≡ "contradicted"
  unfolding check_one look_up duplicate_contact_ids other_deals
  unknown-contradicted [] h c u = absurd (h refl)
  unknown-contradicted (p ∷ ps) h c (unknown contacts deals e f mine g) =
      let present : (d.contact == 0) ≡ false = ground arith in
      let none_left = none_other d.id deals mine in
      let found : look_up crm d (p ∷ ps) ≡ some ([], []) =
        rw (e, look_up) (rw (f, other_deals) (rw (none_left, g) refl)) in
      rw (present, found) refl

  -- The audit calls the close reason of a duplicate invented exactly if the deal has a contact and a
  -- number and the CRM, asked without a failure, knows no deal but this one of the contacts with the
  -- number and of the deal's own contact, and no lead with the number. So a failed look-up, and a deal
  -- with nothing to look up, never accuse.
  pub check_one-accuses :
      (phones : List String)
      → ((check_one s crm d k phones).verdict ≡ "contradicted")
        ↔ ((phones ≢ []) × (d.contact ≢ 0) × IsUnknown crm d phones)
  check_one-accuses phones =
      (contradicted-IsUnknown phones, λ h. unknown-contradicted phones h.0 h.1 h.2)
