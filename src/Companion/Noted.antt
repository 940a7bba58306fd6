-- ===== src/Companion/Noted.antt =====
-- AtamuraOKK/web/api/v1/hygiene.py, `_notes`: the called deals are different ones, and each of them
-- is noted or not.
use atamura_okk.Base.{
  ℕ, max, zero, suc, ◌+◌, ◌-◌, ◌≡◌, refl, ap, ◌∙◌, inl, inr, Bool, true, false, ◌||◌, not, Option,
  some, List, [], ◌∷◌, ◌++◌, length, take, select, mem, leb, ◌==◌, ==_iff, arith, Bool-cases,
  Option-cases, subst,
}
use mathlib.Core.Option.{some-injective}
use atamura_okk.Base.Distinct.{IsDistinct}
use atamura_okk.Drivers.Submit.{chunks_from, onto}
use atamura_okk.Companion.Cards.{HygieneSettings}
use atamura_okk.Companion.Hygiene.{Comment, called_from, called_deals, noted_all}

-- What is left of a list when some of it is left out.
pub data IsPart : List ℕ → List ℕ → Type 0 where
  done : IsPart [] []
  taken : {i : ℕ} {xs ys : List ℕ} → IsPart xs ys → IsPart (i ∷ xs) (i ∷ ys)
  left_out : {i : ℕ} {xs ys : List ℕ} → IsPart xs ys → IsPart xs (i ∷ ys)

++-IsPart : {xs ys us vs : List ℕ} → IsPart xs ys → IsPart us vs → IsPart (xs ++ us) (ys ++ vs)
++-IsPart done q = q
++-IsPart (taken p) q = taken (++-IsPart p q)
++-IsPart (left_out p) q = left_out (++-IsPart p q)

select-IsPart : (p : ℕ → Bool) (is : List ℕ) → IsPart (select p is) is
select-IsPart p [] = done
select-IsPart p (i ∷ is) = elim (Bool-cases (p i)) [
  | inl e ↦ rw e (taken (select-IsPart p is))
  | inr e ↦ rw e (left_out (select-IsPart p is))
]

not-mem-IsPart : {xs ys : List ℕ} → IsPart xs ys → (i : ℕ) → mem i ys ≡ false → mem i xs ≡ false
not-mem-IsPart done i h = refl
not-mem-IsPart (taken p) i h = ground (arith, not-mem-IsPart p i)
not-mem-IsPart (left_out p) i h = not-mem-IsPart p i (ground arith)

abbrev outside : List ℕ → List ℕ → List ℕ
outside xs ys = select (λ i. not (mem i xs)) ys

outside-cons : (j : ℕ) (xs ys : List ℕ) → mem j ys ≡ false → outside (j ∷ xs) ys ≡ outside xs ys
outside-cons j xs [] h = refl
outside-cons j xs (i ∷ is) h =
    let rest = outside-cons j xs is (ground arith) in
    let apart : (j == i) ≡ false = ground arith in
    elim (Bool-cases (mem i xs)) [
      | inl e ↦ rw (apart, e) rest
      | inr e ↦ rw (apart, e) (ap (◌∷◌ i) rest)
    ]

-- A part of a list of different numbers and what is outside of it make up the list.
pub part-sum :
    {xs ys : List ℕ} → IsPart xs ys → IsDistinct ys → length xs + length (outside xs ys) ≡ length ys
part-sum done h = refl
part-sum {xs = i ∷ xs} {ys = _ ∷ ys} (taken p) h =
    let rest = part-sum p h.1 in
    let here : (i == i) ≡ true = ground arith in
    let same = ap (λ l. length l) (outside-cons i xs ys h.0) in rw here (omega (arith, rest, same))
part-sum {xs = xs} {ys = i ∷ ys} (left_out p) h =
    let rest = part-sum p h.1 in rw (not-mem-IsPart p i h.0) (omega (arith, rest))

abbrev join : List (List ℕ) → List ℕ
join [] = []
join (c ∷ cs) = c ++ join cs

join-onto : (i : ℕ) (cs : List (List ℕ)) → join (onto i cs) ≡ i ∷ join cs
join-onto i [] = refl
join-onto i (c ∷ cs) = refl

join-chunks_from : (size room : ℕ) (is : List ℕ) → join (chunks_from size room is) ≡ is
unfolding chunks_from
join-chunks_from size zero [] = refl
join-chunks_from size (suc room) [] = refl
join-chunks_from size (suc room) (i ∷ is) =
    join-onto i (chunks_from size room is) ∙ ap (◌∷◌ i) (join-chunks_from size room is)
join-chunks_from size zero (i ∷ is) =
    join-onto i (chunks_from size (size - 1) is) ∙ ap (◌∷◌ i) (join-chunks_from size (size - 1) is)

noted_all-IsPart :
    (note : List Comment → Bool) (comments : List ℕ → Option (ℕ → List Comment))
    (cs : List (List ℕ)) (noted : List ℕ)
    → noted_all note comments cs ≡ some noted
    → IsPart noted (join cs)
unfolding noted_all
noted_all-IsPart note comments [] noted h =
    subst (λ xs. IsPart xs []) (some-injective [] noted h) done
noted_all-IsPart note comments (c ∷ cs) noted h = elim (Option-cases (comments c)) [
  | inl e ↦ absurd (cc (rw e at h))
  | inr (found, e) ↦ elim (Option-cases (noted_all note comments cs)) [
    | inl f ↦ absurd (cc (rw (e, f) at h))
    | inr (more, f) ↦
        subst (λ xs. IsPart xs (join (c ∷ cs))) (some-injective _ noted (rw (e, f) at h))
          (++-IsPart (select-IsPart (λ i. note (found i)) c)
            (noted_all-IsPart note comments cs more f))
  ]
]

pub noted-IsPart :
    (note : List Comment → Bool) (comments : List ℕ → Option (ℕ → List Comment)) (size : ℕ)
    (ids noted : List ℕ)
    → noted_all note comments (chunks_from size size ids) ≡ some noted
    → IsPart noted ids
noted-IsPart note comments size ids noted h =
    subst (λ ys. IsPart noted ys) (join-chunks_from size size ids)
      (noted_all-IsPart note comments (chunks_from size size ids) noted h)

unseen :
    (o i : ℕ) (seen : List ℕ)
    → (o == 0 || mem o seen) ≡ false
    → mem i seen ≡ true
    → (o == i) ≡ false
unseen o i seen e h = elim (Bool-cases (o == i)) [
  | inl same ↦ let there : mem o seen ≡ true = rw ((==_iff o i).0 same) h in absurd (ground arith)
  | inr apart ↦ apart
]

-- The loop gives different deals, and none that it has seen.
called_from-IsDistinct :
    (most : ℕ) (seen owners : List ℕ)
    → IsDistinct (called_from most seen owners).0
      × ((i : ℕ) → mem i seen ≡ true → mem i (called_from most seen owners).0 ≡ false)
unfolding called_from
called_from-IsDistinct most seen [] = (tt, λ i h. refl)
called_from-IsDistinct most seen (o ∷ os) = elim (Bool-cases (o == 0 || mem o seen)) [
  | inl e ↦ rw e (called_from-IsDistinct most seen os)
  | inr e ↦ elim (Bool-cases (leb most (length seen + 1))) [
    | inl k ↦ rw (e, k) ((refl, tt), λ i h. let apart = unseen o i seen e h in rw apart refl)
    | inr k ↦
        let (distinct, fresh) = called_from-IsDistinct most (o ∷ seen) os in
        rw (e, k)
          (
            (fresh o (ground arith), distinct),
            λ i h.
                let apart = unseen o i seen e h in
                let behind : mem i (o ∷ seen) ≡ true = rw apart h in rw apart (fresh i behind),
          )
  ]
]

pub called_deals-IsDistinct :
    (s : HygieneSettings) (owners : List ℕ) → IsDistinct (called_deals s owners).0
unfolding called_deals
called_deals-IsDistinct s owners =
    (called_from-IsDistinct s.notes_max_deals [] (take (max 1 s.notes_max_calls) owners)).0
