-- ===== src/Companion/Sheet.antt =====
-- AtamuraOKK/web/api/v1/hygiene.py: the numbers of a view, of those in the cache as well.
use atamura_okk.Base.{
  ℕ, ◌+◌, ap, ◌<◌, ◌*◌, ◌≤◌, ◌≡◌, refl, inl, inr, String, Bool, true, false, ◌&&◌, Option, none,
  some, List, [], ◌∷◌, length, ltb, ◌==◌, str_eq, arith, All, Bool-cases, subst,
}
use mathlib.Core.Option.{some-injective}
use atamura_okk.Scoring.Percent.{round_half_even}
use atamura_okk.Companion.Ints.{ℤ, pos, ◌+ℤ◌, round_fraction}
use atamura_okk.Companion.Cards.{Text, HygieneSettings, Score, Criterion}
use atamura_okk.Companion.Hygiene.{
  Markup, Portal, HygieneView, pct_of, with_pct, live, sum_of, overall, criteria_of, Cached,
  cache_get, read_view, look_up, serve, get_hygiene,
}
use atamura_okk.Companion.Tally.{round-bound, IsCounted}
use atamura_okk.Companion.Counted.{Counts, Agree, criteria_of-IsCounted}

abbrev IsShare : Option ℤ → Type 0
IsShare none = Unit {0}
IsShare (some z) = (p : ℕ) × (z ≡ pos p) × (p ≤ 1000)

-- The numbers of a view add up.
abbrev pub IsSheet : HygieneSettings → HygieneView → Type 0
IsSheet s v = All (Counts s) v.criteria × IsShare v.overall_pct

abbrev pub AllSheets : HygieneSettings → List Cached → Type 0
AllSheets s cache = All (λ e. IsSheet s e.view) cache

module _ (s : HygieneSettings) (lists : 0 < s.failed_max_items) where
  pct-IsShare : (o : Option Score) → IsCounted s.failed_max_items o → IsShare (pct_of o)
  pct-IsShare none h = tt
  pct-IsShare (some r) h = let (p, given, within, above, below) = h.7 in rw given (p, refl, within)

  -- A sum of shares.
  abbrev IsSum : List ℤ → Type 0
  IsSum ps = (m : ℕ) × (sum_of ps ≡ pos m) × (m ≤ 1000 * length ps)

  with_pct-IsSum : (o : Option ℤ) (ps : List ℤ) → IsShare o → IsSum ps → IsSum (with_pct o ps)
  unfolding sum_of ◌+ℤ◌
  with_pct-IsSum none ps h rest = rest
  with_pct-IsSum (some z) ps (p, e, within) (m, sum, bound) =
      (p + m, rw (e, sum) refl, omega (arith, within, bound))

  live-IsSum : (cs : List Criterion) → All (Counts s) cs → IsSum (live cs)
  unfolding live sum_of
  live-IsSum [] h = (0, refl, omega arith)
  live-IsSum (c ∷ cs) h =
      with_pct-IsSum (pct_of c.score) (live cs) (pct-IsShare c.score h.0) (live-IsSum cs h.1)

  overall-IsShare : (ps : List ℤ) → IsSum ps → IsShare (overall ps)
  overall-IsShare [] h = tt
  overall-IsShare (p ∷ ps) (m, sum, bound) = (
    round_half_even m (length (p ∷ ps)),
    ap (λ z. round_fraction z (length (p ∷ ps))) sum,
    round-bound m (length (p ∷ ps)) (omega arith) bound,
  )

  abbrev IsHit : Option Cached → Type 0
  IsHit none = Unit {0}
  IsHit (some e) = IsSheet s e.view

  cache_get-IsHit :
      (uid : ℕ) (label : String) (cache : List Cached)
      → AllSheets s cache
      → IsHit (cache_get uid label cache)
  unfolding cache_get
  cache_get-IsHit uid label [] h = tt
  cache_get-IsHit uid label (e ∷ es) h =
      elim (Bool-cases (e.manager == uid && str_eq e.period label)) [
        | inl k ↦ rw k h.0
        | inr k ↦ rw k (cache_get-IsHit uid label es h.1)
      ]

  fresh-IsSheet :
      (refresh : Bool) (clock : ℕ) (o : Option Cached) (v : HygieneView)
      → IsHit o
      → look_up refresh clock o ≡ some v
      → IsSheet s v
  fresh-IsSheet true clock o v h e = absurd (cc e)
  fresh-IsSheet false clock none v h e = absurd (cc e)
  fresh-IsSheet false clock (some c) v h e = elim (Bool-cases (ltb clock c.expiry)) [
    | inl k ↦ subst (IsSheet s) (some-injective c.view v (rw k at e)) h
    | inr k ↦ absurd (cc (rw k at e))
  ]

  read_view-IsSheet :
      (x : Text) (u : Markup) (marker : String) (uid : ℕ) (label : String) (clock now start end : ℕ)
      (p : Portal) (cache : List Cached)
      → Agree p.deadlines.due p.deadlines.overdue p.deadlines.items
      → AllSheets s cache
      → IsSheet s (read_view s x u marker uid label clock now start end p cache).0
        × AllSheets s (read_view s x u marker uid label clock now start end p cache).1
  unfolding read_view
  read_view-IsSheet x u marker uid label clock now start end p cache agree old =
      let counted = criteria_of-IsCounted s lists x u marker uid now start end p agree in
      let share =
        overall-IsShare (live (criteria_of s x u marker uid now start end p))
          (live-IsSum (criteria_of s x u marker uid now start end p) counted) in
      elim (Bool-cases p.client_works) [
        | inl e ↦ rw e ((counted, share), ((counted, share), old))
        | inr e ↦ rw e ((tt, tt), old)
      ]

  serve-IsSheet :
      (read : HygieneView × List Cached) (cache : List Cached) (hit : Option HygieneView)
      → AllSheets s cache
      → IsSheet s read.0 × AllSheets s read.1
      → ((v : HygieneView) → hit ≡ some v → IsSheet s v)
      → IsSheet s (serve read cache hit).0 × AllSheets s (serve read cache hit).1
  serve-IsSheet read cache none old fine kept = fine
  serve-IsSheet read cache (some v) old fine kept = (kept v refl, old)

  -- The numbers of the hygiene screen add up, whichever reads fail, if the cap on its lists is at least
  -- 1 and the three reads of the deadlines agree, where all three give an answer: the open activities
  -- are no more than the due ones, and as many are listed as are counted. Each criterion that is live has a base; the cards in good standing
  -- and the failing ones that are listed are at most the base, and make it up unless the list says
  -- that it leaves some out, which it says only when it is full; the percentage is a nearest tenth of
  -- their share and at most 100, and the overall index is at most 100. If that holds of the views
  -- in the cache, it holds of the view that is given, read or from the cache, and of the cache behind
  -- it.
  pub get_hygiene-IsSheet :
      (x : Text) (u : Markup) (marker : String) (refresh : Bool) (uid : ℕ) (label : String)
      (clock now start end : ℕ) (p : Portal) (cache : List Cached)
      → Agree p.deadlines.due p.deadlines.overdue p.deadlines.items
      → AllSheets s cache
      → IsSheet s (get_hygiene s x u marker refresh uid label clock now start end p cache).0
        × AllSheets s (get_hygiene s x u marker refresh uid label clock now start end p cache).1
  unfolding get_hygiene
  get_hygiene-IsSheet x u marker refresh uid label clock now start end p cache agree old =
      let hit = cache_get uid label cache in
      serve-IsSheet (read_view s x u marker uid label clock now start end p cache) cache
        (look_up refresh clock hit) old
        (read_view-IsSheet x u marker uid label clock now start end p cache agree old)
        (λ v e. fresh-IsSheet refresh clock hit v (cache_get-IsHit uid label cache old) e)
