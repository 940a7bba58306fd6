-- ===== src/Stages/Once.antt =====
-- What scoring a call again leaves as it is: the alert that went out, the speaker labels that were
-- put right.
use atamura_okk.Base.{
  if◌then◌else◌, ℕ, ◌≡◌, refl, ap, ◌∙◌, subst, sym, String, Bool, true, false, not, none, some,
  List, [], ◌∷◌, map, arith, str_eq, eq_iff, inl, inr, Option-cases, Bool-cases, is_some,
}
use atamura_okk.Store.{
  Call, Score, Segment, Transcript, Manager, same_score, get_score, put_score, upsert_score,
}
use atamura_okk.Scoring.CallScore.{ManagerSide, CallScore}
use atamura_okk.Stages.Alert.{maybe_notify}
use atamura_okk.Stages.Labels.{swap_speaker, swap_segment, swap_speaker_labels, reconcile}

-- A row is stored under its own key.
same_score_refl : (s : Score) → same_score s.call_id s.rubric_version s ≡ true
same_score_refl s = ground (arith, eq_iff s.rubric_version s.rubric_version)

get_score-put :
    (s : Score) (ss : List Score) {r : Score}
    → get_score s.call_id s.rubric_version ss ≡ some r
    → get_score s.call_id s.rubric_version (put_score s ss) ≡ some s
unfolding get_score put_score
get_score-put s [] h = cc
get_score-put s (r ∷ rs) h = elim (Bool-cases (same_score s.call_id s.rubric_version r)) [
  | inl e ↦ rw e (rw (same_score_refl s) refl)
  | inr e ↦ rw e (rw e (get_score-put s rs (rw e at h)))
]

module _ (i : ℕ) (v : String) where
  -- Whether the score under the key has been alerted.
  abbrev notified : List Score → Bool
  notified ss = elim (get_score i v ss) [ none ↦ false | some s ↦ is_some s.notified_at ]

  notified-upsert :
      (s : Score) (ss : List Score) → notified ss ≡ true → notified (upsert_score s ss) ≡ true
  unfolding get_score upsert_score
  notified-upsert s [] h = ground arith
  notified-upsert s (r ∷ rs) h = ground (arith, notified-upsert s rs)

  -- The row found has the key that was asked for.
  get_score-key :
      (ss : List Score) {s : Score} → get_score i v ss ≡ some s → same_score i v s ≡ true
  unfolding get_score
  get_score-key [] h = cc
  get_score-key (r ∷ rs) {s} h = elim (Bool-cases (same_score i v r)) [
    | inl e ↦ ground (arith)
    | inr e ↦ get_score-key rs (rw e at h)
  ]

  maybe_notify-notified :
      (now max_age : ℕ) (works : Bool) (r : CallScore) (c : Call) (ms : List Manager)
      (ss : List Score)
      → c.id ≡ i
      → notified ss ≡ true
      → maybe_notify now max_age works r v c ms ss ≡ (ss, none)
  unfolding maybe_notify
  maybe_notify-notified now max_age works r c ms ss key h = ground arith

  put-notified :
      (now : ℕ) (s : Score) (ss : List Score)
      → get_score i v ss ≡ some s
      → notified (put_score (record s { notified_at = some now }) ss) ≡ true
  put-notified now s ss h =
      let own : same_score i v s ≡ true = get_score-key ss h in
      let at_id : s.call_id ≡ i = ground arith in
      let at_version : s.rubric_version ≡ v = ground (arith, eq_iff s.rubric_version v) in
      let by_key : (rows : List Score)
          → get_score s.call_id s.rubric_version rows ≡ get_score i v rows =
        λ rows.
          ap (λ k. get_score k s.rubric_version rows) at_id
          ∙ ap (λ w. get_score i w rows) at_version in
      let s' : Score = record s { notified_at = some now } in
      let stored : get_score i v (put_score s' ss) ≡ some s' =
        sym (by_key (put_score s' ss)) ∙ get_score-put s' ss (by_key ss ∙ h) in
      rw (stored, notified) refl

  sent-notified :
      (now max_age : ℕ) (works : Bool) (r : CallScore) (c : Call) (ms : List Manager)
      (ss : List Score) {user : ℕ}
      → c.id ≡ i
      → (maybe_notify now max_age works r v c ms ss).1 ≡ some user
      → notified (maybe_notify now max_age works r v c ms ss).0 ≡ true
  unfolding maybe_notify
  sent-notified now max_age works r c ms ss key h = elim (Option-cases (get_score i v ss)) [
    | inl e ↦ ground arith
    | inr (s, e) ↦
        let written : (maybe_notify now max_age works r v c ms ss).0
            ≡ put_score (record s { notified_at = some now }) ss =
          ground arith in
        subst (λ scores. notified scores ≡ true) (sym written) (put-notified now s ss e)
  ]

  -- After an alert went out for a call, scoring the call again under the same rubric version sends
  -- no second alert, whatever the new assessment, time, manager or window.
  pub alert-once :
      (now now' max_age max_age' : ℕ) (works works' : Bool) (r r' : CallScore) (c c' : Call)
      (ms ms' : List Manager) (ss : List Score) (s : Score) {user : ℕ}
      → c.id ≡ i
      → c'.id ≡ i
      → (maybe_notify now max_age works r v c ms ss).1 ≡ some user
      → let scores = upsert_score s (maybe_notify now max_age works r v c ms ss).0 in
        maybe_notify now' max_age' works' r' v c' ms' scores ≡ (scores, none)
  alert-once now now' max_age max_age' works works' r r' c c' ms ms' ss s key key' h =
      maybe_notify-notified now' max_age' works' r' c' ms' _ key'
        (notified-upsert s _ (sent-notified now max_age works r c ms ss key h))

-- Swapping the two speakers twice gives each segment back.
swap_speaker-twice : (s : String) → swap_speaker (swap_speaker s) ≡ s
unfolding swap_speaker
swap_speaker-twice s = elim (Bool-cases (str_eq s "agent")) [
  | inl e ↦ subst (λ x. swap_speaker (swap_speaker x) ≡ x) (sym ((eq_iff s "agent").0 e)) refl
  | inr e ↦ elim (Bool-cases (str_eq s "customer")) [
    | inl e' ↦
        subst (λ x. swap_speaker (swap_speaker x) ≡ x) (sym ((eq_iff s "customer").0 e')) refl
    | inr e' ↦
        let kept : swap_speaker s ≡ s = rw (e, swap_speaker) (rw e' refl) in
        ap swap_speaker kept ∙ kept
  ]
]

swap_segments-twice : (ss : List Segment) → map swap_segment (map swap_segment ss) ≡ ss
swap_segments-twice [] = refl
swap_segments-twice (s ∷ ss) = ground (arith, swap_speaker-twice s.speaker, swap_segments-twice ss)

-- Whether the assessment names the side of the manager.
abbrev pub is_known : ManagerSide → Bool
is_known ManagerSide.side_unknown = false
is_known _ = true

-- Whether an assessment makes the stage swap the labels of a transcript.
abbrev pub is_swapped : ManagerSide → Transcript → Bool
is_swapped ManagerSide.side_b t = not t.manager_side_applied
is_swapped _ t = false

-- Labels are put right once: after an assessment that names the manager's side, no later
-- assessment changes the transcript. The first one swaps the segments' speakers exactly if it names
-- side B and no earlier one was applied, and swapping them again would give the segments back.
pub reconcile-once :
    (side later : ManagerSide) (t : Transcript)
    → is_known side ≡ true
    → (reconcile later (reconcile side t) ≡ reconcile side t)
      × ((reconcile side t).segments
          ≡ (if is_swapped side t then map swap_segment t.segments else t.segments))
      × (map swap_segment (map swap_segment t.segments) ≡ t.segments)
unfolding reconcile swap_speaker_labels
reconcile-once side later t h = (ground arith, ground arith, swap_segments-twice t.segments)
