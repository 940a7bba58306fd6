-- ===== src/Meetings/Ends.antt =====
-- AtamuraOKK/scoring/meetings/recordings.py, `drain_pipeline`: the loop over the backlog ends.
use atamura_okk.Base.{
  ℕ, zero, suc, ◌+◌, ◌-◌, ◌*◌, ◌≤◌, ◌≡◌, ◌≢◌, inl, inr, true, List, arith, leb, ◌==◌, ==_iff,
  Bool-cases,
}
use atamura_okk.Meetings.Recordings.{Recording}
use atamura_okk.Meetings.Passes.{Config, World, download_pending, transcribe_pending, score_pending}
use atamura_okk.Meetings.Drain.{
  stages, active, drained, out_of_passes, Drained, stalls, drain_from, drain_pipeline,
}
use atamura_okk.Meetings.Effects.{
  IsFine, left, download_pending_lem, transcribe_pending_lem, score_pending_lem, push_pending_lem,
}

module _ (c : Config) where
  -- The stages of one pass pay for what they move forward.
  stages_lem :
      (w : World) (limit : ℕ) (rows : List Recording)
      → w.is_blank "" ≡ true
      → IsFine c rows
      → IsFine c (stages c w limit rows).0
        × (left c (stages c w limit rows).0 + (stages c w limit rows).1 ≤ left c rows)
  unfolding stages
  stages_lem w limit rows blank fine =
      let rows1 = (download_pending c w limit rows).0 in
      let rows2 = (transcribe_pending c w limit rows1).0 in
      let rows3 = (score_pending c w limit rows2).0 in
      let (fine1, paid1) = download_pending_lem c w limit rows fine in
      let (fine2, paid2) = transcribe_pending_lem c w limit rows1 fine1 blank in
      let (fine3, paid3) = score_pending_lem c w limit rows2 fine2 in
      let (fine4, paid4) = push_pending_lem c w limit rows3 fine3 in
      (fine4, omega (arith, paid1, paid2, paid3, paid4))

  -- What a run gives that may go on for `bound` passes.
  abbrev Within : ℕ → ℕ → ℕ → Drained → Type 0
  Within bound left passes d =
      (d.passes ≤ passes + bound)
      × (bound ≤ left → d.stop ≢ out_of_passes)
      × (d.stop ≡ drained → active d.rows ≡ 0)

  module _ (worlds : ℕ → World) (blank : (n : ℕ) → (worlds n).is_blank "" ≡ true) (limit : ℕ) where
    drain_from-Within :
        (m passes idle : ℕ) (rows : List Recording)
        → idle ≤ 1
        → IsFine c rows
        → Within
            (2 * left c rows + 2 - idle)
            m
            passes
            (drain_from c worlds limit m passes idle rows)
    unfolding drain_from
    drain_from-Within zero passes idle rows few fine =
        (omega arith, λ h. absurd (omega arith), λ h. cc)
    drain_from-Within (suc m) passes idle rows few fine =
        let (fine', paid) = stages_lem (worlds passes) limit rows (blank passes) fine in
        let rows' = (stages c (worlds passes) limit rows).0 in
        let moved = (stages c (worlds passes) limit rows).1 in
        elim (Bool-cases (active rows' == 0)) [
          | inl e ↦ rw e (omega arith, λ _ h. cc, λ _. (==_iff (active rows') 0).0 e)
          | inr e ↦ rw e (elim (Bool-cases (leb 2 (stalls moved idle))) [
            | inl k ↦ rw k (omega arith, λ _ h. cc, λ h. cc)
            | inr k ↦
                let less : 2 * left c rows' + 2 - stalls moved idle + 1
                    ≤ 2 * left c rows + 2 - idle =
                  ground arith in
                let rest =
                  drain_from-Within m (passes + 1) (stalls moved idle) rows' (ground arith) fine' in
                rw k (omega (arith, rest.0, less), λ h. rest.1 (omega (arith, less)), rest.2)
          ])
        ]

    -- Draining the backlog ends by itself. With `left` the stages that the rows have before them
    -- (three for a new recording, two for a downloaded one, one for a transcribed one), it takes at
    -- most twice as many passes and two more, whatever fails in them; with at least so many passes
    -- allowed it never stops for their number; and when it stops as drained, no row is active.
    pub drain_pipeline-ends :
        (max_passes : ℕ) (rows : List Recording)
        → IsFine c rows
        → let d = drain_pipeline c worlds limit max_passes rows in
          (d.passes ≤ 2 * left c rows + 2)
          × (2 * left c rows + 2 ≤ max_passes → d.stop ≢ out_of_passes)
          × (d.stop ≡ drained → active d.rows ≡ 0)
    unfolding drain_pipeline
    drain_pipeline-ends max_passes rows fine =
        let (few, enough, idle) = drain_from-Within max_passes 0 0 rows (omega arith) fine in
        (omega (arith, few), λ h. enough (omega arith), idle)
