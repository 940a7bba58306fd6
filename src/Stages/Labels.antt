-- ===== src/Stages/Labels.antt =====
-- AtamuraOKK/scoring/worker.py: `_swap_speaker_labels` and `_reconcile_transcript_labels`.
use Prim.Native.Char.{code}
use Prim.Native.String.{◌++◌, count}
use atamura_okk.Base.{
  ℕ, zero, suc, ◌-◌, String, Bool, true, false, ◌&&◌, str_eq, ◌==◌, if◌then◌else◌, map,
}
use atamura_okk.Store.{Segment, Transcript}
use atamura_okk.Scoring.CallScore.{ManagerSide}

-- Whether a text begins with `p`.
unfoldable pub begins : String → String → Bool
begins String.[] s = true
begins (String.◌∷◌ p ps) String.[] = false
begins (String.◌∷◌ p ps) (String.◌∷◌ c s) = (code p == code c) && begins ps s

-- `text.replace(old, new)` for a non-empty `old`: one walk from the left. `skip` counts the
-- characters that belong to the occurrence found last.
unfoldable pub replace_from : String → String → ℕ → String → String
replace_from old put_in skip String.[] = String.[]
replace_from old put_in (suc skip) (String.◌∷◌ c s) = replace_from old put_in skip s
replace_from old put_in zero (String.◌∷◌ c s) =
    let found = put_in ++ replace_from old put_in (count old - 1) s in
    let passed = String.◌∷◌ c (replace_from old put_in zero s) in
    if begins old (String.◌∷◌ c s) then found else passed

unfoldable pub replace : String → String → String → String
replace text old put_in = replace_from old put_in zero text

-- `swap.get(speaker, speaker)`
unfoldable pub swap_speaker : String → String
swap_speaker s = if str_eq s "agent" then "customer" else if str_eq s "customer" then "agent" else s

abbrev pub swap_segment : Segment → Segment
swap_segment s = record s { speaker = swap_speaker s.speaker }

-- The three passes over the full text, with a NUL as the sentinel.
abbrev sentinel : String
sentinel = "\0"

unfoldable pub swap_headers : String → String
swap_headers text =
    replace (replace (replace text "[AGENT]" sentinel) "[CUSTOMER]" "[AGENT]") sentinel "[CUSTOMER]"

unfoldable pub swap_speaker_labels : Transcript → Transcript
swap_speaker_labels t = record t {
  segments = map swap_segment t.segments;
  full_text = swap_headers t.full_text;
}

unfoldable pub reconcile : ManagerSide → Transcript → Transcript
reconcile ManagerSide.side_unknown t = t
reconcile ManagerSide.side_a t = record t { manager_side_applied = true }
reconcile ManagerSide.side_b t =
    if t.manager_side_applied
    then t
    else (let swapped = swap_speaker_labels t in record swapped { manager_side_applied = true })
