-- ===== src/Stages/Alert.antt =====
-- AtamuraOKK/scoring/worker.py: `should_notify_cash` and `maybe_notify_cash_buyer`.
-- Sending is a parameter: it succeeds or raises. What was sent is part of the result.
use atamura_okk.Base.{
  ℕ, ◌+◌, ◌*◌, String, Bool, true, false, ◌&&◌, not, Option, none, some, List, [], ◌∷◌, leb, ◌==◌,
  if◌then◌else◌,
}
use atamura_okk.Store.{Call, Score, Manager, get_score, put_score}
use atamura_okk.Scoring.CallScore.{PaymentMethod, CallScore}

abbrev pays_cash : PaymentMethod → Bool
pays_cash PaymentMethod.cash = true
pays_cash _ = false

-- `now - started_at <= timedelta(minutes=…)`; a start in the future is within the window.
unfoldable pub should_notify_cash : CallScore → Option ℕ → ℕ → ℕ → Bool
should_notify_cash result none now max_age_minutes = false
should_notify_cash result (some started) now max_age_minutes =
    pays_cash result.payment_method
    && (result.is_qualification_call && leb now (started + 60 * max_age_minutes))

unfoldable pub bitrix_user_id : ℕ → List Manager → Option ℕ
bitrix_user_id i [] = none
bitrix_user_id i (m ∷ ms) =
    let rest = bitrix_user_id i ms in if m.id == i then some m.bitrix_user_id else rest

-- The user that is to be alerted: the call has a manager, and the manager is known.
abbrev recipient : Call → List Manager → Option ℕ
recipient c managers = elim c.manager_id [ none ↦ none | some i ↦ bitrix_user_id i managers ]

-- The score rows afterwards, and the user to whom an alert was sent.
unfoldable pub maybe_notify :
    ℕ → ℕ → Bool → CallScore → String → Call → List Manager → List Score → List Score × Option ℕ
unfolding bitrix_user_id
maybe_notify now max_age send_works result version c managers scores =
    if not (should_notify_cash result c.started_at now max_age)
    then (scores, none)
    else elim (get_score c.id version scores) [
      | none ↦ (scores, none)
      | some s ↦ elim s.notified_at [
        | some at ↦ (scores, none)
        | none ↦ elim (recipient c managers) [
          | none ↦ (scores, none)
          | some user ↦
              if send_works
              then (put_score (record s { notified_at = some now }) scores, some user)
              else (scores, none)
        ]
      ]
    ]
