-- ===== src/Storage/Quota/Sessions.antt =====
-- crates/roci-storage/src/quota.rs: the cap on open upload sessions. The counter is one atomic
-- word, so threads interleave as a list of its updates.
use roci.Base.{List, [], arith, max, refl, ℕ, ◌<◌, ◌∷◌, ◌≡◌, ◌≤◌}
use roci.Base.Result.{ok}
use roci.Base.Word.{word, wrapping_add}
use roci.Storage.Quota.{QuotaTracker, admits_session, begin_session, end_session}

pub data Event : Type 0 where
  begins ends : Event

unfoldable pub session_step : Event → QuotaTracker → QuotaTracker
session_step begins q = (begin_session q).0
session_step ends q = end_session q

unfoldable pub session_run : List Event → QuotaTracker → QuotaTracker
session_run [] q = q
session_run (e ∷ es) q = session_run es (session_step e q)

-- The cap is the limit, and no more than the bound are open.
abbrev IsCapped : (limit bound : ℕ) → QuotaTracker → Type 0
IsCapped limit bound q = (q.limits.max_upload_sessions ≡ limit) × (q.open_sessions ≤ bound)

session_step-IsCapped :
    (limit bound : ℕ) (e : Event) (q : QuotaTracker)
    → 0 < limit
    → limit ≤ bound
    → IsCapped limit bound q
    → IsCapped limit bound (session_step e q)
unfolding session_step begin_session admits_session end_session wrapping_add
session_step-IsCapped limit bound begins q pos le h = ground arith
session_step-IsCapped limit bound ends q pos le h = ground arith

session_run-bounded :
    (limit bound : ℕ) (events : List Event) (q : QuotaTracker)
    → 0 < limit
    → limit ≤ bound
    → IsCapped limit bound q
    → IsCapped limit bound (session_run events q)
unfolding session_run
session_run-bounded limit bound [] q pos le h = h
session_run-bounded limit bound (e ∷ es) q pos le h =
    session_run-bounded limit bound es (session_step e q) pos le
      (session_step-IsCapped limit bound e q pos le h)

-- Under a cap, whatever sessions begin and end in whatever order, from whatever number of open ones, the
-- cap is unchanged and the sessions open at the end are at most as many as the cap or as there were at the
-- start, whichever is more.
pub session_run-capped :
    (events : List Event) (q : QuotaTracker)
    → 0 < q.limits.max_upload_sessions
    → ((session_run events q).limits.max_upload_sessions ≡ q.limits.max_upload_sessions)
      × ((session_run events q).open_sessions ≤ max q.limits.max_upload_sessions q.open_sessions)
session_run-capped events q pos =
    session_run-bounded q.limits.max_upload_sessions
      (max q.limits.max_upload_sessions q.open_sessions) events q pos (omega arith)
      (refl, omega arith)

-- Within the cap, ending a session always makes room for one, and ending the session that was just
-- begun restores the tracker.
pub end_session-begin_session :
    (q : QuotaTracker)
    → q.open_sessions ≤ q.limits.max_upload_sessions
    → 0 < q.limits.max_upload_sessions
    → q.limits.max_upload_sessions < word
    → ((begin_session (end_session q)).1 ≡ ok tt)
      × ((begin_session q).1 ≡ ok tt → end_session (begin_session q).0 ≡ q)
unfolding begin_session end_session admits_session wrapping_add
end_session-begin_session q within pos small = ground arith
