-- ===== src/Storage/Quota/Tests.antt =====
-- Runs of the quota model, and its theorems at concrete trackers.
use roci.Base.{[], arith, max, refl, ◌∷◌, ◌≡◌, ◌≤◌}
use roci.Base.Eq.{Text, codes, text_beq, text_eq}
use roci.Base.Map.{get, insert, remove, sum_values}
use roci.Base.Result.{err, ok}
use roci.Base.Word.{saturating_add, wrapping_add}
use roci.Storage.Error.{quota_exceeded, repository, total}
use roci.Storage.Quota.{
  QuotaLimits, QuotaTracker, admit, admits_session, begin_session, caps, charge, check_caps,
  discharge, end_session, new, release, repo_bytes, seed, total_bytes, tracks_bytes,
}
use roci.Storage.Quota.Balance.{IsBalanced, admit-IsBalanced, release-admit}
use roci.Storage.Quota.Bytes.{Call, IsWithin, run, run-IsWithin}
use roci.Storage.Quota.Sessions.{
  begins, end_session-begin_session, ends, session_run, session_run-capped,
}

program : Unit {0}
unfolding new tracks_bytes charge check_caps caps admit seed discharge release repo_bytes
    total_bytes begin_session end_session admits_session text_beq get insert remove saturating_add
    wrapping_add run sum_values
program = tt

abbrev limits : QuotaLimits
limits = record { max_repo_bytes = 10; max_total_bytes = 15; max_upload_sessions = 2 }

abbrev a : Text
a = codes "a"

abbrev b : Text
b = codes "b"

-- Ten bytes in `a`, five in `b`.
abbrev filled : QuotaTracker
filled = record {
  limits = limits;
  bytes = record { per_repo = (a, 10) ∷ (b, 5) ∷ []; total_used = 15 };
  open_sessions = 1;
}

filled_bytes : (run (Call.admit a 10 ∷ Call.admit b 5 ∷ []) (new limits)).bytes ≡ filled.bytes
unfolding program
filled_bytes = refl

repo_cap_is_first : (admit a 1 filled).1 ≡ err (quota_exceeded repository 10 1)
unfolding program
repo_cap_is_first = refl

total_cap_next : (admit (codes "c") 1 filled).1 ≡ err (quota_exceeded total 15 1)
unfolding program
total_cap_next = refl

release_caps : (release a 50 filled).bytes ≡ record { per_repo = (b, 5) ∷ []; total_used = 5 }
unfolding program
release_caps = refl

filled-IsBalanced : IsBalanced filled.bytes
unfolding program
filled-IsBalanced = record { unique = (refl, (refl, tt)); summed = refl }

half_full : QuotaTracker
half_full = record filled { bytes = record { per_repo = (b, 5) ∷ []; total_used = 5 } }

half_full-IsBalanced : IsBalanced half_full.bytes
unfolding program half_full
half_full-IsBalanced = record { unique = (refl, tt); summed = refl }

run-IsWithin_example :
    IsWithin (run (Call.admit a 10 ∷ Call.admit a 1 ∷ Call.release a 3 ∷ []) (new limits))
run-IsWithin_example =
    run-IsWithin limits (Call.admit a 10 ∷ Call.admit a 1 ∷ Call.release a 3 ∷ [])

admit-IsBalanced_example : IsBalanced (admit a 7 half_full).0.bytes
unfolding half_full
admit-IsBalanced_example = admit-IsBalanced a 7 half_full half_full-IsBalanced (omega arith)

release-admit_example :
    (total_bytes (release a 7 (admit a 7 half_full).0) ≡ total_bytes half_full)
    × ((s : Text) → repo_bytes s (release a 7 (admit a 7 half_full).0) ≡ repo_bytes s half_full)
unfolding program half_full
release-admit_example = release-admit a 7 half_full half_full-IsBalanced (omega arith) refl

session_run-capped_example :
    let after = session_run (begins ∷ begins ∷ begins ∷ ends ∷ []) filled in
    (after.limits.max_upload_sessions ≡ filled.limits.max_upload_sessions)
    × (after.open_sessions ≤ max filled.limits.max_upload_sessions filled.open_sessions)
session_run-capped_example =
    session_run-capped (begins ∷ begins ∷ begins ∷ ends ∷ []) filled (omega arith)

end_session-begin_session_example :
    ((begin_session (end_session filled)).1 ≡ ok tt)
    × ((begin_session filled).1 ≡ ok tt → end_session (begin_session filled).0 ≡ filled)
end_session-begin_session_example =
    end_session-begin_session filled (omega arith) (omega arith) (omega arith)
