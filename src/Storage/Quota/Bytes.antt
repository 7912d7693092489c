-- ===== src/Storage/Quota/Bytes.antt =====
-- crates/roci-storage/src/quota.rs: what the byte caps promise.
use roci.Storage.Quota
use roci.Base.{List, [], arith, min, ℕ, ◌-◌, ◌<◌, ◌∷◌, ◌≤◌}
use roci.Base.Eq.{Text, text_beq_iff, text_eq}
use roci.Base.Map.{get, get-empty, get-insert, get-remove}
use roci.Base.Tests.{unwrap_or}
use roci.Base.Word.{saturating_add}
use roci.Storage.Quota.{
  QuotaLimits, QuotaTracker, caps, charge, check_caps, discharge, new, repo_bytes, total_bytes,
  tracks_bytes,
}

-- Both caps hold; a cap of zero is none.
pub record IsWithin (q : QuotaTracker) : Type 0 where
  pub repo_cap : (r : Text) → 0 < q.limits.max_repo_bytes → repo_bytes r q ≤ q.limits.max_repo_bytes
  pub total_cap : 0 < q.limits.max_total_bytes → total_bytes q ≤ q.limits.max_total_bytes

admit-IsWithin : (r : Text) (n : ℕ) (q : QuotaTracker) → IsWithin q → IsWithin (Quota.admit r n q).0
unfolding Quota.admit tracks_bytes check_caps caps charge repo_bytes total_bytes
admit-IsWithin r n q h = record {
  repo_cap = λ s pos. ground (
    arith,
    h.repo_cap s,
    get-insert r s (saturating_add (unwrap_or (get r q.bytes.per_repo) 0) n) q.bytes.per_repo,
    text_beq_iff r s,
  );
  total_cap = λ pos. ground (arith, h.total_cap);
}

release-IsWithin :
    (r : Text) (n : ℕ) (q : QuotaTracker) → IsWithin q → IsWithin (Quota.release r n q)
unfolding Quota.release tracks_bytes discharge repo_bytes total_bytes
release-IsWithin r n q h = record {
  repo_cap = λ s pos. ground (
    arith,
    h.repo_cap s,
    get-insert r s
        (unwrap_or (get r q.bytes.per_repo) 0 - min n (unwrap_or (get r q.bytes.per_repo) 0))
        q.bytes.per_repo,
    get-remove r s q.bytes.per_repo,
    text_beq_iff r s,
  );
  total_cap = λ pos. ground (arith, h.total_cap);
}

-- What clients call at run time; `seed` is for the startup alone.
pub data Call : Type 0 where
  admit release : Text → ℕ → Call

unfoldable pub run : List Call → QuotaTracker → QuotaTracker
run [] q = q
run (Call.admit r n ∷ calls) q = run calls (Quota.admit r n q).0
run (Call.release r n ∷ calls) q = run calls (Quota.release r n q)

run_from-IsWithin : (calls : List Call) (q : QuotaTracker) → IsWithin q → IsWithin (run calls q)
unfolding run
run_from-IsWithin [] q h = h
run_from-IsWithin (Call.admit r n ∷ calls) q h =
    run_from-IsWithin calls (Quota.admit r n q).0 (admit-IsWithin r n q h)
run_from-IsWithin (Call.release r n ∷ calls) q h =
    run_from-IsWithin calls (Quota.release r n q) (release-IsWithin r n q h)

new-IsWithin : (limits : QuotaLimits) → IsWithin (new limits)
unfolding new repo_bytes total_bytes
new-IsWithin limits = record {
  repo_cap = λ r pos. ground (arith, get-empty {V = ℕ} r);
  total_cap = λ pos. omega arith;
}

-- Whatever is admitted and released after `new`, no repository passes its cap and the registry
-- does not pass the total cap, where these caps are set.
pub run-IsWithin : (limits : QuotaLimits) (calls : List Call) → IsWithin (run calls (new limits))
run-IsWithin limits calls = run_from-IsWithin calls (new limits) (new-IsWithin limits)
