-- ===== src/Storage/Quota.antt =====
-- crates/roci-storage/src/quota.rs: the byte and session accounting of `QuotaTracker`.
-- A method takes the tracker and returns it beside its result. The metrics that it records are
-- left out. `usize` is a 64-bit word.
pub mod Bytes
pub mod Balance
pub mod Sessions
mod Tests
use roci.Base.{Bool, List, [], min, none, some, ℕ, ◌&&◌, ◌-◌, ◌||◌, ◌∷◌}
use roci.Base.Eq.{Text, text_eq}
use roci.Base.Map.{Map, get, insert, remove}
use roci.Base.Result.{Result, err, ok}
use roci.Base.Tests.{if◌then◌else◌, ltb, nat_beq, unwrap_or}
use roci.Base.Word.{saturating_add, wrapping_add}
use roci.Storage.Error.{
  QuotaScope, StorageError, quota_exceeded, repository, too_many_sessions, total,
}

-- `0` means unlimited.
pub record QuotaLimits : Type 0 where
  pub max_repo_bytes : ℕ
  pub max_total_bytes : ℕ
  pub max_upload_sessions : ℕ

pub record ByteCounts : Type 0 where
  pub per_repo : Map Text ℕ
  pub total_used : ℕ

pub record QuotaTracker : Type 0 where
  pub limits : QuotaLimits
  pub bytes : ByteCounts
  pub open_sessions : ℕ

unfoldable pub new : QuotaLimits → QuotaTracker
new limits = record {
  limits = limits;
  bytes = record { per_repo = []; total_used = 0 };
  open_sessions = 0;
}

unfoldable pub tracks_bytes : QuotaTracker → Bool
tracks_bytes q = ltb 0 q.limits.max_repo_bytes || ltb 0 q.limits.max_total_bytes

-- `Bytes::charge`
unfoldable pub charge : Text → ℕ → ByteCounts → ByteCounts
charge repo size b = record {
  per_repo = insert repo (saturating_add (unwrap_or (get repo b.per_repo) 0) size) b.per_repo;
  total_used = saturating_add b.total_used size;
}

-- The loop over `checks` in `admit`: a scope, its limit, and what is in use.
unfoldable pub check_caps : List (QuotaScope × ℕ × ℕ) → ℕ → Result StorageError (Unit {0})
check_caps [] size = ok tt
check_caps ((scope, limit, used) ∷ checks) size =
    if ltb 0 limit && ltb limit (saturating_add used size)
    then err (quota_exceeded scope limit size)
    else check_caps checks size

-- The array `checks` of `admit`.
unfoldable pub caps : Text → QuotaTracker → List (QuotaScope × ℕ × ℕ)
caps repo q =
    (repository, q.limits.max_repo_bytes, unwrap_or (get repo q.bytes.per_repo) 0)
    ∷ (total, q.limits.max_total_bytes, q.bytes.total_used)
    ∷ []

unfoldable pub admit : Text → ℕ → QuotaTracker → QuotaTracker × Result StorageError (Unit {0})
admit repo size q =
    if tracks_bytes q
    then (elim (check_caps (caps repo q) size) [
      | ok _ ↦ (record q { bytes = charge repo size q.bytes }, ok tt)
      | err e ↦ (q, err e)
    ])
    else (q, ok tt)

unfoldable pub seed : Text → ℕ → QuotaTracker → QuotaTracker
seed repo size q = if tracks_bytes q then record q { bytes = charge repo size q.bytes } else q

-- What `release` does to the counters where `repo` is known and holds `used` bytes.
unfoldable pub discharge : Text → ℕ → ℕ → ByteCounts → ByteCounts
discharge repo size used b =
    let actual = min size used in
    let left = used - actual in
    record {
      per_repo = if nat_beq left 0 then remove repo b.per_repo else insert repo left b.per_repo;
      total_used = b.total_used - actual;
    }

unfoldable pub release : Text → ℕ → QuotaTracker → QuotaTracker
release repo size q =
    if tracks_bytes q
    then (elim (get repo q.bytes.per_repo) [
      | none ↦ q
      | some used ↦ record q { bytes = discharge repo size used q.bytes }
    ])
    else q

unfoldable pub repo_bytes : Text → QuotaTracker → ℕ
repo_bytes repo q = unwrap_or (get repo q.bytes.per_repo) 0

unfoldable pub total_bytes : QuotaTracker → ℕ
total_bytes q = q.bytes.total_used

-- The `fetch_update` of `begin_session`.
unfoldable pub admits_session : QuotaTracker → Bool
admits_session q =
    nat_beq q.limits.max_upload_sessions 0 || ltb q.open_sessions q.limits.max_upload_sessions

unfoldable pub begin_session : QuotaTracker → QuotaTracker × Result StorageError (Unit {0})
begin_session q =
    if admits_session q
    then (record q { open_sessions = wrapping_add q.open_sessions 1 }, ok tt)
    else (q, err (too_many_sessions q.limits.max_upload_sessions))

unfoldable pub seed_sessions : ℕ → QuotaTracker → QuotaTracker
seed_sessions n q = record q { open_sessions = wrapping_add q.open_sessions n }

-- `checked_sub(1)`: at zero the counter stays.
unfoldable pub end_session : QuotaTracker → QuotaTracker
end_session q = record q { open_sessions = q.open_sessions - 1 }
