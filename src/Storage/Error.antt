-- ===== src/Storage/Error.antt =====
-- crates/roci-storage/src/error.rs: `StorageError`, and the kinds of `io::Error` that the code
-- tells apart.
use roci.Base.{ℕ}
use roci.Base.Eq.{Text}

pub data QuotaScope : Type 0 where
  repository total : QuotaScope

pub data IoError : Type 0 where
  not_found invalid_data unsupported failure : IoError

pub data StorageError : Type 0 where
  not_found : StorageError
  bad_digest : Text → StorageError
  digest_mismatch : (expected actual : Text) → StorageError
  io : IoError → StorageError
  bad_path : Text → StorageError
  range_not_satisfiable : (expected got : ℕ) → StorageError
  too_large : (limit actual : ℕ) → StorageError
  quota_exceeded : (scope : QuotaScope) (limit requested : ℕ) → StorageError
  missing_reference : Text → StorageError
  too_many_sessions : (limit : ℕ) → StorageError
  unavailable : Text → StorageError

unfoldable pub map_not_found : IoError → StorageError
map_not_found IoError.not_found = StorageError.not_found
map_not_found e = io e
