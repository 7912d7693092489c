-- ===== src/Core/Error.antt =====
-- crates/roci-core/src/error.rs: error codes and the mapping of storage errors. Messages are
-- texts for people and are left out; the challenge of a 401 is kept.
mod Tests
use roci.Base.{Option, arith, ℕ, ◌<◌, ◌↔◌, ◌≤◌}
use roci.Base.Eq.{Text, codes, text_eq}
use roci.Storage.Error.{
  StorageError, bad_digest, bad_path, digest_mismatch, io, missing_reference, quota_exceeded,
  range_not_satisfiable, repository, too_large, too_many_sessions, total, unavailable,
}

pub data ErrorCode : Type 0 where
  blob_unknown blob_upload_invalid blob_upload_unknown digest_invalid manifest_blob_unknown :
      ErrorCode
  manifest_invalid manifest_unknown name_invalid name_unknown size_invalid : ErrorCode
  unauthorized denied unsupported_operation too_many_requests : ErrorCode

-- `ErrorCode::parts`
unfoldable pub wire : ErrorCode → Text
wire blob_unknown = codes "BLOB_UNKNOWN"
wire blob_upload_invalid = codes "BLOB_UPLOAD_INVALID"
wire blob_upload_unknown = codes "BLOB_UPLOAD_UNKNOWN"
wire digest_invalid = codes "DIGEST_INVALID"
wire manifest_blob_unknown = codes "MANIFEST_BLOB_UNKNOWN"
wire manifest_invalid = codes "MANIFEST_INVALID"
wire manifest_unknown = codes "MANIFEST_UNKNOWN"
wire name_invalid = codes "NAME_INVALID"
wire name_unknown = codes "NAME_UNKNOWN"
wire size_invalid = codes "SIZE_INVALID"
wire unauthorized = codes "UNAUTHORIZED"
wire denied = codes "DENIED"
wire unsupported_operation = codes "UNSUPPORTED"
wire too_many_requests = codes "TOOMANYREQUESTS"

unfoldable pub code_status : ErrorCode → ℕ
code_status blob_unknown = 404
code_status blob_upload_invalid = 400
code_status blob_upload_unknown = 404
code_status digest_invalid = 400
code_status manifest_blob_unknown = 400
code_status manifest_invalid = 400
code_status manifest_unknown = 404
code_status name_invalid = 400
code_status name_unknown = 404
code_status size_invalid = 400
code_status unauthorized = 401
code_status denied = 403
code_status unsupported_operation = 405
code_status too_many_requests = 429

pub data ApiError : Type 0 where
  spec : ErrorCode → ApiError
  internal payload_too_large insufficient_storage : ApiError
  unauthenticated : (challenge : Option Text) → ApiError
  too_early out_of_service : ApiError

unfoldable pub status : ApiError → ℕ
unfolding code_status
status (spec code) = code_status code
status internal = 500
status payload_too_large = 413
status insufficient_storage = 507
status (unauthenticated challenge) = 401
status too_early = 425
status out_of_service = 503

unfoldable pub code : ApiError → Text
unfolding wire
code (spec c) = wire c
code internal = codes "UNKNOWN"
code out_of_service = codes "UNKNOWN"
code payload_too_large = wire size_invalid
code insufficient_storage = wire denied
code too_early = wire denied
code (unauthenticated challenge) = wire unauthorized

-- `From<StorageError>`
unfoldable pub from_storage : StorageError → ApiError
from_storage StorageError.not_found = spec name_unknown
from_storage (bad_digest d) = spec digest_invalid
from_storage (digest_mismatch expected actual) = spec digest_invalid
from_storage (bad_path p) = spec name_invalid
from_storage (range_not_satisfiable expected got) = spec blob_upload_invalid
from_storage (too_large limit actual) = payload_too_large
from_storage (quota_exceeded repository limit requested) = payload_too_large
from_storage (quota_exceeded total limit requested) = insufficient_storage
from_storage (too_many_sessions limit) = spec too_many_requests
from_storage (missing_reference d) = spec manifest_blob_unknown
from_storage (io e) = internal
from_storage (unavailable detail) = out_of_service

unfoldable pub not_found_as : ApiError → StorageError → ApiError
not_found_as unknown StorageError.not_found = unknown
not_found_as unknown e = from_storage e

-- What of a storage error is the server's own fault.
abbrev pub IsServerFault : StorageError → Type 0
IsServerFault (io e) = Unit {0}
IsServerFault (unavailable detail) = Unit {0}
IsServerFault (quota_exceeded total limit requested) = Unit {0}
IsServerFault _ = ⊥

-- A storage error answers with a status from 400 to 599, and with 500 or more exactly if it is an
-- I/O error, an unavailable backend or the registry's own quota.
pub from_storage-status :
    (e : StorageError)
    → (400 ≤ status (from_storage e))
      × (status (from_storage e) < 600)
      × ((500 ≤ status (from_storage e)) ↔ IsServerFault e)
unfolding status from_storage
from_storage-status (quota_exceeded repository limit requested) = ground arith
from_storage-status (quota_exceeded total limit requested) = ground arith
from_storage-status _ = ground arith
