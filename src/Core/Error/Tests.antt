-- ===== src/Core/Error/Tests.antt =====
-- The mapping of storage errors at concrete errors.
use roci.Base.{refl, ◌≡◌}
use roci.Core.Error.{from_storage, status}
use roci.Storage.Error.{quota_exceeded, repository, total}

quota_statuses :
    (status (from_storage (quota_exceeded repository 1 2)) ≡ 413)
    × (status (from_storage (quota_exceeded total 1 2)) ≡ 507)
unfolding status from_storage
quota_statuses = (refl, refl)
