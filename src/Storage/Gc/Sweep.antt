-- ===== src/Storage/Gc/Sweep.antt =====
-- crates/roci-storage/src/fs_storage/gc.rs, `sweep_at`: the pass over the due candidates; stale uploads
-- are left out. The metadata store and the file system are parameters.
pub mod Spares
pub mod Collects
mod Tests
use roci.Storage.Digest
use roci.Storage.Quota
use roci.Base.{List, Option, [], not, ℕ, ◌∷◌}
use roci.Base.Eq.{Pair, Text, pair_eq, text_eq}
use roci.Base.Lists.{is_empty}
use roci.Base.Result.{Result, err, ok}
use roci.Base.Tests.{if◌then◌else◌, is_some}
use roci.Storage.Digest.{Digest}
use roci.Storage.Error.{StorageError}
use roci.Storage.Gc.{GcTracker, clear, due, is_due, is_ready, is_root, is_unsafe}
use roci.Storage.Paths.{blob_dir_rel}
use roci.Storage.Quota.{QuotaTracker}

-- What `stat_beneath` reports of a blob: a regular file of a size, something else, nothing, an error.
pub data Stat : Type 0 where
  file_of : (size : ℕ) → Stat
  not_file no_file stat_failed : Stat

pub data Unlinked : Type 0 where
  unlinked already_gone unlink_failed : Unlinked

-- The answers of the metadata store and of the file system, of which the last is what a call of
-- `unlink_beneath` on the blob would answer.
pub record World : Type 0 where
  pub backrefs : Text → Text → List Text
  pub media_type : Text → Text → Option Text
  pub stat : Text → Text → Stat
  pub unlink : Text → Text → Unlinked

-- The tracker, the quota, and the blobs unlinked so far.
pub record Sweep : Type 0 where
  pub gc : GcTracker
  pub quota : QuotaTracker
  pub gone : List Pair

unfoldable pub forget : Text → Text → Sweep → Sweep
forget repo digest s = record s { gc = clear repo digest s.gc }

-- `blob_left`, less the caches, the dedupe index and the checksum.
unfoldable pub blob_left : Text → Text → ℕ → Sweep → Sweep
blob_left repo digest size s = record s {
  gc = clear repo digest s.gc;
  quota = Quota.release repo size s.quota;
}

-- The `match` on the unlinking.
unfoldable pub after_unlink : Unlinked → Text → Text → ℕ → Sweep → Sweep
after_unlink unlinked repo digest size s =
    let left = blob_left repo digest size s in record left { gone = (repo, digest) ∷ left.gone }
after_unlink already_gone repo digest size s = forget repo digest s
after_unlink unlink_failed repo digest size s = s

unfoldable pub after_stat : World → Stat → Text → Text → Sweep → Sweep
after_stat w (file_of size) repo digest s = after_unlink (w.unlink repo digest) repo digest size s
after_stat w not_file repo digest s = forget repo digest s
after_stat w no_file repo digest s = forget repo digest s
after_stat w stat_failed repo digest s = s

unfoldable pub at_path :
    World → Result StorageError (List Text × Text) → Text → Text → Sweep → Sweep
at_path w (err e) repo digest s = forget repo digest s
at_path w (ok dir) repo digest s = after_stat w (w.stat repo digest) repo digest s

unfoldable pub parsed_as : World → Result StorageError Digest → Text → Text → Sweep → Sweep
parsed_as w (err e) repo digest s = forget repo digest s
parsed_as w (ok parsed) repo digest s = at_path w (blob_dir_rel repo parsed) repo digest s

-- What follows the checks: a blob that nothing needs.
unfoldable pub collect : World → Text → Text → Sweep → Sweep
collect w repo digest s = parsed_as w (Digest.parse digest) repo digest s

-- The body of the loop.
unfoldable pub sweep_one : World → ℕ → Pair → Sweep → Sweep
sweep_one w now (repo, digest) s =
    if not (is_due repo digest now s.gc)
    then s
    else if is_root repo digest s.gc
    then forget repo digest s
    else if is_unsafe repo s.gc
    then s
    else if not (is_empty (w.backrefs repo digest))
    then forget repo digest s
    else if is_some (w.media_type repo digest)
    then forget repo digest s
    else collect w repo digest s

unfoldable pub sweep_all : World → ℕ → List Pair → Sweep → Sweep
sweep_all w now [] s = s
sweep_all w now (k ∷ ks) s = sweep_all w now ks (sweep_one w now k s)

-- The batches only release the fence in between.
unfoldable pub sweep_at : World → ℕ → Sweep → Sweep
sweep_at w now s = if not (is_ready s.gc) then s else sweep_all w now (due now s.gc) s
