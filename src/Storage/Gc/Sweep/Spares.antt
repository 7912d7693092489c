-- ===== src/Storage/Gc/Sweep/Spares.antt =====
-- crates/roci-storage/src/fs_storage/gc.rs: what a sweep unlinks.
use roci.Storage.Digest
use roci.Base.{Bool, List, false, not, true, ℕ, ◌&&◌}
use roci.Base.Eq.{Text, text_eq}
use roci.Base.Lists.{is_empty}
use roci.Base.Result.{Result, err, ok}
use roci.Base.Tests.{if◌then◌else◌, is_some}
use roci.Storage.Digest.{Digest}
use roci.Storage.Error.{StorageError}
use roci.Storage.Gc.{GcTracker, is_due, is_root, is_unsafe}
use roci.Storage.Gc.Sweep.{
  Stat, Sweep, Unlinked, World, after_stat, after_unlink, already_gone, at_path, collect, file_of,
  forget, no_file, not_file, parsed_as, stat_failed, sweep_one, unlink_failed, unlinked,
}
use roci.Storage.Paths.{blob_dir_rel}

-- The file system would let the blob go.
abbrev pub unlinks : Unlinked → Bool
unlinks unlinked = true
unlinks _ = false

abbrev pub stat_unlinks : World → Stat → Text → Text → Bool
stat_unlinks w (file_of size) repo digest = unlinks (w.unlink repo digest)
stat_unlinks w _ repo digest = false

abbrev pub path_unlinks : World → Result StorageError (List Text × Text) → Text → Text → Bool
path_unlinks w (err e) repo digest = false
path_unlinks w (ok dir) repo digest = stat_unlinks w (w.stat repo digest) repo digest

abbrev pub digest_unlinks : World → Result StorageError Digest → Text → Text → Bool
digest_unlinks w (err e) repo digest = false
digest_unlinks w (ok parsed) repo digest = path_unlinks w (blob_dir_rel repo parsed) repo digest

-- Nothing needs the blob, its time is up, and the file system lets it go.
unfoldable pub is_garbage : World → ℕ → GcTracker → Text → Text → Bool
is_garbage w now g repo digest =
    is_due repo digest now g
    && (not (is_root repo digest g)
        && (not (is_unsafe repo g)
            && (is_empty (w.backrefs repo digest)
                && (not (is_some (w.media_type repo digest))
                    && digest_unlinks w (Digest.parse digest) repo digest))))

-- What becomes of the state at one blob, which is garbage or not.
pub data Outcome (repo digest : Text) (s : Sweep) : Sweep → Bool → Type 0 where
  stays : Outcome repo digest s s false
  forgotten : Outcome repo digest s (forget repo digest s) false
  collected : (size : ℕ) → Outcome repo digest s (after_unlink unlinked repo digest size s) true

module _ (repo digest : Text) (s : Sweep) where
  unless_keeps :
      (b : Bool) (x y : Sweep) (d : Bool)
      → Outcome repo digest s x false
      → Outcome repo digest s y d
      → Outcome repo digest s (if not b then x else y) (b && d)
  unless_keeps true x y d hx hy = hy
  unless_keeps false x y d hx hy = hx

  if_keeps :
      (b : Bool) (x y : Sweep) (d : Bool)
      → Outcome repo digest s x false
      → Outcome repo digest s y d
      → Outcome repo digest s (if b then x else y) (not b && d)
  if_keeps true x y d hx hy = hx
  if_keeps false x y d hx hy = hy

  module _ (w : World) where
    unlink-Outcome :
        (u : Unlinked) (size : ℕ)
        → Outcome repo digest s (after_unlink u repo digest size s) (unlinks u)
    unfolding after_unlink
    unlink-Outcome unlinked size = collected size
    unlink-Outcome already_gone size = forgotten
    unlink-Outcome unlink_failed size = stays

    stat-Outcome :
        (st : Stat)
        → Outcome repo digest s (after_stat w st repo digest s) (stat_unlinks w st repo digest)
    unfolding after_stat
    stat-Outcome (file_of size) = unlink-Outcome (w.unlink repo digest) size
    stat-Outcome not_file = forgotten
    stat-Outcome no_file = forgotten
    stat-Outcome stat_failed = stays

    path-Outcome :
        (r : Result StorageError (List Text × Text))
        → Outcome repo digest s (at_path w r repo digest s) (path_unlinks w r repo digest)
    unfolding at_path
    path-Outcome (err e) = forgotten
    path-Outcome (ok dir) = stat-Outcome (w.stat repo digest)

    parsed-Outcome :
        (r : Result StorageError Digest)
        → Outcome repo digest s (parsed_as w r repo digest s) (digest_unlinks w r repo digest)
    unfolding parsed_as
    parsed-Outcome (err e) = forgotten
    parsed-Outcome (ok parsed) = path-Outcome (blob_dir_rel repo parsed)

    pub sweep_one-Outcome :
        (now : ℕ)
        → Outcome repo digest s
            (sweep_one w now (repo, digest) s)
            (is_garbage w now s.gc repo digest)
    unfolding sweep_one is_garbage collect
    sweep_one-Outcome now = unless_keeps (is_due repo digest now s.gc) _ _ _ stays (
        if_keeps (is_root repo digest s.gc) _ _ _ forgotten (
          if_keeps (is_unsafe repo s.gc) _ _ _ stays (
            unless_keeps (is_empty (w.backrefs repo digest)) _ _ _ forgotten (
              if_keeps (is_some (w.media_type repo digest)) _ _ _ forgotten
                (parsed-Outcome (Digest.parse digest))))))
