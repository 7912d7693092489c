-- ===== src/Storage/Paths.antt =====
-- crates/roci-storage/src/fs_storage/paths.rs: paths beneath the root, as lists of components.
pub mod Safe
mod Tests
use roci.Base.{List, [], ◌++◌, ◌||◌, ◌∷◌}
use roci.Base.Eq.{Text, codes, nat_eq, text_eq, ◌==◌}
use roci.Base.Lists.{any, is_empty}
use roci.Base.Result.{Result, err, ok, ◌>>=◌, ◌>>◌}
use roci.Base.Tests.{if◌then◌else◌, nat_beq}
use roci.Base.Text.{split}
use roci.Storage.Digest.{Digest}
use roci.Storage.Error.{StorageError, bad_path}

-- `SafeComponent::new`
unfoldable pub safe_component : Text → Result StorageError Text
safe_component s =
    if is_empty s
      || (s == codes "."
          || (s == codes ".." || any (λ b. nat_beq b b'/' || (nat_beq b 92 || nat_beq b 0)) s))
    then err (bad_path s)
    else ok s

unfoldable pub safe_components : List Text → Result StorageError (List Text)
safe_components [] = ok []
safe_components (c ∷ cs) = do first ← safe_component c; rest ← safe_components cs; ok (first ∷ rest)

unfoldable pub repo_rel : Text → Result StorageError (List Text)
repo_rel repo = safe_components (split b'/' repo)

unfoldable pub blob_dir_rel : Text → Digest → Result StorageError (List Text × Text)
blob_dir_rel repo d = do
  parents ← repo_rel repo
  leaf ← safe_component d.hex
  ok (parents ++ codes "blobs" ∷ d.algorithm ∷ [], leaf)

unfoldable pub blob_rel : Text → Digest → Result StorageError (List Text)
blob_rel repo d = do (dir, leaf) ← blob_dir_rel repo d; ok (dir ++ leaf ∷ [])

unfoldable pub upload_dir_rel : Text → Text → Result StorageError (List Text × Text)
upload_dir_rel repo id = do
  parents ← repo_rel repo
  leaf ← safe_component id
  ok (parents ++ codes "uploads" ∷ [], leaf)

unfoldable pub upload_rel : Text → Text → Result StorageError (List Text)
upload_rel repo id = do (dir, leaf) ← upload_dir_rel repo id; ok (dir ++ leaf ∷ [])
