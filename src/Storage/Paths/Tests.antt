-- ===== src/Storage/Paths/Tests.antt =====
-- crates/roci-storage/src/fs_storage/paths.rs: the paths of a blob and of an upload.
use roci.Base.{List, [], false, refl, ◌++◌, ◌∷◌, ◌≡◌}
use roci.Base.Eq.{Text, codes, text_beq, text_eq}
use roci.Base.Result.{is_ok, ok}
use roci.Base.Text.{split}
use roci.Storage.Digest.{Digest, ok_len, sha256}
use roci.Storage.Digest.Laws.{IsCanonical}
use roci.Storage.Paths.{
  blob_dir_rel, blob_rel, repo_rel, safe_component, safe_components, upload_dir_rel, upload_rel,
}
use roci.Storage.Paths.Safe.{AreSafe, blob_rel-AreSafe}

abbrev hex_64 : Text
hex_64 = codes "0123456789abcdef0123456789abcdef0123456789abcdef0123456789abcdef"

abbrev a_digest : Digest
a_digest = record { algorithm = sha256; hex = hex_64 }

abbrev a_path : List Text
a_path = codes "team" ∷ codes "app" ∷ codes "blobs" ∷ codes "sha256" ∷ hex_64 ∷ []

a_blob : blob_rel (codes "team/app") a_digest ≡ ok a_path
unfolding blob_rel blob_dir_rel repo_rel safe_components safe_component split text_beq
a_blob = refl

is_canonical : IsCanonical a_digest
unfolding ok_len text_beq
is_canonical = record { all_hex = refl; length_fits = refl }

blob_rel-AreSafe_example :
    AreSafe a_path
    × (a_path ≡ split b'/' (codes "team/app") ++ (codes "blobs" ∷ sha256 ∷ hex_64 ∷ []))
blob_rel-AreSafe_example = blob_rel-AreSafe (codes "team/app") a_digest a_path is_canonical a_blob

an_upload :
    upload_rel (codes "app") (codes "u1") ≡ ok (codes "app" ∷ codes "uploads" ∷ codes "u1" ∷ [])
unfolding upload_rel upload_dir_rel repo_rel safe_components safe_component split text_beq
an_upload = refl

climbs : is_ok (repo_rel (codes "a/../b")) ≡ false
unfolding repo_rel safe_components safe_component split text_beq
climbs = refl
