-- ===== src/Storage/Metadata.antt =====
-- crates/roci-storage/src/metadata/mod.rs, `MetaOp`; metadata/log.rs: the state in memory of the log
-- engine and its queries. The interner of media types shares equal texts and is left out; `artifact_of`
-- stands for reading `artifactType` out of a descriptor's JSON.
pub mod Isolation
pub mod Manifests
pub mod Edges
mod Tests
use roci.Base.{Bool, List, Option, [], none, not, some, ℕ, ◌++◌, ◌∷◌}
use roci.Base.Eq.{Text, nat_eq, text_eq, ◌==◌}
use roci.Base.Lists.{contains, is_empty, retain, set_insert}
use roci.Base.Map.{Map, contains_key, filter_map_values, get, insert, remove}
use roci.Base.Tests.{if◌then◌else◌, is_some_and, unwrap_or}

pub record BlobChecksum : Type 0 where
  pub crc32c : ℕ
  pub size : ℕ

pub data MetaOp : Type 0 where
  put_manifest_op :
      (repo digest media_type : Text) (tag : Option Text) (references : List Text)
      (referrer : Option (Text × Text))
      → MetaOp
  put_backrefs : (repo manifest : Text) (blobs : List Text) → MetaOp
  delete_manifest_op : (repo digest : Text) → MetaOp
  put_referrer : (repo subject referrer descriptor : Text) → MetaOp
  put_checksum : (repo digest : Text) (checksum : BlobChecksum) → MetaOp
  delete_blob_op : (repo digest : Text) → MetaOp

pub record SubjectReferrers : Type 0 where
  pub by_digest : Map Text (Option Text × Text)
  pub by_type : Map Text (List Text)

pub record RepoState : Type 0 where
  pub tags : Map Text (Text × Text)
  pub media_types : Map Text Text
  pub referrers_of : Map Text SubjectReferrers
  pub backrefs_of : Map Text (List Text)
  pub checksums : Map Text BlobChecksum

abbrev pub State : Type 0
State = Map Text RepoState

abbrev pub empty_subject : SubjectReferrers
empty_subject = record { by_digest = []; by_type = [] }

abbrev pub empty_repo : RepoState
empty_repo = record {
  backrefs_of = [];
  checksums = [];
  media_types = [];
  referrers_of = [];
  tags = [];
}

-- A set of the type index without a digest; an empty one is dropped.
unfoldable pub remove_typed : Text → Text → Map Text (List Text) → Map Text (List Text)
remove_typed t digest m = elim (get t m) [
  | none ↦ m
  | some ds ↦
      let kept = retain (λ d. not (d == digest)) ds in
      if is_empty kept then remove t m else insert t kept m
]

-- `SubjectReferrers::remove`
unfoldable pub remove_referrer : Text → SubjectReferrers → SubjectReferrers
remove_referrer referrer self = elim (get referrer self.by_digest) [
  | none ↦ self
  | some (none, bytes) ↦ record self { by_digest = remove referrer self.by_digest }
  | some (some t, bytes) ↦ record {
    by_digest = remove referrer self.by_digest;
    by_type = remove_typed t referrer self.by_type;
  }
]

-- `entry(t).or_default().insert(digest)`
unfoldable pub insert_typed : Option Text → Text → Map Text (List Text) → Map Text (List Text)
insert_typed none digest m = m
insert_typed (some t) digest m = insert t (set_insert digest (unwrap_or (get t m) [])) m

-- `SubjectReferrers::insert`
unfoldable pub insert_referrer :
    (Text → Option Text) → Text → Text → SubjectReferrers → SubjectReferrers
insert_referrer artifact_of referrer descriptor self =
    let artifact_type = artifact_of descriptor in
    let without = remove_referrer referrer self in
    record {
      by_digest = insert referrer (artifact_type, descriptor) without.by_digest;
      by_type = insert_typed artifact_type referrer without.by_type;
    }

-- The loop of `add_backrefs`.
unfoldable pub add_edges : Text → List Text → Map Text (List Text) → Map Text (List Text)
add_edges manifest [] m = m
add_edges manifest (b ∷ blobs) m =
    let edges = unwrap_or (get b m) [] in
    let added = if contains edges manifest then edges else edges ++ manifest ∷ [] in
    add_edges manifest blobs (insert b added m)

abbrev pub repo_of : Text → State → RepoState
repo_of repo state = unwrap_or (get repo state) empty_repo

-- `f` on what `repo_mut` gives, an empty repository where there is none.
unfoldable pub with_repo : Text → (RepoState → RepoState) → State → State
with_repo repo f state = insert repo (f (repo_of repo state)) state

unfoldable pub add_backrefs : (repo manifest : Text) → List Text → State → State
add_backrefs repo manifest blobs =
    with_repo repo (λ rs. record rs { backrefs_of = add_edges manifest blobs rs.backrefs_of })

-- The entry of a subject and the insertion into it.
unfoldable pub insert_under :
    (Text → Option Text) → (subject referrer descriptor : Text) → RepoState → RepoState
insert_under artifact_of subject referrer descriptor rs =
    let refs = unwrap_or (get subject rs.referrers_of) empty_subject in
    record rs {
      referrers_of =
          insert subject (insert_referrer artifact_of referrer descriptor refs) rs.referrers_of;
    }

unfoldable pub add_referrer :
    (Text → Option Text) → (repo subject referrer descriptor : Text) → State → State
add_referrer artifact_of repo subject referrer descriptor =
    with_repo repo (insert_under artifact_of subject referrer descriptor)

-- `if let Some(tag)` and `if let Some((subject, descriptor))` of `PutManifest`.
unfoldable pub set_tag : Option Text → Text → Text → RepoState → RepoState
set_tag none digest media_type rs = rs
set_tag (some tag) digest media_type rs = record rs {
  tags = insert tag (digest, media_type) rs.tags;
}

unfoldable pub set_referrer :
    (Text → Option Text) → (repo digest : Text) → Option (Text × Text) → State → State
set_referrer artifact_of repo digest none state = state
set_referrer artifact_of repo digest (some (subject, descriptor)) state =
    add_referrer artifact_of repo subject digest descriptor state

-- The `retain` calls of `DeleteManifest`.
abbrev pub keep_tag : Text → Text → Text × Text → Option (Text × Text)
keep_tag digest tag (d, m) = if d == digest then none else some (d, m)

abbrev pub keep_referrers : Text → Text → SubjectReferrers → Option SubjectReferrers
keep_referrers digest subject refs =
    let kept = remove_referrer digest refs in if is_empty kept.by_digest then none else some kept

abbrev pub keep_edges : Text → Text → List Text → Option (List Text)
keep_edges digest of_blob manifests =
    let kept = retain (λ m. not (m == digest)) manifests in
    if is_empty kept then none else some kept

-- `rs.media_types.insert` and the tag of `PutManifest`.
unfoldable pub set_media_type : (digest media_type : Text) → Option Text → RepoState → RepoState
set_media_type digest media_type tag rs =
    set_tag tag digest media_type
      (record rs { media_types = insert digest media_type rs.media_types })

-- The arm of `DeleteManifest`.
unfoldable pub drop_manifest : Text → RepoState → RepoState
drop_manifest digest rs = record {
  backrefs_of = filter_map_values (keep_edges digest) rs.backrefs_of;
  checksums = remove digest rs.checksums;
  media_types = remove digest rs.media_types;
  referrers_of = filter_map_values (keep_referrers digest) rs.referrers_of;
  tags = filter_map_values (keep_tag digest) rs.tags;
}

unfoldable pub apply_in_ram : (Text → Option Text) → MetaOp → State → State
apply_in_ram artifact_of (put_manifest_op repo digest media_type tag references referrer) state =
    let written = with_repo repo (set_media_type digest media_type tag) state in
    set_referrer artifact_of repo digest referrer (add_backrefs repo digest references written)
apply_in_ram artifact_of (put_backrefs repo manifest blobs) state =
    add_backrefs repo manifest blobs state
apply_in_ram artifact_of (delete_manifest_op repo digest) state =
    with_repo repo (drop_manifest digest) state
apply_in_ram artifact_of (put_referrer repo subject referrer descriptor) state =
    add_referrer artifact_of repo subject referrer descriptor state
apply_in_ram artifact_of (put_checksum repo digest checksum) state =
    with_repo repo (λ rs. record rs { checksums = insert digest checksum rs.checksums }) state
apply_in_ram artifact_of (delete_blob_op repo digest) state =
    with_repo repo (λ rs. record rs { checksums = remove digest rs.checksums }) state

unfoldable pub resolve_tag : Text → Text → State → Option (Text × Text)
resolve_tag repo tag state = get tag (repo_of repo state).tags

unfoldable pub manifest_media_type : Text → Text → State → Option Text
manifest_media_type repo digest state = get digest (repo_of repo state).media_types

unfoldable pub has_referrer : Text → Text → Text → State → Bool
has_referrer repo subject referrer state =
    is_some_and (get subject (repo_of repo state).referrers_of)
      (λ refs. contains_key referrer refs.by_digest)

unfoldable pub backrefs : Text → Text → State → List Text
backrefs repo digest state = unwrap_or (get digest (repo_of repo state).backrefs_of) []

unfoldable pub checksum : Text → Text → State → Option BlobChecksum
checksum repo digest state = get digest (repo_of repo state).checksums
