-- ===== src/Storage/Metadata/Isolation.antt =====
-- crates/roci-storage/src/metadata/log.rs: an operation stays in its repository.
use roci.Base.{Bool, List, Option, [], ap, false, inl, inr, none, refl, some, true, ◌∙◌, ◌≡◌, ◌≢◌}
use roci.Base.Eq.{Text, eq_iff, nat_eq, text_eq, ◌==◌}
use roci.Base.Map.{contains_key, get, get-insert, insert, remove}
use roci.Base.Tests.{Bool-cases, if◌then◌else◌, is_some_and, unwrap_or}
use roci.Storage.Metadata.{
  MetaOp, RepoState, State, add_backrefs, add_edges, add_referrer, apply_in_ram, backrefs, checksum,
  delete_blob_op, delete_manifest_op, drop_manifest, has_referrer, insert_under,
  manifest_media_type, put_backrefs, put_checksum, put_manifest_op, put_referrer, repo_of,
  resolve_tag, set_media_type, set_referrer, with_repo,
}

-- Two states answer alike about a repository.
abbrev pub Agree : Text → State → State → Type 0
Agree repo s t =
    ((tag : Text) → resolve_tag repo tag s ≡ resolve_tag repo tag t)
    × ((digest : Text) → manifest_media_type repo digest s ≡ manifest_media_type repo digest t)
    × ((subject referrer : Text)
        → has_referrer repo subject referrer s ≡ has_referrer repo subject referrer t)
    × ((digest : Text) → backrefs repo digest s ≡ backrefs repo digest t)
    × ((digest : Text) → checksum repo digest s ≡ checksum repo digest t)

same_repo-Agree : (repo : Text) (s t : State) → repo_of repo s ≡ repo_of repo t → Agree repo s t
unfolding resolve_tag manifest_media_type has_referrer backrefs checksum
same_repo-Agree repo s t h = (
  λ tag. ap (λ r. get tag r.tags) h,
  λ digest. ap (λ r. get digest r.media_types) h,
  λ subject referrer.
      ap
        (λ r.
          is_some_and (get subject r.referrers_of) (λ refs. contains_key referrer refs.by_digest))
        h,
  λ digest. ap (λ r. unwrap_or (get digest r.backrefs_of) []) h,
  λ digest. ap (λ r. get digest r.checksums) h,
)

-- The repository that an operation is about.
abbrev pub op_repo : MetaOp → Text
op_repo (put_manifest_op repo digest media_type tag references referrer) = repo
op_repo (put_backrefs repo manifest blobs) = repo
op_repo (delete_manifest_op repo digest) = repo
op_repo (put_referrer repo subject referrer descriptor) = repo
op_repo (put_checksum repo digest checksum) = repo
op_repo (delete_blob_op repo digest) = repo

abbrev pub link : Text → List Text → RepoState → RepoState
link manifest blobs rs = record rs { backrefs_of = add_edges manifest blobs rs.backrefs_of }

unfoldable pub refer : (Text → Option Text) → Text → Option (Text × Text) → RepoState → RepoState
refer artifact_of digest none rs = rs
refer artifact_of digest (some (subject, descriptor)) rs =
    insert_under artifact_of subject digest descriptor rs

-- What the calls of an operation come to in its repository.
unfoldable pub apply_to : (Text → Option Text) → MetaOp → RepoState → RepoState
apply_to artifact_of (put_manifest_op repo digest media_type tag references referrer) rs =
    refer artifact_of digest referrer
      (link digest references (set_media_type digest media_type tag rs))
apply_to artifact_of (put_backrefs repo manifest blobs) rs = link manifest blobs rs
apply_to artifact_of (delete_manifest_op repo digest) rs = drop_manifest digest rs
apply_to artifact_of (put_referrer repo subject referrer descriptor) rs =
    insert_under artifact_of subject referrer descriptor rs
apply_to artifact_of (put_checksum repo digest checksum) rs = record rs {
  checksums = insert digest checksum rs.checksums;
}
apply_to artifact_of (delete_blob_op repo digest) rs = record rs {
  checksums = remove digest rs.checksums;
}

repo_of-with_repo :
    (a repo : Text) (f : RepoState → RepoState) (s : State)
    → repo_of repo (with_repo a f s) ≡ (if a == repo then f (repo_of repo s) else repo_of repo s)
unfolding with_repo
repo_of-with_repo a repo f s = elim (Bool-cases (a == repo)) [
  | inl same ↦ rw (get-insert a repo (f (repo_of a s)) s, same, (eq_iff a repo).0 same)
  | inr other ↦ rw (get-insert a repo (f (repo_of a s)) s, other)
]

if_twice :
    (b : Bool) (f g : RepoState → RepoState) (rs : RepoState)
    → (if b then g (if b then f rs else rs) else (if b then f rs else rs))
      ≡ (if b then g (f rs) else rs)
if_twice true f g rs = refl
if_twice false f g rs = refl

repo_of-with_repo_twice :
    (a repo : Text) (f g : RepoState → RepoState) (s : State)
    → repo_of repo (with_repo a g (with_repo a f s))
      ≡ (if a == repo then g (f (repo_of repo s)) else repo_of repo s)
repo_of-with_repo_twice a repo f g s =
    repo_of-with_repo a repo g (with_repo a f s)
    ∙ ap (λ rs. if a == repo then g rs else rs) (repo_of-with_repo a repo f s)
    ∙ if_twice (a == repo) f g (repo_of repo s)

repo_of-put :
    (artifact_of : Text → Option Text) (repo digest : Text) (f g : RepoState → RepoState)
    (referrer : Option (Text × Text)) (r : Text) (s : State)
    → repo_of r
        (set_referrer artifact_of repo digest referrer (with_repo repo g (with_repo repo f s)))
      ≡ (if repo == r then refer artifact_of digest referrer (g (f (repo_of r s))) else repo_of r s)
unfolding set_referrer add_referrer refer
repo_of-put artifact_of repo digest f g none r s = repo_of-with_repo_twice repo r f g s
repo_of-put artifact_of repo digest f g (some (subject, descriptor)) r s =
    let h = insert_under artifact_of subject digest descriptor in
    repo_of-with_repo repo r h (with_repo repo g (with_repo repo f s))
    ∙ ap (λ rs. if repo == r then h rs else rs) (repo_of-with_repo_twice repo r f g s)
    ∙ if_twice (repo == r) (λ rs. g (f rs)) h (repo_of r s)

pub repo_of-apply_in_ram :
    (artifact_of : Text → Option Text) (op : MetaOp) (repo : Text) (s : State)
    → repo_of repo (apply_in_ram artifact_of op s)
      ≡ (if op_repo op == repo then apply_to artifact_of op (repo_of repo s) else repo_of repo s)
unfolding apply_in_ram apply_to add_backrefs add_referrer
repo_of-apply_in_ram artifact_of (put_manifest_op a digest media_type tag references referrer) repo
      s =
    repo_of-put artifact_of a digest (set_media_type digest media_type tag) (link digest references)
      referrer repo s
repo_of-apply_in_ram artifact_of (put_backrefs a manifest blobs) repo s =
    repo_of-with_repo a repo _ s
repo_of-apply_in_ram artifact_of (delete_manifest_op a digest) repo s = repo_of-with_repo a repo _ s
repo_of-apply_in_ram artifact_of (put_referrer a subject referrer descriptor) repo s =
    repo_of-with_repo a repo _ s
repo_of-apply_in_ram artifact_of (put_checksum a digest checksum) repo s =
    repo_of-with_repo a repo _ s
repo_of-apply_in_ram artifact_of (delete_blob_op a digest) repo s = repo_of-with_repo a repo _ s

-- An operation on one repository changes no answer about another.
pub apply_in_ram-Agree :
    (artifact_of : Text → Option Text) (op : MetaOp) (repo : Text) (s : State)
    → op_repo op ≢ repo
    → Agree repo (apply_in_ram artifact_of op s) s
apply_in_ram-Agree artifact_of op repo s h =
    same_repo-Agree repo (apply_in_ram artifact_of op s) s (elim (Bool-cases (op_repo op == repo)) [
      | inl same ↦ absurd (h ((eq_iff (op_repo op) repo).0 same))
      | inr other ↦ rw (repo_of-apply_in_ram artifact_of op repo s, other)
    ])
