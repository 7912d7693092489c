-- ===== src/Storage/Metadata/Manifests.antt =====
-- crates/roci-storage/src/metadata/log.rs: what deleting a manifest leaves.
use mathlib.Core.Path.{subst}
use roci.Base.{List, Option, [], false, inl, inr, none, not, refl, some, sym, ◌∙◌, ◌∷◌, ◌≡◌}
use roci.Base.Eq.{Text, beq_self, nat_eq, text_eq, ◌==◌}
use roci.Base.Lists.{contains, is_empty, retain}
use roci.Base.Map.{Map, contains_key, get, get-filter_map_values, get-remove, remove}
use roci.Base.Tests.{Bool-cases, Option-cases, and_then, is_some_and, unwrap_or}
use roci.Storage.Metadata.{
  RepoState, State, SubjectReferrers, apply_in_ram, backrefs, checksum, delete_manifest_op,
  drop_manifest, has_referrer, keep_edges, keep_referrers, keep_tag, manifest_media_type,
  remove_referrer, repo_of, resolve_tag,
}
use roci.Storage.Metadata.Isolation.{apply_to, repo_of-apply_in_ram}

-- The digest stands nowhere in the repository.
abbrev Gone : Text → RepoState → Type 0
Gone digest r =
    (get digest r.media_types ≡ none)
    × (get digest r.checksums ≡ none)
    × ((tag : Text) → is_some_and (get tag r.tags) (λ t. t.0 == digest) ≡ false)
    × ((subject : Text)
        → is_some_and (get subject r.referrers_of) (λ refs. contains_key digest refs.by_digest)
          ≡ false)
    × ((object : Text) → contains (unwrap_or (get object r.backrefs_of) []) digest ≡ false)

get_removed : {V : Type 0} (digest : Text) (m : Map Text V) → get digest (remove digest m) ≡ none
get_removed digest m = rw (get-remove digest digest m, beq_self digest)

contains_retained :
    (digest : Text) (ms : List Text) → contains (retain (λ m. not (m == digest)) ms) digest ≡ false
contains_retained digest [] = refl
contains_retained digest (m ∷ ms) = elim (Bool-cases (m == digest)) [
  | inl same ↦ rw same (contains_retained digest ms)
  | inr other ↦ rw (other, other) (contains_retained digest ms)
]

pub get-remove_referrer :
    (digest : Text) (refs : SubjectReferrers)
    → get digest (remove_referrer digest refs).by_digest ≡ none
unfolding remove_referrer
get-remove_referrer digest refs = elim (Option-cases (get digest refs.by_digest)) [
  | inl absent ↦ rw (absent, remove_referrer) absent
  | inr ((none, bytes), found) ↦ rw (found, remove_referrer) (get_removed digest refs.by_digest)
  | inr ((some t, bytes), found) ↦ rw (found, remove_referrer) (get_removed digest refs.by_digest)
]

tag_gone :
    (digest tag : Text) (o : Option (Text × Text))
    → is_some_and (and_then o (keep_tag digest tag)) (λ t. t.0 == digest) ≡ false
tag_gone digest tag none = refl
tag_gone digest tag (some (d, m)) = elim (Bool-cases (d == digest)) [
  | inl same ↦ rw same
  | inr other ↦ rw (other, other)
]

referrer_gone :
    (digest subject : Text) (o : Option SubjectReferrers)
    → is_some_and
        (and_then o (keep_referrers digest subject))
        (λ refs. contains_key digest refs.by_digest)
      ≡ false
referrer_gone digest subject none = refl
referrer_gone digest subject (some refs) =
    elim (Bool-cases (is_empty (remove_referrer digest refs).by_digest)) [
      | inl nothing ↦ rw nothing
      | inr left ↦ rw (left, get-remove_referrer digest refs)
    ]

edge_gone :
    (digest object : Text) (o : Option (List Text))
    → contains (unwrap_or (and_then o (keep_edges digest object)) []) digest ≡ false
edge_gone digest object none = refl
edge_gone digest object (some ms) =
    elim (Bool-cases (is_empty (retain (λ m. not (m == digest)) ms))) [
      | inl nothing ↦ rw nothing
      | inr left ↦ rw left (contains_retained digest ms)
    ]

apply_to-Gone :
    (artifact_of : Text → Option Text) (repo digest : Text) (r : RepoState)
    → Gone digest (apply_to artifact_of (delete_manifest_op repo digest) r)
unfolding apply_to drop_manifest
apply_to-Gone artifact_of repo digest r = (
  get_removed digest r.media_types,
  get_removed digest r.checksums,
  λ tag.
      rw (get-filter_map_values (keep_tag digest) tag r.tags)
        (tag_gone digest tag (get tag r.tags)),
  λ subject.
      rw (get-filter_map_values (keep_referrers digest) subject r.referrers_of)
        (referrer_gone digest subject (get subject r.referrers_of)),
  λ object.
      rw (get-filter_map_values (keep_edges digest) object r.backrefs_of)
        (edge_gone digest object (get object r.backrefs_of)),
)

-- Deleting a manifest leaves its digest nowhere in its repository: it has no media type and no
-- checksum, no tag resolves to it, nothing counts it among its referrers and no object among its
-- backrefs.
pub apply_in_ram-delete :
    (artifact_of : Text → Option Text) (repo digest : Text) (s : State)
    → let after = apply_in_ram artifact_of (delete_manifest_op repo digest) s in
      (manifest_media_type repo digest after ≡ none)
      × (checksum repo digest after ≡ none)
      × ((tag : Text) → is_some_and (resolve_tag repo tag after) (λ t. t.0 == digest) ≡ false)
      × ((subject : Text) → has_referrer repo subject digest after ≡ false)
      × ((object : Text) → contains (backrefs repo object after) digest ≡ false)
unfolding manifest_media_type checksum resolve_tag has_referrer backrefs
apply_in_ram-delete artifact_of repo digest s =
    let e = repo_of-apply_in_ram artifact_of (delete_manifest_op repo digest) repo s in
    subst (Gone digest) (sym (e ∙ rw (beq_self repo)))
      (apply_to-Gone artifact_of repo digest (repo_of repo s))
