-- ===== src/Storage/Pages/Indexed.antt =====
-- crates/roci-storage/src/metadata/log.rs: every operation keeps the index by type of each subject in
-- agreement with its entries.
-- The four cases of a digest that is removed or written, with a type and without.
use mathlib.Core.Path.{subst}
use roci.Base.{
  Bool, List, Option, [], ap, arith, false, inl, inr, none, not, refl, some, sym, true, ◌&&◌, ◌||◌,
  ◌∙◌, ◌∷◌, ◌≡◌,
}
use roci.Base.Eq.{Text, eq_iff, nat_eq, text_eq, ◌==◌}
use roci.Base.Lists.{contains, is_empty}
use roci.Base.Map.{Map, get, get-filter_map_values, get-insert, get-remove}
use roci.Base.Tests.{Bool-cases, Option-cases, and_then, if◌then◌else◌, unwrap_or}
use roci.Storage.Metadata.{
  MetaOp, RepoState, State, SubjectReferrers, apply_in_ram, delete_blob_op, delete_manifest_op,
  drop_manifest, empty_subject, insert_referrer, insert_typed, insert_under, keep_referrers,
  put_backrefs, put_checksum, put_manifest_op, put_referrer, remove_referrer, repo_of,
  set_media_type, set_tag,
}
use roci.Storage.Metadata.Isolation.{apply_to, op_repo, refer, repo_of-apply_in_ram}
use roci.Storage.Metadata.Manifests.{get-remove_referrer}
use roci.Storage.Pages.Referrers.{
  IsIndexed, has_type, typed, typed-insert_typed, typed-remove_typed,
}
use roci.Storage.Wal.{apply_ops}

removed_untyped :
    (t r d bytes : Text) (m : Map Text (Option Text × Text))
    → get r m ≡ some (none, bytes)
    → has_type t (get d m) ≡ has_type t (if r == d then none else get d m)
removed_untyped t r d bytes m here = elim (Bool-cases (r == d)) [
  | inl e ↦ rw e (ap (has_type t) (ap (λ k. get k m) (sym ((eq_iff r d).0 e)) ∙ here))
  | inr ne ↦ rw ne refl
]

removed_typed :
    (t u r d bytes : Text) (m : Map Text (Option Text × Text))
    → get r m ≡ some (some u, bytes)
    → (not (u == t && r == d) && has_type t (get d m))
      ≡ has_type t (if r == d then none else get d m)
removed_typed t u r d bytes m here = elim (Bool-cases (r == d)) [
  | inl e ↦
      let found : has_type t (get d m) ≡ (u == t) =
        ap (has_type t) (ap (λ k. get k m) (sym ((eq_iff r d).0 e)) ∙ here) in
      rw (e, found) (ground arith)
  | inr ne ↦ rw ne (ground arith)
]

inserted_untyped :
    (t r d descriptor : Text) (m : Map Text (Option Text × Text))
    → get r m ≡ none
    → has_type t (get d m) ≡ has_type t (if r == d then some (none, descriptor) else get d m)
inserted_untyped t r d descriptor m gone = elim (Bool-cases (r == d)) [
  | inl e ↦ rw e (ap (has_type t) (ap (λ k. get k m) (sym ((eq_iff r d).0 e)) ∙ gone))
  | inr ne ↦ rw ne refl
]

inserted_typed :
    (t u r d descriptor : Text) (m : Map Text (Option Text × Text))
    → get r m ≡ none
    → ((u == t && r == d) || has_type t (get d m))
      ≡ has_type t (if r == d then some (some u, descriptor) else get d m)
inserted_typed t u r d descriptor m gone = elim (Bool-cases (r == d)) [
  | inl e ↦
      let absent : has_type t (get d m) ≡ false =
        ap (has_type t) (ap (λ k. get k m) (sym ((eq_iff r d).0 e)) ∙ gone) in
      rw (e, absent) (ground arith)
  | inr ne ↦ rw ne (ground arith)
]

remove_referrer-IsIndexed :
    (r : Text) (self : SubjectReferrers) → IsIndexed self → IsIndexed (remove_referrer r self)
unfolding remove_referrer
remove_referrer-IsIndexed r self h t d = elim (Option-cases (get r self.by_digest)) [
  | inl absent ↦ rw (absent, remove_referrer) (h t d)
  | inr ((none, bytes), here) ↦
      rw (here, remove_referrer, get-remove r d self.by_digest)
        (h t d ∙ removed_untyped t r d bytes self.by_digest here)
  | inr ((some u, bytes), here) ↦
      rw
        (
          here,
          remove_referrer,
          get-remove r d self.by_digest,
          typed-remove_typed u r t d self.by_type,
          h t d,
        )
        (removed_typed t u r d bytes self.by_digest here)
]

insert_referrer-IsIndexed :
    (artifact_of : Text → Option Text) (r descriptor : Text) (self : SubjectReferrers)
    → IsIndexed self
    → IsIndexed (insert_referrer artifact_of r descriptor self)
unfolding insert_referrer insert_typed remove_referrer
insert_referrer-IsIndexed artifact_of r descriptor self h t d =
    let without = remove_referrer r self in
    let here = remove_referrer-IsIndexed r self h t d in
    let gone = get-remove_referrer r self in
    elim (Option-cases (artifact_of descriptor)) [
      | inl untyped ↦
          rw (untyped, get-insert r d (none, descriptor) without.by_digest)
            (here ∙ inserted_untyped t r d descriptor without.by_digest gone)
      | inr (u, typed_as) ↦
          rw
            (
              typed_as,
              get-insert r d (some u, descriptor) without.by_digest,
              typed-insert_typed u r t d without.by_type,
              here,
            )
            (inserted_typed t u r d descriptor without.by_digest gone)
    ]

-- Every subject of a repository.
abbrev AreIndexed : RepoState → Type 0
AreIndexed rs =
    (subject : Text) (refs : SubjectReferrers)
    → get subject rs.referrers_of ≡ some refs
    → IsIndexed refs

empty_subject-IsIndexed : IsIndexed empty_subject
unfolding get
empty_subject-IsIndexed t d = refl

some_refs : {a b : SubjectReferrers} → some a ≡ some b → a ≡ b
some_refs h = cc

insert_under-AreIndexed :
    (artifact_of : Text → Option Text) (subject referrer descriptor : Text) (rs : RepoState)
    → AreIndexed rs
    → AreIndexed (insert_under artifact_of subject referrer descriptor rs)
unfolding insert_under
insert_under-AreIndexed artifact_of subject referrer descriptor rs h s refs found =
    let before = unwrap_or (get subject rs.referrers_of) empty_subject in
    let before-IsIndexed : IsIndexed before = elim (Option-cases (get subject rs.referrers_of)) [
      | inl absent ↦
          subst (λ o. IsIndexed (unwrap_or o empty_subject)) (sym absent) empty_subject-IsIndexed
      | inr (old, here) ↦
          subst (λ o. IsIndexed (unwrap_or o empty_subject)) (sym here) (h subject old here)
    ] in
    let there =
      sym (
        get-insert subject s (insert_referrer artifact_of referrer descriptor before)
          rs.referrers_of)
      ∙ found in
    elim (Bool-cases (subject == s)) [
      | inl e ↦
          subst IsIndexed (some_refs (rw e at there))
            (insert_referrer-IsIndexed artifact_of referrer descriptor before before-IsIndexed)
      | inr ne ↦ h s refs (rw ne at there)
    ]

none_kept : {o : Option SubjectReferrers} {refs : SubjectReferrers} → o ≡ none → o ≡ some refs → ⊥
none_kept h k = cc

keep_referrers-IsIndexed :
    (digest subject : Text) (o : Option SubjectReferrers) (refs : SubjectReferrers)
    → ((old : SubjectReferrers) → o ≡ some old → IsIndexed old)
    → and_then o (keep_referrers digest subject) ≡ some refs
    → IsIndexed refs
keep_referrers-IsIndexed digest subject none refs h found = absurd (cc)
keep_referrers-IsIndexed digest subject (some old) refs h found =
    elim (Bool-cases (is_empty (remove_referrer digest old).by_digest)) [
      | inl bare ↦ absurd (none_kept (rw bare refl) found)
      | inr left ↦
          subst IsIndexed (some_refs (rw left at found))
            (remove_referrer-IsIndexed digest old (h old refl))
    ]

apply_to-AreIndexed :
    (artifact_of : Text → Option Text) (op : MetaOp) (rs : RepoState)
    → AreIndexed rs
    → AreIndexed (apply_to artifact_of op rs)
unfolding apply_to refer set_media_type set_tag drop_manifest
apply_to-AreIndexed artifact_of (put_manifest_op repo digest media_type none references none) rs h =
    h
apply_to-AreIndexed artifact_of (put_manifest_op repo digest media_type (some t) references none) rs
      h =
    h
apply_to-AreIndexed artifact_of
      (put_manifest_op repo digest media_type none references (some (subject, descriptor))) rs h =
    insert_under-AreIndexed artifact_of subject digest descriptor _ h
apply_to-AreIndexed artifact_of
      (put_manifest_op repo digest media_type (some t) references (some (subject, descriptor))) rs
      h =
    insert_under-AreIndexed artifact_of subject digest descriptor _ h
apply_to-AreIndexed artifact_of (put_backrefs repo manifest blobs) rs h = h
apply_to-AreIndexed artifact_of (delete_manifest_op repo digest) rs h = λ subject refs found.
    keep_referrers-IsIndexed digest subject (get subject rs.referrers_of) refs (h subject)
      (sym (get-filter_map_values (keep_referrers digest) subject rs.referrers_of) ∙ found)
apply_to-AreIndexed artifact_of (put_referrer repo subject referrer descriptor) rs h =
    insert_under-AreIndexed artifact_of subject referrer descriptor rs h
apply_to-AreIndexed artifact_of (put_checksum repo digest sums) rs h = h
apply_to-AreIndexed artifact_of (delete_blob_op repo digest) rs h = h

AreIndexed-if :
    (b : Bool) (x y : RepoState) → AreIndexed x → AreIndexed y → AreIndexed (if b then x else y)
AreIndexed-if true x y hx hy = hx
AreIndexed-if false x y hx hy = hy

apply_ops-AreIndexed :
    (artifact_of : Text → Option Text) (ops : List MetaOp) (state : State) (repo : Text)
    → ((r : Text) → AreIndexed (repo_of r state))
    → AreIndexed (repo_of repo (apply_ops artifact_of ops state))
unfolding apply_ops
apply_ops-AreIndexed artifact_of [] state repo h = h repo
apply_ops-AreIndexed artifact_of (op ∷ ops) state repo h =
    apply_ops-AreIndexed artifact_of ops (apply_in_ram artifact_of op state) repo (λ r.
      subst AreIndexed (sym (repo_of-apply_in_ram artifact_of op r state)) (
        AreIndexed-if (op_repo op == r) _ _
          (apply_to-AreIndexed artifact_of op (repo_of r state) (h r)) (h r)))

repo_of-empty : (repo : Text) → AreIndexed (repo_of repo [])
unfolding get
repo_of-empty repo subject refs found = absurd (cc)

-- After any operations on an empty index, for each subject: a digest stands under a type in the index by
-- type exactly if it has an entry and the entry's type is this one.
pub apply_ops-IsIndexed :
    (artifact_of : Text → Option Text) (ops : List MetaOp) (repo subject t d : Text)
    (refs : SubjectReferrers)
    → get subject (repo_of repo (apply_ops artifact_of ops [])).referrers_of ≡ some refs
    → contains (typed t refs.by_type) d ≡ has_type t (get d refs.by_digest)
apply_ops-IsIndexed artifact_of ops repo subject t d refs found =
    apply_ops-AreIndexed artifact_of ops [] repo repo_of-empty subject refs found t d
