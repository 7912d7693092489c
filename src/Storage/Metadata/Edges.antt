-- ===== src/Storage/Metadata/Edges.antt =====
-- crates/roci-storage/src/metadata/log.rs: what storing a manifest records.
use roci.Base.{
  List, Option, [], ap, arith, inl, inr, none, refl, some, sym, true, ◌&&◌, ◌++◌, ◌||◌, ◌∙◌, ◌∷◌,
  ◌≡◌,
}
use roci.Base.Eq.{Text, beq_self, eq_iff, nat_eq, text_eq, ◌==◌}
use roci.Base.Lists.{contains}
use roci.Base.Map.{Map, get, get-insert, insert}
use roci.Base.Tests.{Bool-cases, if◌then◌else◌, unwrap_or}
use roci.Storage.Metadata.{
  RepoState, State, add_edges, apply_in_ram, backrefs, insert_under, put_manifest_op, repo_of,
  set_media_type, set_tag,
}
use roci.Storage.Metadata.Isolation.{apply_to, refer, repo_of-apply_in_ram}

abbrev edges_at : Text → Map Text (List Text) → List Text
edges_at object m = unwrap_or (get object m) []

contains-append_one :
    (x m : Text) (ms : List Text) → contains (ms ++ m ∷ []) x ≡ (m == x || contains ms x)
contains-append_one x m [] = refl
contains-append_one x m (y ∷ ms) = ground (arith, contains-append_one x m ms)

added_to :
    (x m : Text) (ms : List Text)
    → contains (if contains ms m then ms else ms ++ m ∷ []) x ≡ ((m == x && true) || contains ms x)
added_to x m ms = elim (Bool-cases (contains ms m)) [
  | inr absent ↦ rw (absent, contains-append_one x m ms) (ground arith)
  | inl there ↦ elim (Bool-cases (m == x)) [
    | inl same ↦ let e = (eq_iff m x).0 same in rw (there, same, sym (ap (contains ms) e)) there
    | inr other ↦ rw (there, other)
  ]
]

-- One round of the loop of `add_backrefs`.
add_one :
    (x m object b : Text) (mp : Map Text (List Text))
    → contains
        (edges_at object (
          insert b
            (if contains (edges_at b mp) m then edges_at b mp else edges_at b mp ++ m ∷ [])
            mp))
        x
      ≡ ((m == x && b == object) || contains (edges_at object mp) x)
add_one x m object b mp =
    let added = if contains (edges_at b mp) m then edges_at b mp else edges_at b mp ++ m ∷ [] in
    elim (Bool-cases (b == object)) [
      | inr other ↦ rw (get-insert b object added mp, other) (ground arith)
      | inl same ↦
          let at_b : edges_at object mp ≡ edges_at b mp =
            ap (λ o. edges_at o mp) (sym ((eq_iff b object).0 same)) in
          rw (get-insert b object added mp, same, at_b) (added_to x m (edges_at b mp))
    ]

add_edges-contains :
    (x m object : Text) (blobs : List Text) (mp : Map Text (List Text))
    → contains (edges_at object (add_edges m blobs mp)) x
      ≡ ((m == x && contains blobs object) || contains (edges_at object mp) x)
unfolding add_edges
add_edges-contains x m object [] mp = ground arith
add_edges-contains x m object (b ∷ blobs) mp =
    let added = if contains (edges_at b mp) m then edges_at b mp else edges_at b mp ++ m ∷ [] in
    rw (add_edges-contains x m object blobs (insert b added mp), add_one x m object b mp)
      (ground arith)

put_edges :
    (artifact_of : Text → Option Text) (repo digest media_type : Text) (tag : Option Text)
    (references : List Text) (referrer : Option (Text × Text)) (r : RepoState)
    → (apply_to artifact_of
        (put_manifest_op repo digest media_type tag references referrer)
        r).backrefs_of
      ≡ add_edges digest references r.backrefs_of
unfolding apply_to refer set_media_type set_tag insert_under
put_edges artifact_of repo digest media_type none references none r = refl
put_edges artifact_of repo digest media_type none references (some (s, d)) r = refl
put_edges artifact_of repo digest media_type (some t) references none r = refl
put_edges artifact_of repo digest media_type (some t) references (some (s, d)) r = refl

-- Storing a manifest adds it to the backrefs of every object that it references, and changes no other
-- backref of its repository.
pub apply_in_ram-put :
    (artifact_of : Text → Option Text) (repo digest media_type : Text) (tag : Option Text)
    (references : List Text) (referrer : Option (Text × Text)) (s : State) (object m : Text)
    → contains
        (backrefs repo object (
          apply_in_ram artifact_of
            (put_manifest_op repo digest media_type tag references referrer)
            s))
        m
      ≡ ((digest == m && contains references object) || contains (backrefs repo object s) m)
unfolding backrefs
apply_in_ram-put artifact_of repo digest media_type tag references referrer s object m =
    let op = put_manifest_op repo digest media_type tag references referrer in
    let e : repo_of repo (apply_in_ram artifact_of op s)
        ≡ apply_to artifact_of op (repo_of repo s) =
      repo_of-apply_in_ram artifact_of op repo s ∙ rw (beq_self repo) in
    ap (λ r. contains (edges_at object r.backrefs_of) m) e
    ∙ ap (λ edges. contains (edges_at object edges) m)
        (put_edges artifact_of repo digest media_type tag references referrer (repo_of repo s))
    ∙ add_edges-contains m digest object references (repo_of repo s).backrefs_of
