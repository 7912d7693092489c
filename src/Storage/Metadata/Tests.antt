-- ===== src/Storage/Metadata/Tests.antt =====
-- crates/roci-storage/src/metadata/log.rs: a repository with a tagged manifest.
use roci.Base.{Option, [], arith, false, none, refl, some, ◌&&◌, ◌||◌, ◌∷◌, ◌≡◌, ◌≢◌}
use roci.Base.Eq.{Text, codes, nat_eq, text_beq, text_eq, ◌==◌}
use roci.Base.Lists.{contains}
use roci.Base.Map.{get, insert}
use roci.Base.Tests.{is_some_and}
use roci.Storage.Metadata.{
  MetaOp, State, add_backrefs, add_edges, add_referrer, apply_in_ram, backrefs, checksum,
  delete_manifest_op, has_referrer, insert_referrer, insert_typed, insert_under,
  manifest_media_type, put_manifest_op, remove_referrer, resolve_tag, set_media_type, set_referrer,
  set_tag, with_repo,
}
use roci.Storage.Metadata.Edges.{apply_in_ram-put}
use roci.Storage.Metadata.Isolation.{Agree, apply_in_ram-Agree}
use roci.Storage.Metadata.Manifests.{apply_in_ram-delete}

no_artifact : Text → Option Text
no_artifact descriptor = none

abbrev tagged : MetaOp
tagged =
    put_manifest_op (codes "r") (codes "d1") (codes "m") (some (codes "latest")) (codes "b1" ∷ [])
      (some (codes "s", codes "x"))

abbrev one_manifest : State
one_manifest = apply_in_ram no_artifact tagged []

different_repos : codes "r" ≢ codes "q"
different_repos = ground arith

apply_in_ram-Agree_example :
    Agree
      (codes "q")
      (apply_in_ram no_artifact (delete_manifest_op (codes "r") (codes "d1")) one_manifest)
      one_manifest
apply_in_ram-Agree_example =
    apply_in_ram-Agree no_artifact (delete_manifest_op (codes "r") (codes "d1")) (codes "q")
      one_manifest different_repos

apply_in_ram-delete_example :
    let after =
      apply_in_ram no_artifact (delete_manifest_op (codes "r") (codes "d1")) one_manifest in
    (manifest_media_type (codes "r") (codes "d1") after ≡ none)
    × (checksum (codes "r") (codes "d1") after ≡ none)
    × ((tag : Text)
        → is_some_and (resolve_tag (codes "r") tag after) (λ t. t.0 == codes "d1") ≡ false)
    × ((subject : Text) → has_referrer (codes "r") subject (codes "d1") after ≡ false)
    × ((object : Text) → contains (backrefs (codes "r") object after) (codes "d1") ≡ false)
apply_in_ram-delete_example = apply_in_ram-delete no_artifact (codes "r") (codes "d1") one_manifest

has_backref : backrefs (codes "r") (codes "b1") one_manifest ≡ codes "d1" ∷ []
unfolding backrefs apply_in_ram with_repo set_media_type get insert text_beq add_backrefs add_edges
    set_tag set_referrer add_referrer insert_under insert_referrer remove_referrer insert_typed
has_backref = refl

apply_in_ram-put_example :
    contains (backrefs (codes "r") (codes "b1") (apply_in_ram no_artifact tagged [])) (codes "d1")
    ≡ ((codes "d1" == codes "d1" && contains (codes "b1" ∷ []) (codes "b1"))
        || contains (backrefs (codes "r") (codes "b1") []) (codes "d1"))
apply_in_ram-put_example =
    apply_in_ram-put no_artifact (codes "r") (codes "d1") (codes "m") (some (codes "latest"))
      (codes "b1" ∷ []) (some (codes "s", codes "x")) [] (codes "b1") (codes "d1")
