-- ===== src/Storage/Pages/Tests.antt =====
-- Runs of the listings.
use roci.Base.{List, Option, [], arith, false, none, refl, some, true, ◌∷◌, ◌≡◌}
use roci.Base.Eq.{Text, codes, text_beq, text_eq}
use roci.Base.Lists.{contains, is_empty, set_insert}
use roci.Base.Map.{get, insert, remove}
use roci.Base.Tests.{if◌then◌else◌}
use roci.Storage.Metadata.{
  MetaOp, State, add_backrefs, add_edges, add_referrer, apply_in_ram, insert_referrer, insert_typed,
  insert_under, put_manifest_op, put_referrer, remove_referrer, remove_typed, set_media_type,
  set_referrer, set_tag, with_repo,
}
use roci.Storage.Pages.{
  described, insert_key, is_after, referrers_page, sort_keys, subject_page, tags_page, take_page,
  text_lt,
}
use roci.Storage.Pages.Indexed.{apply_ops-IsIndexed}
use roci.Storage.Pages.Referrers.{has_type, typed}
use roci.Storage.Pages.Walk.{follow, follow-tags_page, tags_of}
use roci.Storage.Wal.{apply_ops}

abbrev typed_by_descriptor : Text → Option Text
typed_by_descriptor descriptor = if is_empty descriptor then none else some descriptor

-- Two tags, out of order, and one referrer, which is pushed as `sig` and again as `sbom`.
abbrev pushes : List MetaOp
pushes =
    put_manifest_op (codes "r") (codes "d1") (codes "m") (some (codes "v2")) [] none
    ∷ put_manifest_op (codes "r") (codes "d2") (codes "m") (some (codes "v1")) []
        (some (codes "d1", codes "sig"))
    ∷ put_referrer (codes "r") (codes "d1") (codes "d2") (codes "sbom")
    ∷ []

abbrev indexed : State
indexed = apply_ops typed_by_descriptor pushes []

first_page :
    tags_page (codes "r") none 1 indexed ≡ some (record { items = codes "v1" ∷ []; more = true })
unfolding tags_page take_page text_lt is_after insert_key sort_keys apply_ops apply_in_ram with_repo
    set_media_type set_referrer set_tag add_backrefs add_edges add_referrer insert_under
    insert_referrer remove_referrer insert_typed remove_typed get insert remove text_beq set_insert
first_page = refl

one_type :
    referrers_page (codes "r") (codes "d1") (some (codes "sbom")) none 5 indexed
    ≡ some (record { items = (codes "d2", codes "sbom") ∷ []; more = false })
unfolding referrers_page subject_page described take_page text_lt is_after insert_key sort_keys
    apply_ops apply_in_ram with_repo set_media_type set_referrer set_tag add_backrefs add_edges
    add_referrer insert_under insert_referrer remove_referrer insert_typed remove_typed get insert
    remove text_beq set_insert
one_type = refl

follow-tags_page_example :
    follow 3 (λ last. tags_page (codes "r") last 1 indexed) none ≡ tags_of (codes "r") indexed
unfolding text_lt insert_key sort_keys apply_ops apply_in_ram with_repo set_media_type set_referrer
    set_tag add_backrefs add_edges add_referrer insert_under insert_referrer remove_referrer
    insert_typed remove_typed get insert remove text_beq set_insert
follow-tags_page_example = follow-tags_page (codes "r") indexed 1 3 (omega arith) (omega arith)

apply_ops-IsIndexed_example :
    contains (typed (codes "sbom") ((codes "sbom", codes "d2" ∷ []) ∷ [])) (codes "d2")
    ≡ has_type
        (codes "sbom")
        (get (codes "d2") ((codes "d2", (some (codes "sbom"), codes "sbom")) ∷ []))
unfolding text_lt insert_key sort_keys apply_ops apply_in_ram with_repo set_media_type set_referrer
    set_tag add_backrefs add_edges add_referrer insert_under insert_referrer remove_referrer
    insert_typed remove_typed get insert remove text_beq set_insert
apply_ops-IsIndexed_example =
    apply_ops-IsIndexed typed_by_descriptor pushes (codes "r") (codes "d1") (codes "sbom")
      (codes "d2")
      (record {
        by_digest = (codes "d2", (some (codes "sbom"), codes "sbom")) ∷ [];
        by_type = (codes "sbom", codes "d2" ∷ []) ∷ [];
      })
      refl
