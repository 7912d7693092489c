-- ===== src/Core/Routes/Tests.antt =====
-- Paths parsed.
use roci.Core.Names
use roci.Storage.Digest
use roci.Base.{arith, refl, ◌++◌, ◌∷◌, ◌≡◌}
use roci.Base.Eq.{Text, codes, text_beq, text_eq}
use roci.Base.Result.{err, ok}
use roci.Base.Text.{join, split, split_once}
use roci.Core.Error.{name_invalid, spec}
use roci.Core.Names.{
  is_lower_alnum, is_separator, scan, separator_run, valid_separator_run, validate_components,
  validate_name_component,
}
use roci.Core.Names.Decides.{IsName, parse_iff}
use roci.Core.Routes.{
  checked_repo, manifest_ref, parse_digest, parse_path, parse_segments, parse_verb, referrers,
  tags_list, unknown,
}
use roci.Core.Routes.Paths.{parse_path-manifest_ref, parse_path-referrers, parse_path-tags_list}
use roci.Core.Routes.Safety.{parse_path-IsChecked}
use roci.Storage.Digest.{Digest, as_string, is_hex_digit, ok_len, sha256}
use roci.Storage.Digest.Laws.{IsCanonical}

abbrev hex : Text
hex = codes "0000000000000000000000000000000000000000000000000000000000000000"

abbrev zero_digest : Digest
zero_digest = record { algorithm = sha256; hex = hex }

zero_digest-IsCanonical : IsCanonical zero_digest
unfolding ok_len text_beq
zero_digest-IsCanonical = record { length_fits = refl; all_hex = refl }

program : Unit {0}
unfolding Names.parse validate_components validate_name_component scan separator_run
    valid_separator_run is_separator is_lower_alnum text_beq split join parse_path parse_segments
    parse_verb checked_repo parse_digest Digest.parse split_once ok_len is_hex_digit
program = tt

abbrev repo : Text
repo = codes "team/app"

repo-IsName : IsName repo
unfolding program
repo-IsName = ((parse_iff repo repo).0 refl).1

tags : parse_path (codes "team/app/tags/list") ≡ ok (tags_list repo)
unfolding program
tags = refl

no_verb : parse_path (codes "team") ≡ ok unknown
unfolding program
no_verb = refl

traversal : parse_path (codes "../etc/blobs/uploads/") ≡ err (spec name_invalid)
unfolding program
traversal = refl

parse_path-manifest_ref_example :
    parse_path (repo ++ b'/' ∷ codes "manifests" ++ b'/' ∷ codes "v1")
    ≡ ok (manifest_ref repo (codes "v1"))
parse_path-manifest_ref_example =
    parse_path-manifest_ref repo (codes "v1") repo-IsName (omega arith)

parse_path-tags_list_example :
    parse_path (repo ++ b'/' ∷ codes "tags" ++ b'/' ∷ codes "list") ≡ ok (tags_list repo)
parse_path-tags_list_example = parse_path-tags_list repo repo-IsName

parse_path-referrers_example :
    parse_path (repo ++ b'/' ∷ codes "referrers" ++ b'/' ∷ as_string zero_digest)
    ≡ ok (referrers repo zero_digest)
parse_path-referrers_example =
    parse_path-referrers repo zero_digest repo-IsName zero_digest-IsCanonical

parse_path-IsChecked_example : IsName repo
unfolding program
parse_path-IsChecked_example =
    parse_path-IsChecked (codes "team/app/tags/list") (tags_list repo) refl
