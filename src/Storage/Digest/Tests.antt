-- ===== src/Storage/Digest/Tests.antt =====
-- Digests parsed and printed.
use roci.Base.{false, refl, true, ◌↔◌, ◌≡◌}
use roci.Base.Bits.{diff_bytes}
use roci.Base.Eq.{Text, codes, text_beq, text_eq}
use roci.Base.Result.{err, ok}
use roci.Base.Text.{IsFree, split_once}
use roci.Storage.Digest.{Digest, as_string, ct_eq, is_hex_digit, ok_len, parse, sha256}
use roci.Storage.Digest.Laws.{
  IsCanonical, as_string-IsFree, ct_eq_iff, parse-IsCanonical, parse-as_string,
}
use roci.Storage.Error.{bad_digest}

abbrev zeros : Text
zeros = codes "0000000000000000000000000000000000000000000000000000000000000000"

abbrev upper : Text
upper = codes "sha256:ABCDEF0000000000000000000000000000000000000000000000000000000000"

abbrev lowered : Digest
lowered = record {
  algorithm = sha256;
  hex = codes "abcdef0000000000000000000000000000000000000000000000000000000000";
}

parse_lowers : parse upper ≡ ok lowered
unfolding parse split_once ok_len is_hex_digit text_beq
parse_lowers = refl

parse_rejects : parse (codes "md5:00") ≡ err (bad_digest (codes "md5:00"))
unfolding parse split_once ok_len is_hex_digit text_beq
parse_rejects = refl

lowered-IsCanonical : IsCanonical lowered
lowered-IsCanonical = parse-IsCanonical upper lowered parse_lowers

parse-IsCanonical_example : IsCanonical lowered
parse-IsCanonical_example = parse-IsCanonical upper lowered parse_lowers

parse-as_string_example : parse (as_string lowered) ≡ ok lowered
parse-as_string_example = parse-as_string lowered lowered-IsCanonical

as_string-IsFree_example : IsFree b'/' (as_string lowered)
as_string-IsFree_example = as_string-IsFree lowered lowered-IsCanonical

ct_eq_differs : ct_eq lowered (record lowered { hex = zeros }) ≡ false
unfolding ct_eq diff_bytes text_beq
ct_eq_differs = refl

ct_eq_iff_example : (ct_eq lowered lowered ≡ true) ↔ (lowered ≡ lowered)
ct_eq_iff_example = ct_eq_iff lowered lowered
