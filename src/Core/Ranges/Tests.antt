-- ===== src/Core/Ranges/Tests.antt =====
-- crates/roci-core/src/http_util.rs: ranges of ten bytes.
use roci.Base.{refl, some, true, ◌≡◌}
use roci.Base.Eq.{codes, text_beq}
use roci.Base.Text.{split, split_once, strip_prefix}
use roci.Core.Ranges.{
  check_range, closed_range, if_none_match_hit, parse_byte_range, parse_digits, parse_u64, partial,
  range_ends, spec_range, suffix_range, tag_matches, trim, trim_end, trim_quotes, trim_quotes_end,
  trim_start, wrapping_pred,
}
use roci.Core.Ranges.Within.{IsInside, parse_byte_range-IsInside}

middle : parse_byte_range (some (codes "bytes=2-5")) 10 ≡ partial 2 5
unfolding parse_byte_range spec_range split_once trim trim_start trim_end range_ends closed_range
    parse_u64 parse_digits check_range strip_prefix
middle = refl

suffix : parse_byte_range (some (codes "bytes=-3")) 10 ≡ partial 7 9
unfolding parse_byte_range spec_range split_once trim trim_start trim_end range_ends suffix_range
    wrapping_pred parse_u64 parse_digits check_range strip_prefix
suffix = refl

parse_byte_range-IsInside_example : IsInside 10 (parse_byte_range (some (codes "bytes=2-5")) 10)
parse_byte_range-IsInside_example = parse_byte_range-IsInside (some (codes "bytes=2-5")) 10

weak_tag : if_none_match_hit (some (codes "x, W/sha256:ab")) (codes "sha256:ab") ≡ true
unfolding if_none_match_hit tag_matches split trim trim_start trim_end trim_quotes trim_quotes_end
    strip_prefix text_beq
weak_tag = refl
