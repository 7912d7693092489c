-- ===== src/Core/Ranges.antt =====
-- crates/roci-core/src/http_util.rs: the `Range` header. An argument stands for the header's text, if
-- there is one in ASCII, so that white space is a space or a tab.
pub mod Within
mod Tests
use roci.Base.{Bool, Option, [], false, min, none, some, ℕ, ◌&&◌, ◌*◌, ◌+◌, ◌-◌, ◌||◌, ◌∷◌}
use roci.Base.Eq.{Text, codes, nat_eq, text_eq, ◌==◌}
use roci.Base.Lists.{any, contains, is_empty}
use roci.Base.Result.{Result, err, ok}
use roci.Base.Tests.{if◌then◌else◌, leb, ltb, nat_beq, unwrap_or}
use roci.Base.Text.{is_digit, split, split_once, strip_prefix}
use roci.Base.Word.{u64_max}

pub data RangeOutcome : Type 0 where
  full unsatisfiable : RangeOutcome
  partial : (first_byte last_byte : ℕ) → RangeOutcome

abbrev is_space : ℕ → Bool
is_space b = nat_beq b 32 || nat_beq b 9

unfoldable pub trim_start : Text → Text
trim_start [] = []
trim_start (b ∷ s) = let rest = trim_start s in if is_space b then rest else b ∷ s

unfoldable pub trim_end : Text → Text
trim_end [] = []
trim_end (b ∷ s) = let rest = trim_end s in if is_empty rest && is_space b then [] else b ∷ rest

unfoldable pub trim : Text → Text
trim s = trim_end (trim_start s)

-- The digits of a number, after those that give `n`.
unfoldable pub parse_digits : ℕ → Text → Option ℕ
parse_digits n [] = some n
parse_digits n (b ∷ s) =
    let rest = parse_digits (n * 10 + (b - b'0')) s in
    if is_digit b && leb (n * 10 + (b - b'0')) u64_max then rest else none

-- `s.parse::<u64>()`
unfoldable pub parse_u64 : Text → Option ℕ
parse_u64 [] = none
parse_u64 (b ∷ s) =
    if nat_beq b b'+'
    then (if is_empty s then none else parse_digits 0 s)
    else parse_digits 0 (b ∷ s)

-- `size - 1`, which wraps where overflow is not checked.
unfoldable pub wrapping_pred : ℕ → ℕ
wrapping_pred size = if nat_beq size 0 then u64_max else size - 1

unfoldable pub suffix_range : Option ℕ → ℕ → Result RangeOutcome (ℕ × ℕ)
suffix_range none size = err full
suffix_range (some n) size =
    if nat_beq n 0 then err unsatisfiable else ok (size - n, wrapping_pred size)

unfoldable pub open_range : Option ℕ → ℕ → Result RangeOutcome (ℕ × ℕ)
open_range none size = err full
open_range (some start) size = ok (start, size - 1)

unfoldable pub closed_range : Option ℕ → Option ℕ → ℕ → Result RangeOutcome (ℕ × ℕ)
closed_range (some start) (some last) size =
    if ltb last start then err full else ok (start, min last (size - 1))
closed_range _ _ size = err full

-- The `match` on the two trimmed ends.
unfoldable pub range_ends : Text → Text → ℕ → Result RangeOutcome (ℕ × ℕ)
range_ends [] suffix size = suffix_range (parse_u64 suffix) size
range_ends (b ∷ s) [] size = open_range (parse_u64 (b ∷ s)) size
range_ends (b ∷ s) (c ∷ t) size = closed_range (parse_u64 (b ∷ s)) (parse_u64 (c ∷ t)) size

unfoldable pub check_range : ℕ → Result RangeOutcome (ℕ × ℕ) → RangeOutcome
check_range size (err outcome) = outcome
check_range size (ok (start, last)) =
    if nat_beq size 0 || leb size start then unsatisfiable else partial start last

unfoldable pub spec_range : Text → ℕ → RangeOutcome
spec_range spec_text size =
    if contains spec_text b',' then full else (elim (split_once b'-' spec_text) [
      | none ↦ full
      | some (start_s, end_s) ↦ check_range size (range_ends (trim start_s) (trim end_s) size)
    ])

unfoldable pub parse_byte_range : Option Text → ℕ → RangeOutcome
parse_byte_range none size = full
parse_byte_range (some raw) size = elim (strip_prefix (codes "bytes=") raw) [
  | none ↦ full
  | some spec_text ↦ spec_range spec_text size
]

unfoldable pub trim_quotes : Text → Text
trim_quotes [] = []
trim_quotes (b ∷ s) = let rest = trim_quotes s in if nat_beq b b'"' then rest else b ∷ s

unfoldable pub trim_quotes_end : Text → Text
trim_quotes_end [] = []
trim_quotes_end (b ∷ s) =
    let rest = trim_quotes_end s in if is_empty rest && nat_beq b b'"' then [] else b ∷ rest

-- One tag of `If-None-Match`.
unfoldable pub tag_matches : Text → Text → Bool
tag_matches digest tag =
    let trimmed = trim tag in
    trimmed == codes "*"
    || trim_quotes_end (trim_quotes (unwrap_or (strip_prefix (codes "W/") trimmed) trimmed))
      == digest

unfoldable pub if_none_match_hit : Option Text → Text → Bool
if_none_match_hit none digest = false
if_none_match_hit (some inm) digest = any (tag_matches digest) (split b',' inm)
