-- ===== src/Core/Ranges/Within.antt =====
-- crates/roci-core/src/http_util.rs: a partial answer stays inside the content.
use roci.Base.{Option, [], arith, inl, inr, none, some, ℕ, ◌<◌, ◌||◌, ◌∷◌, ◌≤◌}
use roci.Base.Eq.{Text, codes, nat_eq, text_eq}
use roci.Base.Lists.{contains}
use roci.Base.Result.{Result, err, ok}
use roci.Base.Tests.{Bool-cases, Option-cases, leb, ltb, nat_beq}
use roci.Base.Text.{split_once, strip_prefix}
use roci.Core.Ranges.{
  RangeOutcome, check_range, closed_range, full, open_range, parse_byte_range, parse_u64, partial,
  range_ends, spec_range, suffix_range, trim, unsatisfiable, wrapping_pred,
}

-- A range of the content, in order.
abbrev pub IsInside : ℕ → RangeOutcome → Type 0
IsInside size full = Unit {0}
IsInside size unsatisfiable = Unit {0}
IsInside size (partial start last) = (start ≤ last) × (last < size)

-- The ends are in order and the last one is in the content, if the first one is; an early answer is
-- not partial.
AreEnds : ℕ → Result RangeOutcome (ℕ × ℕ) → Type 0
AreEnds size (ok (start, last)) = start < size → (start ≤ last) × (last < size)
AreEnds size (err (partial start last)) = ⊥
AreEnds size (err outcome) = Unit {0}

suffix_range-AreEnds : (o : Option ℕ) (size : ℕ) → AreEnds size (suffix_range o size)
unfolding suffix_range AreEnds wrapping_pred
suffix_range-AreEnds none size = tt
suffix_range-AreEnds (some n) size = elim (Bool-cases (nat_beq n 0)) [
  | inl nothing ↦ rw nothing tt
  | inr something ↦ rw something (λ small. (ground arith, ground arith))
]

open_range-AreEnds : (o : Option ℕ) (size : ℕ) → AreEnds size (open_range o size)
unfolding open_range AreEnds
open_range-AreEnds none size = tt
open_range-AreEnds (some start) size = λ small. (omega arith, omega arith)

closed_range-AreEnds : (o p : Option ℕ) (size : ℕ) → AreEnds size (closed_range o p size)
unfolding closed_range AreEnds
closed_range-AreEnds none p size = tt
closed_range-AreEnds (some start) none size = tt
closed_range-AreEnds (some start) (some last) size = elim (Bool-cases (ltb last start)) [
  | inl backwards ↦ rw backwards tt
  | inr forwards ↦ rw forwards (λ small. (ground arith, ground arith))
]

range_ends-AreEnds : (s t : Text) (size : ℕ) → AreEnds size (range_ends s t size)
unfolding range_ends
range_ends-AreEnds [] t size = suffix_range-AreEnds (parse_u64 t) size
range_ends-AreEnds (b ∷ s) [] size = open_range-AreEnds (parse_u64 (b ∷ s)) size
range_ends-AreEnds (b ∷ s) (c ∷ t) size =
    closed_range-AreEnds (parse_u64 (b ∷ s)) (parse_u64 (c ∷ t)) size

check_range-IsInside :
    (size : ℕ) (r : Result RangeOutcome (ℕ × ℕ))
    → AreEnds size r
    → IsInside size (check_range size r)
unfolding check_range AreEnds
check_range-IsInside size (err full) h = tt
check_range-IsInside size (err unsatisfiable) h = tt
check_range-IsInside size (err (partial start last)) h = absurd h
check_range-IsInside size (ok (start, last)) h =
    elim (Bool-cases (nat_beq size 0 || leb size start)) [
      | inl outside ↦ rw outside tt
      | inr inside ↦ let small : start < size = ground arith in rw inside (h small)
    ]

spec_range-IsInside : (s : Text) (size : ℕ) → IsInside size (spec_range s size)
unfolding spec_range
spec_range-IsInside s size = elim (Bool-cases (contains ⦃e = nat_eq⦄ s b',')) [
  | inl several ↦ rw several tt
  | inr single ↦ elim (Option-cases (split_once b'-' s)) [
    | inl no_dash ↦ rw (single, no_dash, spec_range) tt
    | inr ((a, b), found) ↦
        rw (single, found, spec_range)
          (check_range-IsInside size (range_ends (trim a) (trim b) size)
            (range_ends-AreEnds (trim a) (trim b) size))
  ]
]

-- Whatever the `Range` header says, a partial answer is a range of the content: its first byte is not
-- after its last, and the last lies before the end of the content.
pub parse_byte_range-IsInside :
    (raw : Option Text) (size : ℕ) → IsInside size (parse_byte_range raw size)
unfolding parse_byte_range
parse_byte_range-IsInside none size = tt
parse_byte_range-IsInside (some raw) size =
    elim (Option-cases (strip_prefix (codes "bytes=") raw)) [
      | inl other ↦ rw (other, parse_byte_range) tt
      | inr (spec_text, found) ↦ rw (found, parse_byte_range) (spec_range-IsInside spec_text size)
    ]
