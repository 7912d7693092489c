-- ===== src/Config.antt =====
-- crates/roci-config/src/lib.rs: the checks of a repository prefix and of a repository pattern. A text
-- is its bytes; the closure `alnum` is the test `is_lower_alnum` of crates/roci-core/src/names.rs.
pub mod Prefix
mod Tests
use roci.Base.{Bool, [], false, not, suc, true, zero, ℕ, ◌&&◌, ◌||◌, ◌∷◌}
use roci.Base.Eq.{Text, codes, nat_eq, text_eq, ◌==◌}
use roci.Base.Lists.{all, is_empty, length}
use roci.Base.Tests.{if◌then◌else◌, leb, nat_beq}
use roci.Base.Text.{split}
use roci.Core.Names.{first_is_alnum, is_lower_alnum, last_is_alnum}

-- `start..i` of the inner loop, and what follows it.
unfoldable pub non_alnum_run : Text → Text × Text
non_alnum_run [] = ([], [])
non_alnum_run (b ∷ s) =
    let rest = non_alnum_run s in if is_lower_alnum b then ([], b ∷ s) else (b ∷ rest.0, rest.1)

unfoldable pub is_sep : Text → Bool
is_sep sep =
    sep == codes "." || sep == codes "_" || sep == codes "__" || all (λ x. nat_beq x b'-') sep

-- The `while` loop over the bytes from `i` on. Each round takes a byte, so one round for each byte is
-- fuel enough; without fuel the model refuses.
unfoldable pub scan_prefix : ℕ → Text → Bool
scan_prefix f [] = true
scan_prefix zero (b ∷ s) = false
scan_prefix (suc f) (b ∷ s) =
    let after_byte = scan_prefix f s in
    let (sep, rest) = non_alnum_run (b ∷ s) in
    let after_run = scan_prefix f rest in
    if is_lower_alnum b then after_byte else if not (is_sep sep) then false else after_run

unfoldable pub is_prefix_component : Text → Bool
is_prefix_component c =
    if is_empty c || not (first_is_alnum c) || not (last_is_alnum c)
    then false
    else scan_prefix (length c) c

unfoldable pub is_repo_prefix : Text → Bool
is_repo_prefix s = leb (length s) 255 && all is_prefix_component (split b'/' s)
