-- ===== src/Core/Names.antt =====
-- crates/roci-core/src/names.rs: the check of a repository name. A name is its bytes; the error is
-- always `NAME_INVALID`.
pub mod Grammar
pub mod Decides
mod Tests
use roci.Base.{Bool, List, [], false, not, suc, zero, ℕ, ◌&&◌, ◌||◌, ◌∷◌}
use roci.Base.Eq.{Text, codes, nat_eq, text_eq, ◌==◌}
use roci.Base.Lists.{all, is_empty, length}
use roci.Base.Result.{Result, err, ok, ◌>>=◌, ◌>>◌}
use roci.Base.Tests.{if◌then◌else◌, ltb, nat_beq}
use roci.Base.Text.{is_digit, is_lower, split}
use roci.Core.Error.{ApiError, name_invalid, spec}
use roci.Storage.Quota.Bytes.{run}

abbrev pub max_name : ℕ
max_name = 255

unfoldable pub is_lower_alnum : ℕ → Bool
is_lower_alnum b = is_lower b || is_digit b

unfoldable pub is_separator : ℕ → Bool
is_separator b = nat_beq b b'.' || nat_beq b b'_' || nat_beq b b'-'

unfoldable pub valid_separator_run : Text → Bool
valid_separator_run (a ∷ []) =
    nat_beq a b'.' || nat_beq a b'_' || all (λ b. nat_beq b b'-') (a ∷ [])
valid_separator_run (a ∷ b ∷ []) =
    (nat_beq a b'_' && nat_beq b b'_') || all (λ c. nat_beq c b'-') (a ∷ b ∷ [])
valid_separator_run run = all (λ b. nat_beq b b'-') run

-- The inner loop: the separators at the front, and what follows them.
unfoldable pub separator_run : Text → Text × Text
separator_run [] = ([], [])
separator_run (b ∷ s) =
    let rest = separator_run s in if is_separator b then (b ∷ rest.0, rest.1) else ([], b ∷ s)

abbrev pub first_is_alnum : Text → Bool
first_is_alnum [] = false
first_is_alnum (b ∷ s) = is_lower_alnum b

abbrev pub last_is_alnum : Text → Bool
last_is_alnum [] = false
last_is_alnum (b ∷ []) = is_lower_alnum b
last_is_alnum (b ∷ c ∷ s) = last_is_alnum (c ∷ s)

-- The `while` loop over the bytes from `i` on. The run of separators at a byte that is neither is
-- empty, and the test after it refuses the byte. Each round takes a byte or ends, so one round for
-- each byte is fuel enough; without fuel the model refuses.
unfoldable pub scan : ℕ → Text → Result ApiError (Unit {0})
scan f [] = ok tt
scan zero (b ∷ s) = err (spec name_invalid)
scan (suc f) (b ∷ s) =
    let after_byte = scan f s in
    let (run, rest) = separator_run (b ∷ s) in
    let after_run = scan f rest in
    if is_lower_alnum b
    then after_byte
    else if not (valid_separator_run run)
    then err (spec name_invalid)
    else if not (first_is_alnum rest)
    then err (spec name_invalid)
    else after_run

unfoldable pub validate_name_component : Text → Result ApiError (Unit {0})
validate_name_component c =
    if is_empty c || c == codes "." || c == codes ".."
    then err (spec name_invalid)
    else if not (first_is_alnum c) || not (last_is_alnum c)
    then err (spec name_invalid)
    else scan (length c) c

-- The `for` loop over the components.
unfoldable pub validate_components : List Text → Result ApiError (Unit {0})
validate_components [] = ok tt
validate_components (c ∷ cs) = do validate_name_component c; validate_components cs

-- `RepositoryName::parse`
unfoldable pub parse : Text → Result ApiError Text
parse s =
    if is_empty s || ltb max_name (length s)
    then err (spec name_invalid)
    else do validate_components (split b'/' s); ok s
