-- ===== src/Core/Glob.antt =====
-- crates/roci-core/src/auth/policy.rs: the repository patterns of the access policy. A pattern and a
-- name are their bytes.
pub mod Matching
mod Tests
use roci.Base.{Bool, List, [], false, not, true, ℕ, ◌&&◌, ◌++◌, ◌||◌, ◌∷◌}
use roci.Base.Eq.{Text, codes, nat_eq, text_eq, ◌==◌}
use roci.Base.Lists.{is_empty}
use roci.Base.Tests.{if◌then◌else◌, nat_beq}
use roci.Base.Text.{split}

pub data Tok : Type 0 where
  lit : ℕ → Tok
  star any_tail any_dirs : Tok

-- The tokens of a component that is not `**`.
unfoldable pub component_toks : Text → List Tok
component_toks [] = []
component_toks (b ∷ s) = (if nat_beq b b'*' then star else lit b) ∷ component_toks s

-- The loop over the components: `first` is `i == 0`.
unfoldable pub tokenize_from : (first after_dirs : Bool) → List Text → List Tok
tokenize_from first after_dirs [] = []
tokenize_from first after_dirs (comp ∷ comps) =
    let slash = if not first && not after_dirs then lit b'/' ∷ [] else [] in
    let plain = component_toks comp ++ tokenize_from false false comps in
    let dirs = any_dirs ∷ tokenize_from false true comps in
    slash
    ++ (if comp == codes "**" then (if is_empty comps then any_tail ∷ [] else dirs) else plain)

unfoldable pub tokenize : Text → List Tok
tokenize pattern = tokenize_from true false (split b'/' pattern)

abbrev pub front : List Bool → Bool
front [] = false
front (x ∷ xs) = x

-- `cur[n]`: is the empty rest matched?
unfoldable pub last_cell : Tok → Bool → Bool
last_cell (lit c) x = false
last_cell _ x = x

-- `cur[j]`, from `name[j]`, `next[j]`, `next[j + 1]` and `cur[j + 1]`; `dirs` is the flag as it stands
-- after this round.
unfoldable pub cell : Tok → ℕ → (here below right dirs : Bool) → Bool
cell (lit c) b here below right dirs = nat_beq b c && below
cell star b here below right dirs = here || (not (nat_beq b b'/') && right)
cell any_tail b here below right dirs = here || right
cell any_dirs b here below right dirs = here || dirs

-- One round of the outer loop, from the right end: the row `cur` over `next`, and the flag `dirs`.
unfoldable pub next_row : Tok → Text → List Bool → List Bool × Bool
next_row tok [] next = (last_cell tok (front next) ∷ [], false)
next_row tok (b ∷ s) [] = ([], false)
next_row tok (b ∷ s) (here ∷ next) =
    let (right, seen) = next_row tok s next in
    let dirs = seen || (nat_beq b b'/' && front next) in
    (cell tok b here (front next) (front right) dirs ∷ right, dirs)

-- The first row: only the empty rest is matched by no tokens.
unfoldable pub first_row : Text → List Bool
first_row [] = true ∷ []
first_row (b ∷ s) = false ∷ first_row s

-- The outer loop, over the tokens from the last.
unfoldable pub rows : List Tok → Text → List Bool
rows [] name = first_row name
rows (tok ∷ toks) name = (next_row tok name (rows toks name)).0

unfoldable pub glob_match : List Tok → Text → Bool
glob_match toks name = front (rows toks name)
