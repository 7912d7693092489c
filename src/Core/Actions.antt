-- ===== src/Core/Actions.antt =====
-- crates/roci-config/src/lib.rs, `Action`; crates/roci-core/src/auth/mod.rs, `ActionSet`: a set of
-- actions as the bits of one byte.
pub mod Laws
use Prim.Native.Nat.{bit_and, bit_or}
use roci.Base.{Bool, List, [], not, ℕ, ◌∷◌}
use roci.Base.Tests.{nat_beq}

pub data Action : Type 0 where
  pull push delete_action : Action

abbrev pub ActionSet : Type 0
ActionSet = ℕ

abbrev pub no_actions : ActionSet
no_actions = 0

abbrev pub all_actions : ActionSet
all_actions = 7

unfoldable pub of : Action → ActionSet
of pull = 1
of push = 2
of delete_action = 4

unfoldable pub union : ActionSet → ActionSet → ActionSet
union s t = bit_or s t

-- The `fold` of `from_actions`.
unfoldable pub fold_actions : ActionSet → List Action → ActionSet
fold_actions s [] = s
fold_actions s (a ∷ actions) = fold_actions (union s (of a)) actions

unfoldable pub from_actions : List Action → ActionSet
from_actions actions = fold_actions no_actions actions

unfoldable pub holds : ActionSet → Action → Bool
holds s a = not (nat_beq (bit_and s (of a)) 0)
