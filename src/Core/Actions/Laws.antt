-- ===== src/Core/Actions/Laws.antt =====
-- crates/roci-core/src/auth/mod.rs: the byte is a set.
use roci.Base.{
  Bool, List, [], arith, false, not, refl, suc, true, zero, ℕ, ◌&&◌, ◌<◌, ◌||◌, ◌∷◌, ◌≡◌,
}
use roci.Base.Tests.{ltb}
use roci.Core.Actions.{
  Action, ActionSet, all_actions, delete_action, fold_actions, from_actions, holds, no_actions, of,
  pull, push, union,
}

abbrev pub action_beq : Action → Action → Bool
action_beq pull pull = true
action_beq push push = true
action_beq delete_action delete_action = true
action_beq _ _ = false

-- The test at every set below the bound.
all_sets : (bound : ℕ) → (ActionSet → Bool) → Bool
all_sets zero test = true
all_sets (suc bound) test = all_sets bound test && test bound

test_of-all_sets :
    (test : ActionSet → Bool) (bound : ℕ) (s : ActionSet)
    → s < bound
    → all_sets bound test ≡ true
    → test s ≡ true
unfolding all_sets
test_of-all_sets test zero s small h = absurd (omega arith)
test_of-all_sets test (suc bound) s small h = ground (arith, test_of-all_sets test bound s)

abbrev bool_beq : Bool → Bool → Bool
bool_beq true b = b
bool_beq false b = not b

union_agrees : Action → ℕ → ℕ → Bool
unfolding holds union of
union_agrees a s t = bool_beq (holds (union s t) a) (holds s a || holds t a) && ltb (union s t) 8

union_table : (a : Action) → all_sets 8 (λ s. all_sets 8 (union_agrees a s)) ≡ true
unfolding all_sets union_agrees
union_table pull = refl
union_table push = refl
union_table delete_action = refl

-- A union holds what either part holds, and is a set of the three actions again.
pub union_lem :
    (a : Action) (s t : ActionSet)
    → s < 8
    → t < 8
    → (holds (union s t) a ≡ (holds s a || holds t a)) × (union s t < 8)
unfolding union_agrees
union_lem a s t hs ht =
    let row : all_sets 8 (union_agrees a s) ≡ true =
      test_of-all_sets (λ u. all_sets 8 (union_agrees a u)) 8 s hs (union_table a) in
    let cell : union_agrees a s t ≡ true = test_of-all_sets (union_agrees a s) 8 t ht row in
    (ground arith, ground arith)

pub of-lt : (a : Action) → of a < 8
unfolding of
of-lt pull = omega arith
of-lt push = omega arith
of-lt delete_action = omega arith

pub holds-of : (a b : Action) → holds (of a) b ≡ action_beq a b
unfolding holds of
holds-of pull pull = refl
holds-of pull push = refl
holds-of pull delete_action = refl
holds-of push pull = refl
holds-of push push = refl
holds-of push delete_action = refl
holds-of delete_action pull = refl
holds-of delete_action push = refl
holds-of delete_action delete_action = refl

abbrev pub listed : Action → List Action → Bool
listed a [] = false
listed a (b ∷ actions) = action_beq b a || listed a actions

fold_actions_lem :
    (a : Action) (s : ActionSet) (actions : List Action)
    → s < 8
    → (holds (fold_actions s actions) a ≡ (holds s a || listed a actions))
      × (fold_actions s actions < 8)
unfolding fold_actions
fold_actions_lem a s [] h = (ground arith, h)
fold_actions_lem a s (b ∷ actions) h =
    let (or_holds, small) = union_lem a s (of b) h (of-lt b) in
    let (ih, ih_small) = fold_actions_lem a (union s (of b)) actions small in
    (ground (arith, holds-of b a), ih_small)

pub holds_none : (a : Action) → holds no_actions a ≡ false
unfolding holds of
holds_none pull = refl
holds_none push = refl
holds_none delete_action = refl

pub holds_all : (a : Action) → holds all_actions a ≡ true
unfolding holds of
holds_all pull = refl
holds_all push = refl
holds_all delete_action = refl

-- The set built from a list holds exactly the listed actions, and is a set of the three.
pub holds-from_actions :
    (a : Action) (actions : List Action)
    → (holds (from_actions actions) a ≡ listed a actions) × (from_actions actions < 8)
unfolding from_actions
holds-from_actions a actions =
    let (ih, small) = fold_actions_lem a no_actions actions (omega arith) in
    (ground (arith, holds_none a), small)
