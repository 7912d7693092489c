-- ===== src/Storage/Routing.antt =====
-- crates/roci-storage/src/routing.rs: `Routed`. A backend is any type; its `mount_blob` is a parameter,
-- as are the bodies of the other methods, each of which asks `backend_for` and calls that backend.
pub mod Longest
pub mod Prefix
mod Tests
use roci.Base.{Bool, List, Option, [], false, none, not, some, suc, true, ℕ, ◌&&◌, ◌||◌, ◌∷◌}
use roci.Base.Eq.{Text, nat_eq, text_eq, ◌==◌}
use roci.Base.Lists.{get_elem?, length}
use roci.Base.Result.{Result, ok}
use roci.Base.Tests.{if◌then◌else◌, is_some_and, leb, ltb, nat_beq}
use roci.Base.Text.{starts_with}

-- The byte test of `matches_prefix`, in its three parts.
unfoldable pub matches_prefix : Text → Text → Bool
matches_prefix repo prefix =
    repo == prefix
    || (ltb (length prefix) (length repo)
        && is_some_and (get_elem? repo (length prefix)) (λ c. nat_beq c b'/')
        && starts_with prefix repo)

module _ {B : Type 0} where
  -- Before the first entry whose prefix is not longer: the sort is stable.
  unfoldable pub insert_route : Text × B → List (Text × B) → List (Text × B)
  insert_route r [] = r ∷ []
  insert_route r (s ∷ routes) =
      let rest = insert_route r routes in
      if leb (length s.0) (length r.0) then r ∷ s ∷ routes else s ∷ rest

  unfoldable pub sort_routes : List (Text × B) → List (Text × B)
  sort_routes [] = []
  sort_routes (r ∷ routes) = insert_route r (sort_routes routes)

  -- The loops of `backend_for` and `route_index`.
  unfoldable pub first_match : Text → List (Text × B) → Option (Text × B)
  first_match repo [] = none
  first_match repo (r ∷ routes) =
      let rest = first_match repo routes in if matches_prefix repo r.0 then some r else rest

  unfoldable pub index_from : Text → ℕ → List (Text × B) → Option ℕ
  index_from repo i [] = none
  index_from repo i (r ∷ routes) =
      let rest = index_from repo (suc i) routes in if matches_prefix repo r.0 then some i else rest

abbrev pub index_beq : Option ℕ → Option ℕ → Bool
index_beq none none = true
index_beq none (some j) = false
index_beq (some i) none = false
index_beq (some i) (some j) = nat_beq i j

pub record Routed (B : Type 0) : Type 0 where
  pub default : B
  pub routes : List (Text × B)

module _ {B : Type 0} where
  unfoldable pub new_routed : B → List (Text × B) → Routed B
  new_routed default routes = record { default = default; routes = sort_routes routes }

  abbrev pub backend_or : B → Option (Text × B) → B
  backend_or default none = default
  backend_or default (some r) = r.1

  unfoldable pub backend_for : Routed B → Text → B
  backend_for self repo = backend_or self.default (first_match repo self.routes)

  unfoldable pub route_index : Routed B → Text → Option ℕ
  route_index self repo = index_from repo 0 self.routes

  unfoldable pub same_backend : Routed B → Text → Text → Bool
  same_backend self from_repo to_repo =
      index_beq (route_index self from_repo) (route_index self to_repo)

  unfoldable pub mount_blob :
      {E D : Type 0}
      → (B → Text → Text → D → Result E Bool)
      → Routed B
      → Text
      → Text
      → D
      → Result E Bool
  mount_blob mount self from_repo to_repo digest =
      if not (same_backend self from_repo to_repo)
      then ok false
      else mount (backend_for self to_repo) from_repo to_repo digest
