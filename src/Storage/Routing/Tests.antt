-- ===== src/Storage/Routing/Tests.antt =====
-- Runs of the routing table; a backend is a number.
use roci.Base.{Bool, List, [], false, not, refl, true, ℕ, ◌++◌, ◌↔◌, ◌∷◌, ◌≡◌, ◌⊎◌}
use roci.Base.Eq.{Text, codes, text_beq, text_eq}
use roci.Base.Lists.{all}
use roci.Base.Result.{Result, ok}
use roci.Base.Text.{strip_prefix}
use roci.Storage.Routing.{
  backend_for, first_match, index_from, insert_route, matches_prefix, mount_blob, new_routed,
  route_index, same_backend, sort_routes,
}
use roci.Storage.Routing.Longest.{Among, backend_for-new_routed, is_longest}
use roci.Storage.Routing.Prefix.{matches_prefix_iff}

abbrev table : List (Text × ℕ)
table = (codes "team", 1) ∷ (codes "team/app", 2) ∷ (codes "other", 3) ∷ []

longest_wins : backend_for (new_routed 0 table) (codes "team/app/web") ≡ 2
unfolding backend_for new_routed sort_routes insert_route first_match matches_prefix text_beq
    strip_prefix
longest_wins = refl

half_a_component : backend_for (new_routed 0 table) (codes "teams") ≡ 0
unfolding backend_for new_routed sort_routes insert_route first_match matches_prefix text_beq
    strip_prefix
half_a_component = refl

abbrev mounted : Result ℕ Bool
mounted =
    mount_blob (λ b from_repo to_repo digest. ok true) (new_routed 0 table) (codes "team")
      (codes "other") (codes "d")

other_backend : mounted ≡ ok false
unfolding mount_blob same_backend route_index index_from new_routed sort_routes insert_route
    matches_prefix text_beq strip_prefix
other_backend = refl

matches_prefix_iff_example : (matches_prefix (codes "team/app") (codes "team") ≡ true) ↔ (
    (codes "team/app" ≡ codes "team")
    ⊎ ((rest : Text) × (codes "team/app" ≡ codes "team" ++ b'/' ∷ rest)))
matches_prefix_iff_example = matches_prefix_iff (codes "team/app") (codes "team")

backend_for-new_routed_example :
    ((r : Text × ℕ) × Among r table
      × (matches_prefix (codes "team/app/web") r.0 ≡ true)
      × (is_longest (codes "team/app/web") r.0 table ≡ true)
      × (backend_for (new_routed 0 table) (codes "team/app/web") ≡ r.1))
    ⊎ ((all (λ r. not (matches_prefix (codes "team/app/web") r.0)) table ≡ true)
        × (backend_for (new_routed 0 table) (codes "team/app/web") ≡ 0))
backend_for-new_routed_example = backend_for-new_routed 0 table (codes "team/app/web")
