-- ===== src/Storage/Dedupe/Tests.antt =====
-- crates/roci-storage/src/dedupe.rs: a blob that two repositories hold.
use Prim.Native.String.{String}
use roci.Base.{List, [], refl, some, true, ◌∷◌, ◌≡◌, ◌≢◌}
use roci.Base.Eq.{Pair, codes, pair_eq, text_beq}
use roci.Base.Lists.{contains}
use roci.Base.Map.{get, insert}
use roci.Storage.Dedupe.{insert_location, locate, new_index, remove_location}
use roci.Storage.Dedupe.Located.{
  BlobEvent, entered, index_after, left_repo, locate-run_index, run_held, run_index,
}

abbrev test_events : List BlobEvent
test_events =
    entered (codes "a") (codes "d")
    ∷ entered (codes "b") (codes "d")
    ∷ left_repo (codes "b") (codes "d")
    ∷ []

abbrev pair_at : String → String → Pair
pair_at repo digest = (codes repo, codes digest)

located : locate (codes "d") (codes "b") (run_index test_events (new_index true)) ≡ some (codes "a")
unfolding locate run_index index_after insert_location remove_location new_index get insert text_beq
located = refl

locate-run_index_example :
    (contains (run_held test_events []) (pair_at "a" "d") ≡ true) × (codes "a" ≢ codes "b")
locate-run_index_example =
    locate-run_index test_events true (codes "d") (codes "b") (codes "a") located
