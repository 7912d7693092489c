-- ===== src/Storage/Dedupe.antt =====
-- crates/roci-storage/src/dedupe.rs: which repository a blob can be linked from.
pub mod Located
mod Tests
use roci.Base.{Bool, List, Option, [], none, not, some, ◌||◌}
use roci.Base.Eq.{Text, nat_eq, text_eq, ◌==◌}
use roci.Base.Map.{Map, contains_key, get, insert, remove}
use roci.Base.Tests.{if◌then◌else◌, is_some_and}

pub record DedupeIndex : Type 0 where
  pub is_enabled : Bool
  pub by_digest : Map Text Text

unfoldable pub new_index : Bool → DedupeIndex
new_index is_enabled = record { by_digest = []; is_enabled = is_enabled }

-- `DedupeIndex::insert`
unfoldable pub insert_location : Text → Text → DedupeIndex → DedupeIndex
insert_location repo digest self =
    if not self.is_enabled || contains_key digest self.by_digest
    then self
    else record self { by_digest = insert digest repo self.by_digest }

-- `DedupeIndex::remove`
unfoldable pub remove_location : Text → Text → DedupeIndex → DedupeIndex
remove_location repo digest self =
    if is_some_and (get digest self.by_digest) (λ r. r == repo)
    then record self { by_digest = remove digest self.by_digest }
    else self

abbrev pub other_than : Text → Option Text → Option Text
other_than repo none = none
other_than repo (some r) = if r == repo then none else some r

unfoldable pub locate : Text → Text → DedupeIndex → Option Text
locate digest repo self =
    if not self.is_enabled then none else other_than repo (get digest self.by_digest)

unfoldable pub location_entries : DedupeIndex → List (Text × Text)
location_entries self = self.by_digest
