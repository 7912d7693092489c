-- ===== src/Storage/Pages.antt =====
-- crates/roci-storage/src/metadata/mod.rs, `Page`, `take_page` and `after`; metadata/log.rs, the listings.
-- A `BTreeMap` is read in the order of its keys, that of their bytes.
pub mod Sorted
pub mod Walk
pub mod Referrers
pub mod Indexed
mod Tests
use roci.Base.{Bool, List, Option, [], false, map, none, not, some, true, ℕ, ◌&&◌, ◌||◌, ◌∷◌}
use roci.Base.Eq.{Text, nat_eq, text_eq, ◌==◌}
use roci.Base.Lists.{drop, is_empty, retain, take}
use roci.Base.Map.{Map, get, keys}
use roci.Base.Tests.{and_then, if◌then◌else◌, ltb, nat_beq, unwrap_or}
use roci.Storage.Metadata.{RepoState, State, SubjectReferrers}

pub record Page (T : Type 0) : Type 0 where
  pub items : List T
  pub more : Bool

unfoldable pub take_page : {T : Type 0} → List T → ℕ → Page T
take_page it limit = record { items = take limit it; more = not (is_empty (drop limit it)) }

-- `<` of `str`
unfoldable pub text_lt : Text → Text → Bool
text_lt [] [] = false
text_lt [] (y ∷ ys) = true
text_lt (x ∷ xs) [] = false
text_lt (x ∷ xs) (y ∷ ys) = ltb x y || (nat_beq x y && text_lt xs ys)

-- Whether a key lies in the range `after(last)`.
unfoldable pub is_after : Option Text → Text → Bool
is_after none k = true
is_after (some last) k = text_lt last k

-- The keys of a `BTreeMap` in order.
unfoldable pub insert_key : Text → List Text → List Text
insert_key k [] = k ∷ []
insert_key k (j ∷ ks) =
    let rest = insert_key k ks in
    if k == j then j ∷ ks else if text_lt k j then k ∷ j ∷ ks else j ∷ rest

unfoldable pub sort_keys : List Text → List Text
sort_keys [] = []
sort_keys (k ∷ ks) = insert_key k (sort_keys ks)

unfoldable pub tags_page : Text → Option Text → ℕ → State → Option (Page Text)
tags_page repo last limit state = and_then (get repo state) (λ rs.
    if is_empty rs.tags
    then none
    else some (take_page (retain (is_after last) (sort_keys (keys rs.tags))) limit))

abbrev pub Referrer : Type 0
Referrer = Text × Text

-- `self.by_digest[d].1`, which panics on a digest that is not there.
unfoldable pub described : Map Text (Option Text × Text) → Text → Referrer
described by_digest d = (d, (unwrap_or (get d by_digest) (none, [])).1)

-- `SubjectReferrers::page`
unfoldable pub subject_page : Option Text → Option Text → ℕ → SubjectReferrers → Page Referrer
subject_page none last limit self =
    take_page
      (map (described self.by_digest) (retain (is_after last) (sort_keys (keys self.by_digest))))
      limit
subject_page (some t) last limit self = elim (get t self.by_type) [
  | none ↦ record { items = []; more = false }
  | some ds ↦
      take_page (map (described self.by_digest) (retain (is_after last) (sort_keys ds))) limit
]

unfoldable pub referrers_page :
    Text → Text → Option Text → Option Text → ℕ → State → Option (Page Referrer)
referrers_page repo subject artifact_type last limit state = and_then (get repo state) (λ rs.
    and_then (get subject rs.referrers_of)
      (λ refs. some (subject_page artifact_type last limit refs)))

-- `repos`, which lists what has a manifest or a referrer.
abbrev is_listed : RepoState → Bool
is_listed rs = not (is_empty rs.media_types) || not (is_empty rs.referrers_of)

unfoldable pub listed_repos : State → List Text
listed_repos [] = []
listed_repos ((r, rs) ∷ state) =
    let rest = listed_repos state in if is_listed rs then r ∷ rest else rest

unfoldable pub repos : State → List Text
repos state = sort_keys (listed_repos state)
