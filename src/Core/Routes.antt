-- ===== src/Core/Routes.antt =====
-- crates/roci-core/src/routes.rs: the parser of `/v2/<name>/<verb>...` paths and the permission
-- that a request needs. Methods that the code does not name are `extension`.
pub mod Paths
pub mod Uploads
pub mod Safety
mod Tests
use roci.Core.Names
use roci.Storage.Digest
use roci.Base.{List, Option, [], none, some, ℕ, ◌&&◌, ◌-◌}
use roci.Base.Eq.{Text, codes, nat_eq, text_eq, ◌==◌}
use roci.Base.Lists.{get_elem?, is_empty, length, take}
use roci.Base.Result.{Result, err, ok, ◌>>=◌, ◌>>◌}
use roci.Base.Tests.{if◌then◌else◌, leb, ltb, unwrap_or}
use roci.Base.Text.{join, split}
use roci.Core.Actions.{Action, delete_action, pull, push}
use roci.Core.Error.{ApiError, from_storage}
use roci.Storage.Digest.{Digest}

pub data Method : Type 0 where
  get_method head post put patch delete extension : Method

pub data Parsed : Type 0 where
  blob : (repo : Text) (digest : Digest) → Parsed
  manifest_ref : (repo reference : Text) → Parsed
  upload_start : (repo : Text) → Parsed
  upload_session : (repo id : Text) → Parsed
  tags_list : (repo : Text) → Parsed
  referrers : (repo : Text) (digest : Digest) → Parsed
  unknown : Parsed

-- `segments[i]`, read only in range.
abbrev pub at : List Text → ℕ → Text
at segments i = unwrap_or (get_elem? segments i) []

-- `segments[..k].join("/")`, checked.
unfoldable pub checked_repo : List Text → ℕ → Result ApiError Text
checked_repo segments k = do
  let repo = join b'/' (take k segments)
  name ← Names.parse repo
  ok repo

-- `Digest::parse(..).map_err(ApiError::from)`
unfoldable pub parse_digest : Text → Result ApiError Digest
parse_digest s = elim (Digest.parse s) [ ok d ↦ ok d | err e ↦ err (from_storage e) ]

-- The last `match`, on the segment before the last.
unfoldable pub parse_verb : List Text → ℕ → Result ApiError Parsed
parse_verb segments n =
    let verb = at segments (n - 2) in
    let last = at segments (n - 1) in
    if verb == codes "blobs"
    then (do
      repo ← checked_repo segments (n - 2)
      digest ← parse_digest last
      ok (blob repo digest))
    else if verb == codes "manifests"
    then (do repo ← checked_repo segments (n - 2); ok (manifest_ref repo last))
    else if verb == codes "tags" && last == codes "list"
    then (do repo ← checked_repo segments (n - 2); ok (tags_list repo))
    else if verb == codes "referrers"
    then (do
      repo ← checked_repo segments (n - 2)
      digest ← parse_digest last
      ok (referrers repo digest))
    else ok unknown

unfoldable pub parse_segments : List Text → ℕ → Result ApiError Parsed
parse_segments segments n =
    if ltb n 2
    then ok unknown
    else if leb 3 n
        && at segments (n - 3) == codes "blobs"
        && at segments (n - 2) == codes "uploads"
    then (do
      repo ← checked_repo segments (n - 3)
      let id = at segments (n - 1)
      ok (if is_empty id then upload_start repo else upload_session repo id))
    else if at segments (n - 2) == codes "blobs" && at segments (n - 1) == codes "uploads"
    then (do repo ← checked_repo segments (n - 2); ok (upload_start repo))
    else parse_verb segments n

unfoldable pub parse_path : Text → Result ApiError Parsed
parse_path rest = let segments = split b'/' rest in parse_segments segments (length segments)

unfoldable pub required_action : Method → Parsed → Option (Text × Action)
required_action get_method (blob repo digest) = some (repo, pull)
required_action head (blob repo digest) = some (repo, pull)
required_action delete (blob repo digest) = some (repo, delete_action)
required_action get_method (manifest_ref repo reference) = some (repo, pull)
required_action head (manifest_ref repo reference) = some (repo, pull)
required_action put (manifest_ref repo reference) = some (repo, push)
required_action delete (manifest_ref repo reference) = some (repo, delete_action)
required_action get_method (tags_list repo) = some (repo, pull)
required_action get_method (referrers repo digest) = some (repo, pull)
required_action post (upload_start repo) = some (repo, push)
required_action get_method (upload_session repo id) = some (repo, push)
required_action patch (upload_session repo id) = some (repo, push)
required_action put (upload_session repo id) = some (repo, push)
required_action _ _ = none
