-- ===== src/Core/Dispatch.antt =====
-- crates/roci-core/src/routes.rs, `dispatch`: from a request to a handler. The handlers are a parameter,
-- `run`, with the state they change; `Call` says which is called and on what.
pub mod Guarded
mod Tests
use roci.Base.{Bool, Option, false, none, some, true}
use roci.Base.Eq.{Text, text_eq}
use roci.Base.Result.{Result, err, ok}
use roci.Core.Actions.{Action}
use roci.Core.Auth.{Auth, Principal, authorize}
use roci.Core.Error.{ApiError, name_unknown, spec}
use roci.Core.Routes.{
  Method, Parsed, blob, delete, get_method, head, manifest_ref, parse_path, patch, post, put,
  referrers, required_action, tags_list, upload_session, upload_start,
}
use roci.Storage.Digest.{Digest}
use roci.Storage.Quota.Bytes.{run}

pub data Call : Type 0 where
  get_blob : (repo : Text) (digest : Digest) (is_head : Bool) → Call
  get_manifest : (repo reference : Text) (is_head : Bool) → Call
  list_tags : (repo : Text) → Call
  list_referrers : (repo : Text) (digest : Digest) → Call
  upload_status : (repo id : Text) → Call
  start_upload : (repo : Text) → Call
  finish_upload : (repo id : Text) → Call
  put_manifest : (repo reference : Text) → Call
  patch_upload : (repo id : Text) → Call
  delete_blob : (repo : Text) (digest : Digest) → Call
  delete_manifest : (repo reference : Text) → Call

-- The last `match` of `dispatch`.
unfoldable pub select : Method → Parsed → Option Call
select get_method (blob repo digest) = some (get_blob repo digest false)
select head (blob repo digest) = some (get_blob repo digest true)
select get_method (manifest_ref repo reference) = some (get_manifest repo reference false)
select head (manifest_ref repo reference) = some (get_manifest repo reference true)
select get_method (tags_list repo) = some (list_tags repo)
select get_method (referrers repo digest) = some (list_referrers repo digest)
select get_method (upload_session repo id) = some (upload_status repo id)
select post (upload_start repo) = some (start_upload repo)
select put (upload_session repo id) = some (finish_upload repo id)
select put (manifest_ref repo reference) = some (put_manifest repo reference)
select patch (upload_session repo id) = some (patch_upload repo id)
select delete (blob repo digest) = some (delete_blob repo digest)
select delete (manifest_ref repo reference) = some (delete_manifest repo reference)
select _ _ = none

module _ (header_value : Text → Option Text) {S Response : Type 0}
    (run : Call → S → S × Result ApiError Response) where
  -- The two nested `if let` before the `match`.
  unfoldable pub check_access :
      Option Auth → Principal → Option (Text × Action) → Result ApiError (Unit {0})
  check_access none p action = ok tt
  check_access (some auth) p none = ok tt
  check_access (some auth) p (some (repo, action)) = authorize header_value auth p repo action

  unfoldable pub run_call : Option Call → S → S × Result ApiError Response
  run_call none st = (st, err (spec name_unknown))
  run_call (some call) st = run call st

  unfoldable pub dispatch_parsed :
      Option Auth → Principal → Method → Parsed → S → S × Result ApiError Response
  dispatch_parsed auth p method parsed st =
      elim (check_access auth p (required_action method parsed)) [
        | err e ↦ (st, err e)
        | ok _ ↦ run_call (select method parsed) st
      ]

  unfoldable pub dispatch :
      Option Auth → Principal → Method → Text → S → S × Result ApiError Response
  dispatch auth p method rest st = elim (parse_path rest) [
    | err e ↦ (st, err e)
    | ok parsed ↦ dispatch_parsed auth p method parsed st
  ]
