-- ===== src/Core/Dispatch/Tests.antt =====
-- crates/roci-core/src/routes.rs: a server whose state counts the handlers that ran.
use roci.Base.{false, none, refl, some, suc, true, ℕ, ◌≡◌, ◌⊎◌}
use roci.Base.Eq.{codes}
use roci.Base.Result.{Result, err, ok}
use roci.Core.Auth.{Auth, allows, authorize, nobody, refusal}
use roci.Core.Dispatch.{Call, check_access, dispatch, dispatch_parsed, list_tags, run_call, select}
use roci.Core.Dispatch.Guarded.{IsGuarded, dispatch-IsGuarded}
use roci.Core.Error.{ApiError}
use roci.Core.Routes.{Parsed, get_method, parse_path, required_action, tags_list}

abbrev test_run : Call → ℕ → ℕ × Result ApiError Call
test_run call n = (suc n, ok call)

abbrev closed_auth : Auth
closed_auth = record {
  bearer = none;
  has_htpasswd = true;
  has_ldap = false;
  mtls = false;
  policy = none;
  realm = codes "roci";
}

dispatch-IsGuarded_example :
    ((e : ApiError) × (parse_path (codes "team/app/tags/list") ≡ err e)
      × (dispatch some test_run (some closed_auth) nobody get_method (codes "team/app/tags/list") 5
          ≡ (5, err e)))
    ⊎ ((parsed : Parsed) × (parse_path (codes "team/app/tags/list") ≡ ok parsed)
        × IsGuarded some test_run (some closed_auth) nobody get_method parsed 5 (
            dispatch some test_run
              (some closed_auth)
              nobody
              get_method
              (codes "team/app/tags/list")
              5))
dispatch-IsGuarded_example =
    dispatch-IsGuarded some test_run (some closed_auth) nobody get_method
      (codes "team/app/tags/list") 5

tags_run :
    dispatch_parsed some test_run none nobody get_method (tags_list (codes "a")) 5
    ≡ (6, ok (list_tags (codes "a")))
unfolding dispatch_parsed check_access run_call select required_action
tags_run = refl

tags_refused :
    (dispatch_parsed some test_run (some closed_auth) nobody get_method (tags_list (codes "a")) 5).0
    ≡ 5
unfolding dispatch_parsed check_access run_call select required_action authorize allows refusal
tags_refused = refl
