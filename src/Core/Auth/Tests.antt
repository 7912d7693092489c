-- ===== src/Core/Auth/Tests.antt =====
-- crates/roci-core/src/auth/mod.rs: a server with an htpasswd file.
use roci.Base.{List, Option, [], false, none, refl, some, true, ◌++◌, ◌∷◌, ◌≡◌}
use roci.Base.Eq.{Text, codes, text_eq}
use roci.Base.Result.{err}
use roci.Base.Tests.{if◌then◌else◌}
use roci.Core.Actions.{ActionSet, pull, push}
use roci.Core.Auth.{
  Auth, AuthMethod, allows, authorize, basic_text, challenge, challenge_by, has_header_mechanism,
  nobody, refusal, reload_access_control, token_bearer, user,
}
use roci.Core.Auth.Allows.{allows-reload_access_control}
use roci.Core.Auth.Refusals.{authorize-eq-err, may_retry}
use roci.Core.Error.{ApiError, status, unauthenticated}
use roci.Core.Policy.{AccessControlConfig, RepositoryPolicy}
use roci.Core.Policy.Grants.{IsPolicyFor, granted}

abbrev test_auth : Auth
test_auth = record {
  bearer = none;
  has_htpasswd = true;
  has_ldap = false;
  mtls = false;
  policy = none;
  realm = codes "roci";
}

basic_challenge :
    challenge some test_auth none false
    ≡ some (codes "Basic realm=" ++ b'"' ∷ codes "roci" ++ b'"' ∷ [])
unfolding challenge challenge_by has_header_mechanism basic_text
basic_challenge = refl

abbrev told_to_log_in : ApiError
told_to_log_in = unauthenticated (some (codes "Basic realm=" ++ b'"' ∷ codes "roci" ++ b'"' ∷ []))

not_authorized : authorize some test_auth nobody (codes "a") pull ≡ err told_to_log_in
unfolding authorize allows refusal challenge challenge_by has_header_mechanism basic_text
not_authorized = refl

authorize-eq-err_example :
    (allows test_auth nobody (codes "a") pull ≡ false)
    × (status told_to_log_in ≡ (if may_retry test_auth nobody then 401 else 403))
authorize-eq-err_example =
    authorize-eq-err some test_auth nobody (codes "a") pull told_to_log_in not_authorized

test_way : has_header_mechanism test_auth ≡ true
unfolding has_header_mechanism
test_way = refl

allows-reload_access_control_example :
    ((subject : Option Text) (gs : List (Text × ActionSet)) (c : Option AccessControlConfig)
      → allows (reload_access_control test_auth c) (token_bearer subject gs) (codes "a") push
        ≡ allows test_auth (token_bearer subject gs) (codes "a") push)
    × ((name : Text) (ldap_groups : List Text) (m : AuthMethod)
        → allows (reload_access_control test_auth none) (user name ldap_groups m) (codes "a") push
          ≡ true)
    × (allows (reload_access_control test_auth none) nobody (codes "a") push ≡ false)
    × ((ac : AccessControlConfig)
        → (o : Option RepositoryPolicy) × IsPolicyFor (codes "a") ac.repositories o
          × ((name : Text) (ldap_groups : List Text) (m : AuthMethod)
              → allows
                  (reload_access_control test_auth (some ac))
                  (user name ldap_groups m)
                  (codes "a")
                  push
                ≡ granted ac o (some name) ldap_groups push)
          × (allows (reload_access_control test_auth (some ac)) nobody (codes "a") push
              ≡ granted ac o none [] push))
allows-reload_access_control_example = allows-reload_access_control test_auth (codes "a") push
