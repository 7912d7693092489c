-- ===== src/Core/Auth.antt =====
-- crates/roci-core/src/auth/mod.rs: principals and authorization; what a 401 asks for. Logging and
-- metrics are left out. `header_value` stands for `HeaderValue::from_str`.
pub mod Allows
pub mod Refusals
mod Tests
use roci.Base.{Bool, List, Option, [], false, none, some, true, ◌++◌, ◌||◌, ◌∷◌}
use roci.Base.Eq.{Text, codes, text_eq}
use roci.Base.Result.{Result, err, ok}
use roci.Base.Tests.{if◌then◌else◌, is_none_or, is_some, is_some_and}
use roci.Core.Actions.{Action, ActionSet, delete_action, holds, pull, push}
use roci.Core.Bearer.{BearerVerifier, grants_allow}
use roci.Core.Error.{ApiError, denied, spec, unauthenticated}
use roci.Core.Policy.{AccessControlConfig, AccessPolicy, compile, grants}

pub data AuthMethod : Type 0 where
  by_htpasswd by_ldap by_mtls : AuthMethod

pub data Principal : Type 0 where
  nobody : Principal
  user : (name : Text) (ldap_groups : List Text) (method : AuthMethod) → Principal
  token_bearer : (subject : Option Text) (grants_list : List (Text × ActionSet)) → Principal

abbrev pub subject_of : Principal → Option Text
subject_of nobody = none
subject_of (user name ldap_groups method) = some name
subject_of (token_bearer subject grants_list) = subject

pub record Bearer : Type 0 where
  pub verifier : BearerVerifier
  pub realm : Text
  pub service : Text

-- Of the htpasswd file and of the directory only their presence counts here.
pub record Auth : Type 0 where
  pub realm : Text
  pub has_htpasswd : Bool
  pub has_ldap : Bool
  pub bearer : Option Bearer
  pub mtls : Bool
  pub policy : Option AccessPolicy

unfoldable pub reload_access_control : Auth → Option AccessControlConfig → Auth
reload_access_control self none = record self { policy = none }
reload_access_control self (some ac) = record self { policy = some (compile ac) }

unfoldable pub has_header_mechanism : Auth → Bool
has_header_mechanism self = self.has_htpasswd || (self.has_ldap || is_some self.bearer)

unfoldable pub challenge_actions : Action → Text
challenge_actions pull = codes "pull"
challenge_actions push = codes "pull,push"
challenge_actions delete_action = codes "delete"

unfoldable pub scope_text : Option (Text × Action) → Text
scope_text none = []
scope_text (some (repo, action)) =
    codes ",scope="
    ++ b'"' ∷ codes "repository:"
    ++ repo
    ++ b':' ∷ challenge_actions action
    ++ b'"' ∷ []

unfoldable pub insufficient_text : Bool → Text
insufficient_text insufficient =
    if insufficient then codes ",error=" ++ b'"' ∷ codes "insufficient_scope" ++ b'"' ∷ [] else []

unfoldable pub bearer_text : Bearer → Option (Text × Action) → Bool → Text
bearer_text b scope insufficient =
    codes "Bearer realm="
    ++ b'"' ∷ b.realm
    ++ b'"' ∷ codes ",service="
    ++ b'"' ∷ b.service
    ++ b'"' ∷ scope_text scope
    ++ insufficient_text insufficient

unfoldable pub basic_text : Text → Text
basic_text realm = codes "Basic realm=" ++ b'"' ∷ realm ++ b'"' ∷ []

-- The chain of `challenge`, from the configured parts.
unfoldable pub challenge_by :
    (Text → Option Text) → Option Bearer → Bool → Text → Option (Text × Action) → Bool → Option Text
challenge_by header_value (some b) present realm scope insufficient =
    header_value (bearer_text b scope insufficient)
challenge_by header_value none present realm scope insufficient =
    if present then header_value (basic_text realm) else none

unfoldable pub challenge :
    (Text → Option Text) → Auth → Option (Text × Action) → (insufficient : Bool) → Option Text
challenge header_value self scope insufficient =
    challenge_by header_value self.bearer (has_header_mechanism self) self.realm scope insufficient

unfoldable pub allows : Auth → Principal → Text → Action → Bool
allows self (token_bearer subject grants_list) repo action = grants_allow grants_list repo action
allows self (user name ldap_groups method) repo action =
    is_none_or self.policy (λ pol. holds (grants pol (some name) ldap_groups repo) action)
allows self nobody repo action =
    is_some_and self.policy (λ pol. holds (grants pol none [] repo) action)

-- The answer to a principal that is not allowed.
unfoldable pub refusal : (Text → Option Text) → Auth → Principal → Text → Action → ApiError
refusal header_value self (token_bearer subject grants_list) repo action =
    unauthenticated (challenge header_value self (some (repo, action)) true)
refusal header_value self (user name ldap_groups method) repo action = spec denied
refusal header_value self nobody repo action =
    if has_header_mechanism self
    then unauthenticated (challenge header_value self (some (repo, action)) false)
    else spec denied

unfoldable pub authorize :
    (Text → Option Text) → Auth → Principal → Text → Action → Result ApiError (Unit {0})
authorize header_value self p repo action =
    if allows self p repo action then ok tt else err (refusal header_value self p repo action)

unfoldable pub base_challenge : (Text → Option Text) → Auth → ApiError
base_challenge header_value self = unauthenticated (challenge header_value self none false)
