-- ===== src/Core/Authn.antt =====
-- crates/roci-core/src/auth/mod.rs, `authenticate`, `authenticate_header` and `is_empty_basic`;
-- crates/roci-core/src/auth/middleware.rs. Headers that `to_str` reads are ASCII; a time of the clock is
-- the moment's `asked`. The rest of the request's handling is a parameter.
pub mod Bare
pub mod Resolved
mod Tests
use roci.Base.{Bool, Option, [], false, map, none, not, some, true, ℕ, ◌&&◌, ◌||◌}
use roci.Base.Eq.{Text, codes, nat_eq, text_eq, ◌==◌}
use roci.Base.Result.{Result, err, ok}
use roci.Base.Tests.{and_then, if◌then◌else◌, is_some_and}
use roci.Base.Text.{ascii_lower, split_once}
use roci.Core.Auth.{
  Auth, Bearer, Principal, base_challenge, by_mtls, challenge, has_header_mechanism, nobody,
  refusal, token_bearer, user,
}
use roci.Core.Bearer.{Jose, verify}
use roci.Core.Error.{ApiError, too_early, unauthenticated}
use roci.Core.Login.{Backends, CredentialCache, Logins, Moment, authenticate_basic}
use roci.Core.Ranges.{trim}

unfoldable pub eq_ignore_case : Text → Text → Bool
eq_ignore_case s t = map ascii_lower s == map ascii_lower t

unfoldable pub bearer_principal : Jose → Option Bearer → ℕ → Text → Result Text Principal
bearer_principal jose none now cred = err (codes "bearer")
bearer_principal jose (some b) now cred = elim (verify jose b.verifier cred now) [
  | err refusal ↦ err (codes "bearer")
  | ok v ↦ ok (token_bearer v.subject v.token_grants)
]

-- `authenticate_header` behind the split of the scheme and the credentials.
unfoldable pub by_scheme :
    Jose
    → Backends
    → Auth
    → Logins
    → Moment
    → Text
    → Text
    → CredentialCache
    → Result Text Principal × CredentialCache
by_scheme jose b auth logins m scheme cred cache =
    if eq_ignore_case scheme (codes "basic")
    then authenticate_basic b logins m cred cache
    else if eq_ignore_case scheme (codes "bearer")
    then (bearer_principal jose auth.bearer m.asked cred, cache)
    else (err (codes "anonymous"), cache)

unfoldable pub authenticate_header :
    Jose
    → Backends
    → Auth
    → Logins
    → Moment
    → Text
    → CredentialCache
    → Result Text Principal × CredentialCache
authenticate_header jose b auth logins m value cache =
    elim (and_then (b.to_str value) (split_once b' ')) [
      | none ↦ (err (codes "anonymous"), cache)
      | some (scheme, cred) ↦ by_scheme jose b auth logins m scheme (trim cred) cache
    ]

unfoldable pub is_empty_basic : Backends → Text → Bool
is_empty_basic b value = is_some_and (and_then (b.to_str value) (split_once b' ')) (λ parts.
    eq_ignore_case parts.0 (codes "basic")
    && is_some_and (b.base64 (trim parts.1)) (λ pair. pair == codes ":"))

-- `filter` on the header.
abbrev pub presented : Backends → Option Text → Option Text
presented b none = none
presented b (some value) = if is_empty_basic b value then none else some value

unfoldable pub certified : Option Text → Principal
certified none = nobody
certified (some id) = user id [] by_mtls

abbrev pub map_refusal : ApiError → Result Text Principal → Result ApiError Principal
map_refusal e (ok p) = ok p
map_refusal e (err label) = err e

unfoldable pub authenticate :
    (Text → Option Text)
    → Jose
    → Backends
    → Auth
    → Logins
    → Moment
    → (authorization cert : Option Text) → CredentialCache
    → Result ApiError Principal × CredentialCache
authenticate header_value jose b auth logins m authorization cert cache =
    elim (presented b authorization) [
      | none ↦ (ok (certified cert), cache)
      | some value ↦
          let (answer, kept) = authenticate_header jose b auth logins m value cache in
          (map_refusal (unauthenticated (challenge header_value auth none false)) answer, kept)
    ]

abbrev pub is_anonymous : Principal → Bool
is_anonymous nobody = true
is_anonymous _ = false

-- What a middleware answers: an error, or what the next layer does.
pub data Passed : Type 0 where
  answered_with : ApiError → Passed
  passed_on : Principal → Passed

unfoldable pub admit_principal :
    (Text → Option Text) → Auth → (path : Text) → Result ApiError Principal → Passed
admit_principal header_value auth path (err e) = answered_with e
admit_principal header_value auth path (ok p) =
    if path == codes "/v2/" && (is_anonymous p && has_header_mechanism auth)
    then answered_with (base_challenge header_value auth)
    else passed_on p

unfoldable pub authn_middleware :
    (Text → Option Text)
    → Jose
    → Backends
    → Auth
    → Logins
    → Moment
    → (path : Text) (authorization cert : Option Text) → CredentialCache
    → Passed × CredentialCache
authn_middleware header_value jose b auth logins m path authorization cert cache =
    let (answer, kept) = authenticate header_value jose b auth logins m authorization cert cache in
    (admit_principal header_value auth path answer, kept)

-- `early_data_middleware`: none where the request is handed on.
unfoldable pub early_data : (method : Text) (early : Option Text) → Option ApiError
early_data method early =
    let safe = method == codes "GET" || (method == codes "HEAD" || method == codes "OPTIONS") in
    if is_some_and early (λ v. v == codes "1") && not safe then some too_early else none
