-- ===== src/Core/Authn/Resolved.antt =====
-- crates/roci-core/src/auth/mod.rs, `authenticate`; auth/middleware.rs: who is let through as nobody.
use mathlib.Core.Path.{subst}
use roci.Base.{Option, ap, false, inl, inr, none, refl, some, sym, ℕ, ◌&&◌, ◌∙◌, ◌≡◌, ◌⊎◌}
use roci.Base.Eq.{Text, codes, nat_eq, text_eq, ◌==◌}
use roci.Base.Result.{Result, Result-cases, err, ok}
use roci.Base.Tests.{Bool-cases, Option-cases, and_then}
use roci.Base.Text.{split_once}
use roci.Core.Auth.{Auth, Bearer, Principal, challenge, has_header_mechanism, nobody, token_bearer}
use roci.Core.Authn.{
  admit_principal, answered_with, authenticate, authenticate_header, authn_middleware,
  bearer_principal, by_scheme, certified, eq_ignore_case, is_anonymous, map_refusal, passed_on,
  presented,
}
use roci.Core.Authn.Bare.{HasNoMechanism, IsBare, elsewhere_or_open, presented-IsBare}
use roci.Core.Bearer.{Jose, verify}
use roci.Core.Error.{ApiError, unauthenticated}
use roci.Core.Login.{
  Backends, CredentialCache, Logins, Moment, authenticate_basic, basic_label, check_password,
  credential_get, decode_basic, log_in,
}
use roci.Core.Login.Genuine.{credential_get-hit, remember-eq-ok}
use roci.Core.Ranges.{trim}

ok_same : {E : Type 0} {x y : Principal} → Path (Result E Principal) (ok x) (ok y) → x ≡ y
ok_same h = cc

err_ok : {r : Result Text Principal} {label : Text} {p : Principal} → r ≡ err label → r ≡ ok p → ⊥
err_ok h k = cc

no_name : is_anonymous nobody ≡ false → ⊥
no_name h = cc

map_refusal-ok :
    (e : ApiError) (r : Result Text Principal) {p : Principal} → map_refusal e r ≡ ok p → r ≡ ok p
map_refusal-ok e (ok q) h = cc
map_refusal-ok e (err label) h = cc

certified-nobody : (cert : Option Text) → certified cert ≡ nobody → cert ≡ none
unfolding certified
certified-nobody none h = refl
certified-nobody (some id) h = cc

same_principal : {x y : Principal} → passed_on x ≡ passed_on y → x ≡ y
same_principal h = cc

not_passed : {e : ApiError} {p : Principal} → answered_with e ≡ passed_on p → ⊥
not_passed h = cc

admit_principal-nobody :
    (header_value : Text → Option Text) (auth : Auth) (path : Text) (r : Result ApiError Principal)
    → admit_principal header_value auth path r ≡ passed_on nobody
    → (r ≡ ok nobody) × ((path == codes "/v2/" && has_header_mechanism auth) ≡ false)
unfolding admit_principal
admit_principal-nobody header_value auth path (err e) h = absurd (cc)
admit_principal-nobody header_value auth path (ok p) h =
    let test = path == codes "/v2/" && (is_anonymous p && has_header_mechanism auth) in
    elim (Bool-cases test) [
      | inl asks ↦ absurd (not_passed (rw asks at h))
      | inr fine ↦
          let same : p ≡ nobody = same_principal (rw fine at h) in
          (
            ap ok same,
            subst
                (λ q.
                  (path == codes "/v2/" && (is_anonymous q && has_header_mechanism auth)) ≡ false)
                same fine,
          )
    ]

module _ (b : Backends) (logins : Logins) where
  log_in-named :
      (m : Moment) (name password : Text) (cache : CredentialCache) (p : Principal)
      → (log_in b logins m name password cache).0 ≡ ok p
      → is_anonymous p ≡ false
  unfolding log_in
  log_in-named m name password cache p h =
      let got = credential_get b m.asked name password cache in
      elim (Option-cases got.0) [
        | inl miss ↦
            let (groups, method, checked, same) =
              remember-eq-ok b logins m name password (check_password b logins m name password)
                got.1 p (rw miss at h) in
            ap is_anonymous same
        | inr (q, hit) ↦
            let (entry, found, live, same) =
              credential_get-hit b logins m.asked name password cache q hit in
            ap is_anonymous (sym (ok_same (rw hit at h)) ∙ sym same)
      ]

  authenticate_basic-named :
      (m : Moment) (cred : Text) (cache : CredentialCache) (p : Principal)
      → (authenticate_basic b logins m cred cache).0 ≡ ok p
      → is_anonymous p ≡ false
  unfolding authenticate_basic
  authenticate_basic-named m cred cache p h = elim (Option-cases (decode_basic b cred)) [
    | inl unread ↦
        let answer : (authenticate_basic b logins m cred cache).0 ≡ err (basic_label logins) =
          rw (unread, authenticate_basic) refl in
        absurd (err_ok answer h)
    | inr ((name, password), read) ↦
        let answer : (authenticate_basic b logins m cred cache).0
            ≡ (log_in b logins m name password cache).0 =
          rw (read, authenticate_basic) refl in
        log_in-named m name password cache p (sym answer ∙ h)
  ]

  module _ (jose : Jose) (auth : Auth) where
    bearer_principal-named :
        (o : Option Bearer) (now : ℕ) (cred : Text) (p : Principal)
        → bearer_principal jose o now cred ≡ ok p
        → is_anonymous p ≡ false
    unfolding bearer_principal
    bearer_principal-named none now cred p h = absurd (cc)
    bearer_principal-named (some v) now cred p h =
        elim (Result-cases (verify jose v.verifier cred now)) [
          | inl (token, fine) ↦
              let answer : bearer_principal jose (some v) now cred
                  ≡ ok (token_bearer token.subject token.token_grants) =
                rw (fine, bearer_principal) refl in
              ap is_anonymous (sym (ok_same (sym answer ∙ h)))
          | inr (reason, bad) ↦
              let answer : bearer_principal jose (some v) now cred ≡ err (codes "bearer") =
                rw (bad, bearer_principal) refl in
              absurd (err_ok answer h)
        ]

    by_scheme-named :
        (m : Moment) (scheme cred : Text) (cache : CredentialCache) (p : Principal)
        → (by_scheme jose b auth logins m scheme cred cache).0 ≡ ok p
        → is_anonymous p ≡ false
    unfolding by_scheme
    by_scheme-named m scheme cred cache p h =
        elim (Bool-cases (eq_ignore_case scheme (codes "basic"))) [
          | inl basic ↦ authenticate_basic-named m cred cache p (rw basic at h)
          | inr other ↦ elim (Bool-cases (eq_ignore_case scheme (codes "bearer"))) [
            | inl bears ↦ bearer_principal-named auth.bearer m.asked cred p (rw (other, bears) at h)
            | inr neither ↦ absurd (err_ok refl (rw (other, neither) at h))
          ]
        ]

    authenticate_header-named :
        (m : Moment) (value : Text) (cache : CredentialCache) (p : Principal)
        → (authenticate_header jose b auth logins m value cache).0 ≡ ok p
        → is_anonymous p ≡ false
    unfolding authenticate_header
    authenticate_header-named m value cache p h =
        elim (Option-cases (and_then (b.to_str value) (split_once b' '))) [
          | inl unread ↦
              let answer : (authenticate_header jose b auth logins m value cache).0
                  ≡ err (codes "anonymous") =
                rw (unread, authenticate_header) refl in
              absurd (err_ok answer h)
          | inr ((scheme, cred), parts) ↦
              let answer : (authenticate_header jose b auth logins m value cache).0
                  ≡ (by_scheme jose b auth logins m scheme (trim cred) cache).0 =
                rw (parts, authenticate_header) refl in
              by_scheme-named m scheme (trim cred) cache p (sym answer ∙ h)
        ]

    authenticate-nobody :
        (header_value : Text → Option Text) (m : Moment) (authorization cert : Option Text)
        (cache : CredentialCache)
        → (authenticate header_value jose b auth logins m authorization cert cache).0 ≡ ok nobody
        → (presented b authorization ≡ none) × (cert ≡ none)
    unfolding authenticate
    authenticate-nobody header_value m authorization cert cache h =
        elim (Option-cases (presented b authorization)) [
          | inl bare ↦
              let answer : (authenticate header_value jose b auth logins m authorization cert
                    cache).0
                  ≡ ok (certified cert) =
                rw (bare, authenticate) refl in
              (bare, certified-nobody cert (ok_same (sym answer ∙ h)))
          | inr (value, shown) ↦
              let inner = authenticate_header jose b auth logins m value cache in
              let answer : (authenticate header_value jose b auth logins m authorization cert
                    cache).0
                  ≡ map_refusal (unauthenticated (challenge header_value auth none false)) inner.0 =
                rw (shown, authenticate) refl in
              absurd (
                no_name (
                  authenticate_header-named m value cache nobody
                    (map_refusal-ok _ inner.0 (sym answer ∙ h))))
        ]

    -- A request is handed on as nobody's only if it has no certificate, and no `Authorization` header but
    -- one whose text is `Basic` in any case, a space and the base64 of a colon alone, and does not ask for
    -- `/v2/` where a mechanism with a header is configured: refused credentials are never taken for none,
    -- whatever is cached.
    pub authn_middleware-nobody :
        (header_value : Text → Option Text) (m : Moment) (path : Text)
        (authorization cert : Option Text) (cache : CredentialCache)
        → (authn_middleware header_value jose b auth logins m path authorization cert cache).0
          ≡ passed_on nobody
        → IsBare b authorization × (cert ≡ none) × ((path ≡ codes "/v2/" → ⊥) ⊎ HasNoMechanism auth)
    unfolding authn_middleware
    authn_middleware-nobody header_value m path authorization cert cache h =
        let answer = authenticate header_value jose b auth logins m authorization cert cache in
        let (resolved, elsewhere) = admit_principal-nobody header_value auth path answer.0 h in
        let (bare, uncertified) =
          authenticate-nobody header_value m authorization cert cache resolved in
        (presented-IsBare b authorization bare, uncertified, elsewhere_or_open path auth elsewhere)
