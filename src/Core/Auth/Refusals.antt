-- ===== src/Core/Auth/Refusals.antt =====
-- crates/roci-core/src/auth/mod.rs: the answers to a client that is not allowed.
use roci.Base.{Bool, Option, ap, false, inl, inr, none, refl, some, sym, true, ◌↔◌, ◌∙◌, ◌≡◌}
use roci.Base.Eq.{Text, codes, text_eq}
use roci.Base.Result.{err, ok}
use roci.Base.Tests.{Bool-cases, if◌then◌else◌, is_some}
use roci.Base.Text.{starts_with, strip_prefix}
use roci.Core.Actions.{Action}
use roci.Core.Auth.{
  Auth, Bearer, Principal, allows, authorize, basic_text, bearer_text, challenge, challenge_by,
  has_header_mechanism, nobody, refusal, token_bearer, user,
}
use roci.Core.Error.{ApiError, code_status, status}

-- A named user is told no; a token, and an anonymous client that could log in, is asked to.
abbrev pub may_retry : Auth → Principal → Bool
may_retry self nobody = has_header_mechanism self
may_retry self (user name ldap_groups method) = false
may_retry self (token_bearer subject grants_list) = true

refusal-status :
    (header_value : Text → Option Text) (self : Auth) (p : Principal) (repo : Text) (a : Action)
    → status (refusal header_value self p repo a) ≡ (if may_retry self p then 401 else 403)
unfolding refusal status code_status
refusal-status header_value self nobody repo a = elim (Bool-cases (has_header_mechanism self)) [
  | inl some_way ↦ rw some_way
  | inr no_way ↦ rw no_way
]
refusal-status header_value self (user name ldap_groups method) repo a = refl
refusal-status header_value self (token_bearer subject grants_list) repo a = refl

answer_lem :
    (b : Bool) (x : ApiError)
    → (((if b then ok tt else err x) ≡ ok tt) ↔ (b ≡ true))
      × ((e : ApiError) → (if b then ok tt else err x) ≡ err e → (b ≡ false) × (x ≡ e))
answer_lem true x = ((λ h. refl, λ h. refl), λ e h. cc)
answer_lem false x = ((λ h. cc, λ h. cc), λ e h. (refl, cc))

pub authorize_iff :
    (header_value : Text → Option Text) (self : Auth) (p : Principal) (repo : Text) (a : Action)
    → (authorize header_value self p repo a ≡ ok tt) ↔ (allows self p repo a ≡ true)
unfolding authorize
authorize_iff header_value self p repo a =
    (answer_lem (allows self p repo a) (refusal header_value self p repo a)).0

-- `authorize` fails only for what is not allowed, and then with 401 for a token and for an anonymous
-- client where a header mechanism is configured, and with 403 for everyone else.
pub authorize-eq-err :
    (header_value : Text → Option Text) (self : Auth) (p : Principal) (repo : Text) (a : Action)
    (e : ApiError)
    → authorize header_value self p repo a ≡ err e
    → (allows self p repo a ≡ false) × (status e ≡ (if may_retry self p then 401 else 403))
unfolding authorize
authorize-eq-err header_value self p repo a e h =
    let (denied_here, same) =
      (answer_lem (allows self p repo a) (refusal header_value self p repo a)).1 e h in
    (denied_here, ap status (sym same) ∙ refusal-status header_value self p repo a)

challenge_by-starts_with :
    (header_value : Text → Option Text) (b : Option Bearer) (present : Bool) (realm : Text)
    (scope : Option (Text × Action)) (insufficient : Bool)
    → present ≡ true
    → (t : Text) × (challenge_by header_value b present realm scope insufficient ≡ header_value t)
      × (starts_with (if is_some b then codes "Bearer realm=" else codes "Basic realm=") t ≡ true)
unfolding challenge_by bearer_text basic_text strip_prefix
challenge_by-starts_with header_value (some b) present realm scope insufficient h =
    (bearer_text b scope insufficient, refl, refl)
challenge_by-starts_with header_value none present realm scope insufficient h =
    (basic_text realm, rw h, refl)

-- With some header mechanism the challenge is a text that starts with `Bearer realm=` where tokens are
-- configured and with `Basic realm=` otherwise, if it is a legal header value.
pub challenge-starts_with :
    (header_value : Text → Option Text) (self : Auth) (scope : Option (Text × Action))
    (insufficient : Bool)
    → has_header_mechanism self ≡ true
    → (t : Text) × (challenge header_value self scope insufficient ≡ header_value t)
      × (starts_with (if is_some self.bearer then codes "Bearer realm=" else codes "Basic realm=") t
          ≡ true)
unfolding challenge
challenge-starts_with header_value self scope insufficient h =
    challenge_by-starts_with header_value self.bearer (has_header_mechanism self) self.realm scope
      insufficient h
