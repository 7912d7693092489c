-- ===== src/Core/Bearer.antt =====
-- crates/roci-core/src/auth/bearer.rs: the verification of a bearer token. base64url, JSON and the
-- signature schemes belong to other packages: they are the fields of `Jose`.
pub mod Accepted
pub mod Verify
pub mod Scope
mod Tests
use roci.Base.{Bool, List, Option, [], false, none, not, some, true, ℕ, ◌&&◌, ◌+◌, ◌||◌, ◌∷◌}
use roci.Base.Bits.{diff_bytes}
use roci.Base.Eq.{Text, codes, nat_eq, text_eq, ◌==◌}
use roci.Base.Lists.{any, contains, length, take}
use roci.Base.Map.{keys}
use roci.Base.Result.{Result, guard, ok, ok_or, ◌>>=◌, ◌>>◌}
use roci.Base.Tests.{if◌then◌else◌, is_some_and, ltb, nat_beq}
use roci.Base.Text.{split}
use roci.Base.Word.{saturating_add}
use roci.Core.Actions.{
  Action, ActionSet, all_actions, delete_action, holds, no_actions, of, pull, push, union,
}

pub record Header : Type 0 where
  pub alg : Text
  pub jwk : Bool
  pub jku : Bool
  pub x5u : Bool

pub data Audience : Type 0 where
  one : Text → Audience
  many : List Text → Audience

pub record AccessEntry : Type 0 where
  pub kind : Text
  pub name : Text
  pub acts : List Text

pub record Claims : Type 0 where
  pub iss : Text
  pub aud : Audience
  pub exp : ℕ
  pub nbf : Option ℕ
  pub sub : Option Text
  pub access : List AccessEntry

pub data VerifyKey : Type 0 where
  es256_key rs256_key : Text → VerifyKey

-- `decode` is base64url without padding; `signed_by es256 key message signature` is the check of
-- ECDSA_P256_SHA256_FIXED or of RSA_PKCS1_2048_8192_SHA256.
pub record Jose : Type 0 where
  pub decode : Text → Option Text
  pub header_of : Text → Option Header
  pub claims_of : Text → Option Claims
  pub signed_by : Bool → Text → Text → Text → Bool

pub record BearerVerifier : Type 0 where
  pub issuer : Text
  pub service : Text
  pub keys : List VerifyKey

pub record Verified : Type 0 where
  pub subject : Option Text
  pub token_grants : List (Text × ActionSet)

pub data Refusal : Type 0 where
  token_too_long not_jws bad_segment bad_json key_carrying unsupported_alg bad_signature : Refusal
  signature_mismatch issuer_mismatch audience_mismatch expired not_yet_valid too_many_entries :
      Refusal

abbrev pub max_token_len : ℕ
max_token_len = 8192

abbrev pub max_access_entries : ℕ
max_access_entries = 64

abbrev pub leeway_secs : ℕ
leeway_secs = 30

unfoldable pub decode_json :
    {T : Type 0} → (Text → Option Text) → (Text → Option T) → Text → Result Refusal T
decode_json decode parse_json segment = do
  bytes ← ok_or (decode segment) bad_segment
  ok_or (parse_json bytes) bad_json

-- The three calls of `parts.next()` that answer, and the one that does not.
unfoldable pub three_segments : List Text → Option (Text × Text × Text)
three_segments (h ∷ p ∷ s ∷ []) = some (h, p, s)
three_segments _ = none

unfoldable pub alg_of : Text → Option Bool
alg_of alg =
    if alg == codes "ES256" then some true else if alg == codes "RS256" then some false else none

unfoldable pub key_verifies : Jose → Bool → Text → Text → VerifyKey → Bool
key_verifies jose true signed sig (es256_key pk) = jose.signed_by true pk signed sig
key_verifies jose false signed sig (rs256_key pk) = jose.signed_by false pk signed sig
key_verifies jose _ signed sig _ = false

unfoldable pub audience_ok : Audience → Text → Bool
audience_ok (one a) service = a == service
audience_ok (many v) service = contains v service

-- The arms on one action's name.
unfoldable pub named_set : Text → ActionSet
named_set a =
    if a == codes "pull"
    then of pull
    else if a == codes "push"
    then of push
    else if a == codes "delete"
    then of delete_action
    else if a == codes "*"
    then all_actions
    else no_actions

unfoldable pub fold_names : ActionSet → List Text → ActionSet
fold_names s [] = s
fold_names s (a ∷ acts) = fold_names (union s (named_set a)) acts

-- `filter`, `map` and `collect` of the access claims.
unfoldable pub grants_of : List AccessEntry → List (Text × ActionSet)
grants_of [] = []
grants_of (e ∷ access) =
    let rest = grants_of access in
    if e.kind == codes "repository" then (e.name, fold_names no_actions e.acts) ∷ rest else rest

-- The checks of the claims.
unfoldable pub check_claims : BearerVerifier → Claims → ℕ → Result Refusal Verified
check_claims self claims now = do
  guard (claims.iss == self.issuer) issuer_mismatch
  guard (audience_ok claims.aud self.service) audience_mismatch
  guard (not (ltb (saturating_add claims.exp leeway_secs) now)) expired
  guard (not (is_some_and claims.nbf (ltb (saturating_add now leeway_secs)))) not_yet_valid
  guard (not (ltb max_access_entries (length claims.access))) too_many_entries
  ok (record { subject = claims.sub; token_grants = grants_of claims.access })

unfoldable pub verify : Jose → BearerVerifier → Text → ℕ → Result Refusal Verified
verify jose self token now = do
  guard (not (ltb max_token_len (length token))) token_too_long
  (h, p, s) ← ok_or (three_segments (split b'.' token)) not_jws
  header ← decode_json jose.decode jose.header_of h
  guard (not (header.jwk || (header.jku || header.x5u))) key_carrying
  es256 ← ok_or (alg_of header.alg) unsupported_alg
  sig ← ok_or (jose.decode s) bad_signature
  guard (any (key_verifies jose es256 (take (length h + 1 + length p) token) sig) self.keys)
      signature_mismatch
  claims ← decode_json jose.decode jose.claims_of p
  check_claims self claims now

-- A comparison of two byte strings in constant time.
unfoldable pub ct_eq : Text → Text → Bool
ct_eq a b = nat_beq (length a) (length b) && nat_beq (diff_bytes 0 a b) 0

unfoldable pub grants_allow : List (Text × ActionSet) → Text → Action → Bool
grants_allow gs repo action = any (λ (name, set). ct_eq name repo && holds set action) gs
