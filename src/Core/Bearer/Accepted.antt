-- ===== src/Core/Bearer/Accepted.antt =====
-- crates/roci-core/src/auth/bearer.rs: what a token must be, told apart from the tests of `verify`.
use mathlib.Core.Path.{subst}
use roci.Base.{
  Bool, List, Option, [], ap, arith, false, inl, inr, none, refl, some, sym, true, ℕ, ◌++◌, ◌∷◌,
  ◌≡◌, ◌≤◌,
}
use roci.Base.Eq.{Text, codes, eq_iff, nat_eq, text_eq, ◌==◌}
use roci.Base.Lists.{any, contains, length}
use roci.Base.Map.{keys}
use roci.Base.Tests.{Bool-cases, is_some_and, ltb}
use roci.Base.Word.{saturating_add}
use roci.Core.Bearer.{
  Audience, BearerVerifier, Claims, Header, Jose, Verified, VerifyKey, alg_of, audience_ok,
  es256_key, grants_of, key_verifies, many, one, rs256_key,
}

abbrev pub IsRead : {T : Type 0} → (Text → Option Text) → (Text → Option T) → Text → T → Type 0
IsRead decode parse_json segment v =
    (bytes : Text) × (decode segment ≡ some bytes) × (parse_json bytes ≡ some v)

-- The audience is the service, or has it among others.
abbrev pub IsAudience : Audience → Text → Type 0
IsAudience (one a) service = a ≡ service
IsAudience (many v) service =
    (before : List Text) × (after : List Text) × (v ≡ before ++ service ∷ after)

-- There is no such time, or it is at most the bound.
abbrev pub IsReached : Option ℕ → ℕ → Type 0
IsReached none bound = Unit {0}
IsReached (some t) bound = t ≤ bound

-- What the claims of an accepted token say.
abbrev pub AreAccepted : BearerVerifier → Claims → ℕ → Verified → Type 0
AreAccepted self claims now v =
    (claims.iss ≡ self.issuer)
    × IsAudience claims.aud self.service
    × (now ≤ saturating_add claims.exp 30)
    × IsReached claims.nbf (saturating_add now 30)
    × (length claims.access ≤ 64)
    × (v ≡ record { subject = claims.sub; token_grants = grants_of claims.access })

-- The two algorithms, each with a configured key of its own kind that verifies the signature.
pub data IsSigned (jose : Jose) (keys : List VerifyKey) (signed sig : Text) : Text → Type 0 where
  by_es256 :
      (pk : Text) (before after : List VerifyKey)
      → keys ≡ before ++ es256_key pk ∷ after
      → jose.signed_by true pk signed sig ≡ true
      → IsSigned jose keys signed sig (codes "ES256")
  by_rs256 :
      (pk : Text) (before after : List VerifyKey)
      → keys ≡ before ++ rs256_key pk ∷ after
      → jose.signed_by false pk signed sig ≡ true
      → IsSigned jose keys signed sig (codes "RS256")

unfoldable pub IsAccepted : Jose → BearerVerifier → Text → ℕ → Verified → Type 0
IsAccepted jose self token now v =
    (h : Text) × (p : Text) × (s : Text) × (header : Header) × (sig : Text) × (claims : Claims)
    × (length token ≤ 8192)
    × (token ≡ h ++ b'.' ∷ p ++ b'.' ∷ s)
    × IsRead jose.decode jose.header_of h header
    × (header.jwk ≡ false)
    × (header.jku ≡ false)
    × (header.x5u ≡ false)
    × (jose.decode s ≡ some sig)
    × IsSigned jose self.keys (h ++ b'.' ∷ p) sig header.alg
    × IsRead jose.decode jose.claims_of p claims
    × AreAccepted self claims now v

contains-split :
    (x : Text) (xs : List Text)
    → contains xs x ≡ true
    → (before : List Text) × (after : List Text) × (xs ≡ before ++ x ∷ after)
contains-split x [] h = cc
contains-split x (y ∷ xs) h = elim (Bool-cases (y == x)) [
  | inl same ↦ ([], xs, ap (λ z. z ∷ xs) ((eq_iff y x).0 same))
  | inr other ↦
      let (before, after, e) = contains-split x xs (ground arith) in
      (y ∷ before, after, ap (λ zs. y ∷ zs) e)
]

pub audience_ok-IsAudience :
    (aud : Audience) (service : Text) → audience_ok aud service ≡ true → IsAudience aud service
unfolding audience_ok
audience_ok-IsAudience (one a) service h = (eq_iff a service).0 h
audience_ok-IsAudience (many v) service h = contains-split service v h

pub not_ahead-IsReached :
    (o : Option ℕ) (bound : ℕ) → is_some_and o (ltb bound) ≡ false → IsReached o bound
not_ahead-IsReached none bound h = tt
not_ahead-IsReached (some t) bound h = ground arith

alg_of-es256 : (alg : Text) → alg_of alg ≡ some true → alg ≡ codes "ES256"
unfolding alg_of
alg_of-es256 alg h = elim (Bool-cases (alg == codes "ES256")) [
  | inl es ↦ (eq_iff alg (codes "ES256")).0 es
  | inr no_es ↦ ground arith
]

alg_of-rs256 : (alg : Text) → alg_of alg ≡ some false → alg ≡ codes "RS256"
unfolding alg_of
alg_of-rs256 alg h = elim (Bool-cases (alg == codes "RS256")) [
  | inl rs ↦ (eq_iff alg (codes "RS256")).0 rs
  | inr no_rs ↦ ground arith
]

module _ (jose : Jose) (keys : List VerifyKey) (signed sig alg : Text) where
  key_verifies-IsSigned :
      (before after : List VerifyKey) (k : VerifyKey) (es256 : Bool)
      → alg_of alg ≡ some es256
      → keys ≡ before ++ k ∷ after
      → key_verifies jose es256 signed sig k ≡ true
      → IsSigned jose keys signed sig alg
  unfolding key_verifies
  key_verifies-IsSigned before after (es256_key pk) true named e h =
      subst (IsSigned jose keys signed sig) (sym (alg_of-es256 alg named))
        (by_es256 pk before after e h)
  key_verifies-IsSigned before after (rs256_key pk) false named e h =
      subst (IsSigned jose keys signed sig) (sym (alg_of-rs256 alg named))
        (by_rs256 pk before after e h)
  key_verifies-IsSigned before after (es256_key pk) false named e h = cc
  key_verifies-IsSigned before after (rs256_key pk) true named e h = cc

any-split :
    (test : VerifyKey → Bool) (keys : List VerifyKey)
    → any test keys ≡ true
    → (before : List VerifyKey) × (k : VerifyKey) × (after : List VerifyKey) × (keys
        ≡ before ++ k ∷ after)
      × (test k ≡ true)
any-split test [] h = cc
any-split test (k ∷ ks) h = elim (Bool-cases (test k)) [
  | inl here ↦ ([], k, ks, refl, here)
  | inr other ↦
      let (before, k', after, e, found) = any-split test ks (ground arith) in
      (k ∷ before, k', after, ap (λ zs. k ∷ zs) e, found)
]

pub any-IsSigned :
    (jose : Jose) (keys : List VerifyKey) (signed sig alg : Text) (es256 : Bool)
    → alg_of alg ≡ some es256
    → any (key_verifies jose es256 signed sig) keys ≡ true
    → IsSigned jose keys signed sig alg
any-IsSigned jose keys signed sig alg es256 named h =
    let (before, k, after, e, verified) = any-split (key_verifies jose es256 signed sig) keys h in
    key_verifies-IsSigned jose keys signed sig alg before after k es256 named e verified
