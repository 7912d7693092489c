-- ===== src/Core/Authn/Bare.antt =====
-- crates/roci-core/src/auth/mod.rs, `is_empty_basic` and `has_header_mechanism`: a request without
-- credentials and a server without a mechanism, told apart from the tests of the code.
use roci.Base.{
  Bool, Option, ap, arith, false, inl, inr, map, none, refl, some, true, ◌&&◌, ◌++◌, ◌∙◌, ◌∷◌, ◌≡◌,
  ◌⊎◌,
}
use roci.Base.Eq.{Text, codes, eq_iff, nat_eq, text_beq_iff, text_eq, ◌==◌}
use roci.Base.Tests.{Bool-cases, Option-cases, and-eq-true, and_then, is_some_and}
use roci.Base.Text.{ascii_lower, split_once, split_once-eq-some}
use roci.Core.Auth.{Auth, has_header_mechanism}
use roci.Core.Authn.{eq_ignore_case, is_empty_basic, presented}
use roci.Core.Login.{Backends}
use roci.Core.Login.Tests.{both}
use roci.Core.Ranges.{trim}

-- `Basic` in any case, a space, and a base64 that is a colon alone: no user and no password.
abbrev pub IsEmptyPair : Backends → Text → Type 0
IsEmptyPair b value =
    (scheme : Text) × (cred : Text) × (b.to_str value ≡ some (scheme ++ b' ' ∷ cred))
    × (map ascii_lower scheme ≡ codes "basic")
    × (b.base64 (trim cred) ≡ some (codes ":"))

-- No header, or one with the empty pair.
abbrev pub IsBare : Backends → Option Text → Type 0
IsBare b none = Unit {0}
IsBare b (some value) = IsEmptyPair b value

-- Neither a password file nor a directory nor a verifier of tokens.
abbrev pub HasNoMechanism : Auth → Type 0
HasNoMechanism auth = (auth.has_htpasswd ≡ false) × (auth.has_ldap ≡ false) × (auth.bearer ≡ none)

without_mechanism : (auth : Auth) → has_header_mechanism auth ≡ false → HasNoMechanism auth
unfolding has_header_mechanism
without_mechanism auth h = elim (Option-cases auth.bearer) [
  | inl without ↦ (ground arith, ground arith, without)
  | inr (b, there) ↦ ground arith
]

contradict : {b : Bool} → b ≡ true → b ≡ false → ⊥
contradict h k = cc

pub elsewhere_or_open :
    (path : Text) (auth : Auth)
    → (path == codes "/v2/" && has_header_mechanism auth) ≡ false
    → (path ≡ codes "/v2/" → ⊥) ⊎ HasNoMechanism auth
elsewhere_or_open path auth h = elim (Bool-cases (path == codes "/v2/")) [
  | inl here ↦ inr (without_mechanism auth (ground arith))
  | inr other ↦ inl (λ e. contradict ((eq_iff path (codes "/v2/")).1 e) other)
]

some_and :
    {A : Type 0} (o : Option A) (f : A → Bool)
    → is_some_and o f ≡ true
    → (a : A) × (o ≡ some a) × (f a ≡ true)
some_and none f h = cc
some_and (some a) f h = (a, refl, h)

split_at :
    (o : Option Text) (scheme cred : Text)
    → and_then o (split_once b' ') ≡ some (scheme, cred)
    → o ≡ some (scheme ++ b' ' ∷ cred)
split_at none scheme cred h = cc
split_at (some text) scheme cred h = ap some (split_once-eq-some b' ' text scheme cred h).0

is_empty_basic-IsEmptyPair :
    (b : Backends) (value : Text) → is_empty_basic b value ≡ true → IsEmptyPair b value
unfolding is_empty_basic eq_ignore_case
is_empty_basic-IsEmptyPair b value h =
    let ((scheme, cred), parts, both) =
      some_and (and_then (b.to_str value) (split_once b' ')) _ h in
    let (basic, pair) = and-eq-true _ _ both in
    let (text, decoded, colon) = some_and (b.base64 (trim cred)) _ pair in
    (
      scheme,
      cred,
      split_at (b.to_str value) scheme cred parts,
      (text_beq_iff (map ascii_lower scheme) (codes "basic")).0 basic,
      decoded ∙ ap some ((text_beq_iff text (codes ":")).0 colon),
    )

pub presented-IsBare :
    (b : Backends) (authorization : Option Text)
    → presented b authorization ≡ none
    → IsBare b authorization
presented-IsBare b none h = tt
presented-IsBare b (some value) h = elim (Bool-cases (is_empty_basic b value)) [
  | inl bare ↦ is_empty_basic-IsEmptyPair b value bare
  | inr shown ↦ ground arith
]
