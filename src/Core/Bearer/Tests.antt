-- ===== src/Core/Bearer/Tests.antt =====
-- crates/roci-core/src/auth/bearer.rs: a token under a decoder and a signature made up for the test.
use roci.Base.{List, Option, [], false, none, refl, some, ◌&&◌, ◌∷◌, ◌≡◌}
use roci.Base.Eq.{Text, codes, nat_eq, text_beq, text_eq, ◌==◌}
use roci.Base.Lists.{any}
use roci.Base.Result.{err}
use roci.Base.Tests.{if◌then◌else◌}
use roci.Base.Text.{split}
use roci.Base.Word.{saturating_add}
use roci.Core.Actions.{pull}
use roci.Core.Bearer.{
  AccessEntry, BearerVerifier, Claims, Header, Jose, Verified, alg_of, audience_ok, check_claims,
  decode_json, es256_key, expired, grants_allow, grants_of, key_verifies, many, rs256_key,
  three_segments, verify,
}
use roci.Core.Bearer.Scope.{grants_allow-grants_of, names_action}

abbrev test_header : Text → Option Header
test_header t =
    if t == codes "h"
    then some (record { alg = codes "ES256"; jku = false; jwk = false; x5u = false })
    else none

abbrev test_access : List AccessEntry
test_access =
    record { acts = codes "pull" ∷ []; kind = codes "repository"; name = codes "team/app" }
    ∷ record { acts = codes "*" ∷ []; kind = codes "registry"; name = codes "other" }
    ∷ []

abbrev test_claims : Claims
test_claims = record {
  access = test_access;
  aud = many (codes "roci" ∷ []);
  exp = 100;
  iss = codes "issuer";
  nbf = some 50;
  sub = some (codes "alice");
}

abbrev test_jose : Jose
test_jose = record {
  claims_of = λ t. if t == codes "p" then some test_claims else none;
  decode = some;
  header_of = test_header;
  signed_by = λ es256 key message sig. es256 && (message == codes "h.p" && sig == key);
}

abbrev test_verifier : BearerVerifier
test_verifier = record {
  issuer = codes "issuer";
  keys = rs256_key (codes "x") ∷ es256_key (codes "s") ∷ [];
  service = codes "roci";
}

abbrev test_verified : Verified
test_verified = record { subject = some (codes "alice"); token_grants = (codes "team/app", 1) ∷ [] }

too_late : verify test_jose test_verifier (codes "h.p.s") 131 ≡ err expired
unfolding verify split three_segments decode_json alg_of key_verifies check_claims audience_ok
    text_beq saturating_add
too_late = refl

grants_allow-grants_of_example :
    grants_allow (grants_of test_access) (codes "team/app") pull
    ≡ any
        (λ e.
          e.kind == codes "repository" && (e.name == codes "team/app" && names_action pull e.acts))
        test_access
grants_allow-grants_of_example = grants_allow-grants_of test_access (codes "team/app") pull
