-- ===== src/Core/Authn/Tests.antt =====
-- Runs of the authentication of a request.
use roci.Base.{Option, false, none, refl, some, true, ◌≡◌, ◌⊎◌}
use roci.Base.Eq.{Text, codes, text_beq, text_eq}
use roci.Core.Auth.{Auth}
use roci.Core.Authn.{admit_principal, authenticate, authn_middleware, certified, early_data}
use roci.Core.Authn.Bare.{HasNoMechanism, IsBare}
use roci.Core.Authn.Resolved.{authn_middleware-nobody}
use roci.Core.Bearer.{Jose}
use roci.Core.Error.{too_early}
use roci.Core.Login.{Moment, new_credential_cache}
use roci.Core.Login.Tests.{both, plain_backends}

abbrev jose : Jose
jose = record {
  claims_of = λ t. none;
  decode = λ t. none;
  header_of = λ t. none;
  signed_by = λ pem alg signed signature. false;
}

abbrev auth : Auth
auth = record {
  bearer = none;
  has_htpasswd = true;
  has_ldap = true;
  mtls = false;
  policy = none;
  realm = codes "roci";
}

abbrev noon : Moment
noon = record { answered = 100; asked = 100 }

authn_middleware-nobody_example :
    IsBare plain_backends none
    × (◌≡◌ {A = Option Text} none none)
    × ((codes "/v2/app/tags/list" ≡ codes "/v2/" → ⊥) ⊎ HasNoMechanism auth)
unfolding authn_middleware authenticate admit_principal certified text_beq
authn_middleware-nobody_example =
    authn_middleware-nobody plain_backends both jose auth some noon (codes "/v2/app/tags/list") none
      none (new_credential_cache 60) refl

early_push : early_data (codes "PUT") (some (codes "1")) ≡ some too_early
unfolding early_data text_beq
early_push = refl
