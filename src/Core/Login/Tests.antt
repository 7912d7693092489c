-- ===== src/Core/Login/Tests.antt =====
-- Runs of the logins: a password is its own hash, and the directory knows one user.
use roci.Base.{[], none, refl, some, true, ℕ, ◌&&◌, ◌∷◌, ◌≡◌, ◌≤◌}
use roci.Base.Eq.{codes, text_beq}
use roci.Base.Lists.{length}
use roci.Base.Map.{get, insert}
use roci.Base.Result.{err}
use roci.Base.Tests.{if◌then◌else◌}
use roci.Core.Auth.{Principal, by_ldap, user}
use roci.Core.Login.{
  Backends, Logins, Moment, ask_directory, check_password, credential_get, credential_insert,
  credential_key, htpasswd_verify, ldap_authenticate, log_in, new_credential_cache, remember,
  unexpired,
}
use roci.Core.Login.Bounded.{Attempt, cache_after, length-cache_after}
use roci.Core.Login.Genuine.{Accepted, log_in-cache_after}

abbrev pub plain_backends : Backends
plain_backends = record {
  base64 = λ t. some t;
  bcrypt_verify = λ password hash. text_beq password hash;
  from_utf8 = λ t. some t;
  search_and_bind = λ m name password.
      if text_beq name (codes "dora") && text_beq password (codes "pw")
      then some (codes "devs" ∷ [])
      else none;
  sha256 = λ t. t;
  sha256-injective = λ s t e. e;
  to_str = λ t. some t;
}

abbrev pub both : Logins
both = record {
  htpasswd = some (record { dummy = codes "x"; users = (codes "bob", codes "secret") ∷ [] });
  ldap = true;
}

abbrev at : ℕ → Moment
at t = record { answered = t; asked = t }

-- Dora at 100, with entries that live for 60.
abbrev dora : Attempt
dora = record { moment = at 100; name = codes "dora"; password = codes "pw" }

abbrev later : Attempt
later = record { moment = at 130; name = codes "dora"; password = codes "pw" }

abbrev dora_user : Principal
dora_user = user (codes "dora") (codes "devs" ∷ []) by_ldap

log_in-cache_after_example : Accepted plain_backends both 60 later dora_user
unfolding log_in credential_get credential_key unexpired remember credential_insert check_password
    htpasswd_verify ask_directory ldap_authenticate cache_after new_credential_cache get insert
    text_beq
log_in-cache_after_example =
    log_in-cache_after plain_backends both 60 (dora ∷ []) later dora_user (refl, tt) refl refl

length-cache_after_example :
    length (cache_after plain_backends both (dora ∷ later ∷ []) (new_credential_cache 60)).cached
    ≤ 4096
length-cache_after_example = length-cache_after plain_backends both 60 (dora ∷ later ∷ [])

bad_password_stops :
    (log_in plain_backends both (at 100) (codes "bob") (codes "pw") (new_credential_cache 60)).0
    ≡ err (codes "htpasswd")
unfolding log_in credential_get credential_key unexpired remember credential_insert check_password
    htpasswd_verify ask_directory ldap_authenticate cache_after new_credential_cache get insert
    text_beq
bad_password_stops = refl
