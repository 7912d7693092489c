-- ===== src/Core/Auth/Allows.antt =====
-- crates/roci-core/src/auth/mod.rs: who is allowed, in terms of the configuration.
use roci.Base.{List, Option, [], false, none, refl, some, true, ◌≡◌}
use roci.Base.Eq.{Text, text_eq}
use roci.Core.Actions.{Action, ActionSet}
use roci.Core.Auth.{Auth, AuthMethod, allows, nobody, reload_access_control, token_bearer, user}
use roci.Core.Policy.{AccessControlConfig, RepositoryPolicy}
use roci.Core.Policy.Grants.{IsPolicyFor, granted, holds-grants}

-- After the access control is loaded, what a token allows is as before; without a configuration every
-- user and no anonymous client is allowed; and with one a user or an anonymous client is allowed
-- exactly what the configured policy grants that wins for the repository, the first of the matching
-- ones with the most literal bytes and, among these, the fewest wildcards.
pub allows-reload_access_control :
    (self : Auth) (repo : Text) (a : Action)
    → ((subject : Option Text) (gs : List (Text × ActionSet)) (c : Option AccessControlConfig)
        → allows (reload_access_control self c) (token_bearer subject gs) repo a
          ≡ allows self (token_bearer subject gs) repo a)
      × ((name : Text) (ldap_groups : List Text) (m : AuthMethod)
          → allows (reload_access_control self none) (user name ldap_groups m) repo a ≡ true)
      × (allows (reload_access_control self none) nobody repo a ≡ false)
      × ((ac : AccessControlConfig)
          → (o : Option RepositoryPolicy) × IsPolicyFor repo ac.repositories o
            × ((name : Text) (ldap_groups : List Text) (m : AuthMethod)
                → allows (reload_access_control self (some ac)) (user name ldap_groups m) repo a
                  ≡ granted ac o (some name) ldap_groups a)
            × (allows (reload_access_control self (some ac)) nobody repo a
                ≡ granted ac o none [] a))
unfolding allows reload_access_control
allows-reload_access_control self repo a = (
  λ subject gs c. refl,
  λ name ldap_groups m. refl,
  refl,
  λ ac.
      let (o, wins, same) = holds-grants ac repo in
      (o, wins, λ name ldap_groups m. same (some name) ldap_groups a, same none [] a),
)
