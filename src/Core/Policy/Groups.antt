-- ===== src/Core/Policy/Groups.antt =====
-- crates/roci-core/src/auth/policy.rs: `user_groups`, the groups of the configuration turned around.
use roci.Base.{
  Bool, List, [], ap, arith, false, inl, inr, refl, sym, ◌&&◌, ◌++◌, ◌||◌, ◌∙◌, ◌∷◌, ◌≡◌,
}
use roci.Base.Eq.{Text, eq_iff, nat_eq, text_eq, ◌==◌}
use roci.Base.Lists.{any, contains}
use roci.Base.Map.{Map, get, get-insert}
use roci.Base.Tests.{Bool-cases, if◌then◌else◌, unwrap_or}
use roci.Core.Policy.{
  AccessControlConfig, add_group, add_groups, add_users, compile, config_groups_of,
}

abbrev groups_in : Map Text (List Text) → Text → List Text
groups_in m name = unwrap_or (get name m) []

any-append : (f : Text → Bool) (xs ys : List Text) → any f (xs ++ ys) ≡ (any f xs || any f ys)
any-append f [] ys = refl
any-append f (x ∷ xs) ys = ground (arith, any-append f xs ys)

or-false : (a : Bool) → (a || false) ≡ a
or-false a = ground arith

or_assoc : (a b c : Bool) → ((a || b) || c) ≡ (a || (b || c))
or_assoc a b c = ground arith

groups_in-add_group :
    (name group user : Text) (m : Map Text (List Text))
    → groups_in (add_group group user m) name
      ≡ (if user == name then groups_in m user ++ group ∷ [] else groups_in m name)
unfolding add_group
groups_in-add_group name group user m = elim (Bool-cases (user == name)) [
  | inl same ↦ rw (get-insert user name (groups_in m user ++ group ∷ []) m, same)
  | inr other ↦ rw (get-insert user name (groups_in m user ++ group ∷ []) m, other)
]

any-add_group :
    (f : Text → Bool) (name group user : Text) (m : Map Text (List Text))
    → any f (groups_in (add_group group user m) name)
      ≡ (any f (groups_in m name) || (user == name && f group))
any-add_group f name group user m = elim (Bool-cases (user == name)) [
  | inl same ↦ rw (
    groups_in-add_group name group user m,
    same,
    any-append f (groups_in m user) (group ∷ []),
    (eq_iff user name).0 same,
    or-false (f group),
  )
  | inr other ↦
      rw (groups_in-add_group name group user m, other, or-false (any f (groups_in m name)))
]

any-add_users :
    (f : Text → Bool) (name group : Text) (us : List Text) (m : Map Text (List Text))
    → any f (groups_in (add_users group us m) name)
      ≡ (any f (groups_in m name) || (contains us name && f group))
unfolding add_users
any-add_users f name group [] m = sym (or-false (any f (groups_in m name)))
any-add_users f name group (u ∷ us) m =
    ground
      (arith, any-add_users f name group us (add_group group u m), any-add_group f name group u m)

-- The groups that name the user, by a test on them.
abbrev pub any_group_of : Text → (Text → Bool) → List (Text × List Text) → Bool
any_group_of name f [] = false
any_group_of name f ((group, us) ∷ rest) = (contains us name && f group) || any_group_of name f rest

any-add_groups :
    (f : Text → Bool) (name : Text) (groups : List (Text × List Text)) (m : Map Text (List Text))
    → any f (groups_in (add_groups groups m) name)
      ≡ (any f (groups_in m name) || any_group_of name f groups)
unfolding add_groups
any-add_groups f name [] m = sym (or-false (any f (groups_in m name)))
any-add_groups f name ((group, us) ∷ rest) m =
    ground
      (arith, any-add_groups f name rest (add_users group us m), any-add_users f name group us m)

-- A test holds of some compiled group of a user exactly when it holds of some configured group that
-- lists the user.
pub config_groups_of-compile :
    (f : Text → Bool) (name : Text) (ac : AccessControlConfig)
    → any f (config_groups_of (compile ac) name) ≡ any_group_of name f ac.groups
unfolding config_groups_of compile get
config_groups_of-compile f name ac = any-add_groups f name ac.groups []

pub any-groups :
    (f : Text → Bool) (name : Text) (ac : AccessControlConfig) (ldap_groups : List Text)
    → any f (config_groups_of (compile ac) name ++ ldap_groups)
      ≡ (any_group_of name f ac.groups || any f ldap_groups)
any-groups f name ac ldap_groups =
    any-append f (config_groups_of (compile ac) name) ldap_groups
    ∙ ap (λ b. b || any f ldap_groups) (config_groups_of-compile f name ac)
