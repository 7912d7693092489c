-- ===== src/Core/Policy.antt =====
-- crates/roci-core/src/auth/policy.rs: the compiled access policy; crates/roci-config/src/lib.rs: its
-- configuration. A `HashSet` is the list of its members.
pub mod Ranked
pub mod Winner
pub mod Groups
pub mod Grants
mod Tests
use roci.Base.{
  Bool, List, Option, [], false, map, none, not, some, suc, true, ℕ, ◌&&◌, ◌++◌, ◌||◌, ◌∷◌,
}
use roci.Base.Eq.{Text, text_eq}
use roci.Base.Lists.{any, contains}
use roci.Base.Map.{Map, get, insert}
use roci.Base.Tests.{if◌then◌else◌, is_none_or, is_some_and, ltb, nat_beq, unwrap_or}
use roci.Core.Actions.{Action, ActionSet, all_actions, from_actions, no_actions, union}
use roci.Core.Glob.{Tok, glob_match, lit, tokenize}

pub record IdentityPolicy : Type 0 where
  pub users : List Text
  pub groups : List Text
  pub actions : List Action

pub record RepositoryPolicy : Type 0 where
  pub pattern : Text
  pub anonymous : List Action
  pub authenticated : List Action
  pub policies : List IdentityPolicy

pub record AccessControlConfig : Type 0 where
  pub admins : List Text
  pub groups : List (Text × List Text)
  pub repositories : List RepositoryPolicy

-- One tuple of `Rule::policies`.
pub record Grant : Type 0 where
  pub to_users : List Text
  pub to_groups : List Text
  pub set : ActionSet

pub record Rule : Type 0 where
  pub toks : List Tok
  pub literal_len : ℕ
  pub stars : ℕ
  pub anonymous : ActionSet
  pub authenticated : ActionSet
  pub policies : List Grant

pub record AccessPolicy : Type 0 where
  pub admins : List Text
  pub user_groups : Map Text (List Text)
  pub rules : List Rule

-- `user_groups.entry(user).or_default().push(group)`
unfoldable pub add_group : Text → Text → Map Text (List Text) → Map Text (List Text)
add_group group user m = insert user (unwrap_or (get user m) [] ++ group ∷ []) m

unfoldable pub add_users : Text → List Text → Map Text (List Text) → Map Text (List Text)
add_users group [] m = m
add_users group (u ∷ us) m = add_users group us (add_group group u m)

unfoldable pub add_groups : List (Text × List Text) → Map Text (List Text) → Map Text (List Text)
add_groups [] m = m
add_groups ((group, us) ∷ rest) m = add_groups rest (add_users group us m)

abbrev pub is_lit : Tok → Bool
is_lit (lit c) = true
is_lit _ = false

-- `iter().filter(p).count()`
unfoldable pub count : (Tok → Bool) → List Tok → ℕ
count p [] = 0
count p (t ∷ ts) = let n = count p ts in if p t then suc n else n

unfoldable pub compile_grant : IdentityPolicy → Grant
compile_grant p = record { set = from_actions p.actions; to_groups = p.groups; to_users = p.users }

unfoldable pub compile_rule : RepositoryPolicy → Rule
compile_rule r = record {
  anonymous = from_actions r.anonymous;
  authenticated = from_actions r.authenticated;
  literal_len = count is_lit (tokenize r.pattern);
  policies = map compile_grant r.policies;
  stars = count (λ t. not (is_lit t)) (tokenize r.pattern);
  toks = tokenize r.pattern;
}

unfoldable pub compile : AccessControlConfig → AccessPolicy
compile ac = record {
  admins = ac.admins;
  rules = map compile_rule ac.repositories;
  user_groups = add_groups ac.groups [];
}

-- `(r.literal_len, Reverse(r.stars)) > (b.literal_len, Reverse(b.stars))`
unfoldable pub better : Rule → Rule → Bool
better r b =
    ltb b.literal_len r.literal_len || (nat_beq r.literal_len b.literal_len && ltb r.stars b.stars)

-- The body of the loop of `winning_rule`: the best rule after `r`.
unfoldable pub next_best : Text → Option Rule → Rule → Option Rule
next_best repo best r =
    if not (glob_match r.toks repo)
    then best
    else if is_none_or best (better r)
    then some r
    else best

-- The loop, from the best rule so far.
unfoldable pub best_rule : Text → Option Rule → List Rule → Option Rule
best_rule repo best [] = best
best_rule repo best (r ∷ rules) = best_rule repo (next_best repo best r) rules

unfoldable pub winning_rule : AccessPolicy → Text → Option Rule
winning_rule self repo = best_rule repo none self.rules

unfoldable pub applies : Text → (config_groups ldap_groups : List Text) → Grant → Bool
applies name config_groups ldap_groups p =
    contains p.to_users name || any (contains p.to_groups) (config_groups ++ ldap_groups)

-- The `filter` and `fold` of `grants`.
unfoldable pub fold_grants : (Grant → Bool) → ActionSet → List Grant → ActionSet
fold_grants p s [] = s
fold_grants p s (g ∷ gs) = fold_grants p (if p g then union s g.set else s) gs

unfoldable pub config_groups_of : AccessPolicy → Text → List Text
config_groups_of self name = unwrap_or (get name self.user_groups) []

-- `grants`, once there is a rule.
unfoldable pub rule_grants : AccessPolicy → Rule → Option Text → List Text → ActionSet
rule_grants self rule none ldap_groups = rule.anonymous
rule_grants self rule (some name) ldap_groups =
    fold_grants (applies name (config_groups_of self name) ldap_groups)
      (union rule.anonymous rule.authenticated) rule.policies

unfoldable pub grants_by : AccessPolicy → Option Rule → Option Text → List Text → ActionSet
grants_by self none name ldap_groups = no_actions
grants_by self (some rule) name ldap_groups = rule_grants self rule name ldap_groups

unfoldable pub grants : AccessPolicy → Option Text → List Text → Text → ActionSet
grants self name ldap_groups repo =
    if is_some_and name (contains self.admins)
    then all_actions
    else grants_by self (winning_rule self repo) name ldap_groups
