-- ===== src/Core/Policy/Grants.antt =====
-- crates/roci-core/src/auth/policy.rs: what `grants` grants.
use roci.Base.{
  Bool, List, Option, [], ap, arith, false, inl, inr, map, none, not, refl, some, suc, sym, true, ℕ,
  ◌&&◌, ◌<◌, ◌||◌, ◌∙◌, ◌∷◌, ◌≡◌,
}
use roci.Base.Eq.{Text, text_eq}
use roci.Base.Lists.{any, contains}
use roci.Base.Tests.{Bool-cases, if◌then◌else◌, is_some_and, or-left}
use roci.Core.Actions.{Action, ActionSet, from_actions, holds, union}
use roci.Core.Actions.Laws.{holds-from_actions, holds_all, holds_none, listed, union_lem}
use roci.Core.Glob.{Tok, any_dirs, any_tail, glob_match, lit, star, tokenize}
use roci.Core.Policy.{
  AccessControlConfig, Grant, IdentityPolicy, RepositoryPolicy, Rule, applies, compile,
  compile_grant, compile_rule, config_groups_of, count, fold_grants, grants, grants_by, is_lit,
  rule_grants, winning_rule,
}
use roci.Core.Policy.Groups.{any-groups, any_group_of}
use roci.Core.Policy.Ranked.{IsWinner, IsWinner-map, IsWinner-same, mapped}
use roci.Core.Policy.Winner.{winning_rule-IsWinner}

-- Does a policy of the configuration name the user, or a group of the user?
abbrev pub names_user : AccessControlConfig → Text → List Text → IdentityPolicy → Bool
names_user ac name ldap_groups p =
    contains p.users name
    || (any_group_of name (contains p.groups) ac.groups || any (contains p.groups) ldap_groups)

-- The grants of the configuration, from the configured policy of the winning rule.
abbrev pub granted :
    AccessControlConfig → Option RepositoryPolicy → Option Text → List Text → Action → Bool
granted ac none name ldap_groups a = is_some_and name (contains ac.admins)
granted ac (some rp) none ldap_groups a = listed a rp.anonymous
granted ac (some rp) (some name) ldap_groups a =
    contains ac.admins name
    || (listed a rp.anonymous
        || (listed a rp.authenticated
            || any (λ p. names_user ac name ldap_groups p && listed a p.actions) rp.policies))

applies-compile :
    (ac : AccessControlConfig) (name : Text) (ldap_groups : List Text) (p : IdentityPolicy)
    → applies name (config_groups_of (compile ac) name) ldap_groups (compile_grant p)
      ≡ names_user ac name ldap_groups p
unfolding applies compile_grant
applies-compile ac name ldap_groups p =
    ap (λ b. contains p.users name || b) (any-groups (contains p.groups) name ac ldap_groups)

fold_grants-holds :
    (keep : Grant → Bool) (named_by : IdentityPolicy → Bool)
    → ((p : IdentityPolicy) → keep (compile_grant p) ≡ named_by p)
    → (a : Action) (s : ActionSet) (ps : List IdentityPolicy) → s < 8
    → holds (fold_grants keep s (map compile_grant ps)) a
      ≡ (holds s a || any (λ p. named_by p && listed a p.actions) ps)
unfolding fold_grants compile_grant
fold_grants-holds keep named_by same a s [] small = ground arith
fold_grants-holds keep named_by same a s (p ∷ ps) small =
    let (listed_p, small_p) = holds-from_actions a p.actions in
    let (or_holds, small_u) = union_lem a s (from_actions p.actions) small small_p in
    let next =
      ap
        (λ b.
          holds
            (fold_grants keep (if b then union s (from_actions p.actions) else s)
              (map compile_grant ps))
            a)
        (same p) in
    next ∙ elim (Bool-cases (named_by p)) [
      | inl named ↦
          rw
            (
              named,
              fold_grants-holds keep named_by same a (union s (from_actions p.actions)) ps small_u,
              or_holds,
              listed_p,
            )
            (ground arith)
      | inr unnamed ↦ rw (unnamed, fold_grants-holds keep named_by same a s ps small)
    ]

abbrev compiled : Option RepositoryPolicy → Option Rule
compiled = mapped compile_rule

-- How many bytes of a pattern stand for themselves, and how many wildcards it has.
abbrev pub literal_bytes : List Tok → ℕ
literal_bytes [] = 0
literal_bytes (lit b ∷ ts) = suc (literal_bytes ts)
literal_bytes (_ ∷ ts) = literal_bytes ts

abbrev pub wildcards : List Tok → ℕ
wildcards [] = 0
wildcards (lit b ∷ ts) = wildcards ts
wildcards (_ ∷ ts) = suc (wildcards ts)

count-literal_bytes : (ts : List Tok) → count is_lit ts ≡ literal_bytes ts
unfolding count
count-literal_bytes [] = refl
count-literal_bytes (lit b ∷ ts) = ap suc (count-literal_bytes ts)
count-literal_bytes (star ∷ ts) = count-literal_bytes ts
count-literal_bytes (any_tail ∷ ts) = count-literal_bytes ts
count-literal_bytes (any_dirs ∷ ts) = count-literal_bytes ts

count-wildcards : (ts : List Tok) → count (λ t. not (is_lit t)) ts ≡ wildcards ts
unfolding count
count-wildcards [] = refl
count-wildcards (lit b ∷ ts) = count-wildcards ts
count-wildcards (star ∷ ts) = ap suc (count-wildcards ts)
count-wildcards (any_tail ∷ ts) = ap suc (count-wildcards ts)
count-wildcards (any_dirs ∷ ts) = ap suc (count-wildcards ts)

-- The winner of the configuration: of the policies whose pattern matches, ranked by the literal bytes and
-- the wildcards of the pattern.
abbrev pub IsPolicyFor : Text → List RepositoryPolicy → Option RepositoryPolicy → Type 0
IsPolicyFor repo =
    IsWinner (λ rp. glob_match (tokenize rp.pattern) repo ≡ true)
      (λ rp. literal_bytes (tokenize rp.pattern)) (λ rp. wildcards (tokenize rp.pattern))

-- The compiled winner is that of the configuration.
winner-compile :
    (ac : AccessControlConfig) (repo : Text)
    → (o : Option RepositoryPolicy) × (winning_rule (compile ac) repo ≡ compiled o)
      × IsPolicyFor repo ac.repositories o
unfolding compile compile_rule
winner-compile ac repo =
    let (o, e, wins) =
      IsWinner-map compile_rule (λ r. glob_match r.toks repo ≡ true) (λ r. r.literal_len)
        (λ r. r.stars) ac.repositories (winning_rule (compile ac) repo)
        (winning_rule-IsWinner (compile ac) repo) in
    let counted : (rp : RepositoryPolicy)
        → (count is_lit (tokenize rp.pattern) ≡ literal_bytes (tokenize rp.pattern))
          × (count (λ t. not (is_lit t)) (tokenize rp.pattern) ≡ wildcards (tokenize rp.pattern)) =
      λ rp. (count-literal_bytes (tokenize rp.pattern), count-wildcards (tokenize rp.pattern)) in
    (
      o,
      e,
      IsWinner-same _ _ _ _ _ (λ rp. (counted rp).0) (λ rp. (counted rp).1) ac.repositories o wins,
    )

holds-rule_grants :
    (ac : AccessControlConfig) (rp : RepositoryPolicy) (name : Option Text)
    (ldap_groups : List Text) (a : Action)
    → is_some_and name (contains ac.admins) ≡ false
    → holds (rule_grants (compile ac) (compile_rule rp) name ldap_groups) a
      ≡ granted ac (some rp) name ldap_groups a
unfolding rule_grants compile_rule
holds-rule_grants ac rp none ldap_groups a h = (holds-from_actions a rp.anonymous).0
holds-rule_grants ac rp (some name) ldap_groups a h =
    let (listed_anon, small_anon) = holds-from_actions a rp.anonymous in
    let (listed_auth, small_auth) = holds-from_actions a rp.authenticated in
    let (or_holds, small) =
      union_lem a (from_actions rp.anonymous) (from_actions rp.authenticated) small_anon
        small_auth in
    rw
      (
        fold_grants-holds (applies name (config_groups_of (compile ac) name) ldap_groups)
            (names_user ac name ldap_groups) (applies-compile ac name ldap_groups) a
            (union (from_actions rp.anonymous) (from_actions rp.authenticated)) rp.policies small,
        or_holds,
        listed_anon,
        listed_auth,
        h,
      )
      (ground arith)

holds-grants_by :
    (ac : AccessControlConfig) (o : Option RepositoryPolicy) (name : Option Text)
    (ldap_groups : List Text) (a : Action)
    → is_some_and name (contains ac.admins) ≡ false
    → holds (grants_by (compile ac) (compiled o) name ldap_groups) a
      ≡ granted ac o name ldap_groups a
unfolding grants_by
holds-grants_by ac none name ldap_groups a h = holds_none a ∙ sym h
holds-grants_by ac (some rp) name ldap_groups a h = holds-rule_grants ac rp name ldap_groups a h

granted-admin :
    (ac : AccessControlConfig) (o : Option RepositoryPolicy) (name : Option Text)
    (ldap_groups : List Text) (a : Action)
    → is_some_and name (contains ac.admins) ≡ true
    → granted ac o name ldap_groups a ≡ true
granted-admin ac none name ldap_groups a h = h
granted-admin ac (some rp) none ldap_groups a h = cc
granted-admin ac (some rp) (some name) ldap_groups a h = or-left _ h

-- The actions that the compiled policy of a configuration grants on a repository are, for every identity,
-- those of the configured policy that wins for the repository, the first of the matching ones with the
-- most literal bytes and, among these, the fewest stars: none without one, every action for an admin, the
-- anonymous actions without a name, and with one the anonymous and authenticated actions with those of
-- each policy that names the user or one of the user's configured or directory groups.
pub holds-grants :
    (ac : AccessControlConfig) (repo : Text)
    → (o : Option RepositoryPolicy) × IsPolicyFor repo ac.repositories o
      × ((name : Option Text) (ldap_groups : List Text) (a : Action)
          → holds (grants (compile ac) name ldap_groups repo) a ≡ granted ac o name ldap_groups a)
unfolding grants compile
holds-grants ac repo =
    let (o, found, wins) = winner-compile ac repo in
    (
      o,
      wins,
      λ name ldap_groups a. elim (Bool-cases (is_some_and name (contains ac.admins))) [
        | inl admin ↦ rw (admin, holds_all a) (sym (granted-admin ac o name ldap_groups a admin))
        | inr no_admin ↦ rw (no_admin, found) (holds-grants_by ac o name ldap_groups a no_admin)
      ],
    )
