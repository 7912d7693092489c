-- ===== src/Core/Policy/Tests.antt =====
-- crates/roci-core/src/auth/policy.rs: cases of its tests.
use Prim.Native.String.{String}
use roci.Base.{List, Option, [], refl, some, true, ◌∷◌, ◌≡◌}
use roci.Base.Eq.{Text, codes, text_beq, text_eq}
use roci.Base.Map.{get, insert}
use roci.Base.Text.{split}
use roci.Core.Actions.{
  Action, ActionSet, delete_action, fold_actions, from_actions, holds, of, pull, push, union,
}
use roci.Core.Glob.{
  cell, component_toks, first_row, glob_match, last_cell, next_row, rows, tokenize, tokenize_from,
}
use roci.Core.Policy.{
  AccessControlConfig, RepositoryPolicy, add_group, add_groups, add_users, applies, best_rule,
  better, compile, compile_grant, compile_rule, config_groups_of, count, fold_grants, grants,
  grants_by, next_best, rule_grants, winning_rule,
}
use roci.Core.Policy.Grants.{IsPolicyFor, granted, holds-grants}
use roci.Core.Policy.Ranked.{IsWinner}
use roci.Core.Policy.Winner.{winning_rule-IsWinner}

abbrev test_config : AccessControlConfig
test_config = record {
  admins = codes "root" ∷ [];
  groups = (codes "devs", codes "bob" ∷ []) ∷ [];
  repositories =
      record {
        anonymous = pull ∷ [];
        authenticated = [];
        pattern = codes "**";
        policies = record { actions = push ∷ []; groups = codes "devs" ∷ []; users = [] } ∷ [];
      }
      ∷ record {
        anonymous = delete_action ∷ [];
        authenticated = [];
        pattern = codes "team/*";
        policies = [];
      }
      ∷ [];
}

granted_to : Option Text → String → ActionSet
unfolding grants compile grants_by winning_rule best_rule next_best glob_match rows compile_rule
    tokenize tokenize_from split component_toks next_row first_row get insert fold_actions
    from_actions of union cell last_cell add_group add_groups add_users applies better compile_grant
    config_groups_of count fold_grants rule_grants
granted_to name repo = grants (compile test_config) name [] (codes repo)

bob_pushes : granted_to (some (codes "bob")) "x" ≡ 3
unfolding granted_to text_beq
bob_pushes = refl

most_specific : granted_to (some (codes "bob")) "team/x" ≡ 4
unfolding granted_to text_beq
most_specific = refl

admin_holds_all : granted_to (some (codes "root")) "team/x" ≡ 7
unfolding granted_to text_beq
admin_holds_all = refl

winning_rule-IsWinner_example :
    IsWinner
      (λ r. glob_match r.toks (codes "team/x") ≡ true)
      (λ r. r.literal_len)
      (λ r. r.stars)
      (compile test_config).rules
      (winning_rule (compile test_config) (codes "team/x"))
winning_rule-IsWinner_example = winning_rule-IsWinner (compile test_config) (codes "team/x")

holds-grants_example :
    (o : Option RepositoryPolicy) × IsPolicyFor (codes "team/x") test_config.repositories o
    × ((name : Option Text) (ldap_groups : List Text) (a : Action)
        → holds (grants (compile test_config) name ldap_groups (codes "team/x")) a
          ≡ granted test_config o name ldap_groups a)
holds-grants_example = holds-grants test_config (codes "team/x")
