-- ===== src/Config/Tests.antt =====
-- Prefixes accepted and refused by the configuration.
use roci.Core.Names
use roci.Base.{false, refl, true, ◌↔◌, ◌≡◌}
use roci.Base.Eq.{codes, text_beq}
use roci.Base.Result.{ok}
use roci.Base.Text.{split}
use roci.Config.{is_prefix_component, is_repo_prefix, is_sep, non_alnum_run, scan_prefix}
use roci.Config.Prefix.{is_repo_prefix_iff}
use roci.Core.Names.{is_lower_alnum}

program : Unit {0}
unfolding is_repo_prefix is_prefix_component scan_prefix is_sep non_alnum_run text_beq split
    is_lower_alnum
program = tt

accepts : is_repo_prefix (codes "team-a/x__y.z") ≡ true
unfolding program
accepts = refl

refuses_dots : is_repo_prefix (codes "a..b") ≡ false
unfolding program
refuses_dots = refl

refuses_slash : is_repo_prefix (codes "team/") ≡ false
unfolding program
refuses_slash = refl

is_repo_prefix_iff_example :
    (is_repo_prefix (codes "team/x__y") ≡ true)
    ↔ (Names.parse (codes "team/x__y") ≡ ok (codes "team/x__y"))
is_repo_prefix_iff_example = is_repo_prefix_iff (codes "team/x__y")
