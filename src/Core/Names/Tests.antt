-- ===== src/Core/Names/Tests.antt =====
-- Names accepted and refused.
use roci.Base.{refl, ◌↔◌, ◌≡◌}
use roci.Base.Eq.{codes, text_beq}
use roci.Base.Result.{err, ok}
use roci.Base.Text.{split}
use roci.Core.Error.{name_invalid, spec}
use roci.Core.Names.{
  is_lower_alnum, is_separator, parse, scan, separator_run, valid_separator_run,
  validate_components, validate_name_component,
}
use roci.Core.Names.Decides.{IsName, parse_iff}

program : Unit {0}
unfolding parse validate_components validate_name_component scan separator_run valid_separator_run
    is_separator is_lower_alnum text_beq split
program = tt

accepts : parse (codes "my-repo.name_1/sub__part") ≡ ok (codes "my-repo.name_1/sub__part")
unfolding program
accepts = refl

refuses_dots : parse (codes "foo...bar") ≡ err (spec name_invalid)
unfolding program
refuses_dots = refl

refuses_parent : parse (codes "a/../b") ≡ err (spec name_invalid)
unfolding program
refuses_parent = refl

parse_iff_example :
    (parse (codes "a/b-c") ≡ ok (codes "a/b-c"))
    ↔ ((codes "a/b-c" ≡ codes "a/b-c") × IsName (codes "a/b-c"))
parse_iff_example = parse_iff (codes "a/b-c") (codes "a/b-c")
