-- ===== src/Core/Glob/Tests.antt =====
-- crates/roci-core/src/auth/policy.rs: the cases of the test `glob_semantics`.
use Prim.Native.String.{String}
use roci.Base.{Bool, [], false, refl, true, ◌↔◌, ◌∷◌, ◌≡◌}
use roci.Base.Eq.{codes, text_beq}
use roci.Base.Text.{split}
use roci.Core.Glob.{
  any_dirs, cell, component_toks, first_row, glob_match, last_cell, lit, next_row, rows, tokenize,
  tokenize_from,
}
use roci.Core.Glob.Matching.{Matches, glob_match_iff}

matches : String → String → Bool
unfolding glob_match rows next_row first_row cell last_cell tokenize tokenize_from component_toks
    split
matches pattern name = glob_match (tokenize (codes pattern)) (codes name)

one_component : matches "*" "team/app" ≡ false
unfolding matches text_beq
one_component = refl

inner_dirs : matches "a/**/b" "a/x/y/b" ≡ true
unfolding matches text_beq
inner_dirs = refl

inner_dirs_none : matches "a/**/b" "a/b" ≡ true
unfolding matches text_beq
inner_dirs_none = refl

inner_dirs_joined : matches "a/**/b" "a/xb" ≡ false
unfolding matches text_beq
inner_dirs_joined = refl

tail_needs_slash : matches "team/**" "team" ≡ false
unfolding matches text_beq
tail_needs_slash = refl

glob_match_iff_example :
    (glob_match (lit b'a' ∷ any_dirs ∷ []) (codes "a/b") ≡ true)
    ↔ Matches (lit b'a' ∷ any_dirs ∷ []) (codes "a/b")
glob_match_iff_example = glob_match_iff (lit b'a' ∷ any_dirs ∷ []) (codes "a/b")
