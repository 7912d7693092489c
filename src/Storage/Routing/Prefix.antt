-- ===== src/Storage/Routing/Prefix.antt =====
-- crates/roci-storage/src/routing.rs, `matches_prefix`: a prefix ends where a component ends.
use mathlib.Core.Path.{subst}
use roci.Base.{
  Option, [], ap, arith, inl, inr, none, refl, sym, true, ◌++◌, ◌↔◌, ◌∙◌, ◌∷◌, ◌≡◌, ◌⊎◌,
}
use roci.Base.Eq.{Text, eq_iff, nat_eq, text_eq, ◌==◌}
use roci.Base.Lists.{get_elem?, length, length-append}
use roci.Base.Tests.{
  Option-cases, and-eq-true, and_intro, is_some, is_some_and, ltb, lt→ltb, nat_beq, or-cases,
  or-left, or-right,
}
use roci.Base.Text.{starts_with, strip_prefix, strip_prefix-append, strip_prefix-eq-some}
use roci.Storage.Routing.{matches_prefix}

get_elem?-append : (prefix s : Text) → get_elem? (prefix ++ s) (length prefix) ≡ get_elem? s 0
get_elem?-append [] s = refl
get_elem?-append (c ∷ prefix) s = get_elem?-append prefix s

slash_first :
    (s : Text)
    → is_some_and (get_elem? s 0) (λ c. nat_beq c b'/') ≡ true
    → (rest : Text) × (s ≡ b'/' ∷ rest)
slash_first [] h = cc
slash_first (c ∷ s) h = (s, ap (λ d. d ∷ s) (ground arith))

not_some : {A : Type 0} {o : Option A} → o ≡ none → is_some o ≡ true → ⊥
not_some h k = cc (sym (ap is_some h))

after_prefix :
    (repo prefix : Text)
    → is_some_and (get_elem? repo (length prefix)) (λ c. nat_beq c b'/') ≡ true
    → starts_with prefix repo ≡ true
    → (rest : Text) × (repo ≡ prefix ++ b'/' ∷ rest)
after_prefix repo prefix slash starts = elim (Option-cases (strip_prefix prefix repo)) [
  | inl nowhere ↦ absurd (not_some nowhere starts)
  | inr (s, found) ↦
      let split = strip_prefix-eq-some prefix repo s found in
      let first =
        sym (
          ap (λ o. is_some_and o (λ c. nat_beq c b'/'))
            (ap (λ r. get_elem? r (length prefix)) split ∙ get_elem?-append prefix s))
        ∙ slash in
      let (rest, e) = slash_first s first in (rest, split ∙ ap (λ t. prefix ++ t) e)
]

prefixed : (prefix rest : Text) → matches_prefix (prefix ++ b'/' ∷ rest) prefix ≡ true
unfolding matches_prefix
prefixed prefix rest =
    let repo = prefix ++ b'/' ∷ rest in
    let longer : ltb (length prefix) (length repo) ≡ true =
      lt→ltb _ _ (omega (arith, length-append prefix (b'/' ∷ rest))) in
    let slash : is_some_and (get_elem? repo (length prefix)) (λ c. nat_beq c b'/') ≡ true =
      rw (get_elem?-append prefix (b'/' ∷ rest)) refl in
    let starts : starts_with prefix repo ≡ true =
      ap is_some (strip_prefix-append prefix (b'/' ∷ rest)) in
    or-right (repo == prefix) (and_intro (and_intro longer slash) starts)

-- A name matches a prefix exactly if it is the prefix, or the prefix and a slash and anything behind.
pub matches_prefix_iff :
    (repo prefix : Text)
    → (matches_prefix repo prefix ≡ true)
      ↔ ((repo ≡ prefix) ⊎ ((rest : Text) × (repo ≡ prefix ++ b'/' ∷ rest)))
unfolding matches_prefix
matches_prefix_iff repo prefix = (
  λ h. elim (or-cases h) [
    | inl same ↦ inl ((eq_iff repo prefix).0 same)
    | inr behind ↦
        let (left, starts) = and-eq-true _ _ behind in
        let (longer, slash) = and-eq-true _ _ left in inr (after_prefix repo prefix slash starts)
  ],
  λ where_at. elim where_at [
    | inl same ↦ or-left _ ((eq_iff repo prefix).1 same)
    | inr (rest, e) ↦ subst (λ r. matches_prefix r prefix ≡ true) (sym e) (prefixed prefix rest)
  ],
)
