-- ===== src/Core/Bearer/Scope.antt =====
-- crates/roci-core/src/auth/bearer.rs: what a token's access claims allow.
use mathlib.Core.Path.{subst}
use roci.Base.{
  Bool, List, [], arith, false, inl, inr, refl, sym, true, ◌&&◌, ◌<◌, ◌||◌, ◌∙◌, ◌∷◌, ◌≡◌,
}
use roci.Base.Bits.{diff_bytes, diff_bytes-eq-zero, diff_bytes_self}
use roci.Base.Eq.{Text, codes, eq_iff, nat_eq, text_beq, text_eq, ◌==◌}
use roci.Base.Lists.{any, length}
use roci.Base.Tests.{Bool-cases, and-eq-true, nat_beq, nat_beq_iff}
use roci.Core.Actions.{Action, ActionSet, delete_action, holds, no_actions, of, pull, push, union}
use roci.Core.Actions.Laws.{holds_none, union_lem}
use roci.Core.Bearer.{AccessEntry, ct_eq, fold_names, grants_allow, grants_of, named_set}

ct_eq_self : (a : Text) → ct_eq a a ≡ true
unfolding ct_eq
ct_eq_self a = ground (arith, diff_bytes_self a)

ct_eq-eq : (a b : Text) → ct_eq a b ≡ true → a ≡ b
unfolding ct_eq
ct_eq-eq a b h =
    let (same_length, same_bytes) =
      and-eq-true (nat_beq (length a) (length b)) (nat_beq (diff_bytes 0 a b) 0) h in
    (diff_bytes-eq-zero 0 a b ((nat_beq_iff (length a) (length b)).0 same_length)
      ((nat_beq_iff (diff_bytes 0 a b) 0).0 same_bytes)).1

ct_eq_lem : (a b : Text) → ct_eq a b ≡ (a == b)
ct_eq_lem a b = elim (Bool-cases (ct_eq a b)) [
  | inl same ↦ same ∙ sym ((eq_iff a b).1 (ct_eq-eq a b same))
  | inr differ ↦ elim (Bool-cases (a == b)) [
    | inl same ↦ let e = ct_eq_self a in let ab = (eq_iff a b).0 same in let d = differ in cc
    | inr h ↦ differ ∙ sym h
  ]
]

abbrev pub action_name : Action → Text
action_name pull = codes "pull"
action_name push = codes "push"
action_name delete_action = codes "delete"

-- Does a claim name the action, or every action?
abbrev pub names_action : Action → List Text → Bool
names_action a acts = any (λ x. x == action_name a || x == codes "*") acts

abbrev NamesRight : Action → Text → Type 0
NamesRight a x =
    (holds (named_set x) a ≡ (x == action_name a || x == codes "*")) × (named_set x < 8)

pull_lem : (a : Action) → NamesRight a (codes "pull")
unfolding named_set holds of text_beq
pull_lem pull = (refl, omega arith)
pull_lem push = (refl, omega arith)
pull_lem delete_action = (refl, omega arith)

push_lem : (a : Action) → NamesRight a (codes "push")
unfolding named_set holds of text_beq
push_lem pull = (refl, omega arith)
push_lem push = (refl, omega arith)
push_lem delete_action = (refl, omega arith)

delete_lem : (a : Action) → NamesRight a (codes "delete")
unfolding named_set holds of text_beq
delete_lem pull = (refl, omega arith)
delete_lem push = (refl, omega arith)
delete_lem delete_action = (refl, omega arith)

star_lem : (a : Action) → NamesRight a (codes "*")
unfolding named_set holds of text_beq
star_lem pull = (refl, omega arith)
star_lem push = (refl, omega arith)
star_lem delete_action = (refl, omega arith)

other_lem :
    (a : Action) (x : Text)
    → (x == codes "pull") ≡ false
    → (x == codes "push") ≡ false
    → (x == codes "delete") ≡ false
    → (x == codes "*") ≡ false
    → NamesRight a x
unfolding named_set
other_lem pull x h1 h2 h3 h4 = rw (h1, h2, h3, h4) (holds_none pull, omega arith)
other_lem push x h1 h2 h3 h4 = rw (h1, h2, h3, h4) (holds_none push, omega arith)
other_lem delete_action x h1 h2 h3 h4 = rw (h1, h2, h3, h4) (holds_none delete_action, omega arith)

at_name : (a : Action) (x name : Text) → NamesRight a name → (x == name) ≡ true → NamesRight a x
at_name a x name h e = subst (NamesRight a) (sym ((eq_iff x name).0 e)) h

named_set_lem : (a : Action) (x : Text) → NamesRight a x
named_set_lem a x = elim (Bool-cases (x == codes "pull")) [
  | inl h1 ↦ at_name a x (codes "pull") (pull_lem a) h1
  | inr h1 ↦ elim (Bool-cases (x == codes "push")) [
    | inl h2 ↦ at_name a x (codes "push") (push_lem a) h2
    | inr h2 ↦ elim (Bool-cases (x == codes "delete")) [
      | inl h3 ↦ at_name a x (codes "delete") (delete_lem a) h3
      | inr h3 ↦ elim (Bool-cases (x == codes "*")) [
        | inl h4 ↦ at_name a x (codes "*") (star_lem a) h4
        | inr h4 ↦ other_lem a x h1 h2 h3 h4
      ]
    ]
  ]
]

fold_names_lem :
    (a : Action) (s : ActionSet) (acts : List Text)
    → s < 8
    → holds (fold_names s acts) a ≡ (holds s a || names_action a acts)
unfolding fold_names
fold_names_lem a s [] h = ground arith
fold_names_lem a s (x ∷ acts) h =
    let (or_holds, small) = union_lem a s (named_set x) h (named_set_lem a x).1 in
    rw (fold_names_lem a (union s (named_set x)) acts small, or_holds, (named_set_lem a x).0)
      (ground arith)

-- A token allows an action on a repository exactly when one of its access entries is of the kind
-- `repository`, has that repository's name, and lists the action or `*`.
pub grants_allow-grants_of :
    (access : List AccessEntry) (repo : Text) (a : Action)
    → grants_allow (grants_of access) repo a
      ≡ any (λ e. e.kind == codes "repository" && (e.name == repo && names_action a e.acts)) access
unfolding grants_allow grants_of
grants_allow-grants_of [] repo a = refl
grants_allow-grants_of (e ∷ access) repo a = elim (Bool-cases (e.kind == codes "repository")) [
  | inl repository_kind ↦ rw (
    repository_kind,
    ct_eq_lem e.name repo,
    fold_names_lem a no_actions e.acts (omega arith),
    holds_none a,
    grants_allow-grants_of access repo a,
  )
  | inr other ↦ rw (other, grants_allow-grants_of access repo a)
]
