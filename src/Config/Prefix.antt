-- ===== src/Config/Prefix.antt =====
-- crates/roci-config/src/lib.rs: the check of a prefix beside the check of a name in crates/roci-core/src/names.rs.
use roci.Core.Names
use native.Mathlib.Nat.{le_refl}
use roci.Base.{
  List, [], ap, arith, false, inl, inr, not, refl, suc, sym, true, zero, ℕ, ◌++◌, ◌↔◌, ◌∙◌, ◌∷◌,
  ◌≡◌, ◌≤◌, ◌⊎◌,
}
use roci.Base.Eq.{Text, codes, text_beq, text_beq_iff, text_eq}
use roci.Base.Lists.{all, length, length-append}
use roci.Base.Result.{ok}
use roci.Base.Tests.{Bool-cases, and-eq-true, and_intro, leb, leb→le, nat_beq, nat_beq_iff}
use roci.Base.Text.{split}
use roci.Config.{is_prefix_component, is_repo_prefix, is_sep, non_alnum_run, scan_prefix}
use roci.Core.Names.{first_is_alnum, is_lower_alnum, last_is_alnum}
use roci.Core.Names.Decides.{IsName, Separator-head, Tail-last, parse_iff}
use roci.Core.Names.Grammar.{
  Component, Components, Separator, Tail, component, dashes, done, dot, joined, letter, more,
  no_more, underscore, underscores,
}

non_alnum_run-append : (s : Text) → (non_alnum_run s).0 ++ (non_alnum_run s).1 ≡ s
unfolding non_alnum_run
non_alnum_run-append [] = refl
non_alnum_run-append (b ∷ s) = grind (arith, non_alnum_run-append s)

-- A text that ends in a letter or digit has one after the run, too.
non_alnum_run-first :
    (s : Text) → last_is_alnum s ≡ true → first_is_alnum (non_alnum_run s).1 ≡ true
unfolding non_alnum_run
non_alnum_run-first [] h = cc
non_alnum_run-first (b ∷ []) h = rw h h
non_alnum_run-first (b ∷ c ∷ s) h = elim (Bool-cases (is_lower_alnum b)) [
  | inl alnum ↦ rw alnum alnum
  | inr no_alnum ↦ rw no_alnum (non_alnum_run-first (c ∷ s) h)
]

non_alnum_run-last : (s : Text) → last_is_alnum s ≡ true → last_is_alnum (non_alnum_run s).1 ≡ true
unfolding non_alnum_run
non_alnum_run-last [] h = cc
non_alnum_run-last (b ∷ []) h = rw h h
non_alnum_run-last (b ∷ c ∷ s) h = elim (Bool-cases (is_lower_alnum b)) [
  | inl alnum ↦ rw alnum h
  | inr no_alnum ↦ rw no_alnum (non_alnum_run-last (c ∷ s) h)
]

dashes-Separator : (b : ℕ) (s : Text) → all (λ c. nat_beq c b'-') (b ∷ s) ≡ true → Separator (b ∷ s)
dashes-Separator b s h =
    let (here, rest) = and-eq-true (nat_beq b b'-') (all (λ c. nat_beq c b'-') s) h in
    rw ((nat_beq_iff b b'-').0 here) (dashes s rest)

is_sep-Separator : (b : ℕ) (s : Text) → is_sep (b ∷ s) ≡ true → Separator (b ∷ s)
unfolding is_sep
is_sep-Separator b s h = elim (Bool-cases (text_beq (b ∷ s) (codes "."))) [
  | inl is_dot ↦ rw ((text_beq_iff (b ∷ s) (codes ".")).0 is_dot) dot
  | inr no_dot ↦ elim (Bool-cases (text_beq (b ∷ s) (codes "_"))) [
    | inl is_one ↦ rw ((text_beq_iff (b ∷ s) (codes "_")).0 is_one) underscore
    | inr no_one ↦ elim (Bool-cases (text_beq (b ∷ s) (codes "__"))) [
      | inl is_two ↦ rw ((text_beq_iff (b ∷ s) (codes "__")).0 is_two) underscores
      | inr no_two ↦ dashes-Separator b s (ground arith)
    ]
  ]
]

after_letter :
    (b : ℕ) (s : Text) → last_is_alnum (b ∷ s) ≡ true → (s ≡ []) ⊎ (last_is_alnum s ≡ true)
after_letter b [] h = inl refl
after_letter b (c ∷ s) h = inr h

run-Separator :
    (b : ℕ) (s : Text)
    → is_lower_alnum b ≡ false
    → is_sep (non_alnum_run (b ∷ s)).0 ≡ true
    → Separator (non_alnum_run (b ∷ s)).0
unfolding non_alnum_run
run-Separator b s no_alnum h =
    rw no_alnum (is_sep-Separator b (non_alnum_run s).0 (rw no_alnum at h))

scan_prefix-Tail :
    (f : ℕ) (s : Text) → (s ≡ []) ⊎ (last_is_alnum s ≡ true) → scan_prefix f s ≡ true → Tail s
unfolding scan_prefix
scan_prefix-Tail f [] final h = done
scan_prefix-Tail zero (b ∷ s) final h = cc
scan_prefix-Tail (suc f) (b ∷ s) (inl nothing) h = cc
scan_prefix-Tail (suc f) (b ∷ s) (inr final) h = elim (Bool-cases (is_lower_alnum b)) [
  | inl alnum ↦ letter b alnum (scan_prefix-Tail f s (after_letter b s final) (ground arith))
  | inr no_alnum ↦
      let rest = (non_alnum_run (b ∷ s)).1 in
      let valid : is_sep (non_alnum_run (b ∷ s)).0 ≡ true = ground arith in
      let passed : scan_prefix f rest ≡ true = ground arith in
      joined (run-Separator b s no_alnum valid) (non_alnum_run-first (b ∷ s) final)
        (scan_prefix-Tail f rest (inr (non_alnum_run-last (b ∷ s) final)) passed)
        (sym (non_alnum_run-append (b ∷ s)))
]

-- The other direction: a separator is passed over whole.
dashes-none :
    (s : Text) → all (λ b. nat_beq b b'-') s ≡ true → all (λ b. not (is_lower_alnum b)) s ≡ true
unfolding is_lower_alnum
dashes-none [] h = refl
dashes-none (b ∷ s) h =
    let (here, rest) = and-eq-true (nat_beq b b'-') (all (λ c. nat_beq c b'-') s) h in
    and_intro (ground arith) (dashes-none s rest)

Separator-none : {r : Text} → Separator r → all (λ b. not (is_lower_alnum b)) r ≡ true
unfolding is_lower_alnum
Separator-none dot = refl
Separator-none underscore = refl
Separator-none underscores = refl
Separator-none (dashes s h) = dashes-none s h

Separator-is_sep : {r : Text} → Separator r → is_sep r ≡ true
unfolding is_sep text_beq
Separator-is_sep dot = refl
Separator-is_sep underscore = refl
Separator-is_sep underscores = refl
Separator-is_sep (dashes s h) = h

non_alnum_run-stops : (s : Text) → first_is_alnum s ≡ true → non_alnum_run s ≡ ([], s)
unfolding non_alnum_run
non_alnum_run-stops [] h = cc
non_alnum_run-stops (b ∷ s) h = rw h

non_alnum_run-all :
    (r s : Text)
    → all (λ b. not (is_lower_alnum b)) r ≡ true
    → first_is_alnum s ≡ true
    → non_alnum_run (r ++ s) ≡ (r, s)
unfolding non_alnum_run
non_alnum_run-all [] s h first = non_alnum_run-stops s first
non_alnum_run-all (b ∷ r) s h first =
    let (here, rest) =
      and-eq-true (not (is_lower_alnum b)) (all (λ c. not (is_lower_alnum c)) r) h in
    let no_alnum : is_lower_alnum b ≡ false = ground arith in
    rw (no_alnum, non_alnum_run-all r s rest first)

scan_prefix_joined :
    (f : ℕ) (r s : Text)
    → Separator r
    → first_is_alnum s ≡ true
    → ((g : ℕ) → length s ≤ g → scan_prefix g s ≡ true)
    → length (r ++ s) ≤ f
    → scan_prefix f (r ++ s) ≡ true
unfolding scan_prefix
scan_prefix_joined zero r s sep first rest fuel =
    let (a, r', e, _) = Separator-head sep in absurd (omega (arith, length-append r s, ap length e))
scan_prefix_joined (suc f) r s sep first rest fuel =
    let (a, r', e, no_alnum) = Separator-head sep in
    let run : non_alnum_run ((a ∷ r') ++ s) ≡ (a ∷ r', s) =
      rw e at (non_alnum_run-all r s (Separator-none sep) first) in
    let valid : is_sep (a ∷ r') ≡ true = rw e at (Separator-is_sep sep) in
    let passed = rest f (omega (arith, length-append r s, ap length e)) in rw e (ground arith)

scan_prefix_of_Tail : {s : Text} → Tail s → (f : ℕ) → length s ≤ f → scan_prefix f s ≡ true
unfolding scan_prefix
scan_prefix_of_Tail done f h = refl
scan_prefix_of_Tail (letter b {s} alnum rest) zero h = absurd (omega arith)
scan_prefix_of_Tail (letter b {s} alnum rest) (suc f) h =
    rw alnum (scan_prefix_of_Tail rest f (omega arith))
scan_prefix_of_Tail (joined {r} {s} sep first rest e) f h =
    rw e (scan_prefix_joined f r s sep first (scan_prefix_of_Tail rest) (rw e at h))

Component-prefix : {c : Text} → Component c → is_prefix_component c ≡ true
unfolding is_prefix_component
Component-prefix (component {b} {s} alnum rest) = ground (
  arith,
  Tail-last b alnum rest,
  scan_prefix_of_Tail (letter b alnum rest) (length (b ∷ s)) (le_refl _),
)

scan_prefix-letter :
    (f b : ℕ) (s : Text) → is_lower_alnum b ≡ true → scan_prefix (suc f) (b ∷ s) ≡ scan_prefix f s
unfolding scan_prefix
scan_prefix-letter f b s h = rw h

prefix-Component : (c : Text) → is_prefix_component c ≡ true → Component c
unfolding is_prefix_component
prefix-Component [] h = cc
prefix-Component (b ∷ s) h =
    let first : is_lower_alnum b ≡ true = ground arith in
    let final : last_is_alnum (b ∷ s) ≡ true = ground arith in
    let passed : scan_prefix (length (b ∷ s)) (b ∷ s) ≡ true = ground arith in
    component first (
      scan_prefix-Tail (length s) s (after_letter b s final)
        (sym (scan_prefix-letter (length s) b s first) ∙ passed))

prefixes-Components : (cs : List Text) → all is_prefix_component cs ≡ true → Components cs
prefixes-Components [] h = no_more
prefixes-Components (c ∷ cs) h =
    let (here, rest) = and-eq-true (is_prefix_component c) (all is_prefix_component cs) h in
    more (prefix-Component c here) (prefixes-Components cs rest)

Components-prefixes : {cs : List Text} → Components cs → all is_prefix_component cs ≡ true
Components-prefixes no_more = refl
Components-prefixes (more here rest) = and_intro (Component-prefix here) (Components-prefixes rest)

not_prefix : is_repo_prefix [] ≡ false
unfolding is_repo_prefix is_prefix_component split
not_prefix = refl

prefix-IsName : (s : Text) → is_repo_prefix s ≡ true → IsName s
unfolding is_repo_prefix
prefix-IsName [] h = cc not_prefix
prefix-IsName (b ∷ s) h =
    let (fits, follows) =
      and-eq-true (leb (length (b ∷ s)) 255) (all is_prefix_component (split b'/' (b ∷ s))) h in
    record {
      not_empty = omega arith;
      fits = leb→le (length (b ∷ s)) 255 fits;
      follows = prefixes-Components (split b'/' (b ∷ s)) follows;
    }

IsName-prefix : (s : Text) → IsName s → is_repo_prefix s ≡ true
unfolding is_repo_prefix
IsName-prefix s h = and_intro (ground (arith, h.fits)) (Components-prefixes h.follows)

-- The configuration takes a text for the prefix of a backend exactly if the registry takes it, unchanged,
-- for the name of a repository.
pub is_repo_prefix_iff : (s : Text) → (is_repo_prefix s ≡ true) ↔ (Names.parse s ≡ ok s)
is_repo_prefix_iff s =
    (λ h. (parse_iff s s).1 (refl, prefix-IsName s h), λ h. IsName-prefix s ((parse_iff s s).0 h).1)
