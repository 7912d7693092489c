-- ===== src/Core/Names/Decides.antt =====
-- crates/roci-core/src/names.rs: the check against the grammar, from the grammar to the check.
use native.Mathlib.Nat.{le_refl}
use roci.Base.{
  List, [], ap, arith, false, refl, suc, sym, true, zero, ℕ, ◌++◌, ◌<◌, ◌↔◌, ◌∙◌, ◌∷◌, ◌≡◌, ◌≤◌,
}
use roci.Base.Eq.{Text, codes, text_beq_iff, text_eq}
use roci.Base.Lists.{all, length, length-append}
use roci.Base.Result.{>>=-eq-ok, ok}
use roci.Base.Tests.{and-eq-true, nat_beq}
use roci.Base.Text.{split}
use roci.Core.Names.{
  first_is_alnum, is_lower_alnum, is_separator, last_is_alnum, max_name, parse, scan, separator_run,
  valid_separator_run, validate_components, validate_name_component,
}
use roci.Core.Names.Grammar.{
  Component, Components, IsAlnum, Separator, Tail, component, dashes, done, dot, joined, letter,
  more, no_more, scan-Tail, underscore, underscores,
}
use roci.Storage.Quota.Bytes.{run}

dashes-all : (s : Text) → all (λ b. nat_beq b b'-') s ≡ true → all is_separator s ≡ true
unfolding is_separator
dashes-all [] h = refl
dashes-all (b ∷ s) h =
    let (here, rest) = and-eq-true (nat_beq b b'-') (all (λ c. nat_beq c b'-') s) h in
    ground (arith, dashes-all s rest)

Separator-all : {r : Text} → Separator r → all is_separator r ≡ true
unfolding is_separator
Separator-all dot = refl
Separator-all underscore = refl
Separator-all underscores = refl
Separator-all (dashes s h) = dashes-all s h

dashes-valid :
    (s : Text) → all (λ b. nat_beq b b'-') s ≡ true → valid_separator_run (b'-' ∷ s) ≡ true
unfolding valid_separator_run
dashes-valid [] h = refl
dashes-valid (b ∷ []) h = h
dashes-valid (b ∷ c ∷ s) h = h

Separator-valid : {r : Text} → Separator r → valid_separator_run r ≡ true
unfolding valid_separator_run
Separator-valid dot = refl
Separator-valid underscore = refl
Separator-valid underscores = refl
Separator-valid (dashes s h) = dashes-valid s h

-- A separator begins with a byte that is no letter or digit.
pub Separator-head :
    {r : Text} → Separator r → (a : ℕ) × (s : Text) × (r ≡ a ∷ s) × (is_lower_alnum a ≡ false)
unfolding is_lower_alnum
Separator-head dot = (b'.', [], refl, refl)
Separator-head underscore = (b'_', [], refl, refl)
Separator-head underscores = (b'_', b'_' ∷ [], refl, refl)
Separator-head (dashes s h) = (b'-', s, refl, refl)

alnum_no_separator : (b : ℕ) → is_lower_alnum b ≡ true → is_separator b ≡ false
unfolding is_lower_alnum is_separator
alnum_no_separator b h = ground arith

separator_run_stops : (s : Text) → first_is_alnum s ≡ true → separator_run s ≡ ([], s)
unfolding separator_run
separator_run_stops [] h = cc
separator_run_stops (b ∷ s) h = rw (alnum_no_separator b h)

separator_run-all :
    (r s : Text)
    → all is_separator r ≡ true
    → first_is_alnum s ≡ true
    → separator_run (r ++ s) ≡ (r, s)
unfolding separator_run
separator_run-all [] s h first = separator_run_stops s first
separator_run-all (b ∷ r) s h first =
    let (here, rest) = and-eq-true (is_separator b) (all is_separator r) h in
    rw (here, separator_run-all r s rest first)

-- One round of the loop at a separator.
scan-separator :
    (f a : ℕ) (r s : Text)
    → is_lower_alnum a ≡ false
    → separator_run ((a ∷ r) ++ s) ≡ (a ∷ r, s)
    → valid_separator_run (a ∷ r) ≡ true
    → first_is_alnum s ≡ true
    → scan (suc f) ((a ∷ r) ++ s) ≡ scan f s
unfolding scan
scan-separator f a r s no_alnum run valid first = ground arith

scan_joined :
    (f : ℕ) (r s : Text)
    → Separator r
    → first_is_alnum s ≡ true
    → ((g : ℕ) → length s ≤ g → scan g s ≡ ok tt)
    → length (r ++ s) ≤ f
    → scan f (r ++ s) ≡ ok tt
scan_joined zero r s sep first rest fuel =
    let (a, r', e, _) = Separator-head sep in absurd (omega (arith, length-append r s, ap length e))
scan_joined (suc f) r s sep first rest fuel =
    let (a, r', e, no_alnum) = Separator-head sep in
    let all_seps : all is_separator (a ∷ r') ≡ true = rw e at (Separator-all sep) in
    let valid : valid_separator_run (a ∷ r') ≡ true = rw e at (Separator-valid sep) in
    rw
      (
        e,
        scan-separator f a r' s no_alnum (separator_run-all (a ∷ r') s all_seps first) valid first,
      )
      (rest f (omega (arith, length-append r s, ap length e)))

scan_of_Tail : {s : Text} → Tail s → (f : ℕ) → length s ≤ f → scan f s ≡ ok tt
unfolding scan
scan_of_Tail done f h = refl
scan_of_Tail (letter b {s} alnum rest) zero h = absurd (omega arith)
scan_of_Tail (letter b {s} alnum rest) (suc f) h = rw alnum (scan_of_Tail rest f (omega arith))
scan_of_Tail (joined {r} {s} sep first rest e) f h =
    rw e (scan_joined f r s sep first (scan_of_Tail rest) (rw e at h))

last-append :
    (a : ℕ) (r s : Text) → first_is_alnum s ≡ true → last_is_alnum (a ∷ (r ++ s)) ≡ last_is_alnum s
last-append a [] [] h = cc
last-append a [] (b ∷ s) h = refl
last-append a (c ∷ r) s h = last-append c r s h

pub Tail-last : (b : ℕ) {s : Text} → IsAlnum b → Tail s → last_is_alnum (b ∷ s) ≡ true
Tail-last b alnum done = alnum
Tail-last b alnum (letter c alnum' rest) = Tail-last c alnum' rest
Tail-last b alnum (joined {r} {s = []} sep first rest e) = cc
Tail-last b alnum (joined {r} {s = c ∷ s} sep first rest e) =
    rw (e, last-append b r (c ∷ s) first) (Tail-last c first rest)

Component-accepted : {c : Text} → Component c → validate_name_component c ≡ ok tt
unfolding validate_name_component is_lower_alnum
Component-accepted (component {b} {s} alnum rest) = ground (
  arith,
  Tail-last b alnum rest,
  scan_of_Tail (letter b alnum rest) (length (b ∷ s)) (le_refl _),
  text_beq_iff (b ∷ s) (codes "."),
  text_beq_iff (b ∷ s) (codes ".."),
)

scan-alnum : (f b : ℕ) (s : Text) → is_lower_alnum b ≡ true → scan (suc f) (b ∷ s) ≡ scan f s
unfolding scan
scan-alnum f b s h = rw h

accepted-Component : (c : Text) → validate_name_component c ≡ ok tt → Component c
unfolding validate_name_component
accepted-Component [] h = cc
accepted-Component (b ∷ s) h =
    let first : is_lower_alnum b ≡ true = ground arith in
    let passed : scan (length (b ∷ s)) (b ∷ s) ≡ ok tt = ground arith in
    component first (scan-Tail (length s) s (sym (scan-alnum (length s) b s first) ∙ passed))

-- A component is accepted exactly if it follows the grammar.
pub validate_name_component_iff : (c : Text) → (validate_name_component c ≡ ok tt) ↔ Component c
validate_name_component_iff c = (accepted-Component c, Component-accepted)

validate_components-Components : (cs : List Text) → validate_components cs ≡ ok tt → Components cs
unfolding validate_components
validate_components-Components [] h = no_more
validate_components-Components (c ∷ cs) h =
    let (u, here, rest) = >>=-eq-ok (validate_name_component c) (λ _. validate_components cs) h in
    more (accepted-Component c here) (validate_components-Components cs rest)

Components-validate_components : {cs : List Text} → Components cs → validate_components cs ≡ ok tt
unfolding validate_components
Components-validate_components no_more = refl
Components-validate_components (more here rest) =
    rw (Component-accepted here) (Components-validate_components rest)

-- A repository name: from 1 to 255 bytes, and every component between slashes follows the grammar.
pub record IsName (s : Text) : Type 0 where
  pub not_empty : 0 < length s
  pub fits : length s ≤ max_name
  pub follows : Components (split b'/' s)

IsName-parse : (s : Text) → IsName s → parse s ≡ ok s
unfolding parse
IsName-parse [] h = absurd (omega arith)
IsName-parse (b ∷ s) h = ground (arith, Components-validate_components h.follows)

parse-eq-ok : (s t : Text) → parse s ≡ ok t → (t ≡ s) × IsName s
unfolding parse
parse-eq-ok [] t h = cc
parse-eq-ok (b ∷ s) t h =
    let passed : (validate_components (split b'/' (b ∷ s)) ≡ ok tt) × (t ≡ b ∷ s) = ground arith in
    (
      passed.1,
      record {
        not_empty = omega arith;
        fits = ground arith;
        follows = validate_components-Components (split b'/' (b ∷ s)) passed.0;
      },
    )

-- `RepositoryName::parse` accepts exactly the names of the distribution specification that have
-- from 1 to 255 bytes, and returns them unchanged.
pub parse_iff : (s t : Text) → (parse s ≡ ok t) ↔ ((t ≡ s) × IsName s)
parse_iff s t = (parse-eq-ok s t, λ h. rw h.0 (IsName-parse s h.1))
