-- ===== src/Core/Names/Grammar.antt =====
-- crates/roci-core/src/names.rs: the check accepts exactly the names of the distribution
-- specification's grammar, `[a-z0-9]+((\.|_|__|-+)[a-z0-9]+)*(/[a-z0-9]+((\.|_|__|-+)[a-z0-9]+)*)*`.
use roci.Base.{
  List, [], arith, false, inl, inr, refl, suc, sym, true, zero, ℕ, ◌&&◌, ◌++◌, ◌∷◌, ◌≡◌, ◌≢◌,
}
use roci.Base.Eq.{Text, text_eq}
use roci.Base.Lists.{all}
use roci.Base.Result.{ok}
use roci.Base.Tests.{Bool-cases, and-eq-true, nat_beq, nat_beq_iff}
use roci.Core.Names.{first_is_alnum, is_lower_alnum, scan, separator_run, valid_separator_run}

abbrev pub IsAlnum : ℕ → Type 0
IsAlnum b = is_lower_alnum b ≡ true

-- One separator of the grammar: `.`, `_`, `__`, or one or more dashes.
pub data Separator : Text → Type 0 where
  dot : Separator (b'.' ∷ [])
  underscore : Separator (b'_' ∷ [])
  underscores : Separator (b'_' ∷ b'_' ∷ [])
  dashes : (s : Text) → all (λ b. nat_beq b b'-') s ≡ true → Separator (b'-' ∷ s)

-- What may follow a letter or digit in a component. A separator is followed by one again.
pub data Tail : Text → Type 0 where
  done : Tail []
  letter : (b : ℕ) {s : Text} → IsAlnum b → Tail s → Tail (b ∷ s)
  joined : {r s t : Text} → Separator r → first_is_alnum s ≡ true → Tail s → t ≡ r ++ s → Tail t

pub data Component : Text → Type 0 where
  component : {b : ℕ} {s : Text} → IsAlnum b → Tail s → Component (b ∷ s)

pub data Components : List Text → Type 0 where
  no_more : Components []
  more : {c : Text} {cs : List Text} → Component c → Components cs → Components (c ∷ cs)

separator_run-append : (s : Text) → (separator_run s).0 ++ (separator_run s).1 ≡ s
unfolding separator_run
separator_run-append [] = refl
separator_run-append (b ∷ s) = ground (arith, separator_run-append s)

separator_run-ne-nil :
    (b : ℕ) (s : Text)
    → first_is_alnum (separator_run (b ∷ s)).1 ≡ true
    → is_lower_alnum b ≡ false
    → (separator_run (b ∷ s)).0 ≢ []
unfolding separator_run
separator_run-ne-nil b s h k = ground arith

dash_run : (b : ℕ) (s : Text) → all (λ c. nat_beq c b'-') (b ∷ s) ≡ true → Separator (b ∷ s)
dash_run b s h =
    let (here, rest) = and-eq-true (nat_beq b b'-') (all (λ c. nat_beq c b'-') s) h in
    rw ((nat_beq_iff b b'-').0 here) (dashes s rest)

valid_one-Separator : (a : ℕ) → valid_separator_run (a ∷ []) ≡ true → Separator (a ∷ [])
unfolding valid_separator_run
valid_one-Separator a h = elim (Bool-cases (nat_beq a b'.')) [
  | inl is_dot ↦ rw ((nat_beq_iff a b'.').0 is_dot) dot
  | inr no_dot ↦ elim (Bool-cases (nat_beq a b'_')) [
    | inl is_low ↦ rw ((nat_beq_iff a b'_').0 is_low) underscore
    | inr no_low ↦ dash_run a [] (ground arith)
  ]
]

valid_two-Separator : (a b : ℕ) → valid_separator_run (a ∷ b ∷ []) ≡ true → Separator (a ∷ b ∷ [])
unfolding valid_separator_run
valid_two-Separator a b h = elim (Bool-cases (nat_beq a b'_' && nat_beq b b'_')) [
  | inl both ↦
      let (first, second) = and-eq-true (nat_beq a b'_') (nat_beq b b'_') both in
      rw ((nat_beq_iff a b'_').0 first, (nat_beq_iff b b'_').0 second) underscores
  | inr not_both ↦ dash_run a (b ∷ []) (ground arith)
]

-- A run of separators that passes the test is one separator of the grammar.
valid-Separator : (r : Text) → r ≢ [] → valid_separator_run r ≡ true → Separator r
unfolding valid_separator_run
valid-Separator [] ne h = absurd (ne refl)
valid-Separator (a ∷ []) ne h = valid_one-Separator a h
valid-Separator (a ∷ b ∷ []) ne h = valid_two-Separator a b h
valid-Separator (a ∷ b ∷ c ∷ s) ne h = dash_run a (b ∷ c ∷ s) h

-- What the loop lets pass follows the grammar.
pub scan-Tail : (f : ℕ) (s : Text) → scan f s ≡ ok tt → Tail s
unfolding scan
scan-Tail f [] h = done
scan-Tail zero (b ∷ s) h = cc
scan-Tail (suc f) (b ∷ s) h = elim (Bool-cases (is_lower_alnum b)) [
  | inl alnum ↦ letter b alnum (scan-Tail f s (ground arith))
  | inr no_alnum ↦
      let run = (separator_run (b ∷ s)).0 in
      let rest = (separator_run (b ∷ s)).1 in
      let valid : valid_separator_run run ≡ true = ground arith in
      let starts : first_is_alnum rest ≡ true = ground arith in
      let passed : scan f rest ≡ ok tt = ground arith in
      joined (valid-Separator run (separator_run-ne-nil b s starts no_alnum) valid) starts
        (scan-Tail f rest passed) (sym (separator_run-append (b ∷ s)))
]
