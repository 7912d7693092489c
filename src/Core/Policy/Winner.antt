-- ===== src/Core/Policy/Winner.antt =====
-- crates/roci-core/src/auth/policy.rs: which rule `winning_rule` chooses.
use mathlib.Core.Path.{subst}
use roci.Base.{
  Bool, List, Option, [], ap, arith, false, inl, inr, none, not, refl, some, sym, true, ◌++◌, ◌||◌,
  ◌∙◌, ◌∷◌, ◌≡◌, ◌⊎◌,
}
use roci.Base.Eq.{Text, text_eq}
use roci.Base.Lists.{all}
use roci.Base.Tests.{Bool-cases, and_intro, ltb, ltb→lt, or-cases, or-left, or-right}
use roci.Core.Glob.{glob_match}
use roci.Core.Policy.{AccessPolicy, Rule, best_rule, better, next_best, winning_rule}
use roci.Core.Policy.Ranked.{IsWinner, Outranks, all-Each}

abbrev fitting : Text → Rule → Bool
fitting repo r = glob_match r.toks repo

-- `q` does not fit, or `r` is better.
abbrev beaten_by : Text → Rule → Rule → Bool
beaten_by repo r q = not (fitting repo q) || better r q

-- `q` does not fit, or is no better than `r`.
abbrev loses_to : Text → Rule → Rule → Bool
loses_to repo r q = not (fitting repo q) || not (better q r)

-- `r` is the first of the best rules that fit.
unfoldable Chosen : Text → List Rule → Rule → Type 0
Chosen repo rules r =
    (before : List Rule) × (after : List Rule) × (rules ≡ before ++ r ∷ after)
    × (fitting repo r ≡ true)
    × (all (beaten_by repo r) before ≡ true)
    × (all (loses_to repo r) after ≡ true)

not-true : {a : Bool} → not a ≡ true → a ≡ false
not-true h = ground arith

better_trans : (p q r : Rule) → better p q ≡ true → better q r ≡ true → better p r ≡ true
unfolding better
better_trans p q r h k = ground arith

better-loses : (r b q : Rule) → better r b ≡ true → better q b ≡ false → better r q ≡ true
unfolding better
better-loses r b q h k = ground arith

sooner :
    (repo : Text) (q r : Rule) (rules : List Rule)
    → fitting repo q ≡ true
    → all (loses_to repo q) rules ≡ true
    → r ≡ q
    → Chosen repo (q ∷ rules) r
unfolding Chosen
sooner repo q r rules fits loses e =
    subst (Chosen repo (q ∷ rules)) (sym e) ([], rules, refl, fits, refl, loses)

later :
    (repo : Text) (q r : Rule) (rules : List Rule)
    → Chosen repo rules r
    → beaten_by repo r q ≡ true
    → Chosen repo (q ∷ rules) r
unfolding Chosen
later repo q r rules (before, after, e, fits, beaten, loses) h =
    (q ∷ before, after, ap (λ rs. q ∷ rs) e, fits, and_intro h beaten, loses)

step :
    (repo : Text) (b q : Rule)
    → ((next_best repo (some b) q ≡ some q) × (fitting repo q ≡ true) × (better q b ≡ true))
      ⊎ ((next_best repo (some b) q ≡ some b) × (loses_to repo b q ≡ true))
unfolding next_best
step repo b q = elim (Bool-cases (fitting repo q)) [
  | inl fits ↦ elim (Bool-cases (better q b)) [
    | inl wins ↦ inl (rw (fits, wins), fits, wins)
    | inr loses ↦ inr (rw (fits, loses), rw (fits, loses))
  ]
  | inr misses ↦ inr (rw misses, rw misses)
]

beaten :
    (repo : Text) (r b q : Rule)
    → better r b ≡ true
    → loses_to repo b q ≡ true
    → beaten_by repo r q ≡ true
beaten repo r b q h k = elim (or-cases k) [
  | inl misses ↦ or-left (better r q) misses
  | inr loses ↦ or-right (not (fitting repo q)) (better-loses r b q h (not-true loses))
]

best_rule-some :
    (repo : Text) (b : Rule) (rules : List Rule)
    → (r : Rule) × (best_rule repo (some b) rules ≡ some r)
      × (((r ≡ b) × (all (loses_to repo b) rules ≡ true))
          ⊎ ((better r b ≡ true) × Chosen repo rules r))
unfolding best_rule
best_rule-some repo b [] = (b, refl, inl (refl, refl))
best_rule-some repo b (q ∷ rules) = elim (step repo b q) [
  | inl (next, fits, wins) ↦
      let (r, e, how) = best_rule-some repo q rules in
      (
        r,
        ap (λ o. best_rule repo o rules) next ∙ e,
        inr (elim how [
          | inl (same, loses) ↦
              (ap (λ x. better x b) same ∙ wins, sooner repo q r rules fits loses same)
          | inr (rq, chosen) ↦ (
            better_trans r q b rq wins,
            later repo q r rules chosen (or-right (not (fitting repo q)) rq),
          )
        ]),
      )
  | inr (next, lost) ↦
      let (r, e, how) = best_rule-some repo b rules in
      (
        r,
        ap (λ o. best_rule repo o rules) next ∙ e,
        elim how [
          | inl (same, loses) ↦ inl (same, and_intro lost loses)
          | inr (rb, chosen) ↦ inr (rb, later repo q r rules chosen (beaten repo r b q rb lost))
        ],
      )
]

-- What `winning_rule` may answer: the first of the best fitting rules, or none if none fits.
unfoldable Selects : Text → List Rule → Option Rule → Type 0
Selects repo rules none = all (λ q. not (fitting repo q)) rules ≡ true
Selects repo rules (some r) = Chosen repo rules r

Selects-skip :
    (repo : Text) (q : Rule) (rules : List Rule) (o : Option Rule)
    → fitting repo q ≡ false
    → Selects repo rules o
    → Selects repo (q ∷ rules) o
unfolding Selects
Selects-skip repo q rules none misses w = and_intro (ap not misses) w
Selects-skip repo q rules (some r) misses w =
    later repo q r rules w (or-left (better r q) (ap not misses))

first_fits : (repo : Text) (q : Rule) → fitting repo q ≡ true → next_best repo none q ≡ some q
unfolding next_best
first_fits repo q h = rw h

first_misses : (repo : Text) (q : Rule) → fitting repo q ≡ false → next_best repo none q ≡ none
unfolding next_best
first_misses repo q h = rw h

best_rule-Selects :
    (repo : Text) (rules : List Rule) → Selects repo rules (best_rule repo none rules)
unfolding best_rule Selects
best_rule-Selects repo [] = refl
best_rule-Selects repo (q ∷ rules) = elim (Bool-cases (fitting repo q)) [
  | inl fits ↦
      let (r, e, how) = best_rule-some repo q rules in
      let chosen : Chosen repo (q ∷ rules) r = elim how [
        | inl (same, loses) ↦ sooner repo q r rules fits loses same
        | inr (rq, ch) ↦ later repo q r rules ch (or-right (not (fitting repo q)) rq)
      ] in
      subst (Selects repo (q ∷ rules))
        (sym (ap (λ o. best_rule repo o rules) (first_fits repo q fits) ∙ e)) chosen
  | inr misses ↦
      subst (Selects repo (q ∷ rules))
        (sym (ap (λ o. best_rule repo o rules) (first_misses repo q misses)))
        (Selects-skip repo q rules (best_rule repo none rules) misses
          (best_rule-Selects repo rules))
]

abbrev Fits : Text → Rule → Type 0
Fits repo r = glob_match r.toks repo ≡ true

abbrev WinsAt : Text → List Rule → Option Rule → Type 0
WinsAt repo = IsWinner (Fits repo) (λ r. r.literal_len) (λ r. r.stars)

beaten_by-Outranks :
    (repo : Text) (r q : Rule)
    → beaten_by repo r q ≡ true
    → Fits repo q
    → Outranks (Fits repo) (λ x. x.literal_len) (λ x. x.stars) r q
unfolding better
beaten_by-Outranks repo r q h fits = elim (Bool-cases (ltb q.literal_len r.literal_len)) [
  | inl longer ↦ inl (ltb→lt _ _ longer)
  | inr no_longer ↦ inr (ground arith, ground arith)
]

loses_to-Outranks :
    (repo : Text) (r q : Rule)
    → loses_to repo r q ≡ true
    → Fits repo q
    → Outranks (Fits repo) (λ x. x.literal_len) (λ x. x.stars) q r
    → ⊥
unfolding better
loses_to-Outranks repo r q h fits (inl longer) = ground arith
loses_to-Outranks repo r q h fits (inr (same, fewer)) = ground arith

Selects-IsWinner :
    (repo : Text) (rules : List Rule) (o : Option Rule) → Selects repo rules o → WinsAt repo rules o
unfolding Selects IsWinner Chosen
Selects-IsWinner repo rules none h =
    all-Each (λ q. not (fitting repo q)) (λ q misses fits. ground arith) rules h
Selects-IsWinner repo rules (some r) (before, after, e, fits, beaten, loses) = (
  before,
  after,
  e,
  fits,
  all-Each (beaten_by repo r) (λ q. beaten_by-Outranks repo r q) before beaten,
  all-Each (loses_to repo r) (λ q. loses_to-Outranks repo r q) after loses,
)

-- `winning_rule` answers none when no rule's pattern matches the repository, and otherwise the first of
-- the best whose pattern does: it has more literal bytes, or as many and fewer stars, than every matching
-- rule before it, and no matching rule after it has more literal bytes, or as many and fewer stars.
pub winning_rule-IsWinner :
    (self : AccessPolicy) (repo : Text)
    → IsWinner
        (λ r. glob_match r.toks repo ≡ true)
        (λ r. r.literal_len)
        (λ r. r.stars)
        self.rules
        (winning_rule self repo)
unfolding winning_rule
winning_rule-IsWinner self repo =
    Selects-IsWinner repo self.rules (winning_rule self repo) (best_rule-Selects repo self.rules)
