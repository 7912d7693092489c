-- ===== src/Core/Glob/Matching.antt =====
-- crates/roci-core/src/auth/policy.rs: the table of `glob_match` decides an inductive relation.
use mathlib.Core.Path.{subst}
use roci.Base.{
  Bool, List, [], ap, arith, false, inl, inr, not, refl, sym, true, ℕ, ◌&&◌, ◌++◌, ◌||◌, ◌↔◌, ◌∙◌,
  ◌∷◌, ◌≡◌, ◌≢◌,
}
use roci.Base.Eq.{Text, text_eq}
use roci.Base.Tests.{and-eq-true, and_intro, nat_beq, nat_beq_iff, or-cases, or-left, or-right}
use roci.Core.Glob.{
  Tok, any_dirs, any_tail, cell, first_row, front, glob_match, last_cell, lit, next_row, rows, star,
}

-- What it means for a name to match a pattern.
pub data Matches : List Tok → Text → Type 0 where
  empty : Matches [] []
  byte : (c : ℕ) {toks : List Tok} {s : Text} → Matches toks s → Matches (lit c ∷ toks) (c ∷ s)
  star_none : {toks : List Tok} {s : Text} → Matches toks s → Matches (star ∷ toks) s
  star_more :
      (b : ℕ) {toks : List Tok} {s : Text}
      → b ≢ b'/'
      → Matches (star ∷ toks) s
      → Matches (star ∷ toks) (b ∷ s)
  tail_none : {toks : List Tok} {s : Text} → Matches toks s → Matches (any_tail ∷ toks) s
  tail_more :
      (b : ℕ) {toks : List Tok} {s : Text}
      → Matches (any_tail ∷ toks) s
      → Matches (any_tail ∷ toks) (b ∷ s)
  dirs_none : {toks : List Tok} {s : Text} → Matches toks s → Matches (any_dirs ∷ toks) s
  dirs_some :
      (u v : Text) {toks : List Tok} {s : Text}
      → Matches toks v
      → s ≡ u ++ b'/' ∷ v
      → Matches (any_dirs ∷ toks) s

-- The table of a name, without its first cell, is that of the rest.
rows_cons :
    (toks : List Tok) (b : ℕ) (s : Text) → (x : Bool) × (rows toks (b ∷ s) ≡ x ∷ rows toks s)
unfolding rows next_row first_row
rows_cons [] b s = (false, refl)
rows_cons (tok ∷ toks) b s =
    let (x, e) = rows_cons toks b s in
    let (right, seen) = next_row tok s (rows toks s) in
    let dirs = seen || (nat_beq b b'/' && front (rows toks s)) in
    (cell tok b x (front (rows toks s)) (front right) dirs, ap (λ r. (next_row tok (b ∷ s) r).0) e)

-- The flag `dirs` after the round at the front of `s`.
dirs_seen : List Tok → Text → Bool
dirs_seen toks s = (next_row any_dirs s (rows toks s)).1

dirs_seen-cons :
    (toks : List Tok) (b : ℕ) (s : Text)
    → dirs_seen toks (b ∷ s) ≡ (dirs_seen toks s || (nat_beq b b'/' && glob_match toks s))
unfolding dirs_seen glob_match next_row
dirs_seen-cons toks b s =
    let (x, e) = rows_cons toks b s in ap (λ r. (next_row any_dirs (b ∷ s) r).1) e

-- A cell of the table, by its token.
cell_at :
    (tok : Tok) (toks : List Tok) (b : ℕ) (s : Text)
    → glob_match (tok ∷ toks) (b ∷ s)
      ≡ cell tok b
          (glob_match toks (b ∷ s))
          (glob_match toks s)
          (glob_match (tok ∷ toks) s)
          ((next_row tok s (rows toks s)).1 || (nat_beq b b'/' && glob_match toks s))
unfolding glob_match rows next_row
cell_at tok toks b s =
    let (x, e) = rows_cons toks b s in
    let (right, seen) = next_row tok s (rows toks s) in
    let dirs = seen || (nat_beq b b'/' && front (rows toks s)) in
    ap (λ r. front (next_row tok (b ∷ s) r).0) e
    ∙ ap (λ y. cell tok b y (front (rows toks s)) (front right) dirs) (sym (ap front e))

dirs_at :
    (toks : List Tok) (b : ℕ) (s : Text)
    → glob_match (any_dirs ∷ toks) (b ∷ s) ≡ (glob_match toks (b ∷ s) || dirs_seen toks (b ∷ s))
unfolding cell dirs_seen
dirs_at toks b s =
    cell_at any_dirs toks b s
    ∙ ap (λ d. glob_match toks (b ∷ s) || d) (sym (dirs_seen-cons toks b s))

last_at :
    (tok : Tok) (toks : List Tok) → glob_match (tok ∷ toks) [] ≡ last_cell tok (glob_match toks [])
unfolding glob_match rows next_row
last_at tok toks = refl

byte_at :
    {b c : ℕ} {toks : List Tok} {s : Text} → b ≡ c → Matches toks s → Matches (lit c ∷ toks) (b ∷ s)
byte_at {b} {c} {toks} {s} e m = subst (λ x. Matches (lit c ∷ toks) (x ∷ s)) (sym e) (byte c m)

-- The flag is up exactly when a rest behind a `/` is matched.
dirs_seen-some :
    (toks : List Tok) (s : Text)
    → dirs_seen toks s ≡ true
    → (u : Text) × (v : Text) × (glob_match toks v ≡ true) × (s ≡ u ++ b'/' ∷ v)
unfolding dirs_seen next_row
dirs_seen-some toks [] h = cc
dirs_seen-some toks (b ∷ s) h = elim (or-cases (sym (dirs_seen-cons toks b s) ∙ h)) [
  | inl seen ↦ let (u, v, m, e) = dirs_seen-some toks s seen in (b ∷ u, v, m, ap (λ r. b ∷ r) e)
  | inr here ↦
      let (slash, m) = and-eq-true (nat_beq b b'/') (glob_match toks s) here in
      ([], s, m, ap (λ x. x ∷ s) ((nat_beq_iff b b'/').0 slash))
]

dirs_seen-append :
    (toks : List Tok) (u v : Text)
    → glob_match toks v ≡ true
    → dirs_seen toks (u ++ b'/' ∷ v) ≡ true
dirs_seen-append toks [] v h = dirs_seen-cons toks b'/' v ∙ or-right (dirs_seen toks v) h
dirs_seen-append toks (b ∷ u) v h =
    dirs_seen-cons toks b (u ++ b'/' ∷ v) ∙ or-left _ (dirs_seen-append toks u v h)

dirs-append :
    (toks : List Tok) (u v : Text)
    → glob_match toks v ≡ true
    → glob_match (any_dirs ∷ toks) (u ++ b'/' ∷ v) ≡ true
dirs-append toks [] v h = dirs_at toks b'/' v ∙ or-right _ (dirs_seen-append toks [] v h)
dirs-append toks (b ∷ u) v h =
    dirs_at toks b (u ++ b'/' ∷ v) ∙ or-right _ (dirs_seen-append toks (b ∷ u) v h)

slash_not : (b : ℕ) → b ≢ b'/' → not (nat_beq b b'/') ≡ true
slash_not b h = ground arith

not_slash : (b : ℕ) → not (nat_beq b b'/') ≡ true → b ≢ b'/'
not_slash b h = ground arith

glob_match-Matches : (toks : List Tok) (s : Text) → glob_match toks s ≡ true → Matches toks s
unfolding glob_match rows first_row next_row last_cell cell
glob_match-Matches [] [] h = empty
glob_match-Matches [] (b ∷ s) h = cc
glob_match-Matches (lit c ∷ toks) [] h = cc
glob_match-Matches (star ∷ toks) [] h = star_none (glob_match-Matches toks [] h)
glob_match-Matches (any_tail ∷ toks) [] h = tail_none (glob_match-Matches toks [] h)
glob_match-Matches (any_dirs ∷ toks) [] h = dirs_none (glob_match-Matches toks [] h)
glob_match-Matches (lit c ∷ toks) (b ∷ s) h =
    let (e, m) =
      and-eq-true (nat_beq b c) (glob_match toks s) (sym (cell_at (lit c) toks b s) ∙ h) in
    byte_at ((nat_beq_iff b c).0 e) (glob_match-Matches toks s m)
glob_match-Matches (star ∷ toks) (b ∷ s) h = elim (or-cases (sym (cell_at star toks b s) ∙ h)) [
  | inl here ↦ star_none (glob_match-Matches toks (b ∷ s) here)
  | inr longer ↦
      let (ne, m) = and-eq-true (not (nat_beq b b'/')) (glob_match (star ∷ toks) s) longer in
      star_more b (not_slash b ne) (glob_match-Matches (star ∷ toks) s m)
]
glob_match-Matches (any_tail ∷ toks) (b ∷ s) h =
    elim (or-cases (sym (cell_at any_tail toks b s) ∙ h)) [
      | inl here ↦ tail_none (glob_match-Matches toks (b ∷ s) here)
      | inr longer ↦ tail_more b (glob_match-Matches (any_tail ∷ toks) s longer)
    ]
glob_match-Matches (any_dirs ∷ toks) (b ∷ s) h = elim (or-cases (sym (dirs_at toks b s) ∙ h)) [
  | inl here ↦ dirs_none (glob_match-Matches toks (b ∷ s) here)
  | inr seen ↦
      let (u, v, m, e) = dirs_seen-some toks (b ∷ s) seen in
      dirs_some u v (glob_match-Matches toks v m) e
]

-- A token other than a byte may match nothing.
skip :
    (tok : Tok) (toks : List Tok) (s : Text)
    → last_cell tok true ≡ true
    → glob_match toks s ≡ true
    → glob_match (tok ∷ toks) s ≡ true
unfolding last_cell cell
skip (lit c) toks s h m = cc
skip star toks [] h m = last_at star toks ∙ m
skip any_tail toks [] h m = last_at any_tail toks ∙ m
skip any_dirs toks [] h m = last_at any_dirs toks ∙ m
skip star toks (b ∷ s) h m = cell_at star toks b s ∙ or-left _ m
skip any_tail toks (b ∷ s) h m = cell_at any_tail toks b s ∙ or-left _ m
skip any_dirs toks (b ∷ s) h m = cell_at any_dirs toks b s ∙ or-left _ m

Matches-glob_match : {toks : List Tok} {s : Text} → Matches toks s → glob_match toks s ≡ true
unfolding glob_match rows first_row last_cell cell
Matches-glob_match empty = refl
Matches-glob_match (byte c {toks} {s} m) =
    cell_at (lit c) toks c s ∙ ground (arith, Matches-glob_match m)
Matches-glob_match (star_none {toks} {s} m) = skip star toks s refl (Matches-glob_match m)
Matches-glob_match (tail_none {toks} {s} m) = skip any_tail toks s refl (Matches-glob_match m)
Matches-glob_match (dirs_none {toks} {s} m) = skip any_dirs toks s refl (Matches-glob_match m)
Matches-glob_match (star_more b {toks} {s} ne m) =
    cell_at star toks b s
    ∙ or-right (glob_match toks (b ∷ s)) (and_intro (slash_not b ne) (Matches-glob_match m))
Matches-glob_match (tail_more b {toks} {s} m) =
    cell_at any_tail toks b s ∙ or-right _ (Matches-glob_match m)
Matches-glob_match (dirs_some u v {toks} {s} m e) =
    ap (glob_match (any_dirs ∷ toks)) e ∙ dirs-append toks u v (Matches-glob_match m)

-- `glob_match` accepts a name exactly when the tokens match it: a literal its byte, a star any bytes
-- but `/`, a final `**` any bytes, and a `**` component nothing or any bytes that end in `/`.
pub glob_match_iff : (toks : List Tok) (s : Text) → (glob_match toks s ≡ true) ↔ Matches toks s
glob_match_iff toks s = (glob_match-Matches toks s, Matches-glob_match)
