-- ===== src/Base/Text.antt =====
-- Operations of Rust's `str` and `[u8]` on byte lists.
use mathlib.Core.Path.{ap₂}
use roci.Base.{
  Bool, List, Option, [], arith, false, inl, inr, none, refl, some, ℕ, ◌&&◌, ◌++◌, ◌+◌, ◌∷◌, ◌≡◌,
  ◌≢◌,
}
use roci.Base.Eq.{Text, nat_eq, text_eq}
use roci.Base.Lists.{contains}
use roci.Base.Tests.{Bool-cases, Option-cases, if◌then◌else◌, is_some, leb, nat_beq}

module _ (sep : ℕ) where
  abbrev cons_head : ℕ → List Text → List Text
  cons_head c [] = (c ∷ []) ∷ []
  cons_head c (p ∷ ps) = (c ∷ p) ∷ ps

  -- `s.split(sep)`: never empty
  unfoldable pub split : Text → List Text
  split [] = [] ∷ []
  split (c ∷ s) = let rest = split s in if nat_beq c sep then [] ∷ rest else cons_head c rest

  -- `parts.join(sep)`
  unfoldable pub join : List Text → Text
  join [] = []
  join (p ∷ []) = p
  join (p ∷ q ∷ ps) = p ++ sep ∷ join (q ∷ ps)

  -- `s.split_once(sep)`
  unfoldable pub split_once : Text → Option (Text × Text)
  split_once [] = none
  split_once (c ∷ s) =
      let rest = split_once s in
      if nat_beq c sep
      then some ([], s)
      else (elim rest [ none ↦ none | some (a, b) ↦ some (c ∷ a, b) ])

  -- The byte does not occur.
  abbrev pub IsFree : Text → Type 0
  IsFree [] = Unit
  IsFree (c ∷ s) = (c ≢ sep) × IsFree s

  join-cons_head : (c : ℕ) (ps : List Text) → ps ≢ [] → join (cons_head c ps) ≡ c ∷ join ps
  unfolding join
  join-cons_head c [] h = absurd (h refl)
  join-cons_head c (p ∷ []) h = refl
  join-cons_head c (p ∷ q ∷ ps) h = refl

  split-ne-nil : (s : Text) → split s ≢ []
  unfolding split
  split-ne-nil [] = cc
  split-ne-nil (c ∷ s) = ground (arith, split-ne-nil s)

  join-nil-cons : (ps : List Text) → ps ≢ [] → join ([] ∷ ps) ≡ sep ∷ join ps
  unfolding join
  join-nil-cons [] h = absurd (h refl)
  join-nil-cons (p ∷ ps) h = refl

  -- The pieces joined again are the text.
  pub join-split : (s : Text) → join (split s) ≡ s
  unfolding split
  join-split [] = unfold join in refl
  join-split (c ∷ s) = elim (Bool-cases (nat_beq c sep)) [
    | inl here ↦ rw (here, join-nil-cons (split s) (split-ne-nil s), join-split s) (ground arith)
    | inr no_sep ↦ rw (no_sep, join-cons_head c (split s) (split-ne-nil s), join-split s)
  ]

  cons_head-append :
      (c : ℕ) (ps qs : List Text) → ps ≢ [] → cons_head c (ps ++ qs) ≡ cons_head c ps ++ qs
  cons_head-append c [] qs h = absurd (h refl)
  cons_head-append c (p ∷ ps) qs h = refl

  pub split-append : (a b : Text) → split (a ++ sep ∷ b) ≡ split a ++ split b
  unfolding split
  split-append [] b = ground arith
  split-append (c ∷ a) b = elim (Bool-cases (nat_beq c sep)) [
    | inl here ↦ rw (here, split-append a b)
    | inr no_sep ↦
        rw (no_sep, split-append a b, cons_head-append c (split a) (split b) (split-ne-nil a))
  ]

  pub split-IsFree : (s : Text) → IsFree s → split s ≡ s ∷ []
  unfolding split
  split-IsFree [] h = refl
  split-IsFree (c ∷ s) h = ground (arith, split-IsFree s h.1)

  pub split_once-IsFree : (a b : Text) → IsFree a → split_once (a ++ sep ∷ b) ≡ some (a, b)
  unfolding split_once
  split_once-IsFree [] b h = ground arith
  split_once-IsFree (c ∷ a) b h = ground (arith, split_once-IsFree a b h.1)

  pub split_once-eq-some :
      (s a b : Text) → split_once s ≡ some (a, b) → (s ≡ a ++ sep ∷ b) × IsFree a
  unfolding split_once
  split_once-eq-some [] a b h = cc
  split_once-eq-some (c ∷ s) a b h = elim (Option-cases (split_once s)) [
    | inl missing ↦ ground arith
    | inr ((a', b'), found) ↦ ground (arith, split_once-eq-some s a' b' found)
  ]

-- `s.starts_with(prefix)`, `s.strip_prefix(prefix)`
unfoldable pub strip_prefix : Text → Text → Option Text
strip_prefix [] s = some s
strip_prefix (p ∷ ps) [] = none
strip_prefix (p ∷ ps) (c ∷ s) = let rest = strip_prefix ps s in if nat_beq p c then rest else none

abbrev pub starts_with : Text → Text → Bool
starts_with prefix s = is_some (strip_prefix prefix s)

pub strip_prefix-eq-some : (p s r : Text) → strip_prefix p s ≡ some r → s ≡ p ++ r
unfolding strip_prefix
strip_prefix-eq-some [] s r h = cc
strip_prefix-eq-some (p ∷ ps) [] r h = cc
strip_prefix-eq-some (p ∷ ps) (c ∷ s) r h = ground (arith, strip_prefix-eq-some ps s r)

pub strip_prefix-append : (p r : Text) → strip_prefix p (p ++ r) ≡ some r
unfolding strip_prefix
strip_prefix-append [] r = refl
strip_prefix-append (p ∷ ps) r = ground (arith, strip_prefix-append ps r)

abbrev pub is_digit : ℕ → Bool
is_digit c = leb b'0' c && leb c b'9'

abbrev pub is_lower : ℕ → Bool
is_lower c = leb b'a' c && leb c b'z'

abbrev pub is_upper : ℕ → Bool
is_upper c = leb b'A' c && leb c b'Z'

abbrev pub ascii_lower : ℕ → ℕ
ascii_lower c = if is_upper c then c + 32 else c

-- Two texts joined by a NUL byte, of which the first holds none.
abbrev pub HasNoNul : Text → Type 0
HasNoNul s = contains ⦃e = nat_eq⦄ s 0 ≡ false

nul_tail :
    (a b : ℕ) (s t c d : Text)
    → (a ∷ s) ++ 0 ∷ c ≡ (b ∷ t) ++ 0 ∷ d
    → (a ≡ b) × (s ++ 0 ∷ c ≡ t ++ 0 ∷ d)
nul_tail a b s t c d h = (cc, cc)

pub nul_injective :
    (s t c d : Text) → HasNoNul s → HasNoNul t → s ++ 0 ∷ c ≡ t ++ 0 ∷ d → (s ≡ t) × (c ≡ d)
nul_injective [] [] c d h k e = (refl, cc)
nul_injective [] (y ∷ t) c d h k e = absurd (ground arith)
nul_injective (x ∷ s) [] c d h k e = absurd (ground arith)
nul_injective (x ∷ s) (y ∷ t) c d h k e =
    let (first, rest) = nul_tail x y s t c d e in
    let (names, others) = nul_injective s t c d (ground arith) (ground arith) rest in
    (ap₂ ◌∷◌ first names, others)
