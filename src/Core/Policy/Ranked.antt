-- ===== src/Core/Policy/Ranked.antt =====
-- crates/roci-core/src/auth/policy.rs: the order of rules by literal bytes and stars, told apart from the
-- code that compares them, for compiled rules and for the policies of the configuration alike.
use mathlib.Core.Path.{ap₂, fun_ext, subst}
use roci.Base.{
  Bool, List, Option, [], ap, map, none, refl, some, sym, true, ℕ, ◌++◌, ◌<◌, ◌∷◌, ◌≡◌, ◌⊎◌,
}
use roci.Base.Lists.{all}
use roci.Base.Tests.{and-eq-true}
use roci.Base.Text.{split}
use roci.Core.Dispatch.Guarded.{Fits}

-- `P` of every element.
abbrev pub Each : {X : Type 0} → (X → Type 0) → List X → Type 0
Each P [] = Unit {0}
Each P (x ∷ xs) = P x × Each P xs

pub all-Each :
    {X : Type 0} {P : X → Type 0} (test : X → Bool)
    → ((x : X) → test x ≡ true → P x)
    → (xs : List X) → all test xs ≡ true
    → Each P xs
all-Each test each [] h = tt
all-Each test each (x ∷ xs) h =
    let (here, rest) = and-eq-true (test x) (all test xs) h in
    (each x here, all-Each test each xs rest)

module _ {X : Type 0} (Fits : X → Type 0) (literals stars : X → ℕ) where
  -- More literal bytes, or as many and fewer stars.
  abbrev pub Outranks : X → X → Type 0
  Outranks x y = (literals y < literals x) ⊎ ((literals x ≡ literals y) × (stars x < stars y))

  abbrev pub OutranksEach : List X → X → Type 0
  OutranksEach xs x = Each (λ y. Fits y → Outranks x y) xs

  abbrev pub IsOutrankedByNone : List X → X → Type 0
  IsOutrankedByNone xs x = Each (λ y. Fits y → Outranks y x → ⊥) xs

  -- The first of the best that fit: it outranks all that fit before it, and none after it that fits
  -- outranks it. None, if none fits.
  unfoldable pub IsWinner : List X → Option X → Type 0
  IsWinner xs none = Each (λ x. Fits x → ⊥) xs
  IsWinner xs (some x) =
      (before : List X) × (after : List X) × (xs ≡ before ++ x ∷ after)
      × Fits x
      × OutranksEach before x
      × IsOutrankedByNone after x

-- Only the values of the two measures matter.
pub IsWinner-same :
    {X : Type 0} (Fits : X → Type 0) (literals stars literals' stars' : X → ℕ)
    → ((x : X) → literals x ≡ literals' x)
    → ((x : X) → stars x ≡ stars' x)
    → (xs : List X) (o : Option X) → IsWinner Fits literals stars xs o
    → IsWinner Fits literals' stars' xs o
IsWinner-same Fits literals stars literals' stars' e f xs o h =
    subst (λ s. IsWinner Fits literals' s xs o) (fun_ext f)
      (subst (λ l. IsWinner Fits l stars xs o) (fun_ext e) h)

module _ {X Y : Type 0} (f : X → Y) where
  same_head : {a b : Y} {xs ys : List Y} → a ∷ xs ≡ b ∷ ys → a ≡ b
  same_head h = cc

  same_tail : {a b : Y} {xs ys : List Y} → a ∷ xs ≡ b ∷ ys → xs ≡ ys
  same_tail h = cc

  -- What a mapped list is split into comes from a split of the list.
  unmap :
      (xs : List X) (before : List Y) (y : Y) (after : List Y)
      → map f xs ≡ before ++ y ∷ after
      → (b : List X) × (x : X) × (a : List X) × (xs ≡ b ++ x ∷ a)
        × (map f b ≡ before)
        × (f x ≡ y)
        × (map f a ≡ after)
  unmap [] [] y after h = cc
  unmap [] (z ∷ before) y after h = cc
  unmap (x ∷ xs) [] y after h = ([], x, xs, refl, refl, same_head h, same_tail h)
  unmap (x ∷ xs) (z ∷ before) y after h =
      let (b, x', a, e, eb, ex, ea) = unmap xs before y after (same_tail h) in
      (x ∷ b, x', a, ap (λ l. x ∷ l) e, ap₂ (λ u us. u ∷ us) (same_head h) eb, ex, ea)

  Each-map : (P : Y → Type 0) (xs : List X) → Each P (map f xs) → Each (λ x. P (f x)) xs
  Each-map P [] h = tt
  Each-map P (x ∷ xs) (here, rest) = (here, Each-map P xs rest)

  abbrev pub mapped : Option X → Option Y
  mapped none = none
  mapped (some x) = some (f x)

  -- The winner of a mapped list is the image of the winner of the list.
  pub IsWinner-map :
      (Suits : Y → Type 0) (literals stars : Y → ℕ) (xs : List X) (o : Option Y)
      → IsWinner Suits literals stars (map f xs) o
      → (p : Option X) × (o ≡ mapped p)
        × IsWinner (λ x. Suits (f x)) (λ x. literals (f x)) (λ x. stars (f x)) xs p
  unfolding IsWinner
  IsWinner-map Suits literals stars xs none h = (none, refl, Each-map _ xs h)
  IsWinner-map Suits literals stars xs (some y) (before, after, e, fits, outranks, outranked) =
      let (b, x, a, split, eb, ex, ea) = unmap xs before y after e in
      let first : OutranksEach Suits literals stars (map f b) (f x) =
        subst (λ ys. OutranksEach Suits literals stars ys (f x)) (sym eb)
          (subst (OutranksEach Suits literals stars before) (sym ex) outranks) in
      let last : IsOutrankedByNone Suits literals stars (map f a) (f x) =
        subst (λ ys. IsOutrankedByNone Suits literals stars ys (f x)) (sym ea)
          (subst (IsOutrankedByNone Suits literals stars after) (sym ex) outranked) in
      (
        some x,
        ap some (sym ex),
        (b, a, split, subst Suits (sym ex) fits, Each-map _ b first, Each-map _ a last),
      )
