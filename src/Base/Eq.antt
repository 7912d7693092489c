-- ===== src/Base/Eq.antt =====
-- Equality tests as an instance: numbers, byte texts, pairs.
use Prim.Native.Char.{code}
use Prim.Native.Nat.{ℕ}
use Prim.Native.String.{String}
use mathlib.Core.Bool.{Bool, false, true, ◌&&◌}
use mathlib.Core.List.{List, [], ◌∷◌}
use mathlib.Core.Logic.{◌↔◌}
use mathlib.Core.Path.{refl, ◌≡◌}
use native.Mathlib.Omega.{arith}
use roci.Base.Tests.{nat_beq, nat_beq_iff}

-- A Boolean test that decides equality.
pub record Eq {ℓ} (T : Type ℓ) : Type ℓ where
  pub same : T → T → Bool
  pub decides : (x y : T) → (same x y ≡ true) ↔ (x ≡ y)

infix 50 ◌==◌
abbrev pub ◌==◌ {ℓ} : {T : Type ℓ} ⦃test : Eq T⦄ → T → T → Bool
◌==◌ ⦃test⦄ x y = test.same x y

pub eq_iff {ℓ} : {T : Type ℓ} ⦃test : Eq T⦄ → (x y : T) → ((x == y) ≡ true) ↔ (x ≡ y)
eq_iff ⦃test⦄ x y = test.decides x y

pub beq_self {ℓ} : {T : Type ℓ} ⦃test : Eq T⦄ → (x : T) → (x == x) ≡ true
beq_self ⦃test⦄ x = (test.decides x x).1 refl

instance abbrev pub nat_eq : Eq ℕ
nat_eq = record { decides = nat_beq_iff; same = nat_beq }

-- A Rust `String`: its bytes.
abbrev pub Text : Type 0
Text = List ℕ

-- The bytes of an ASCII literal.
abbrev pub codes : String → Text
codes String.[] = []
codes (String.◌∷◌ c s) = code c ∷ codes s

unfoldable pub text_beq : Text → Text → Bool
text_beq [] [] = true
text_beq [] (y ∷ ys) = false
text_beq (x ∷ xs) [] = false
text_beq (x ∷ xs) (y ∷ ys) = nat_beq x y && text_beq xs ys

pub text_beq_iff : (a b : Text) → (text_beq a b ≡ true) ↔ (a ≡ b)
unfolding text_beq
text_beq_iff [] [] = ground arith
text_beq_iff [] (y ∷ ys) = ground arith
text_beq_iff (x ∷ xs) [] = ground arith
text_beq_iff (x ∷ xs) (y ∷ ys) = ground (arith, text_beq_iff xs ys)

instance abbrev pub text_eq : Eq Text
text_eq = record { decides = text_beq_iff; same = text_beq }

-- A pair of texts: a repository and a digest.
abbrev pub Pair : Type 0
Pair = Text × Text

unfoldable pub pair_beq : Pair → Pair → Bool
pair_beq (a, b) (c, d) = text_beq a c && text_beq b d

pub pair_beq_iff : (p q : Pair) → (pair_beq p q ≡ true) ↔ (p ≡ q)
unfolding pair_beq
pair_beq_iff (a, b) (c, d) = ground (arith, text_beq_iff a c, text_beq_iff b d)

instance abbrev pub pair_eq : Eq Pair
pair_eq = record { decides = pair_beq_iff; same = pair_beq }
