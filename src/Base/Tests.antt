-- ===== src/Base/Tests.antt =====
-- Boolean tests on the native numbers, the conditional, and case lemmas.
use Prim.Native.Nat.{Ordering, compare, ℕ, ◌<◌, ◌≤◌}
use mathlib.Core.Bool.{Bool, false, true, ◌&&◌}
use mathlib.Core.Logic.{inl, inr, ◌↔◌, ◌⊎◌}
use mathlib.Core.Option.{Option, none, some}
use mathlib.Core.Path.{refl, ◌≡◌}
use native.Mathlib.Omega.{arith}
use roci.Base.{ap, ◌||◌}

abbrev pub ltb : ℕ → ℕ → Bool
ltb a b = elim (compare a b) [ Ordering.lt ↦ true | _ ↦ false ]

abbrev pub leb : ℕ → ℕ → Bool
leb a b = elim (compare a b) [ Ordering.gt ↦ false | _ ↦ true ]

abbrev pub nat_beq : ℕ → ℕ → Bool
nat_beq a b = elim (compare a b) [ Ordering.eq ↦ true | _ ↦ false ]

infix 1 if◌then◌else◌
abbrev pub if◌then◌else◌ {ℓ} : {A : Type ℓ} → Bool → A → A → A
if true then x else y = x
if false then x else y = y

pub ltb→lt : (a b : ℕ) → ltb a b ≡ true → a < b
ltb→lt a b h = ground arith

pub lt→ltb : (a b : ℕ) → a < b → ltb a b ≡ true
lt→ltb a b h = ground arith

pub leb→le : (a b : ℕ) → leb a b ≡ true → a ≤ b
leb→le a b h = ground arith

pub nat_beq_iff : (a b : ℕ) → (nat_beq a b ≡ true) ↔ (a ≡ b)
nat_beq_iff a b = ground arith

pub Bool-cases : (b : Bool) → (b ≡ true) ⊎ (b ≡ false)
Bool-cases true = inl refl
Bool-cases false = inr refl

pub Option-cases {ℓ} : {A : Type ℓ} (o : Option A) → (o ≡ none) ⊎ ((a : A) × (o ≡ some a))
Option-cases none = inl refl
Option-cases (some a) = inr (a, refl)

pub and-eq-true : (a b : Bool) → (a && b) ≡ true → (a ≡ true) × (b ≡ true)
and-eq-true a b h = ground arith

abbrev pub is_some {ℓ} : {A : Type ℓ} → Option A → Bool
is_some none = false
is_some (some _) = true

abbrev pub is_none {ℓ} : {A : Type ℓ} → Option A → Bool
is_none none = true
is_none (some _) = false

module _ {ℓ} {A : Type ℓ} where
  abbrev pub unwrap_or : Option A → A → A
  unwrap_or none d = d
  unwrap_or (some a) d = a

  abbrev pub is_some_and : Option A → (A → Bool) → Bool
  is_some_and none p = false
  is_some_and (some a) p = p a

  abbrev pub is_none_or : Option A → (A → Bool) → Bool
  is_none_or none p = true
  is_none_or (some a) p = p a

abbrev pub and_then {ℓ κ} : {A : Type ℓ} {B : Type κ} → Option A → (A → Option B) → Option B
and_then none f = none
and_then (some a) f = f a

pub or-cases : {a b : Bool} → (a || b) ≡ true → (a ≡ true) ⊎ (b ≡ true)
or-cases {a = true} h = inl refl
or-cases {a = false} h = inr h

pub or-right : (a : Bool) {b : Bool} → b ≡ true → (a || b) ≡ true
or-right true h = refl
or-right false h = h

pub or-left : {a : Bool} (b : Bool) → a ≡ true → (a || b) ≡ true
or-left b h = ap (λ x. x || b) h

pub and_intro : {a b : Bool} → a ≡ true → b ≡ true → (a && b) ≡ true
and_intro {a = true} h k = k
and_intro {a = false} h k = h
