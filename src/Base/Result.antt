-- ===== src/Base/Result.antt =====
-- Rust's `Result`, its `?`, and inversion of a successful chain.
use mathlib.Core.Bool.{Bool, false, true}
use mathlib.Core.Option.{Option, none, some}
use mathlib.Core.Path.{refl, subst, ◌≡◌}
use roci.Base.{inl, inr, ◌⊎◌}
use roci.Base.Tests.{if◌then◌else◌}

pub data Result {ℓ} (E A : Type ℓ) : Type ℓ where
  ok : A → Result E A
  err : E → Result E A

infixl 5 ◌>>=◌ ◌>>◌
abbrev pub ◌>>=◌ {ℓ} : {E A B : Type ℓ} → Result E A → (A → Result E B) → Result E B
ok a >>= f = f a
err e >>= f = err e

abbrev pub ◌>>◌ : {E B : Type 0} → Result E (Unit {0}) → Result E B → Result E B
m >> k = m >>= λ _. k

-- `if !test { return Err(e) }`
abbrev pub guard : {E : Type 0} → Bool → E → Result E (Unit {0})
guard true e = ok tt
guard false e = err e

abbrev pub ok_or {ℓ} : {E A : Type ℓ} → Option A → E → Result E A
ok_or none e = err e
ok_or (some a) e = ok a

abbrev pub is_ok {ℓ} : {E A : Type ℓ} → Result E A → Bool
is_ok (ok a) = true
is_ok (err e) = false

-- A chain that succeeds did so at its first step, and at the rest from that step's value.
pub >>=-eq-ok {ℓ} :
    {E A B : Type ℓ} (first : Result E A) (rest : A → Result E B) {result : B}
    → (first >>= rest) ≡ ok result
    → (value : A) × (first ≡ ok value) × (rest value ≡ ok result)
>>=-eq-ok (err failure) rest h = cc
>>=-eq-ok (ok value) rest h = (value, refl, h)

pub guard-eq-ok :
    {E B : Type 0} (b : Bool) (e : E) (k : Result E B) {result : B}
    → (guard b e >> k) ≡ ok result
    → (b ≡ true) × (k ≡ ok result)
guard-eq-ok true e k h = (refl, h)
guard-eq-ok false e k h = cc

pub ok_or-eq-ok {ℓ} : {E A : Type ℓ} (o : Option A) (e : E) {a : A} → ok_or o e ≡ ok a → o ≡ some a
ok_or-eq-ok none e h = cc
ok_or-eq-ok (some x) e h = cc

-- `P` holds of the value, if there is one.
pub data Ensures {ℓ} {E A : Type ℓ} (P : A → Type ℓ) : Result E A → Type ℓ where
  ensured : {a : A} → P a → Ensures P (ok a)
  failed : {e : E} → Ensures P (err e)

module _ {ℓ} {E A : Type ℓ} {P : A → Type ℓ} where
  pub Ensures-bind :
      {B : Type ℓ} {Q : B → Type ℓ} {r : Result E A} (f : A → Result E B)
      → Ensures P r
      → ((a : A) → P a → Ensures Q (f a))
      → Ensures Q (r >>= f)
  Ensures-bind f (ensured {a} p) k = k a p
  Ensures-bind f failed k = failed

  pub Ensures-if :
      (b : Bool) (x y : Result E A) → Ensures P x → Ensures P y → Ensures P (if b then x else y)
  Ensures-if true x y hx hy = hx
  Ensures-if false x y hx hy = hy

  pub ok-Ensures : (r : Result E A) → ((a : A) → r ≡ ok a → P a) → Ensures P r
  ok-Ensures (ok a) h = ensured (h a refl)
  ok-Ensures (err e) h = failed

  pub Ensures-ok : {r : Result E A} {a : A} → Ensures P r → r ≡ ok a → P a
  Ensures-ok {a} (ensured {a = b} p) e = subst P (cc) p
  Ensures-ok failed e = cc

pub Result-cases {ℓ} :
    {E A : Type ℓ} (r : Result E A) → ((a : A) × (r ≡ ok a)) ⊎ ((e : E) × (r ≡ err e))
Result-cases (ok a) = inl (a, refl)
Result-cases (err e) = inr (e, refl)
