-- ===== src/Base/Lists.antt =====
-- Lists measured and indexed by native numbers, under the library's names.
use Prim.Native.Nat.{min, suc, zero, ℕ, ◌+◌, ◌-◌}
use mathlib.Core.Bool.{Bool, false, true, ◌&&◌, ◌||◌}
use mathlib.Core.List.{List, [], ◌++◌, ◌∷◌}
use mathlib.Core.Option.{Option, none, some}
use mathlib.Core.Path.{ap, refl, ◌≡◌}
use native.Mathlib.Nat.{suc-add, zero-add}
use native.Mathlib.Omega.{arith}
use roci.Base.{map, sym, ◌∙◌, ◌≤◌}
use roci.Base.Eq.{Eq, eq_iff, nat_eq, ◌==◌}
use roci.Base.Tests.{if◌then◌else◌}

module _ {ℓ} {A : Type ℓ} where
  abbrev pub length : List A → ℕ
  length [] = 0
  length (x ∷ xs) = suc (length xs)

  abbrev pub get_elem? : List A → ℕ → Option A
  get_elem? [] i = none
  get_elem? (x ∷ xs) zero = some x
  get_elem? (x ∷ xs) (suc i) = get_elem? xs i

  abbrev pub take : ℕ → List A → List A
  take zero xs = []
  take (suc n) [] = []
  take (suc n) (x ∷ xs) = x ∷ take n xs

  abbrev pub drop : ℕ → List A → List A
  drop zero xs = xs
  drop (suc n) [] = []
  drop (suc n) (x ∷ xs) = drop n xs

  abbrev pub is_empty : List A → Bool
  is_empty [] = true
  is_empty (x ∷ xs) = false

  abbrev pub any : (A → Bool) → List A → Bool
  any p [] = false
  any p (x ∷ xs) = p x || any p xs

  abbrev pub all : (A → Bool) → List A → Bool
  all p [] = true
  all p (x ∷ xs) = p x && all p xs

  -- `retain`, `filter` on a Boolean test
  abbrev pub retain : (A → Bool) → List A → List A
  retain p [] = []
  retain p (x ∷ xs) = let rest = retain p xs in if p x then x ∷ rest else rest

  pub length-append : (xs ys : List A) → length (xs ++ ys) ≡ length xs + length ys
  length-append [] ys = omega arith
  length-append (x ∷ xs) ys = omega (arith, length-append xs ys)

  pub length-eq-zero : (xs : List A) → length xs ≤ 0 → xs ≡ []
  length-eq-zero [] h = refl
  length-eq-zero (x ∷ xs) h = absurd (omega arith)

  pub take-append-drop : (n : ℕ) (xs : List A) → take n xs ++ drop n xs ≡ xs
  take-append-drop zero xs = refl
  take-append-drop (suc n) [] = refl
  take-append-drop (suc n) (x ∷ xs) = rw (take-append-drop n xs)

  pub take-append : (xs ys : List A) → take (length xs) (xs ++ ys) ≡ xs
  take-append [] ys = refl
  take-append (x ∷ xs) ys = ap (◌∷◌ x) (take-append xs ys)

  pub drop-append : (xs ys : List A) → drop (length xs) (xs ++ ys) ≡ ys
  drop-append [] ys = refl
  drop-append (x ∷ xs) ys = drop-append xs ys

  pub length-take : (n : ℕ) (xs : List A) → length (take n xs) ≡ min n (length xs)
  length-take zero xs = omega arith
  length-take (suc n) [] = omega arith
  length-take (suc n) (x ∷ xs) = omega (arith, length-take n xs)

  pub length-drop : (n : ℕ) (xs : List A) → length (drop n xs) ≡ length xs - n
  length-drop zero xs = omega arith
  length-drop (suc n) [] = omega arith
  length-drop (suc n) (x ∷ xs) = omega (arith, length-drop n xs)

  pub drop-nil : (n : ℕ) → drop n [] ≡ []
  drop-nil zero = refl
  drop-nil (suc n) = refl

  pub take-nil : (n : ℕ) → take n [] ≡ []
  take-nil zero = refl
  take-nil (suc n) = refl

  pub drop-drop : (m n : ℕ) (xs : List A) → drop n (drop m xs) ≡ drop (m + n) xs
  drop-drop zero n xs = rw zero-add
  drop-drop (suc m) n [] = drop-nil n ∙ sym (drop-nil (suc m + n))
  drop-drop (suc m) n (x ∷ xs) = rw suc-add (drop-drop m n xs)

  pub take_all : (n : ℕ) (xs : List A) → length xs ≤ n → take n xs ≡ xs
  take_all zero [] h = refl
  take_all zero (x ∷ xs) h = absurd (omega arith)
  take_all (suc n) [] h = refl
  take_all (suc n) (x ∷ xs) h = ap (λ ys. x ∷ ys) (take_all n xs (omega arith))

  -- What is taken from a list in two parts, within the first and behind it.
  pub take-append_below : (n : ℕ) (xs ys : List A) → n ≤ length xs → take n (xs ++ ys) ≡ take n xs
  take-append_below zero xs ys h = refl
  take-append_below (suc n) [] ys h = absurd (omega arith)
  take-append_below (suc n) (x ∷ xs) ys h =
      ap (λ zs. x ∷ zs) (take-append_below n xs ys (omega arith))

  pub take-append_above :
      (n : ℕ) (xs ys : List A) → length xs ≤ n → take n (xs ++ ys) ≡ xs ++ take (n - length xs) ys
  take-append_above n [] ys h = ap (λ m. take m ys) (omega arith)
  take-append_above zero (x ∷ xs) ys h = absurd (omega arith)
  take-append_above (suc n) (x ∷ xs) ys h =
      ap (λ zs. x ∷ zs)
        (take-append_above n xs ys (omega arith) ∙ ap (λ m. xs ++ take m ys) (omega arith))

module _ {ℓ} {A : Type ℓ} ⦃e : Eq A⦄ where
  -- `contains` of a `Vec` or a `HashSet`
  abbrev pub contains : List A → A → Bool
  contains [] a = false
  contains (x ∷ xs) a = x == a || contains xs a

  -- `HashSet::insert`: a member is not added again
  unfoldable pub set_insert : A → List A → List A
  set_insert a xs = if contains xs a then xs else a ∷ xs

  pub contains-set_insert :
      (a b : A) (xs : List A) → contains (set_insert a xs) b ≡ (a == b || contains xs b)
  unfolding set_insert
  contains-set_insert a b xs = ground (arith, eq_iff a b)

pub take-map {ℓ κ} :
    {A : Type ℓ} {B : Type κ} (f : A → B) (n : ℕ) (xs : List A)
    → take n (map f xs) ≡ map f (take n xs)
take-map f zero xs = refl
take-map f (suc n) [] = refl
take-map f (suc n) (x ∷ xs) = ap (λ ys. f x ∷ ys) (take-map f n xs)
