-- ===== src/Base/Map.antt =====
-- `HashMap` as an association list. Of two entries with one key the later is dead: no operation
-- here makes one, and no law below depends on that.
use Prim.Native.Nat.{suc, ℕ, ◌+◌, ◌≤◌}
use mathlib.Core.Bool.{Bool}
use mathlib.Core.List.{List, [], ◌∷◌}
use mathlib.Core.Logic.{inl, inr}
use mathlib.Core.Option.{Option, none, some}
use mathlib.Core.Path.{refl, ◌≡◌}
use native.Mathlib.Omega.{arith}
use roci.Base.Eq.{Eq, eq_iff, nat_eq, ◌==◌}
use roci.Base.Lists.{drop, length}
use roci.Base.Tests.{Option-cases, and_then, if◌then◌else◌, is_some, unwrap_or}

abbrev pub Map {ℓ κ} : Type ℓ → Type κ → Type (ℓ ⊔ κ)
Map K V = List (K × V)

abbrev pub keys {ℓ κ} : {K : Type ℓ} {V : Type κ} → Map K V → List K
keys [] = []
keys ((k, v) ∷ m) = k ∷ keys m

-- The sum of the values.
unfoldable pub sum_values {ℓ} : {K : Type ℓ} → Map K ℕ → ℕ
sum_values [] = 0
sum_values ((k, v) ∷ m) = v + sum_values m

module _ {ℓ κ} {K : Type ℓ} {V : Type κ} ⦃e : Eq K⦄ where
  unfoldable pub get : K → Map K V → Option V
  get k [] = none
  get k ((j, v) ∷ m) = if j == k then some v else get k m

  unfoldable pub insert : K → V → Map K V → Map K V
  insert k v [] = (k, v) ∷ []
  insert k v ((j, w) ∷ m) = if j == k then (j, v) ∷ m else (j, w) ∷ insert k v m

  unfoldable pub remove : K → Map K V → Map K V
  remove k [] = []
  remove k ((j, w) ∷ m) = let rest = remove k m in if j == k then rest else (j, w) ∷ rest

  -- `retain` with a closure that may also change the value: `none` drops the entry.
  unfoldable pub filter_map_values : (K → V → Option V) → Map K V → Map K V
  unfolding remove
  filter_map_values f [] = []
  filter_map_values f ((j, w) ∷ m) = elim (f j w) [
    | none ↦ remove j (filter_map_values f m)
    | some w' ↦ (j, w') ∷ filter_map_values f m
  ]

  abbrev pub contains_key : K → Map K V → Bool
  contains_key k m = is_some (get k m)

  pub get-empty : (k : K) → get k [] ≡ none
  unfolding get
  get-empty k = refl

  pub get-insert :
      (k j : K) (v : V) (m : Map K V) → get j (insert k v m) ≡ (if k == j then some v else get j m)
  unfolding get insert
  get-insert k j v [] = refl
  get-insert k j v ((i, w) ∷ m) =
      ground (arith, eq_iff k j, eq_iff i k, eq_iff i j, get-insert k j v m)

  pub get-remove : (k j : K) (m : Map K V) → get j (remove k m) ≡ (if k == j then none else get j m)
  unfolding get remove
  get-remove k j [] = ground arith
  get-remove k j ((i, w) ∷ m) = ground (arith, get-remove k j m, eq_iff i k, eq_iff i j, eq_iff k j)

  -- Every key's entry is that of the tail, or the head's.
  abbrev pub IsUnique : Map K V → Type κ
  IsUnique [] = Unit
  IsUnique ((j, w) ∷ m) = (get j m ≡ none) × IsUnique m

  pub insert-IsUnique : (k : K) (v : V) (m : Map K V) → IsUnique m → IsUnique (insert k v m)
  unfolding get insert
  insert-IsUnique k v [] h = (refl, tt)
  insert-IsUnique k v ((i, w) ∷ m) h =
      ground (arith, insert-IsUnique k v m h.1, get-insert k i v m, eq_iff i k, eq_iff k i)

  pub remove-IsUnique : (k : K) (m : Map K V) → IsUnique m → IsUnique (remove k m)
  unfolding get remove
  remove-IsUnique k [] h = tt
  remove-IsUnique k ((i, w) ∷ m) h =
      ground (arith, remove-IsUnique k m h.1, get-remove k i m, eq_iff i k, eq_iff k i)

  pub remove_absent : (k : K) (m : Map K V) → get k m ≡ none → remove k m ≡ m
  unfolding get remove
  remove_absent k [] h = refl
  remove_absent k ((i, w) ∷ m) h = ground (arith, remove_absent k m)

  pub length-insert :
      (k : K) (v : V) (m : Map K V)
      → length (insert k v m) ≡ (if contains_key k m then length m else suc (length m))
  unfolding get insert
  length-insert k v [] = refl
  length-insert k v ((i, w) ∷ m) = ground (arith, length-insert k v m)

  pub get-filter_map_values :
      (f : K → V → Option V) (j : K) (m : Map K V)
      → get j (filter_map_values f m) ≡ and_then (get j m) (f j)
  unfolding get filter_map_values
  get-filter_map_values f j [] = refl
  get-filter_map_values f j ((i, w) ∷ m) = elim (Option-cases (f i w)) [
    | inl drop ↦
        ground
          (arith, eq_iff i j, get-remove i j (filter_map_values f m), get-filter_map_values f j m)
    | inr (w', keep) ↦ ground (arith, eq_iff i j, get-filter_map_values f j m)
  ]

module _ {ℓ} {K : Type ℓ} ⦃e : Eq K⦄ where
  pub sum_values-insert :
      (k : K) (v : ℕ) (m : Map K ℕ)
      → sum_values (insert k v m) + unwrap_or (get k m) 0 ≡ sum_values m + v
  unfolding get insert sum_values
  sum_values-insert k v [] = omega arith
  sum_values-insert k v ((i, w) ∷ m) = ground (arith, sum_values-insert k v m)

  pub sum_values-remove :
      (k : K) (m : Map K ℕ)
      → IsUnique m
      → sum_values (remove k m) + unwrap_or (get k m) 0 ≡ sum_values m
  unfolding get remove sum_values
  sum_values-remove k [] h = omega arith
  sum_values-remove k ((i, w) ∷ m) h =
      ground (arith, sum_values-remove k m h.1, remove_absent k m, eq_iff i k)

  pub get-le-sum_values : (k : K) (m : Map K ℕ) → unwrap_or (get k m) 0 ≤ sum_values m
  unfolding get sum_values
  get-le-sum_values k [] = omega arith
  get-le-sum_values k ((i, w) ∷ m) = ground (arith, get-le-sum_values k m)
