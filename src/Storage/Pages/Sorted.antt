-- ===== src/Storage/Pages/Sorted.antt =====
-- crates/roci-storage/src/metadata/log.rs: the keys of a map in order, each once.
use roci.Base.{List, [], ap, arith, false, inl, inr, refl, true, ◌||◌, ◌∙◌, ◌∷◌, ◌≡◌}
use roci.Base.Eq.{Text, eq_iff, nat_eq, text_beq, text_eq, ◌==◌}
use roci.Base.Lists.{all, contains}
use roci.Base.Map.{Map, contains_key, get, keys}
use roci.Base.Tests.{Bool-cases, and_intro}
use roci.Storage.Pages.{insert_key, sort_keys, text_lt}

pub text_lt_trans : (a b c : Text) → text_lt a b ≡ true → text_lt b c ≡ true → text_lt a c ≡ true
unfolding text_lt
text_lt_trans [] [] c h k = cc
text_lt_trans [] (y ∷ b) [] h k = cc
text_lt_trans [] (y ∷ b) (z ∷ c) h k = refl
text_lt_trans (x ∷ a) [] c h k = cc
text_lt_trans (x ∷ a) (y ∷ b) [] h k = cc
text_lt_trans (x ∷ a) (y ∷ b) (z ∷ c) h k = ground (arith, text_lt_trans a b c)

pub text_lt_irreflexive : (a : Text) → text_lt a a ≡ false
unfolding text_lt
text_lt_irreflexive [] = refl
text_lt_irreflexive (x ∷ a) = ground (arith, text_lt_irreflexive a)

pub text_lt_total : (a b : Text) → (a == b) ≡ false → text_lt a b ≡ false → text_lt b a ≡ true
unfolding text_lt text_beq
text_lt_total [] [] h k = cc
text_lt_total [] (y ∷ b) h k = cc
text_lt_total (x ∷ a) [] h k = refl
text_lt_total (x ∷ a) (y ∷ b) h k = ground (arith, text_lt_total a b)

-- Each key lies before all behind it.
abbrev pub IsSorted : List Text → Type 0
IsSorted [] = Unit {0}
IsSorted (k ∷ ks) = (all (text_lt k) ks ≡ true) × IsSorted ks

all_mono :
    (k j : Text) (ks : List Text)
    → text_lt k j ≡ true
    → all (text_lt j) ks ≡ true
    → all (text_lt k) ks ≡ true
all_mono k j [] h below = refl
all_mono k j (i ∷ ks) h below = ground (arith, text_lt_trans k j i, all_mono k j ks h)

all-insert_key :
    (i k : Text) (ks : List Text)
    → text_lt i k ≡ true
    → all (text_lt i) ks ≡ true
    → all (text_lt i) (insert_key k ks) ≡ true
unfolding insert_key
all-insert_key i k [] h below = ground arith
all-insert_key i k (j ∷ ks) h below = ground (arith, all-insert_key i k ks h)

insert_key-IsSorted : (k : Text) (ks : List Text) → IsSorted ks → IsSorted (insert_key k ks)
unfolding insert_key
insert_key-IsSorted k [] h = (refl, tt)
insert_key-IsSorted k (j ∷ ks) h = elim (Bool-cases (k == j)) [
  | inl e ↦ rw e h
  | inr ne ↦ elim (Bool-cases (text_lt k j)) [
    | inl less ↦ rw (ne, less) ((and_intro less (all_mono k j ks less h.0)), h)
    | inr over ↦
        rw (ne, over)
          (all-insert_key j k ks (text_lt_total k j ne over) h.0, insert_key-IsSorted k ks h.1)
  ]
]

pub sort_keys-IsSorted : (ks : List Text) → IsSorted (sort_keys ks)
unfolding sort_keys
sort_keys-IsSorted [] = tt
sort_keys-IsSorted (k ∷ ks) = insert_key-IsSorted k (sort_keys ks) (sort_keys-IsSorted ks)

contains-insert_key :
    (k i : Text) (ks : List Text) → contains (insert_key k ks) i ≡ (k == i || contains ks i)
unfolding insert_key
contains-insert_key k i [] = refl
contains-insert_key k i (j ∷ ks) =
    ground (arith, eq_iff k j, eq_iff k i, eq_iff j i, contains-insert_key k i ks)

pub contains-sort_keys : (i : Text) (ks : List Text) → contains (sort_keys ks) i ≡ contains ks i
unfolding sort_keys
contains-sort_keys i [] = refl
contains-sort_keys i (k ∷ ks) =
    contains-insert_key k i (sort_keys ks) ∙ ap (λ b. k == i || b) (contains-sort_keys i ks)

pub contains-keys :
    {V : Type 0} (k : Text) (m : Map Text V) → contains (keys m) k ≡ contains_key k m
unfolding get
contains-keys k [] = refl
contains-keys k ((j, v) ∷ m) = ground (arith, contains-keys k m)
