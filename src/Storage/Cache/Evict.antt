-- ===== src/Storage/Cache/Evict.antt =====
-- crates/roci-storage/src/cache.rs: the eviction loop ends within the budget and takes entries from the
-- least recently used end only.
use mathlib.Core.List.{append-nil, append_assoc}
use mathlib.Core.Path.{subst}
use roci.Base.{
  Option, [], ap, arith, false, inl, inr, none, refl, some, suc, sym, true, zero, ℕ, ◌++◌, ◌+◌, ◌-◌,
  ◌∙◌, ◌∷◌, ◌≡◌, ◌≤◌,
}
use roci.Base.Eq.{Text, eq_iff, nat_eq, text_eq, ◌==◌}
use roci.Base.Lists.{length, length-append, length-eq-zero}
use roci.Base.Map.{IsUnique, Map, get, remove, remove_absent}
use roci.Base.Tests.{Bool-cases, Option-cases, ltb}
use roci.Base.Word.{wrapping_sub-eq-sub}
use roci.Storage.Cache.{Lru, SmallBlobCache, entry_cost, evict}

unfoldable pub costs : Map Text Text → ℕ
costs [] = 0
costs ((k, v) ∷ m) = entry_cost k v + costs m

pub costs-append : (xs ys : Map Text Text) → costs (xs ++ ys) ≡ costs xs + costs ys
unfolding costs
costs-append [] ys = omega arith
costs-append ((k, v) ∷ xs) ys = omega (arith, costs-append xs ys)

costs-single : (k v : Text) → costs ((k, v) ∷ []) ≡ entry_cost k v
unfolding costs
costs-single k v = omega arith

-- What removing a key gives back.
abbrev pub cost_of : Text → Option Text → ℕ
cost_of k none = 0
cost_of k (some v) = entry_cost k v

pub costs-remove :
    (k : Text) (m : Map Text Text) → IsUnique m → costs (remove k m) + cost_of k (get k m) ≡ costs m
unfolding costs get remove
costs-remove k [] h = omega arith
costs-remove k ((i, w) ∷ m) h = elim (Bool-cases (i == k)) [
  | inl e ↦
      let same : i ≡ k = (eq_iff i k).0 e in
      rw (e, remove_absent k m (rw (← same) h.0), same) (omega arith)
  | inr ne ↦ rw ne (omega (arith, costs-remove k m h.1))
]

pub get-append :
    (k : Text) (xs ys : Map Text Text)
    → get k (xs ++ ys) ≡ elim (get k xs) [ none ↦ get k ys | some v ↦ some v ]
unfolding get
get-append k [] ys = refl
get-append k ((i, w) ∷ xs) ys = elim (Bool-cases (i == k)) [
  | inl e ↦ rw e
  | inr ne ↦ rw ne (get-append k xs ys)
]

none_of_append : (k : Text) (xs ys : Map Text Text) → get k (xs ++ ys) ≡ none → get k xs ≡ none
none_of_append k xs ys h = elim (Option-cases (get k xs)) [
  | inl e ↦ e
  | inr (v, e) ↦ let found : get k (xs ++ ys) ≡ some v = get-append k xs ys ∙ rw e in cc
]

pub IsUnique-append : (xs ys : Map Text Text) → IsUnique (xs ++ ys) → IsUnique xs
IsUnique-append [] ys h = tt
IsUnique-append ((i, w) ∷ xs) ys h = (none_of_append i xs ys h.0, IsUnique-append xs ys h.1)

module _ (lru : Lru) where
  open lru use {entries, lru_pop_lru, lru_pop_lru-none, lru_pop_lru-some}

  -- The count of bytes is what the entries cost, and no key is there twice.
  abbrev pub IsBalanced : SmallBlobCache lru → Type 0
  IsBalanced self = IsUnique (entries self.map) × (self.total_bytes ≡ costs (entries self.map))

  abbrev pub IsWithin : SmallBlobCache lru → Type 0
  IsWithin self = self.total_bytes ≤ self.capacity

  -- What the loop leaves: a front part of the entries.
  abbrev pub Evicted : SmallBlobCache lru → SmallBlobCache lru → Type 0
  Evicted self after =
      IsBalanced after
      × IsWithin after
      × (after.capacity ≡ self.capacity)
      × (after.threshold ≡ self.threshold)
      × ((dropped : Map Text Text) × (entries self.map ≡ entries after.map ++ dropped))

  evict_stops :
      (fuel : ℕ) (self : SmallBlobCache lru)
      → ltb self.capacity self.total_bytes ≡ false
      → evict lru fuel self ≡ some self
  unfolding evict
  evict_stops zero self h = rw h
  evict_stops (suc fuel) self h = rw h

  evict_round :
      (fuel : ℕ) (self : SmallBlobCache lru) (k v : Text) (m : lru.LruCache)
      → ltb self.capacity self.total_bytes ≡ true
      → lru_pop_lru self.map ≡ some ((k, v), m)
      → entry_cost k v ≤ self.total_bytes
      → evict lru (suc fuel) self
        ≡ evict lru fuel (record self { map = m; total_bytes = self.total_bytes - entry_cost k v })
  unfolding evict
  evict_round fuel self k v m over popped counted =
      rw (over, popped, evict, wrapping_sub-eq-sub self.total_bytes (entry_cost k v) counted)

  -- With no entries the budget holds.
  not_over_empty :
      (self : SmallBlobCache lru)
      → IsBalanced self
      → entries self.map ≡ []
      → ltb self.capacity self.total_bytes ≡ false
  unfolding costs
  not_over_empty self h e = ground (arith, ap costs e)

  stopped :
      (fuel : ℕ) (self : SmallBlobCache lru)
      → IsBalanced self
      → ltb self.capacity self.total_bytes ≡ false
      → (after : SmallBlobCache lru) × (evict lru fuel self ≡ some after) × Evicted self after
  stopped fuel self h stop =
      (self, evict_stops fuel self stop, (h, ground arith, refl, refl, ([], sym (append-nil _))))

  pub evict-Evicted :
      (fuel : ℕ) (self : SmallBlobCache lru)
      → IsBalanced self
      → length (entries self.map) ≤ fuel
      → (after : SmallBlobCache lru) × (evict lru fuel self ≡ some after) × Evicted self after
  evict-Evicted zero self h enough =
      stopped zero self h (not_over_empty self h (length-eq-zero _ enough))
  evict-Evicted (suc fuel) self h enough = elim (Bool-cases (ltb self.capacity self.total_bytes)) [
    | inr stop ↦ stopped (suc fuel) self h stop
    | inl over ↦ elim (Option-cases (lru_pop_lru self.map)) [
      | inl nothing ↦
          stopped (suc fuel) self h (not_over_empty self h (lru_pop_lru-none self.map nothing))
      | inr (((k, v), m), popped) ↦
          let split = lru_pop_lru-some self.map m k v popped in
          let smaller : SmallBlobCache lru = record self {
            map = m;
            total_bytes = self.total_bytes - entry_cost k v;
          } in
          let counted : costs (entries m) + entry_cost k v ≡ self.total_bytes = omega (
            arith,
            h.1,
            ap costs split,
            costs-append (entries m) ((k, v) ∷ []),
            costs-single k v,
          ) in
          let balanced : IsBalanced smaller = (
            IsUnique-append (entries m) ((k, v) ∷ []) (subst IsUnique split h.0),
            omega (arith, counted),
          ) in
          let (after, ran, (same, within, cap_same, threshold_same, (dropped, front))) =
            evict-Evicted fuel smaller balanced
              (omega (arith, ap length split, length-append (entries m) ((k, v) ∷ []))) in
          let kept : entries self.map ≡ entries after.map ++ (dropped ++ (k, v) ∷ []) =
            split
            ∙ ap (λ es. es ++ (k, v) ∷ []) front
            ∙ append_assoc (entries after.map) dropped ((k, v) ∷ []) in
          (
            after,
            evict_round fuel self k v m over popped (omega (arith, counted)) ∙ ran,
            (same, within, cap_same, threshold_same, (dropped ++ (k, v) ∷ [], kept)),
          )
    ]
  ]
