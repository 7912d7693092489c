-- ===== src/Storage/Cache/Budget.antt =====
-- crates/roci-storage/src/cache.rs: the count of bytes is right and stays within the budget, whatever is
-- called, and no call panics.
use mathlib.Core.Path.{subst}
use roci.Base.{
  List, Option, [], ap, arith, false, inl, inr, none, refl, some, sym, true, ℕ, ◌+◌, ◌<◌, ◌^◌, ◌∙◌,
  ◌∷◌, ◌≡◌, ◌≤◌,
}
use roci.Base.Eq.{Text, beq_self, text_eq}
use roci.Base.Lists.{length}
use roci.Base.Map.{IsUnique, Map, get, get-remove, remove, remove-IsUnique, remove_absent}
use roci.Base.Tests.{Bool-cases, Option-cases, and_then}
use roci.Base.Word.{wrapping_add, wrapping_sub-eq-sub}
use roci.Storage.Cache.{
  Lru, SmallBlobCache, cache_get, cache_key, cache_put, entry_cost, invalidate, refund, rejects,
  replace_entry, to_front, with_limits,
}
use roci.Storage.Cache.Evict.{
  Evicted, IsBalanced, IsWithin, cost_of, costs, costs-remove, evict-Evicted,
}

pub data Call : Type 0 where
  get_call : (repo digest : Text) → Call
  put_call : (repo digest content : Text) → Call
  invalidate_call : (repo digest : Text) → Call

module _ (lru : Lru) where
  open lru use {
    entries, lru_get, lru_pop, lru_put, entries-lru_get, entries-lru_pop, entries-lru_put,
    lru_pop-answer, entries-unbounded,
  }

  unfoldable pub call : Call → SmallBlobCache lru → Option (SmallBlobCache lru)
  call (get_call repo digest) self = some (cache_get lru repo digest self).1
  call (put_call repo digest content) self = cache_put lru repo digest content self
  call (invalidate_call repo digest) self = some (invalidate lru repo digest self)

  unfoldable pub run : List Call → SmallBlobCache lru → Option (SmallBlobCache lru)
  run [] self = some self
  run (one ∷ calls) self = and_then (call one self) (run calls)

  -- The entries behind `replace_entry` and `invalidate`.
  pub entries-replace_entry :
      (k content : Text) (self : SmallBlobCache lru)
      → entries (replace_entry lru k content self).map
        ≡ (k, content) ∷ remove k (remove k (entries self.map))
  unfolding replace_entry
  entries-replace_entry k content self =
      entries-lru_put k content (lru_pop k self.map).1
      ∙ ap (λ m. (k, content) ∷ remove k m) (entries-lru_pop k self.map)

  -- The refund takes what the removed entry cost.
  refund-costs :
      (k : Text) (self : SmallBlobCache lru)
      → IsBalanced lru self
      → refund k (lru_pop k self.map).0 self.total_bytes ≡ costs (remove k (entries self.map))
  unfolding refund
  refund-costs k self h =
      let whole = costs-remove k (entries self.map) h.0 in
      elim (Option-cases (get k (entries self.map))) [
        | inl e ↦
            rw (lru_pop-answer k self.map, e, refund) (omega (arith, h.1, whole, ap (cost_of k) e))
        | inr (v, e) ↦
            let counted : entry_cost k v + costs (remove k (entries self.map)) ≡ self.total_bytes =
              omega (arith, h.1, whole, ap (cost_of k) e) in
            rw (lru_pop-answer k self.map, e, refund)
              (wrapping_sub-eq-sub self.total_bytes (entry_cost k v) (omega (arith, counted))
                ∙ omega (arith, counted))
      ]

  absent_behind : (k : Text) (m : Map Text Text) → get k (remove k m) ≡ none
  absent_behind k m = get-remove k k m ∙ rw (beq_self k)

  fronted-IsUnique : (k v : Text) (m : Map Text Text) → IsUnique m → IsUnique ((k, v) ∷ remove k m)
  fronted-IsUnique k v m h = (absent_behind k m, remove-IsUnique k m h)

  pub invalidate-IsBalanced :
      (repo digest : Text) (self : SmallBlobCache lru)
      → IsBalanced lru self
      → IsBalanced lru (invalidate lru repo digest self)
  unfolding invalidate
  invalidate-IsBalanced repo digest self h =
      let k = cache_key repo digest in
      (
        subst IsUnique (sym (entries-lru_pop k self.map))
            (remove-IsUnique k (entries self.map) h.0),
        refund-costs k self h ∙ ap costs (sym (entries-lru_pop k self.map)),
      )

  to_front_lem :
      (k : Text) (m : Map Text Text)
      → IsUnique m
      → IsUnique (to_front k (get k m) m) × (costs (to_front k (get k m) m) ≡ costs m)
  unfolding costs
  to_front_lem k m h = elim (Option-cases (get k m)) [
    | inl e ↦ rw e (h, refl)
    | inr (v, e) ↦
        let whole = costs-remove k m h in
        rw e (fronted-IsUnique k v m h, omega (arith, whole, ap (cost_of k) e))
  ]

  pub cache_get-IsBalanced :
      (repo digest : Text) (self : SmallBlobCache lru)
      → IsBalanced lru self
      → IsBalanced lru (cache_get lru repo digest self).1
  unfolding cache_get
  cache_get-IsBalanced repo digest self h =
      let moved = entries-lru_get (cache_key repo digest) self.map in
      let same = to_front_lem (cache_key repo digest) (entries self.map) h.0 in
      (subst IsUnique (sym moved) same.0, h.1 ∙ sym same.1 ∙ ap costs (sym moved))

  replace_entry-IsBalanced :
      (k content : Text) (self : SmallBlobCache lru)
      → IsBalanced lru self
      → IsWithin lru self
      → self.capacity < 2 ^ 63
      → entry_cost k content ≤ self.capacity
      → IsBalanced lru (replace_entry lru k content self)
  unfolding replace_entry costs wrapping_add
  replace_entry-IsBalanced k content self h within small fits =
      let placed = entries-replace_entry k content self in
      let twice =
        remove_absent k (remove k (entries self.map)) (absent_behind k (entries self.map)) in
      let unique = fronted-IsUnique k content (entries self.map) h.0 in
      (
        subst IsUnique (sym (placed ∙ ap (λ m. (k, content) ∷ m) twice)) unique,
        omega (
          arith,
          refund-costs k self h,
          ap costs (placed ∙ ap (λ m. (k, content) ∷ m) twice),
          costs-remove k (entries self.map) h.0,
        ),
      )

  -- What every call keeps.
  abbrev pub IsKept : SmallBlobCache lru → Type 0
  IsKept self = IsBalanced lru self × IsWithin lru self × (self.capacity < 2 ^ 63)

  pub cache_put-skipped :
      (repo digest content : Text) (self : SmallBlobCache lru)
      → rejects lru (cache_key repo digest) content self ≡ true
      → cache_put lru repo digest content self ≡ some self
  unfolding cache_put
  cache_put-skipped repo digest content self h = rw h

  pub cache_put-stored :
      (repo digest content : Text) (self : SmallBlobCache lru)
      → IsKept self
      → rejects lru (cache_key repo digest) content self ≡ false
      → (after : SmallBlobCache lru) × (cache_put lru repo digest content self ≡ some after)
        × Evicted lru (replace_entry lru (cache_key repo digest) content self) after
  unfolding cache_put
  cache_put-stored repo digest content self (balanced, within, small) h =
      let replaced = replace_entry lru (cache_key repo digest) content self in
      rw h (
        evict-Evicted lru (length (entries replaced.map)) replaced
          (replace_entry-IsBalanced (cache_key repo digest) content self balanced within small
            (ground arith))
          (omega arith))

  -- What a call keeps of a cache, and that it comes back with one.
  abbrev pub Keeps : SmallBlobCache lru → Option (SmallBlobCache lru) → Type 0
  Keeps self result =
      (after : SmallBlobCache lru) × (result ≡ some after)
      × IsKept after
      × (after.capacity ≡ self.capacity)
      × (after.threshold ≡ self.threshold)

  replace_entry-capacity :
      (k content : Text) (self : SmallBlobCache lru)
      → (replace_entry lru k content self).capacity ≡ self.capacity
  unfolding replace_entry
  replace_entry-capacity k content self = refl

  replace_entry-threshold :
      (k content : Text) (self : SmallBlobCache lru)
      → (replace_entry lru k content self).threshold ≡ self.threshold
  unfolding replace_entry
  replace_entry-threshold k content self = refl

  cache_put-Keeps :
      (repo digest content : Text) (self : SmallBlobCache lru)
      → IsKept self
      → Keeps self (cache_put lru repo digest content self)
  cache_put-Keeps repo digest content self h =
      elim (Bool-cases (rejects lru (cache_key repo digest) content self)) [
        | inl big ↦ (self, cache_put-skipped repo digest content self big, h, refl, refl)
        | inr fits ↦
            let (after, ran, (same, within, cap_same, threshold_same, dropped)) =
              cache_put-stored repo digest content self h fits in
            let cap : after.capacity ≡ self.capacity =
              cap_same ∙ replace_entry-capacity (cache_key repo digest) content self in
            (
              after,
              ran,
              (same, within, omega (arith, cap, h.2)),
              cap,
              threshold_same ∙ replace_entry-threshold (cache_key repo digest) content self,
            )
      ]

  invalidate-Keeps :
      (repo digest : Text) (self : SmallBlobCache lru)
      → IsKept self
      → Keeps self (some (invalidate lru repo digest self))
  unfolding invalidate refund
  invalidate-Keeps repo digest self h = (
    invalidate lru repo digest self,
    refl,
    (
      invalidate-IsBalanced repo digest self h.0,
      omega (
        arith,
        h.1,
        h.0.1,
        refund-costs (cache_key repo digest) self h.0,
        costs-remove (cache_key repo digest) (entries self.map) h.0.0,
      ),
      h.2,
    ),
    refl,
    refl,
  )

  pub call-Keeps :
      (one : Call) (self : SmallBlobCache lru) → IsKept self → Keeps self (call one self)
  unfolding call cache_get
  call-Keeps (get_call repo digest) self h = (
    (cache_get lru repo digest self).1,
    refl,
    (cache_get-IsBalanced repo digest self h.0, h.1, h.2),
    refl,
    refl,
  )
  call-Keeps (put_call repo digest content) self h = cache_put-Keeps repo digest content self h
  call-Keeps (invalidate_call repo digest) self h = invalidate-Keeps repo digest self h

  run-Keeps :
      (calls : List Call) (self : SmallBlobCache lru) → IsKept self → Keeps self (run calls self)
  unfolding run
  run-Keeps [] self h = (self, refl, h, refl, refl)
  run-Keeps (one ∷ calls) self h =
      let (next, ran, kept, cap, thr) = call-Keeps one self h in
      let (after, ran_on, kept_on, cap_on, thr_on) = run-Keeps calls next kept in
      (after, ap (λ o. and_then o (run calls)) ran ∙ ran_on, kept_on, cap_on ∙ cap, thr_on ∙ thr)

  pub with_limits-capacity :
      (threshold capacity : ℕ) → (with_limits lru threshold capacity).capacity ≡ capacity
  unfolding with_limits
  with_limits-capacity threshold capacity = refl

  pub with_limits-IsKept :
      (threshold capacity : ℕ) → capacity < 2 ^ 63 → IsKept (with_limits lru threshold capacity)
  unfolding with_limits costs
  with_limits-IsKept threshold capacity h = (
    (subst IsUnique (sym entries-unbounded) tt, ap costs (sym entries-unbounded)),
    omega arith,
    h,
  )

  -- Whatever is called on a new cache, in any order, no call panics and every loop ends, no key is held
  -- twice, the count of bytes is the cost of the entries held, and it is within the capacity, if that is
  -- below 2 ^ 63.
  pub run_within_capacity :
      (threshold capacity : ℕ) (calls : List Call)
      → capacity < 2 ^ 63
      → (after : SmallBlobCache lru) × (run calls (with_limits lru threshold capacity) ≡ some after)
        × IsUnique (entries after.map)
        × (after.total_bytes ≡ costs (entries after.map))
        × (after.total_bytes ≤ capacity)
  run_within_capacity threshold capacity calls h =
      let (after, ran, kept, cap, thr) =
        run-Keeps calls (with_limits lru threshold capacity)
          (with_limits-IsKept threshold capacity h) in
      (
        after,
        ran,
        kept.0.0,
        kept.0.1,
        omega (arith, kept.1, cap, with_limits-capacity threshold capacity),
      )
