-- ===== src/Storage/Cache/Coherent.antt =====
-- crates/roci-storage/src/cache.rs: a hit is what a cache that never evicts would answer.
use mathlib.Core.Path.{subst}
use roci.Base.{
  Bool, List, Option, [], ap, arith, false, inl, inr, none, refl, some, sym, true, ℕ, ◌++◌, ◌<◌,
  ◌^◌, ◌||◌, ◌∙◌, ◌∷◌, ◌≡◌,
}
use roci.Base.Eq.{Pair, Text, eq_iff, nat_eq, pair_beq, pair_beq_iff, pair_eq, text_eq, ◌==◌}
use roci.Base.Lists.{length}
use roci.Base.Map.{Map, get, get-insert, get-remove, insert, remove}
use roci.Base.Tests.{Bool-cases, Option-cases, and_then, if◌then◌else◌, ltb}
use roci.Base.Text.{HasNoNul, nul_injective, split}
use roci.Storage.Cache.{
  Lru, SmallBlobCache, cache_get, cache_key, entry_cost, invalidate, rejects, replace_entry,
  to_front, with_limits,
}
use roci.Storage.Cache.Budget.{
  Call, IsKept, cache_put-skipped, cache_put-stored, call, call-Keeps, entries-replace_entry,
  get_call, invalidate_call, put_call, run, with_limits-IsKept, with_limits-capacity,
}
use roci.Storage.Cache.Evict.{get-append}

cache_key_injective :
    (repo repo' digest digest' : Text)
    → HasNoNul repo
    → HasNoNul repo'
    → cache_key repo digest ≡ cache_key repo' digest'
    → (repo ≡ repo') × (digest ≡ digest')
unfolding cache_key
cache_key_injective repo repo' digest digest' = nul_injective repo repo' digest digest'

cache_key-same :
    (repo repo' digest digest' : Text)
    → HasNoNul repo
    → HasNoNul repo'
    → (cache_key repo digest == cache_key repo' digest') ≡ pair_beq (repo, digest) (repo', digest')
cache_key-same repo repo' digest digest' h h' =
    let k = cache_key repo digest in
    let k' = cache_key repo' digest' in
    elim (Bool-cases (k == k')) [
      | inl e ↦
          let (names, digests) =
            cache_key_injective repo repo' digest digest' h h' ((eq_iff k k').0 e) in
          e ∙ sym ((pair_beq_iff (repo, digest) (repo', digest')).1 (λ i. (names i, digests i)))
      | inr ne ↦ elim (Bool-cases (pair_beq (repo, digest) (repo', digest'))) [
        | inl e ↦
            let same = (pair_beq_iff (repo, digest) (repo', digest')).0 e in
            let keys_same : k ≡ k' = (λ i. cache_key (same i).0 (same i).1) in
            (eq_iff k k').1 keys_same ∙ sym e
        | inr other ↦ ne ∙ sym other
      ]
    ]

-- A cache of the same limits that never evicts.
unfoldable pub ideal_call : (threshold capacity : ℕ) → Call → Map Pair Text → Map Pair Text
ideal_call threshold capacity (get_call repo digest) m = m
ideal_call threshold capacity (put_call repo digest content) m =
    if ltb threshold (length content) || ltb capacity (entry_cost (cache_key repo digest) content)
    then m
    else insert (repo, digest) content m
ideal_call threshold capacity (invalidate_call repo digest) m = remove (repo, digest) m

unfoldable pub ideal_run : (threshold capacity : ℕ) → List Call → Map Pair Text → Map Pair Text
ideal_run threshold capacity [] m = m
ideal_run threshold capacity (one ∷ calls) m =
    ideal_run threshold capacity calls (ideal_call threshold capacity one m)

abbrev pub IsNamed : Call → Type 0
IsNamed (get_call repo digest) = HasNoNul repo
IsNamed (put_call repo digest content) = HasNoNul repo
IsNamed (invalidate_call repo digest) = HasNoNul repo

abbrev pub AreNamed : List Call → Type 0
AreNamed [] = Unit {0}
AreNamed (one ∷ calls) = IsNamed one × AreNamed calls

module _ (lru : Lru) where
  open lru use {entries, entries-lru_get, entries-lru_pop, entries-unbounded, lru_get-answer}

  some_same : {a b : SmallBlobCache lru} → some a ≡ some b → a ≡ b
  some_same h = cc

  -- Every entry of the cache is one of the ideal cache.
  abbrev Remembers : SmallBlobCache lru → Map Pair Text → Type 0
  Remembers self m =
      (repo digest v : Text)
      → HasNoNul repo
      → get (cache_key repo digest) (entries self.map) ≡ some v
      → get (repo, digest) m ≡ some v

  -- Moving an entry to the front changes no answer.
  get-to_front : (k j : Text) (m : Map Text Text) → get j (to_front k (get k m) m) ≡ get j m
  unfolding get
  get-to_front k j m = elim (Option-cases (get k m)) [
    | inl e ↦ rw e refl
    | inr (v, e) ↦ rw e (ground (arith, e, get-remove k j m, eq_iff k j))
  ]

  get-Remembers :
      (repo digest : Text) (self : SmallBlobCache lru) (m : Map Pair Text)
      → Remembers self m
      → Remembers (cache_get lru repo digest self).1 m
  unfolding cache_get
  get-Remembers repo digest self m known r d v named found = known r d v named (
      sym (
        ap (get (cache_key r d)) (entries-lru_get (cache_key repo digest) self.map)
        ∙ get-to_front (cache_key repo digest) (cache_key r d) (entries self.map))
      ∙ found)

  -- Answers of the two caches that agree behind the same test.
  behind_test :
      (b : Bool) (x answer ideal : Option Text) (v : Text)
      → (answer ≡ some v → ideal ≡ some v)
      → (if b then x else answer) ≡ some v
      → (if b then x else ideal) ≡ some v
  behind_test true x answer ideal v h found = found
  behind_test false x answer ideal v h found = h found

  invalidate-Remembers :
      (repo digest : Text) (self : SmallBlobCache lru) (m : Map Pair Text)
      → HasNoNul repo
      → Remembers self m
      → Remembers (invalidate lru repo digest self) (remove (repo, digest) m)
  unfolding invalidate
  invalidate-Remembers repo digest self m named known r d v named' found =
      let k = cache_key repo digest in
      let j = cache_key r d in
      let there : (if pair_beq (repo, digest) (r, d) then none else get j (entries self.map))
          ≡ some v =
        ap (λ b. if b then none else get j (entries self.map))
          (sym (cache_key-same repo r digest d named named'))
        ∙ sym (get-remove k j (entries self.map))
        ∙ sym (ap (get j) (entries-lru_pop k self.map))
        ∙ found in
      get-remove (repo, digest) (r, d) m
      ∙ behind_test (pair_beq (repo, digest) (r, d)) none _ _ v (known r d v named') there

  twice_removed :
      (k j content : Text) (m : Map Text Text)
      → get j ((k, content) ∷ remove k (remove k m)) ≡ (if k == j then some content else get j m)
  unfolding get
  twice_removed k j content m = ground (arith, get-remove k j (remove k m), get-remove k j m)

  -- What is found behind a write.
  replaced_get :
      (repo digest content : Text) (self : SmallBlobCache lru) (m : Map Pair Text)
      → HasNoNul repo
      → Remembers self m
      → Remembers
          (replace_entry lru (cache_key repo digest) content self)
          (insert (repo, digest) content m)
  unfolding get
  replaced_get repo digest content self m named known r d v named' found =
      let k = cache_key repo digest in
      let j = cache_key r d in
      let there : (if pair_beq (repo, digest) (r, d)
            then some content
            else get j (entries self.map))
          ≡ some v =
        ap (λ b. if b then some content else get j (entries self.map))
          (sym (cache_key-same repo r digest d named named'))
        ∙ sym (twice_removed k j content (entries self.map))
        ∙ sym (ap (get j) (entries-replace_entry lru k content self))
        ∙ found in
      get-insert (repo, digest) (r, d) content m
      ∙ behind_test (pair_beq (repo, digest) (r, d)) (some content) _ _ v (known r d v named') there

  front_get :
      (self after : SmallBlobCache lru) (dropped : Map Text Text) (m : Map Pair Text)
      → entries self.map ≡ entries after.map ++ dropped
      → Remembers self m
      → Remembers after m
  front_get self after dropped m split known r d v named found = known r d v named (
      ap (get (cache_key r d)) split
      ∙ get-append (cache_key r d) (entries after.map) dropped
      ∙ rw found)

  call-Remembers :
      (one : Call) (self after : SmallBlobCache lru) (m : Map Pair Text)
      → IsNamed one
      → IsKept lru self
      → Remembers self m
      → call lru one self ≡ some after
      → Remembers after (ideal_call self.threshold self.capacity one m)
  unfolding call ideal_call
  call-Remembers (get_call repo digest) self after m named kept known ran =
      subst (λ c. Remembers c m) (some_same ran) (get-Remembers repo digest self m known)
  call-Remembers (invalidate_call repo digest) self after m named kept known ran =
      subst (λ c. Remembers c (remove (repo, digest) m)) (some_same ran)
        (invalidate-Remembers repo digest self m named known)
  call-Remembers (put_call repo digest content) self after m named kept known ran =
      elim (Bool-cases (rejects lru (cache_key repo digest) content self)) [
        | inl big ↦ rw big (
            subst (λ c. Remembers c m)
              (some_same (sym (cache_put-skipped lru repo digest content self big) ∙ ran)) known)
        | inr fits ↦
            let (stored, ran', (same, within, cap, thr, (dropped, split))) =
              cache_put-stored lru repo digest content self kept fits in
            rw fits (
              front_get (replace_entry lru (cache_key repo digest) content self) after dropped
                (insert (repo, digest) content m)
                (subst
                  (λ (c : SmallBlobCache lru).
                    entries (replace_entry lru (cache_key repo digest) content self).map
                    ≡ entries c.map ++ dropped)
                  (some_same (sym ran' ∙ ran)) split)
                (replaced_get repo digest content self m named known))
      ]

  run-Remembers :
      (threshold capacity : ℕ) (calls : List Call) (self after : SmallBlobCache lru)
      (m : Map Pair Text)
      → AreNamed calls
      → self.threshold ≡ threshold
      → self.capacity ≡ capacity
      → IsKept lru self
      → Remembers self m
      → run lru calls self ≡ some after
      → Remembers after (ideal_run threshold capacity calls m)
  unfolding run ideal_run
  run-Remembers threshold capacity [] self after m named thr cap kept known ran =
      subst (λ c. Remembers c m) (some_same ran) known
  run-Remembers threshold capacity (one ∷ calls) self after m named thr cap kept known ran =
      let (next, ran_one, kept_one, cap_one, thr_one) = call-Keeps lru one self kept in
      run-Remembers threshold capacity calls next after (ideal_call threshold capacity one m)
        named.1 (thr_one ∙ thr) (cap_one ∙ cap) kept_one
        (subst (λ t. Remembers next (ideal_call t capacity one m)) thr
          (subst (λ c. Remembers next (ideal_call self.threshold c one m)) cap
            (call-Remembers one self next m named.0 kept known ran_one)))
        (sym (ap (λ o. and_then o (run lru calls)) ran_one) ∙ ran)

  limits_threshold :
      (threshold capacity : ℕ) → (with_limits lru threshold capacity).threshold ≡ threshold
  unfolding with_limits
  limits_threshold threshold capacity = refl

  empty-Remembers : (threshold capacity : ℕ) → Remembers (with_limits lru threshold capacity) []
  unfolding with_limits get
  empty-Remembers threshold capacity repo digest v named found =
      sym (ap (get (cache_key repo digest)) entries-unbounded) ∙ found

  -- Whatever was called on a new cache of a capacity below 2 ^ 63, with names that hold no NUL byte, a hit
  -- is the content that a cache of the same limits would answer that never evicts: what was last stored
  -- under this repository and digest, and not invalidated since.
  pub cache_get-run :
      (threshold capacity : ℕ) (calls : List Call) (after : SmallBlobCache lru)
      (repo digest v : Text)
      → capacity < 2 ^ 63
      → AreNamed calls
      → HasNoNul repo
      → run lru calls (with_limits lru threshold capacity) ≡ some after
      → (cache_get lru repo digest after).0 ≡ some v
      → get (repo, digest) (ideal_run threshold capacity calls []) ≡ some v
  unfolding cache_get
  cache_get-run threshold capacity calls after repo digest v small named has ran hit =
      run-Remembers threshold capacity calls (with_limits lru threshold capacity) after [] named
        (limits_threshold threshold capacity) (with_limits-capacity lru threshold capacity)
        (with_limits-IsKept lru threshold capacity small) (empty-Remembers threshold capacity) ran
        repo digest v has (sym (lru_get-answer (cache_key repo digest) after.map) ∙ hit)
