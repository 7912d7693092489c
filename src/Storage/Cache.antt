-- ===== src/Storage/Cache.antt =====
-- crates/roci-storage/src/cache.rs: `SmallBlobCache`. The `LruCache` belongs to the package `lru`: its
-- calls are the fields of `Lru`, with what they do to its entries, the most recently used one first. A
-- length of a key and its content, and so an entry's cost, is that of memory and does not wrap.
pub mod Evict
pub mod Budget
pub mod Coherent
mod Tests
use roci.Base.{Bool, Option, [], map, none, some, suc, zero, ℕ, ◌++◌, ◌+◌, ◌||◌, ◌∷◌, ◌≡◌}
use roci.Base.Eq.{Text, text_eq}
use roci.Base.Lists.{length}
use roci.Base.Map.{Map, get, remove}
use roci.Base.Tests.{if◌then◌else◌, ltb}
use roci.Base.Word.{wrapping_add, wrapping_sub}
use roci.Storage.Quota.{total_bytes}

-- A hit moves the entry to the front.
abbrev pub to_front : Text → Option Text → Map Text Text → Map Text Text
to_front k none m = m
to_front k (some v) m = (k, v) ∷ remove k m

pub record Lru : Type 1 where
  pub LruCache : Type 0
  pub entries : LruCache → Map Text Text
  pub unbounded : LruCache
  pub lru_get : Text → LruCache → Option Text × LruCache
  pub lru_pop : Text → LruCache → Option Text × LruCache
  pub lru_put : Text → Text → LruCache → LruCache
  pub lru_pop_lru : LruCache → Option ((Text × Text) × LruCache)
  pub entries-unbounded : entries unbounded ≡ []
  pub lru_get-answer : (k : Text) (m : LruCache) → (lru_get k m).0 ≡ get k (entries m)
  pub entries-lru_get :
      (k : Text) (m : LruCache)
      → entries (lru_get k m).1 ≡ to_front k (get k (entries m)) (entries m)
  pub lru_pop-answer : (k : Text) (m : LruCache) → (lru_pop k m).0 ≡ get k (entries m)
  pub entries-lru_pop : (k : Text) (m : LruCache) → entries (lru_pop k m).1 ≡ remove k (entries m)
  pub entries-lru_put :
      (k v : Text) (m : LruCache) → entries (lru_put k v m) ≡ (k, v) ∷ remove k (entries m)
  pub lru_pop_lru-none : (m : LruCache) → lru_pop_lru m ≡ none → entries m ≡ []
  pub lru_pop_lru-some :
      (m m' : LruCache) (k v : Text)
      → lru_pop_lru m ≡ some ((k, v), m')
      → entries m ≡ entries m' ++ (k, v) ∷ []

abbrev pub entry_overhead : ℕ
entry_overhead = 128

unfoldable pub entry_cost : Text → Text → ℕ
entry_cost key content = length key + length content + entry_overhead

unfoldable pub cache_key : Text → Text → Text
cache_key repo digest = repo ++ 0 ∷ digest

-- The refund for what was there.
unfoldable pub refund : Text → Option Text → ℕ → ℕ
refund k none bytes_now = bytes_now
refund k (some old) bytes_now = wrapping_sub bytes_now (entry_cost k old)

module _ (lru : Lru) where
  open lru use {LruCache, unbounded, lru_get, lru_pop, lru_put, lru_pop_lru, entries}

  pub record SmallBlobCache : Type 0 where
    pub map : LruCache
    pub total_bytes : ℕ
    pub threshold : ℕ
    pub capacity : ℕ

  unfoldable pub with_limits : (threshold capacity : ℕ) → SmallBlobCache
  with_limits threshold capacity = record {
    capacity = capacity;
    map = unbounded;
    threshold = threshold;
    total_bytes = 0;
  }

  unfoldable pub cache_get : Text → Text → SmallBlobCache → Option Text × SmallBlobCache
  cache_get repo digest self =
      let answer = lru_get (cache_key repo digest) self.map in
      (answer.0, record self { map = answer.1 })

  -- The `while`; none is the panic of `expect`, or fuel that ran out.
  unfoldable pub evict : (fuel : ℕ) → SmallBlobCache → Option SmallBlobCache
  evict zero self = if ltb self.capacity self.total_bytes then none else some self
  evict (suc fuel) self =
      let round : Option SmallBlobCache = elim (lru_pop_lru self.map) [
        | none ↦ none
        | some ((k, v), m) ↦
            evict fuel (record self {
              map = m;
              total_bytes = wrapping_sub self.total_bytes (entry_cost k v);
            })
      ] in
      if ltb self.capacity self.total_bytes then round else some self

  -- `put` behind its early return.
  unfoldable pub replace_entry : Text → Text → SmallBlobCache → SmallBlobCache
  replace_entry k content self =
      let popped = lru_pop k self.map in
      record self {
        map = lru_put k content popped.1;
        total_bytes = wrapping_add (refund k popped.0 self.total_bytes) (entry_cost k content);
      }

  -- The test of the early return.
  abbrev pub rejects : Text → Text → SmallBlobCache → Bool
  rejects k content self =
      ltb self.threshold (length content) || ltb self.capacity (entry_cost k content)

  unfoldable pub cache_put : Text → Text → Text → SmallBlobCache → Option SmallBlobCache
  cache_put repo digest content self =
      let k = cache_key repo digest in
      if rejects k content self
      then some self
      else let replaced = replace_entry k content self in
        evict (length (entries replaced.map)) replaced

  unfoldable pub invalidate : Text → Text → SmallBlobCache → SmallBlobCache
  invalidate repo digest self =
      let k = cache_key repo digest in
      let popped = lru_pop k self.map in
      record self { map = popped.1; total_bytes = refund k popped.0 self.total_bytes }
