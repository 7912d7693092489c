-- ===== src/Storage/Cache/Tests.antt =====
-- Runs of the cache over a list, the most recently used entry first.
use roci.Base.{List, Option, [], ap, arith, none, refl, some, ◌++◌, ◌∙◌, ◌∷◌, ◌≡◌, ◌≤◌}
use roci.Base.Eq.{Text, codes, pair_eq, text_beq, text_eq}
use roci.Base.Map.{IsUnique, Map, get, remove}
use roci.Base.Word.{wrapping_add, wrapping_sub}
use roci.Storage.Cache.{
  Lru, SmallBlobCache, cache_get, cache_key, cache_put, entry_cost, evict, refund, replace_entry,
  to_front, with_limits,
}
use roci.Storage.Cache.Budget.{Call, call, get_call, put_call, run, run_within_capacity}
use roci.Storage.Cache.Coherent.{cache_get-run, ideal_run}
use roci.Storage.Cache.Evict.{costs}

unfoldable init_of : Map Text Text → Map Text Text
init_of [] = []
init_of (p ∷ []) = []
init_of (p ∷ q ∷ m) = p ∷ init_of (q ∷ m)

unfoldable last_of : Text × Text → Map Text Text → Text × Text
last_of p [] = p
last_of p (q ∷ m) = last_of q m

init_of-last_of :
    (p : Text × Text) (m : Map Text Text) → p ∷ m ≡ init_of (p ∷ m) ++ last_of p m ∷ []
unfolding init_of last_of
init_of-last_of p [] = refl
init_of-last_of p (q ∷ m) = ap (λ es. p ∷ es) (init_of-last_of q m)

abbrev pop_last : Map Text Text → Option ((Text × Text) × Map Text Text)
pop_last [] = none
pop_last (p ∷ m) = some (last_of p m, init_of (p ∷ m))

pop_last-none : (m : Map Text Text) → pop_last m ≡ none → m ≡ []
pop_last-none [] h = refl
pop_last-none (p ∷ m) h = cc

pop_last-some :
    (m m' : Map Text Text) (k v : Text) → pop_last m ≡ some ((k, v), m') → m ≡ m' ++ (k, v) ∷ []
pop_last-some [] m' k v h = cc
pop_last-some (p ∷ m) m' k v h =
    let last_same : last_of p m ≡ (k, v) = cc in
    let init_same : init_of (p ∷ m) ≡ m' = cc in
    init_of-last_of p m ∙ (λ i. init_same i ++ last_same i ∷ [])

abbrev list_lru : Lru
list_lru = record {
  LruCache = Map Text Text;
  entries = λ m. m;
  unbounded = [];
  lru_get = λ k m. (get k m, to_front k (get k m) m);
  lru_pop = λ k m. (get k m, remove k m);
  lru_put = λ k v m. (k, v) ∷ remove k m;
  lru_pop_lru = pop_last;
  entries-unbounded = refl;
  lru_get-answer = λ k m. refl;
  entries-lru_get = λ k m. refl;
  lru_pop-answer = λ k m. refl;
  entries-lru_pop = λ k m. refl;
  entries-lru_put = λ k v m. refl;
  lru_pop_lru-none = pop_last-none;
  lru_pop_lru-some = pop_last-some;
}

-- Room for two entries of one byte under keys of three.
abbrev calls : List Call
calls =
    put_call (codes "r") (codes "a") (codes "x")
    ∷ put_call (codes "r") (codes "b") (codes "y")
    ∷ get_call (codes "r") (codes "a")
    ∷ put_call (codes "r") (codes "c") (codes "z")
    ∷ []

abbrev left : SmallBlobCache list_lru
left = record {
  capacity = 300;
  map =
      (cache_key (codes "r") (codes "c"), codes "z")
      ∷ (cache_key (codes "r") (codes "a"), codes "x")
      ∷ [];
  threshold = 20;
  total_bytes = 264;
}

evicts_least_recent : run list_lru calls (with_limits list_lru 20 300) ≡ some left
unfolding run call with_limits cache_get cache_put evict replace_entry refund wrapping_add
    wrapping_sub entry_cost cache_key get remove text_beq init_of last_of
evicts_least_recent = refl

run_within_capacity_example :
    (after : SmallBlobCache list_lru) × (run list_lru calls (with_limits list_lru 20 300)
      ≡ some after)
    × IsUnique after.map
    × (after.total_bytes ≡ costs after.map)
    × (after.total_bytes ≤ 300)
run_within_capacity_example = run_within_capacity list_lru 20 300 calls (omega arith)

cache_get-run_example :
    get ⦃e = pair_eq⦄ (codes "r", codes "a") (ideal_run 20 300 calls []) ≡ some (codes "x")
unfolding cache_get get text_beq cache_key
cache_get-run_example =
    cache_get-run list_lru 20 300 calls left (codes "r") (codes "a") (codes "x") (omega arith)
      (refl, (refl, (refl, (refl, tt)))) refl evicts_least_recent refl
