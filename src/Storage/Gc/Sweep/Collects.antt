-- ===== src/Storage/Gc/Sweep/Collects.antt =====
-- crates/roci-storage/src/fs_storage/gc.rs: a sweep unlinks the garbage and nothing else.
use roci.Base.{
  Bool, List, [], ap, arith, inl, inr, not, refl, true, ℕ, ◌&&◌, ◌||◌, ◌∙◌, ◌∷◌, ◌≡◌, ◌⊎◌,
}
use roci.Base.Eq.{Pair, Text, eq_iff, nat_eq, pair_eq, text_eq, ◌==◌}
use roci.Base.Lists.{contains}
use roci.Base.Map.{Map, get, get-remove}
use roci.Base.Tests.{Bool-cases, and-eq-true, is_some_and}
use roci.Storage.Gc.{GcTracker, clear, due, due_keys, is_due, is_past, is_ready, is_root, is_unsafe}
use roci.Storage.Gc.Sweep.{
  Sweep, World, after_unlink, blob_left, forget, sweep_all, sweep_at, sweep_one,
}
use roci.Storage.Gc.Sweep.Spares.{
  Outcome, collected, forgotten, is_garbage, stays, sweep_one-Outcome,
}

garbage-clear :
    (w : World) (now : ℕ) (j k : Pair) (g : GcTracker)
    → g.enabled ≡ true
    → is_garbage w now (clear j.0 j.1 g) k.0 k.1 ≡ (not (j == k) && is_garbage w now g k.0 k.1)
unfolding is_garbage is_due clear is_root is_unsafe
garbage-clear w now j k g on = elim (Bool-cases (j == k)) [
  | inl same ↦ rw (on, get-remove j k g.candidates, same)
  | inr other ↦ rw (on, get-remove j k g.candidates, other)
]

clear-enabled :
    (repo digest : Text) (g : GcTracker) → g.enabled ≡ true → (clear repo digest g).enabled ≡ true
unfolding clear
clear-enabled repo digest g on = rw on

-- What is known of the state after one blob.
abbrev Visited : World → ℕ → Pair → Pair → Sweep → Sweep → Bool → Type 0
Visited w now j k s s' b =
    (contains s'.gone k ≡ (contains s.gone k || (j == k && b)))
    × (s'.gc.enabled ≡ true)
    × ((is_garbage w now s'.gc k.0 k.1 ≡ is_garbage w now s.gc k.0 k.1)
        ⊎ (is_garbage w now s'.gc k.0 k.1 ≡ (not (j == k) && is_garbage w now s.gc k.0 k.1)))

Outcome-Visited :
    (w : World) (now : ℕ) (repo digest : Text) (k : Pair) (s s' : Sweep) (b : Bool)
    → s.gc.enabled ≡ true
    → Outcome repo digest s s' b
    → Visited w now (repo, digest) k s s' b
unfolding forget after_unlink blob_left
Outcome-Visited w now repo digest k s s' b on stays = (ground arith, on, inl refl)
Outcome-Visited w now repo digest k s s' b on forgotten = (
  ground arith,
  clear-enabled repo digest s.gc on,
  inr (garbage-clear w now (repo, digest) k s.gc on),
)
Outcome-Visited w now repo digest k s s' b on (collected size) = (
  ground arith,
  clear-enabled repo digest s.gc on,
  inr (garbage-clear w now (repo, digest) k s.gc on),
)

sweep_all-gone :
    (w : World) (now : ℕ) (k : Pair) (ks : List Pair) (s : Sweep)
    → s.gc.enabled ≡ true
    → contains (sweep_all w now ks s).gone k
      ≡ (contains s.gone k || (contains ks k && is_garbage w now s.gc k.0 k.1))
unfolding sweep_all
sweep_all-gone w now k [] s on = ground arith
sweep_all-gone w now k (j ∷ ks) s on =
    let next = sweep_one w now j s in
    let b = is_garbage w now s.gc j.0 j.1 in
    let (gone_next, on_next, garbage_next) =
      Outcome-Visited w now j.0 j.1 k s next b on (sweep_one-Outcome j.0 j.1 s w now) in
    let ih = sweep_all-gone w now k ks next on_next in
    elim (Bool-cases (j == k)) [
      | inl same ↦
          let e : b ≡ is_garbage w now s.gc k.0 k.1 =
            ap (λ x. is_garbage w now s.gc x.0 x.1) ((eq_iff j k).0 same) in
          ground arith
      | inr other ↦ ground arith
    ]

due_keys-contains :
    (delay now : ℕ) (m : Map Pair ℕ) (k : Pair)
    → is_some_and (get k m) (is_past delay now) ≡ true
    → contains (due_keys delay now m) k ≡ true
unfolding due_keys get
due_keys-contains delay now [] k h = h
due_keys-contains delay now ((j, t) ∷ m) k h =
    ground (arith, due_keys-contains delay now m k, eq_iff j k)

ready-enabled : (g : GcTracker) → is_ready g ≡ true → g.enabled ≡ true
unfolding is_ready
ready-enabled g h = (and-eq-true g.enabled g.ready h).0

is_garbage-due :
    (w : World) (now : ℕ) (k : Pair) (g : GcTracker)
    → (contains (due now g) k && is_garbage w now g k.0 k.1) ≡ is_garbage w now g k.0 k.1
unfolding due is_garbage is_due
is_garbage-due w now k g = ground (arith, due_keys-contains g.delay now g.candidates k)

-- A sweep unlinks exactly the garbage, and nothing if the tracker is not ready: the blobs that were
-- candidates for at least the delay, are no root, lie in no unsafe repository, are referenced by no
-- manifest and are none, and whose digest, path, `stat` and unlinking raise no objection.
pub sweep_at-gone :
    (w : World) (now : ℕ) (s : Sweep) (k : Pair)
    → contains (sweep_at w now s).gone k
      ≡ (contains s.gone k || (is_ready s.gc && is_garbage w now s.gc k.0 k.1))
unfolding sweep_at
sweep_at-gone w now s k = elim (Bool-cases (is_ready s.gc)) [
  | inl h ↦ rw h (
      sweep_all-gone w now k (due now s.gc) s (ready-enabled s.gc h)
      ∙ ap (λ b. contains s.gone k || b) (is_garbage-due w now k s.gc))
  | inr h ↦ rw h (ground arith)
]
