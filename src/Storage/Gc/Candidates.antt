-- ===== src/Storage/Gc/Candidates.antt =====
-- crates/roci-storage/src/gc.rs: the calls on the tracker as a log.
use roci.Base.{Bool, Option, ap, false, inl, inr, none, refl, some, sym, true, ℕ, ◌&&◌, ◌||◌, ◌≡◌}
use roci.Base.Eq.{Pair, Text, eq_iff, nat_eq, pair_eq, text_eq, ◌==◌}
use roci.Base.Lists.{contains, contains-set_insert}
use roci.Base.Map.{
  IsUnique, Map, contains_key, get, get-insert, get-remove, insert, insert-IsUnique,
  remove-IsUnique,
}
use roci.Base.Tests.{Bool-cases, if◌then◌else◌, is_some}
use roci.Storage.Gc.{GcTracker, add_root, clear, mark, mark_at, mark_unsafe, set_ready, touch}

pub data GcOp : Type 0 where
  op_mark op_touch : (repo digest : Text) (now : ℕ) → GcOp
  op_clear op_root : (repo digest : Text) → GcOp
  op_unsafe : (repo : Text) → GcOp
  op_ready : GcOp

unfoldable pub apply_op : GcOp → GcTracker → GcTracker
apply_op (op_mark repo digest now) g = mark repo digest now g
apply_op (op_touch repo digest now) g = touch repo digest now g
apply_op (op_clear repo digest) g = clear repo digest g
apply_op (op_root repo digest) g = add_root repo digest g
apply_op (op_unsafe repo) g = mark_unsafe repo g
apply_op op_ready g = set_ready g

-- The stamp of a blob after a call, from the stamp before it.
abbrev pub stamp_after : GcOp → Pair → Option ℕ → Option ℕ
stamp_after (op_mark repo digest now) k t = if (repo, digest) == k then some now else t
stamp_after (op_touch repo digest now) k t =
    if (repo, digest) == k && is_some t then some now else t
stamp_after (op_clear repo digest) k t = if (repo, digest) == k then none else t
stamp_after _ k t = t

touch_there :
    (k : Pair) (now : ℕ) (j : Pair) (m : Map Pair ℕ)
    → contains_key j m ≡ true
    → get k (insert j now m) ≡ (if j == k && is_some (get k m) then some now else get k m)
touch_there k now j m there = elim (Bool-cases (j == k)) [
  | inl same ↦
      rw
        (get-insert j k now m, same, sym (ap (λ x. is_some (get x m)) ((eq_iff j k).0 same)), there)
  | inr other ↦ rw (get-insert j k now m, other)
]

touch_absent :
    (k : Pair) (now : ℕ) (j : Pair) (m : Map Pair ℕ)
    → contains_key j m ≡ false
    → get k m ≡ (if j == k && is_some (get k m) then some now else get k m)
touch_absent k now j m absent = elim (Bool-cases (j == k)) [
  | inl same ↦ rw (same, sym (ap (λ x. is_some (get x m)) ((eq_iff j k).0 same)), absent)
  | inr other ↦ rw other
]

-- Is it the call that makes the tracker ready?
abbrev pub makes_ready : GcOp → Bool
makes_ready op_ready = true
makes_ready _ = false

-- Does the call name the blob as a root, the repository as unsafe?
abbrev pub names_root : GcOp → Pair → Bool
names_root (op_root repo digest) k = (repo, digest) == k
names_root _ k = false

abbrev pub names_unsafe : GcOp → Text → Bool
names_unsafe (op_unsafe repo) r = repo == r
names_unsafe _ r = false

pub apply_op_lem :
    (op : GcOp) (g : GcTracker) (k : Pair)
    → g.enabled ≡ true
    → IsUnique g.candidates
    → (get k (apply_op op g).candidates ≡ stamp_after op k (get k g.candidates))
      × ((apply_op op g).delay ≡ g.delay)
      × ((apply_op op g).enabled ≡ true)
      × ((apply_op op g).ready ≡ (makes_ready op || g.ready))
      × (contains (apply_op op g).roots k ≡ (names_root op k || contains g.roots k))
      × (contains (apply_op op g).unsafe_repos k.0
          ≡ (names_unsafe op k.0 || contains g.unsafe_repos k.0))
      × IsUnique (apply_op op g).candidates
unfolding apply_op mark mark_at touch clear add_root mark_unsafe set_ready
apply_op_lem (op_mark repo digest now) g k on h = rw on (
  get-insert (repo, digest) k now g.candidates,
  refl,
  refl,
  refl,
  refl,
  refl,
  insert-IsUnique (repo, digest) now g.candidates h,
)
apply_op_lem (op_touch repo digest now) g k on h =
    elim (Bool-cases (contains_key (repo, digest) g.candidates)) [
      | inl there ↦
          rw (on, there, touch)
            (
              touch_there k now (repo, digest) g.candidates there,
              refl,
              refl,
              refl,
              refl,
              refl,
              insert-IsUnique (repo, digest) now g.candidates h,
            )
      | inr absent ↦
          rw (on, absent, touch)
            (touch_absent k now (repo, digest) g.candidates absent, refl, refl, refl, refl, refl, h)
    ]
apply_op_lem (op_clear repo digest) g k on h = rw on (
  get-remove (repo, digest) k g.candidates,
  refl,
  refl,
  refl,
  refl,
  refl,
  remove-IsUnique (repo, digest) g.candidates h,
)
apply_op_lem (op_root repo digest) g k on h =
    rw on (refl, refl, refl, refl, contains-set_insert (repo, digest) k g.roots, refl, h)
apply_op_lem (op_unsafe repo) g k on h =
    rw on (refl, refl, refl, refl, refl, contains-set_insert repo k.0 g.unsafe_repos, h)
apply_op_lem op_ready g k on h = (refl, refl, on, refl, refl, refl, h)
