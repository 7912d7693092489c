-- ===== src/Storage/Gc/History.antt =====
-- crates/roci-storage/src/gc.rs: what the tracker answers after any sequence of its calls.
use mathlib.Core.Path.{ap₂}
use roci.Base.{List, Option, [], ap, arith, none, refl, true, ℕ, ◌||◌, ◌∙◌, ◌∷◌, ◌≡◌}
use roci.Base.Eq.{Pair, Text, pair_eq, text_eq}
use roci.Base.Lists.{any, contains}
use roci.Base.Map.{IsUnique, get}
use roci.Base.Tests.{is_some_and}
use roci.Storage.Gc.{GcTracker, is_due, is_past, is_ready, is_root, is_unsafe, new_tracker}
use roci.Storage.Gc.Candidates.{
  GcOp, apply_op, apply_op_lem, makes_ready, names_root, names_unsafe, stamp_after,
}

unfoldable pub run_ops : List GcOp → GcTracker → GcTracker
run_ops [] g = g
run_ops (op ∷ ops) g = run_ops ops (apply_op op g)

-- The stamp that the calls give a blob, from the one before them.
abbrev pub stamp_of : List GcOp → Pair → Option ℕ → Option ℕ
stamp_of [] k t = t
stamp_of (op ∷ ops) k t = stamp_of ops k (stamp_after op k t)

run_ops_lem :
    (ops : List GcOp) (g : GcTracker) (k : Pair)
    → g.enabled ≡ true
    → IsUnique g.candidates
    → let after = run_ops ops g in
      (get k after.candidates ≡ stamp_of ops k (get k g.candidates))
      × (after.delay ≡ g.delay)
      × (after.enabled ≡ true)
      × (after.ready ≡ (any makes_ready ops || g.ready))
      × (contains after.roots k ≡ (any (λ op. names_root op k) ops || contains g.roots k))
      × (contains after.unsafe_repos k.0
          ≡ (any (λ op. names_unsafe op k.0) ops || contains g.unsafe_repos k.0))
      × IsUnique after.candidates
unfolding run_ops
run_ops_lem [] g k on h = (refl, refl, on, refl, refl, refl, h)
run_ops_lem (op ∷ ops) g k on h =
    let (stamp, delay, still, ready, root, suspect, unique) = apply_op_lem op g k on h in
    let (stamp', delay', still', ready', root', suspect', unique') =
      run_ops_lem ops (apply_op op g) k still unique in
    (
      stamp' ∙ ap (stamp_of ops k) stamp,
      delay' ∙ delay,
      still',
      ground arith,
      ground arith,
      ground arith,
      unique',
    )

-- After any calls on a new tracker that is enabled, it is ready exactly if it was made so; a blob is a
-- root, and a repository unsafe, exactly if a call named it as such; a blob is due exactly if the last call
-- that changed its stamp (a mark, a clear, or a touch while it had one) left it a time that is past by the
-- delay; and no blob is a candidate twice.
pub run_ops-answers :
    (delay : ℕ) (ops : List GcOp) (repo digest : Text) (now : ℕ)
    → let after = run_ops ops (new_tracker true delay) in
      (is_ready after ≡ any makes_ready ops)
      × (is_root repo digest after ≡ any (λ op. names_root op (repo, digest)) ops)
      × (is_unsafe repo after ≡ any (λ op. names_unsafe op repo) ops)
      × (is_due repo digest now after
          ≡ is_some_and (stamp_of ops (repo, digest) none) (is_past delay now))
      × IsUnique after.candidates
unfolding new_tracker is_ready is_root is_unsafe is_due get
run_ops-answers delay ops repo digest now =
    let (stamp, delay', on, ready, root, suspect, unique) =
      run_ops_lem ops (new_tracker true delay) (repo, digest) refl tt in
    (
      ground arith,
      ground arith,
      ground arith,
      ap₂ (λ stamped d. is_some_and stamped (is_past d now)) stamp delay',
      unique,
    )
