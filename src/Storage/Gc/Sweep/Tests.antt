-- ===== src/Storage/Gc/Sweep/Tests.antt =====
-- crates/roci-storage/src/fs_storage/gc.rs: a sweep of two candidates, of which one is a root.
use roci.Storage.Digest
use roci.Storage.Quota
use roci.Base.{List, [], none, refl, true, ◌&&◌, ◌||◌, ◌∷◌, ◌≡◌}
use roci.Base.Eq.{Pair, Text, codes, pair_beq, pair_eq, text_beq, text_eq}
use roci.Base.Lists.{any, contains}
use roci.Base.Map.{IsUnique, get, remove}
use roci.Base.Tests.{is_some_and}
use roci.Base.Text.{split, split_once}
use roci.Storage.Digest.{Digest, is_hex_digit, ok_len}
use roci.Storage.Gc.{
  GcTracker, clear, due, due_keys, is_due, is_past, is_ready, is_root, is_unsafe, new_tracker,
}
use roci.Storage.Gc.Candidates.{
  GcOp, makes_ready, names_root, names_unsafe, op_mark, op_ready, op_root, op_touch,
}
use roci.Storage.Gc.History.{run_ops, run_ops-answers, stamp_of}
use roci.Storage.Gc.Sweep.{
  Sweep, World, after_stat, after_unlink, at_path, blob_left, collect, file_of, forget, parsed_as,
  sweep_all, sweep_at, sweep_one, unlinked,
}
use roci.Storage.Gc.Sweep.Collects.{sweep_at-gone}
use roci.Storage.Gc.Sweep.Spares.{is_garbage}
use roci.Storage.Paths.{blob_dir_rel, repo_rel, safe_component, safe_components}

abbrev digest_text : Text
digest_text = codes "sha256:0123456789abcdef0123456789abcdef0123456789abcdef0123456789abcdef"

abbrev root_text : Text
root_text = codes "sha256:ff23456789abcdef0123456789abcdef0123456789abcdef0123456789abcdef"

abbrev dead_blob : Pair
dead_blob = (codes "r", digest_text)

abbrev live_blob : Pair
live_blob = (codes "r", root_text)

abbrev test_world : World
test_world = record {
  backrefs = λ repo digest. [];
  media_type = λ repo digest. none;
  stat = λ repo digest. file_of 7;
  unlink = λ repo digest. unlinked;
}

abbrev test_tracker : GcTracker
test_tracker = record {
  candidates = (live_blob, 10) ∷ (dead_blob, 20) ∷ [];
  delay = 60;
  enabled = true;
  ready = true;
  roots = live_blob ∷ [];
  unsafe_repos = [];
}

test_sweep : Sweep
unfolding Quota.new
test_sweep = record {
  gc = test_tracker;
  gone = [];
  quota = Quota.new (record { max_repo_bytes = 0; max_total_bytes = 0; max_upload_sessions = 0 });
}

sweep_at-gone_example : contains (sweep_at test_world 100 test_sweep).gone dead_blob ≡ (
    contains test_sweep.gone dead_blob
    || (is_ready test_sweep.gc && is_garbage test_world 100 test_sweep.gc dead_blob.0 dead_blob.1))
sweep_at-gone_example = sweep_at-gone test_world 100 test_sweep dead_blob

abbrev marked_twice : List GcOp
marked_twice =
    op_mark (codes "r") digest_text 5
    ∷ op_touch (codes "r") digest_text 20
    ∷ op_root (codes "r") root_text
    ∷ op_ready
    ∷ []

run_ops-answers_example :
    let after = run_ops marked_twice (new_tracker true 60) in
    (is_ready after ≡ any makes_ready marked_twice)
    × (is_root (codes "r") digest_text after
        ≡ any (λ op. names_root op (codes "r", digest_text)) marked_twice)
    × (is_unsafe (codes "r") after ≡ any (λ op. names_unsafe op (codes "r")) marked_twice)
    × (is_due (codes "r") digest_text 100 after
        ≡ is_some_and (stamp_of marked_twice (codes "r", digest_text) none) (is_past 60 100))
    × IsUnique after.candidates
run_ops-answers_example = run_ops-answers 60 marked_twice (codes "r") digest_text 100

one_goes : (sweep_at test_world 100 test_sweep).gone ≡ dead_blob ∷ []
unfolding sweep_at test_sweep is_ready due due_keys sweep_all sweep_one is_due is_root is_unsafe get
    pair_beq text_beq clear remove forget collect parsed_as at_path after_stat after_unlink
    blob_left Digest.parse ok_len is_hex_digit split_once blob_dir_rel repo_rel safe_components
    safe_component split
one_goes = refl
