-- ===== src/Storage/Gc.antt =====
-- crates/roci-storage/src/gc.rs, `GcTracker`: the candidates for collection. A method takes the tracker
-- and returns it; an `Instant` is a number, and the clock's reading an argument. The fence is not
-- modelled: a sweep is one step.
pub mod Candidates
pub mod History
pub mod Sweep
use roci.Base.{Bool, List, [], false, true, ℕ, ◌&&◌, ◌-◌, ◌∷◌}
use roci.Base.Eq.{Pair, Text, pair_eq, text_eq}
use roci.Base.Lists.{contains, length, set_insert}
use roci.Base.Map.{Map, contains_key, get, insert, keys, remove}
use roci.Base.Tests.{if◌then◌else◌, is_some_and, leb, nat_beq}

pub record GcTracker : Type 0 where
  pub enabled : Bool
  pub delay : ℕ
  pub candidates : Map Pair ℕ
  pub ready : Bool
  pub roots : List Pair
  pub unsafe_repos : List Text

unfoldable pub new_tracker : Bool → ℕ → GcTracker
new_tracker enabled delay = record {
  candidates = [];
  delay = delay;
  enabled = enabled;
  ready = false;
  roots = [];
  unsafe_repos = [];
}

unfoldable pub disabled : GcTracker
disabled = new_tracker false 0

unfoldable pub mark_at : Text → Text → ℕ → GcTracker → GcTracker
mark_at repo digest at_time g =
    if g.enabled then record g { candidates = insert (repo, digest) at_time g.candidates } else g

-- `mark`, at the reading `now` of the clock.
unfoldable pub mark : Text → Text → ℕ → GcTracker → GcTracker
mark repo digest now g = mark_at repo digest now g

unfoldable pub touch : Text → Text → ℕ → GcTracker → GcTracker
touch repo digest now g =
    if g.enabled && contains_key (repo, digest) g.candidates
    then record g { candidates = insert (repo, digest) now g.candidates }
    else g

unfoldable pub clear : Text → Text → GcTracker → GcTracker
clear repo digest g =
    if g.enabled then record g { candidates = remove (repo, digest) g.candidates } else g

-- `now.saturating_duration_since(t) >= delay`
abbrev pub is_past : ℕ → ℕ → ℕ → Bool
is_past delay now t = leb delay (now - t)

unfoldable pub due_keys : ℕ → ℕ → Map Pair ℕ → List Pair
due_keys delay now [] = []
due_keys delay now ((k, t) ∷ m) =
    let rest = due_keys delay now m in if is_past delay now t then k ∷ rest else rest

unfoldable pub due : ℕ → GcTracker → List Pair
due now g = due_keys g.delay now g.candidates

unfoldable pub is_due : Text → Text → ℕ → GcTracker → Bool
is_due repo digest now g = is_some_and (get (repo, digest) g.candidates) (is_past g.delay now)

unfoldable pub len : GcTracker → ℕ
len g = length g.candidates

unfoldable pub has_none : GcTracker → Bool
has_none g = nat_beq (len g) 0

unfoldable pub set_ready : GcTracker → GcTracker
set_ready g = record g { ready = true }

unfoldable pub is_ready : GcTracker → Bool
is_ready g = g.enabled && g.ready

unfoldable pub add_root : Text → Text → GcTracker → GcTracker
add_root repo digest g =
    if g.enabled then record g { roots = set_insert (repo, digest) g.roots } else g

unfoldable pub is_root : Text → Text → GcTracker → Bool
is_root repo digest g = contains g.roots (repo, digest)

unfoldable pub mark_unsafe : Text → GcTracker → GcTracker
mark_unsafe repo g =
    if g.enabled then record g { unsafe_repos = set_insert repo g.unsafe_repos } else g

unfoldable pub is_unsafe : Text → GcTracker → Bool
is_unsafe repo g = contains g.unsafe_repos repo

unfoldable pub candidate_keys : GcTracker → List Pair
candidate_keys g = keys g.candidates

unfoldable pub root_keys : GcTracker → List Pair
root_keys g = g.roots

unfoldable pub unsafe_repo_names : GcTracker → List Text
unsafe_repo_names g = g.unsafe_repos
