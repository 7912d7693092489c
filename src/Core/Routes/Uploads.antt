-- ===== src/Core/Routes/Uploads.antt =====
-- crates/roci-core/src/routes.rs: the paths of upload sessions.
-- The segments of `<repo>/blobs/uploads/<id>`.
use mathlib.Core.List.{append_assoc}
use roci.Base.{List, [], arith, false, refl, true, ℕ, ◌++◌, ◌+◌, ◌-◌, ◌∷◌, ◌≡◌}
use roci.Base.Eq.{Text, codes, text_beq, text_eq}
use roci.Base.Lists.{is_empty, length, length-append}
use roci.Base.Result.{ok}
use roci.Base.Tests.{if◌then◌else◌, leb, ltb}
use roci.Base.Text.{IsFree, join-split, split, split-IsFree, split-append}
use roci.Core.Names.Decides.{IsName, parse_iff}
use roci.Core.Routes.{at, checked_repo, parse_path, parse_segments, upload_session, upload_start}
use roci.Core.Routes.Paths.{at-append, take-append_le}

module _ (repo id : Text) where
  abbrev upload_segments : List Text
  upload_segments = split b'/' repo ++ codes "blobs" ∷ codes "uploads" ∷ id ∷ []

  split_upload :
      IsFree b'/' id
      → split b'/' (repo ++ b'/' ∷ codes "blobs" ++ b'/' ∷ codes "uploads" ++ b'/' ∷ id)
        ≡ upload_segments
  split_upload free = rw (
    split-append,
    split-append,
    split-append,
    split-IsFree b'/' (codes "blobs") (omega arith),
    split-IsFree b'/' (codes "uploads") (omega arith),
    split-IsFree b'/' id free,
    append_assoc,
    append_assoc,
  )

  length-upload_segments : length upload_segments ≡ length (split b'/' repo) + 3
  length-upload_segments =
      length-append (split b'/' repo) (codes "blobs" ∷ codes "uploads" ∷ id ∷ [])

  upload_at :
      (k i : ℕ)
      → 3 ≡ k + i
      → at upload_segments (length upload_segments - k)
        ≡ at (codes "blobs" ∷ codes "uploads" ∷ id ∷ []) i
  upload_at k i e =
      at-append (split b'/' repo) (codes "blobs" ∷ codes "uploads" ∷ id ∷ [])
        (length upload_segments - k) i (omega (arith, length-upload_segments))

  upload_repo_taken :
      IsName repo → checked_repo upload_segments (length upload_segments - 3) ≡ ok repo
  unfolding checked_repo
  upload_repo_taken name = rw (
    take-append_le (split b'/' repo) (codes "blobs" ∷ codes "uploads" ∷ id ∷ [])
        (length upload_segments - 3) (omega (arith, length-upload_segments)),
    join-split,
    (parse_iff repo repo).1 (refl, name),
  )

-- `<repo>/blobs/uploads/<id>` names the session, and with nothing for an id the start of one.
pub parse_path-upload :
    (repo id : Text)
    → IsName repo
    → IsFree b'/' id
    → parse_path (repo ++ b'/' ∷ codes "blobs" ++ b'/' ∷ codes "uploads" ++ b'/' ∷ id)
      ≡ ok (if is_empty id then upload_start repo else upload_session repo id)
unfolding parse_path parse_segments text_beq
parse_path-upload repo id name free = rw (
  split_upload repo id free,
  upload_at repo id 3 0 refl,
  upload_at repo id 2 1 refl,
  upload_at repo id 1 2 refl,
  upload_repo_taken repo id name,
  lt_two,
  le_three,
)
  where
    lt_two : ltb (length (upload_segments repo id)) 2 ≡ false
    lt_two = ground (arith, length-upload_segments repo id)

    le_three : leb 3 (length (upload_segments repo id)) ≡ true
    le_three = ground (arith, length-upload_segments repo id)
