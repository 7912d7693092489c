-- ===== src/Core/Routes/Safety.antt =====
-- crates/roci-core/src/routes.rs: what reaches the handlers has been checked, and which requests
-- need a permission.
use roci.Core.Names
use roci.Base.{List, Option, [], arith, none, some, ℕ, ◌-◌, ◌∷◌, ◌≡◌}
use roci.Base.Eq.{Text, text_eq}
use roci.Base.Lists.{is_empty, length, take}
use roci.Base.Result.{Ensures, Ensures-bind, Ensures-if, Ensures-ok, ensured, ok, ok-Ensures}
use roci.Base.Tests.{if◌then◌else◌}
use roci.Base.Text.{join, split}
use roci.Core.Names.Decides.{IsName, parse_iff}
use roci.Core.Routes.{
  Parsed, at, blob, checked_repo, manifest_ref, parse_digest, parse_path, parse_segments,
  parse_verb, referrers, tags_list, unknown, upload_session, upload_start,
}
use roci.Storage.Digest.Laws.{IsCanonical, parse-IsCanonical}

-- The repository is a valid name and a digest is canonical.
abbrev pub IsChecked : Parsed → Type 0
IsChecked (blob repo d) = IsName repo × IsCanonical d
IsChecked (manifest_ref repo reference) = IsName repo
IsChecked (upload_start repo) = IsName repo
IsChecked (upload_session repo id) = IsName repo
IsChecked (tags_list repo) = IsName repo
IsChecked (referrers repo d) = IsName repo × IsCanonical d
IsChecked unknown = Unit

checked_repo-Ensures : (segs : List Text) (k : ℕ) → Ensures IsName (checked_repo segs k)
unfolding checked_repo
checked_repo-Ensures segs k =
    let repo = join b'/' (take k segs) in
    Ensures-bind {P = λ t. IsName repo} (λ t. ok repo)
      (ok-Ensures (Names.parse repo) (λ t h. ((parse_iff repo t).0 h).1)) (λ t h. ensured h)

parse_digest-Ensures : (s : Text) → Ensures IsCanonical (parse_digest s)
unfolding parse_digest
parse_digest-Ensures s = ok-Ensures (parse_digest s) λ d h. parse-IsCanonical s d (ground arith)

ruleset checks = (Ensures-if, Ensures-bind, checked_repo-Ensures, parse_digest-Ensures, ensured)

parse_verb-Ensures : (segs : List Text) (n : ℕ) → Ensures IsChecked (parse_verb segs n)
unfolding parse_verb
parse_verb-Ensures segs n =
    Ensures-if _ _ _
      (Ensures-bind _ (checked_repo-Ensures segs (n - 2)) λ repo name.
        Ensures-bind _ (parse_digest-Ensures (at segs (n - 1)))
          λ d c. ensured {a = blob repo d} (name, c))
      (Ensures-if _ _ _
        (Ensures-bind _ (checked_repo-Ensures segs (n - 2))
          λ repo name. ensured {a = manifest_ref repo (at segs (n - 1))} name)
        (Ensures-if _ _ _
          (Ensures-bind _ (checked_repo-Ensures segs (n - 2))
            λ repo name. ensured {a = tags_list repo} name)
          (Ensures-if _ _ _
            (Ensures-bind _ (checked_repo-Ensures segs (n - 2)) λ repo name.
              Ensures-bind _ (parse_digest-Ensures (at segs (n - 1)))
                λ d c. ensured {a = referrers repo d} (name, c))
            (ensured tt))))

session_or_start :
    (repo id : Text)
    → IsName repo
    → IsChecked (if is_empty id then upload_start repo else upload_session repo id)
session_or_start repo [] name = name
session_or_start repo (c ∷ id) name = name

parse_segments-Ensures : (segs : List Text) (n : ℕ) → Ensures IsChecked (parse_segments segs n)
unfolding parse_segments
parse_segments-Ensures segs n = Ensures-if _ _ _ (ensured tt) (
    Ensures-if _ _ _
      (Ensures-bind _ (checked_repo-Ensures segs (n - 3))
        λ repo name. ensured (session_or_start repo (at segs (n - 1)) name))
      (Ensures-if _ _ _
        (Ensures-bind _ (checked_repo-Ensures segs (n - 2)) λ repo name. ensured name)
        (parse_verb-Ensures segs n)))

-- A path that parses names a repository by a valid name, and a blob or a subject by a canonical
-- digest: nothing else reaches a handler.
pub parse_path-IsChecked : (path : Text) (p : Parsed) → parse_path path ≡ ok p → IsChecked p
unfolding parse_path
parse_path-IsChecked path p h =
    Ensures-ok (parse_segments-Ensures (split b'/' path) (length (split b'/' path))) h

-- The repository that a parsed path names.
abbrev pub repo_of : Parsed → Option Text
repo_of (blob repo d) = some repo
repo_of (manifest_ref repo reference) = some repo
repo_of (upload_start repo) = some repo
repo_of (upload_session repo id) = some repo
repo_of (tags_list repo) = some repo
repo_of (referrers repo d) = some repo
repo_of unknown = none
