-- ===== src/Core/Routes/Paths.antt =====
-- crates/roci-core/src/routes.rs: the paths that a client writes are parsed to what they name.
use Prim.Native.Nat.add
use roci.Storage.Digest
use mathlib.Core.List.{append_assoc}
use roci.Base.{
  List, [], ap, arith, false, inl, inr, refl, suc, ℕ, ◌&&◌, ◌++◌, ◌+◌, ◌-◌, ◌∙◌, ◌∷◌, ◌≡◌, ◌≤◌,
}
use roci.Base.Eq.{Text, codes, nat_eq, text_beq, text_beq_iff, text_eq, ◌==◌}
use roci.Base.Lists.{get_elem?, length, length-append, take, take-append}
use roci.Base.Result.{ok}
use roci.Base.Tests.{Bool-cases}
use roci.Base.Text.{IsFree, join-split, split, split-IsFree, split-append, split_once}
use roci.Core.Names.Decides.{IsName, parse_iff}
use roci.Core.Routes.{
  at, blob, checked_repo, manifest_ref, parse_digest, parse_path, parse_segments, parse_verb,
  referrers, tags_list,
}
use roci.Storage.Digest.{Digest, as_string}
use roci.Storage.Digest.Laws.{IsCanonical, as_string-IsFree, parse-as_string}

get_elem?-suc_add :
    (x : Text) (xs : List Text) (n i : ℕ) → get_elem? (x ∷ xs) (suc n + i) ≡ get_elem? xs (n + i)
get_elem?-suc_add x xs n i = rw add.suc

get_elem?-append :
    (xs ys : List Text) (i : ℕ) → get_elem? (xs ++ ys) (length xs + i) ≡ get_elem? ys i
get_elem?-append [] ys i = rw add.zero
get_elem?-append (x ∷ xs) ys i =
    get_elem?-suc_add x (xs ++ ys) (length xs) i ∙ get_elem?-append xs ys i

-- `segments[n - k]` where `n - k` reaches past `xs` by `i`.
pub at-append : (xs ys : List Text) (j i : ℕ) → j ≡ length xs + i → at (xs ++ ys) j ≡ at ys i
at-append xs ys j i e = rw (e, get_elem?-append xs ys i)

pub take-append_le : (xs ys : List Text) (j : ℕ) → j ≡ length xs → take j (xs ++ ys) ≡ xs
take-append_le xs ys j e = rw e (take-append xs ys)

-- The segments of `<repo>/<verb>/<last>`.
split_path :
    (repo verb last : Text)
    → IsFree b'/' verb
    → IsFree b'/' last
    → split b'/' (repo ++ b'/' ∷ verb ++ b'/' ∷ last) ≡ split b'/' repo ++ verb ∷ last ∷ []
split_path repo verb last v l =
    rw
      (split-append, split-append, split-IsFree b'/' verb v, split-IsFree b'/' last l, append_assoc)

module _ (repo verb last : Text) where
  abbrev segments : List Text
  segments = split b'/' repo ++ verb ∷ last ∷ []

  length-segments : length segments ≡ length (split b'/' repo) + 2
  length-segments = length-append (split b'/' repo) (verb ∷ last ∷ [])

  verb_at : at segments (length segments - 2) ≡ verb
  verb_at =
      at-append (split b'/' repo) (verb ∷ last ∷ []) (length segments - 2) 0
        (omega (arith, length-segments))

  last_at : at segments (length segments - 1) ≡ last
  last_at =
      at-append (split b'/' repo) (verb ∷ last ∷ []) (length segments - 1) 1
        (omega (arith, length-segments))

  repo_taken : IsName repo → checked_repo segments (length segments - 2) ≡ ok repo
  unfolding checked_repo
  repo_taken name = rw (
    take-append_le (split b'/' repo) (verb ∷ last ∷ []) (length segments - 2)
        (omega (arith, length-segments)),
    join-split,
    (parse_iff repo repo).1 (refl, name),
  )

-- A path whose segments before the last are no upload goes by its verb.
parse_segments-verb :
    (segs : List Text) (n : ℕ) (verb last : Text)
    → 2 ≤ n
    → at segs (n - 2) ≡ verb
    → at segs (n - 1) ≡ last
    → (verb == codes "uploads") ≡ false
    → (verb == codes "blobs" && last == codes "uploads") ≡ false
    → parse_segments segs n ≡ parse_verb segs n
unfolding parse_segments
parse_segments-verb segs n verb last big v l no_uploads no_start =
    let e : at segs (n - 2) ≡ verb = v in
    ground (
      arith,
      ap (λ (t : Text). t == codes "uploads") v,
      ap (λ (t : Text). t == codes "blobs") v,
      ap (λ (t : Text). t == codes "uploads") l,
    )

-- The same for a path that is written out.
parse_path-verb :
    (repo verb last : Text)
    → IsFree b'/' verb
    → IsFree b'/' last
    → (verb == codes "uploads") ≡ false
    → (verb == codes "blobs" && last == codes "uploads") ≡ false
    → parse_path (repo ++ b'/' ∷ verb ++ b'/' ∷ last)
      ≡ parse_verb (segments repo verb last) (length (segments repo verb last))
unfolding parse_path
parse_path-verb repo verb last v l no_uploads no_start = rw (split_path repo verb last v l) (
    parse_segments-verb (segments repo verb last) (length (segments repo verb last)) verb last
      (omega (arith, length-segments repo verb last)) (verb_at repo verb last)
      (last_at repo verb last) no_uploads no_start)

digest_no_uploads : (d : Digest) → IsCanonical d → (as_string d == codes "uploads") ≡ false
unfolding Digest.parse split_once
digest_no_uploads d c = elim (Bool-cases (as_string d == codes "uploads")) [
  | inr differs ↦ differs
  | inl same ↦
      let e : as_string d ≡ codes "uploads" =
        (text_beq_iff (as_string d) (codes "uploads")).0 same in
      let parsed : Digest.parse (codes "uploads") ≡ ok d = rw e at (parse-as_string d c) in cc
]

parse_digest-as_string : (d : Digest) → IsCanonical d → parse_digest (as_string d) ≡ ok d
unfolding parse_digest
parse_digest-as_string d c = rw (parse-as_string d c, parse_digest)

-- `<repo>/blobs/<digest>` names that blob.
pub parse_path-blob :
    (repo : Text) (d : Digest)
    → IsName repo
    → IsCanonical d
    → parse_path (repo ++ b'/' ∷ codes "blobs" ++ b'/' ∷ as_string d) ≡ ok (blob repo d)
unfolding text_beq parse_verb
parse_path-blob repo d name c = rw (
  parse_path-verb repo (codes "blobs") (as_string d) (omega arith) (as_string-IsFree d c) refl
      (digest_no_uploads d c),
  verb_at repo (codes "blobs") (as_string d),
  last_at repo (codes "blobs") (as_string d),
  repo_taken repo (codes "blobs") (as_string d) name,
  parse_digest-as_string d c,
)

-- `<repo>/manifests/<reference>` names that manifest, whatever the reference, if no slash is in it.
pub parse_path-manifest_ref :
    (repo reference : Text)
    → IsName repo
    → IsFree b'/' reference
    → parse_path (repo ++ b'/' ∷ codes "manifests" ++ b'/' ∷ reference)
      ≡ ok (manifest_ref repo reference)
unfolding text_beq parse_verb
parse_path-manifest_ref repo reference name free = rw (
  parse_path-verb repo (codes "manifests") reference (omega arith) free refl refl,
  verb_at repo (codes "manifests") reference,
  last_at repo (codes "manifests") reference,
  repo_taken repo (codes "manifests") reference name,
)

-- `<repo>/tags/list` names the repository's tags.
pub parse_path-tags_list :
    (repo : Text)
    → IsName repo
    → parse_path (repo ++ b'/' ∷ codes "tags" ++ b'/' ∷ codes "list") ≡ ok (tags_list repo)
unfolding text_beq parse_verb
parse_path-tags_list repo name = rw (
  parse_path-verb repo (codes "tags") (codes "list") (omega arith) (omega arith) refl refl,
  verb_at repo (codes "tags") (codes "list"),
  last_at repo (codes "tags") (codes "list"),
  repo_taken repo (codes "tags") (codes "list") name,
)

-- `<repo>/referrers/<digest>` names the referrers of that digest.
pub parse_path-referrers :
    (repo : Text) (d : Digest)
    → IsName repo
    → IsCanonical d
    → parse_path (repo ++ b'/' ∷ codes "referrers" ++ b'/' ∷ as_string d) ≡ ok (referrers repo d)
unfolding text_beq parse_verb
parse_path-referrers repo d name c = rw (
  parse_path-verb repo (codes "referrers") (as_string d) (omega arith) (as_string-IsFree d c) refl
      refl,
  verb_at repo (codes "referrers") (as_string d),
  last_at repo (codes "referrers") (as_string d),
  repo_taken repo (codes "referrers") (as_string d) name,
  parse_digest-as_string d c,
)
