-- ===== src/Storage/Paths/Safe.antt =====
-- crates/roci-storage/src/fs_storage/paths.rs: no path leaves the root.
use mathlib.Core.List.{append_assoc}
use mathlib.Core.Path.{subst}
use roci.Base.{
  Bool, List, [], ap, arith, false, inl, inr, refl, some, sym, true, ℕ, ◌++◌, ◌||◌, ◌∙◌, ◌∷◌, ◌≡◌,
  ◌≢◌,
}
use roci.Base.Eq.{Text, codes, eq_iff, nat_eq, text_eq, ◌==◌}
use roci.Base.Lists.{any, is_empty, length}
use roci.Base.Result.{>>=-eq-ok, Result, err, ok}
use roci.Base.Tests.{if◌then◌else◌, nat_beq}
use roci.Base.Text.{IsFree, split}
use roci.Storage.Digest.{Digest, ok_len, sha256, sha512}
use roci.Storage.Digest.Laws.{IsCanonical, registered}
use roci.Storage.Error.{StorageError, bad_path}
use roci.Storage.Paths.{
  blob_dir_rel, blob_rel, repo_rel, safe_component, safe_components, upload_dir_rel, upload_rel,
}

-- A file name that is none of the special ones, without separators and NUL.
abbrev pub IsSafe : Text → Type 0
IsSafe s = (s ≢ []) × (s ≢ codes ".") × (s ≢ codes "..") × IsFree b'/' s × IsFree 92 s × IsFree 0 s

abbrev pub AreSafe : List Text → Type 0
AreSafe [] = Unit {0}
AreSafe (c ∷ cs) = IsSafe c × AreSafe cs

abbrev is_bad_byte : ℕ → Bool
is_bad_byte b = nat_beq b b'/' || (nat_beq b 92 || nat_beq b 0)

IsFree-of : (s : Text) → any is_bad_byte s ≡ false → IsFree b'/' s × IsFree 92 s × IsFree 0 s
IsFree-of [] h = (tt, tt, tt)
IsFree-of (b ∷ s) h =
    let rest : any is_bad_byte s ≡ false = ground arith in
    let (slash, backslash, nul) = IsFree-of s rest in
    ((ground arith, slash), (ground arith, backslash), (ground arith, nul))

differs : (s t : Text) → (s == t) ≡ false → s ≢ t
differs s t h e = ground (arith, (eq_iff s t).1 e)

or-false_lem : (a b : Bool) → (a || b) ≡ false → (a ≡ false) × (b ≡ false)
or-false_lem a b h = (ground arith, ground arith)

not_empty : (s : Text) → is_empty s ≡ false → s ≢ []
not_empty s h e = cc (ap is_empty e)

if_ok :
    (b : Bool) {s r : Text} (e : StorageError)
    → (if b then err e else ok s) ≡ ok r
    → (b ≡ false) × (s ≡ r)
if_ok true e h = cc
if_ok false e h = (refl, cc)

safe_component-IsSafe : (s r : Text) → safe_component s ≡ ok r → IsSafe r × (s ≡ r)
unfolding safe_component
safe_component-IsSafe s r h =
    let (good, same) = if_ok _ (bad_path s) h in
    let (h0, g1) = or-false_lem _ _ good in
    let (h1, g2) = or-false_lem _ _ g1 in
    let (h2, h3) = or-false_lem _ _ g2 in
    let (slash, backslash, nul) = IsFree-of s h3 in
    (
      subst IsSafe same (
        not_empty s h0,
        differs s (codes ".") h1,
        differs s (codes "..") h2,
        slash,
        backslash,
        nul,
      ),
      same,
    )

safe_components-AreSafe : (cs rs : List Text) → safe_components cs ≡ ok rs → AreSafe rs × (cs ≡ rs)
unfolding safe_components
safe_components-AreSafe [] [] h = (tt, refl)
safe_components-AreSafe [] (r ∷ rs) h = cc
safe_components-AreSafe (c ∷ cs) rs h =
    let (first, e, h1) = >>=-eq-ok (safe_component c) _ h in
    let (rest, e1, h2) = >>=-eq-ok (safe_components cs) _ h1 in
    let (safe, same) = safe_component-IsSafe c first e in
    let (all_safe, same_rest) = safe_components-AreSafe cs rest e1 in
    let whole : first ∷ rest ≡ rs = cc in (subst AreSafe whole (safe, all_safe), cc)

AreSafe-append : (cs ds : List Text) → AreSafe cs → AreSafe ds → AreSafe (cs ++ ds)
AreSafe-append [] ds h k = k
AreSafe-append (c ∷ cs) ds h k = (h.0, AreSafe-append cs ds h.1 k)

blobs_name : IsSafe (codes "blobs")
blobs_name = ground arith

uploads_name : IsSafe (codes "uploads")
uploads_name = ground arith

sha256_name : IsSafe sha256
sha256_name = ground arith

sha512_name : IsSafe sha512
sha512_name = ground arith

algorithm_name : (a : Text) (n : ℕ) → ok_len a ≡ some n → IsSafe a
algorithm_name a n h = elim (registered a n h) [
  | inl e ↦ subst IsSafe (sym e) sha256_name
  | inr e ↦ subst IsSafe (sym e) sha512_name
]

whole_path :
    (parents tail_parts dir path : List Text) (name leaf : Text)
    → Path
        (Result StorageError (List Text × Text))
        (ok (parents ++ tail_parts, name))
        (ok (dir, leaf))
    → Path (Result StorageError (List Text)) (ok (dir ++ leaf ∷ [])) (ok path)
    → path ≡ parents ++ (tail_parts ++ name ∷ [])
whole_path parents tail_parts dir path name leaf h k =
    let same_dir : dir ≡ parents ++ tail_parts = cc in
    let same_leaf : leaf ≡ name = cc in
    let same_path : path ≡ dir ++ leaf ∷ [] = cc in
    same_path
    ∙ ap (λ d. d ++ leaf ∷ []) same_dir
    ∙ ap (λ l. (parents ++ tail_parts) ++ l ∷ []) same_leaf
    ∙ append_assoc parents tail_parts (name ∷ [])

-- Every component of a blob's path is a plain file name: not empty, neither `.` nor `..`, without `/`,
-- `\` and NUL; and the first ones are the repository's.
pub blob_rel-AreSafe :
    (repo : Text) (d : Digest) (path : List Text)
    → IsCanonical d
    → blob_rel repo d ≡ ok path
    → AreSafe path × (path ≡ split b'/' repo ++ (codes "blobs" ∷ d.algorithm ∷ d.hex ∷ []))
unfolding blob_rel blob_dir_rel repo_rel
blob_rel-AreSafe repo d path canonical h =
    let ((dir, leaf), e, h1) = >>=-eq-ok (blob_dir_rel repo d) _ h in
    let (parents, e1, h2) = >>=-eq-ok (repo_rel repo) _ e in
    let (name, e2, h3) = >>=-eq-ok (safe_component d.hex) _ h2 in
    let (parents_safe, parents_same) = safe_components-AreSafe (split b'/' repo) parents e1 in
    let (leaf_safe, leaf_same) = safe_component-IsSafe d.hex name e2 in
    let tail_safe : AreSafe (codes "blobs" ∷ d.algorithm ∷ name ∷ []) = (
      blobs_name,
      (algorithm_name d.algorithm (length d.hex) canonical.length_fits, (leaf_safe, tt)),
    ) in
    let whole : path ≡ parents ++ (codes "blobs" ∷ d.algorithm ∷ name ∷ []) =
      whole_path parents (codes "blobs" ∷ d.algorithm ∷ []) dir path name leaf h3 h1 in
    (
      subst AreSafe (sym whole) (AreSafe-append parents _ parents_safe tail_safe),
      whole
          ∙ ap (λ ps. ps ++ (codes "blobs" ∷ d.algorithm ∷ name ∷ [])) (sym parents_same)
          ∙ ap (λ n. split b'/' repo ++ (codes "blobs" ∷ d.algorithm ∷ n ∷ [])) (sym leaf_same),
    )

-- Every component of an upload's path is a plain file name, and the last two are `uploads` and the id.
pub upload_rel-AreSafe :
    (repo id : Text) (path : List Text)
    → upload_rel repo id ≡ ok path
    → AreSafe path × (path ≡ split b'/' repo ++ (codes "uploads" ∷ id ∷ []))
unfolding upload_rel upload_dir_rel repo_rel
upload_rel-AreSafe repo id path h =
    let ((dir, leaf), e, h1) = >>=-eq-ok (upload_dir_rel repo id) _ h in
    let (parents, e1, h2) = >>=-eq-ok (repo_rel repo) _ e in
    let (name, e2, h3) = >>=-eq-ok (safe_component id) _ h2 in
    let (parents_safe, parents_same) = safe_components-AreSafe (split b'/' repo) parents e1 in
    let (leaf_safe, leaf_same) = safe_component-IsSafe id name e2 in
    let tail_safe : AreSafe (codes "uploads" ∷ name ∷ []) = (uploads_name, (leaf_safe, tt)) in
    let whole : path ≡ parents ++ (codes "uploads" ∷ name ∷ []) =
      whole_path parents (codes "uploads" ∷ []) dir path name leaf h3 h1 in
    (
      subst AreSafe (sym whole) (AreSafe-append parents _ parents_safe tail_safe),
      whole
          ∙ ap (λ ps. ps ++ (codes "uploads" ∷ name ∷ [])) (sym parents_same)
          ∙ ap (λ n. split b'/' repo ++ (codes "uploads" ∷ n ∷ [])) (sym leaf_same),
    )
