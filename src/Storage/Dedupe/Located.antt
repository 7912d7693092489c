-- ===== src/Storage/Dedupe/Located.antt =====
-- crates/roci-storage/src/dedupe.rs: the index names holders only.
use mathlib.Core.Path.{subst}
use roci.Base.{
  Bool, List, Option, [], ap, arith, false, inl, inr, none, not, refl, some, sym, true, ◌&&◌, ◌||◌,
  ◌∙◌, ◌∷◌, ◌≡◌, ◌≢◌,
}
use roci.Base.Eq.{Pair, Text, eq_iff, nat_eq, pair_eq, text_eq, ◌==◌}
use roci.Base.Lists.{contains, contains-set_insert, retain, set_insert}
use roci.Base.Map.{contains_key, get, get-insert, get-remove}
use roci.Base.Tests.{
  Bool-cases, and_intro, if◌then◌else◌, is_none_or, is_some_and, or-left, or-right,
}
use roci.Storage.Dedupe.{
  DedupeIndex, insert_location, locate, new_index, other_than, remove_location,
}

-- A blob enters or leaves a repository.
pub data BlobEvent : Type 0 where
  entered left_repo : (repo digest : Text) → BlobEvent

unfoldable pub index_after : BlobEvent → DedupeIndex → DedupeIndex
index_after (entered repo digest) self = insert_location repo digest self
index_after (left_repo repo digest) self = remove_location repo digest self

-- The blobs that the repositories hold.
unfoldable pub held_after : BlobEvent → List Pair → List Pair
held_after (entered repo digest) held = set_insert (repo, digest) held
held_after (left_repo repo digest) held = retain (λ k. not (k == (repo, digest))) held

unfoldable pub run_index : List BlobEvent → DedupeIndex → DedupeIndex
run_index [] self = self
run_index (e ∷ events) self = run_index events (index_after e self)

unfoldable pub run_held : List BlobEvent → List Pair → List Pair
run_held [] held = held
run_held (e ∷ events) held = run_held events (held_after e held)

abbrev NamesHolders : DedupeIndex → List Pair → Type 0
NamesHolders self held =
    (d : Text) → is_none_or (get d self.by_digest) (λ q. contains held (q, d)) ≡ true

contains-retain_other :
    (j k : Pair) (held : List Pair)
    → contains (retain (λ x. not (x == j)) held) k ≡ (not (k == j) && contains held k)
contains-retain_other j k [] = ground arith
contains-retain_other j k (x ∷ held) =
    ground (arith, contains-retain_other j k held, eq_iff x j, eq_iff x k, eq_iff k j)

abbrev pair_of : Text → Text → Pair
pair_of repo digest = (repo, digest)

apart : (j k : Pair) → j ≢ k → (j == k) ≡ false
apart j k h = elim (Bool-cases (j == k)) [
  | inl same ↦ absurd (h ((eq_iff j k).0 same))
  | inr other ↦ other
]

fewer_holders :
    (j : Pair) (d : Text) (o : Option Text) (held : List Pair)
    → ((q : Text) → o ≡ some q → pair_of q d ≢ j)
    → is_none_or o (λ q. contains held (q, d)) ≡ true
    → is_none_or o (λ q. contains (retain (λ x. not (x == j)) held) (q, d)) ≡ true
fewer_holders j d none held differ h = refl
fewer_holders j d (some q) held differ h =
    contains-retain_other j (q, d) held
    ∙ and_intro (ap not (apart (pair_of q d) j (differ q refl))) h

more_holders :
    (j : Pair) (d : Text) (o : Option Text) (held : List Pair)
    → is_none_or o (λ q. contains held (q, d)) ≡ true
    → is_none_or o (λ q. contains (set_insert j held) (q, d)) ≡ true
more_holders j d none held h = refl
more_holders j d (some q) held h = contains-set_insert j (q, d) held ∙ or-right (j == (q, d)) h

entered-NamesHolders :
    (repo digest : Text) (self : DedupeIndex) (held : List Pair)
    → NamesHolders self held
    → NamesHolders (insert_location repo digest self) (set_insert (repo, digest) held)
unfolding insert_location
entered-NamesHolders repo digest self held h d =
    elim (Bool-cases (not self.is_enabled || contains_key digest self.by_digest)) [
      | inl kept ↦
          rw (kept, insert_location)
            (more_holders (repo, digest) d (get d self.by_digest) held (h d))
      | inr fresh ↦ elim (Bool-cases (digest == d)) [
        | inl same ↦
            rw (fresh, insert_location, get-insert digest d repo self.by_digest, same)
              (contains-set_insert (repo, digest) (repo, d) held
                ∙ or-left _ (
                    (eq_iff (pair_of repo digest) (pair_of repo d)).1
                      (ap (pair_of repo) ((eq_iff digest d).0 same))))
        | inr other ↦
            rw (fresh, insert_location, get-insert digest d repo self.by_digest, other)
              (more_holders (repo, digest) d (get d self.by_digest) held (h d))
      ]
    ]

left_repo-NamesHolders :
    (repo digest : Text) (self : DedupeIndex) (held : List Pair)
    → NamesHolders self held
    → NamesHolders
        (remove_location repo digest self)
        (retain (λ k. not (k == pair_of repo digest)) held)
unfolding remove_location
left_repo-NamesHolders repo digest self held h d =
    elim (Bool-cases (is_some_and (get digest self.by_digest) (λ r. r == repo))) [
      | inr elsewhere ↦
          rw (elsewhere, remove_location)
            (fewer_holders (repo, digest) d (get d self.by_digest) held
              (λ q found same_pair.
                let same_repo : q ≡ repo = ap (λ k. k.0) same_pair in
                let same_digest : d ≡ digest = ap (λ k. k.1) same_pair in
                let at_digest : get digest self.by_digest ≡ some q =
                  ap (λ x. get x self.by_digest) (sym same_digest) ∙ found in
                let yes_there : is_some_and (get digest self.by_digest) (λ r. r == repo) ≡ true =
                  rw at_digest ((eq_iff q repo).1 same_repo) in
                cc)
              (h d))
      | inl here ↦ elim (Bool-cases (digest == d)) [
        | inl same ↦ rw (here, remove_location, get-remove digest d self.by_digest, same)
        | inr other ↦
            rw (here, remove_location, get-remove digest d self.by_digest, other)
              (fewer_holders (repo, digest) d (get d self.by_digest) held
                (λ q found same_pair.
                  let same_digest : digest ≡ d = sym (ap (λ k. k.1) same_pair) in
                  let yes_there = (eq_iff digest d).1 same_digest in cc)
                (h d))
      ]
    ]

run-NamesHolders :
    (events : List BlobEvent) (self : DedupeIndex) (held : List Pair)
    → NamesHolders self held
    → NamesHolders (run_index events self) (run_held events held)
unfolding run_index run_held index_after held_after
run-NamesHolders [] self held h = h
run-NamesHolders (entered repo digest ∷ events) self held h =
    run-NamesHolders events (insert_location repo digest self) (set_insert (repo, digest) held)
      (entered-NamesHolders repo digest self held h)
run-NamesHolders (left_repo repo digest ∷ events) self held h =
    run-NamesHolders events (remove_location repo digest self)
      (retain (λ k. not (k == (repo, digest))) held)
      (left_repo-NamesHolders repo digest self held h)

some_text : {r q : Text} → Path (Option Text) (some r) (some q) → r ≡ q
some_text h = cc

answer_of :
    (b : Bool) (o : Option Text) {q : Text}
    → (if b then none else o) ≡ some q
    → (b ≡ false) × (o ≡ some q)
answer_of true o h = cc
answer_of false o h = (refl, h)

other_than-eq-some :
    (repo q : Text) (o : Option Text) → other_than repo o ≡ some q → (o ≡ some q) × (q ≢ repo)
other_than-eq-some repo q none h = cc
other_than-eq-some repo q (some r) h =
    let (no_self, found) = answer_of (r == repo) (some r) h in
    (found, λ same. cc ((eq_iff r repo).1 (some_text found ∙ same)))

-- Whatever blobs entered and left the repositories, in whatever order, the repository that `locate`
-- answers for a digest holds it at that moment and is not the one that asks.
pub locate-run_index :
    (events : List BlobEvent) (is_enabled : Bool) (digest repo q : Text)
    → locate digest repo (run_index events (new_index is_enabled)) ≡ some q
    → (contains (run_held events []) (q, digest) ≡ true) × (q ≢ repo)
unfolding locate new_index get
locate-run_index events is_enabled digest repo q h =
    let self = run_index events (new_index is_enabled) in
    let (on, asked) =
      answer_of (not self.is_enabled) (other_than repo (get digest self.by_digest)) h in
    let (found, other) = other_than-eq-some repo q (get digest self.by_digest) asked in
    (
      subst (λ o. is_none_or o (λ r. contains (run_held events []) (r, digest)) ≡ true) found
          (run-NamesHolders events (new_index is_enabled) [] (λ d. refl) digest),
      other,
    )
