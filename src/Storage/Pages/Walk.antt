-- ===== src/Storage/Pages/Walk.antt =====
-- crates/roci-storage/src/metadata/log.rs, `tags_page`: a client that follows the cursor, asking for what
-- comes after the last item of each page, is given every tag once and then told that there is no more.
use mathlib.Core.List.{append-nil, append_assoc}
use mathlib.Core.Path.{subst}
use roci.Base.{
  List, Option, [], ap, arith, false, inl, inr, none, not, refl, some, suc, sym, true, zero, ℕ,
  ◌++◌, ◌<◌, ◌∙◌, ◌∷◌, ◌≡◌,
}
use roci.Base.Eq.{Text, text_eq}
use roci.Base.Lists.{all, drop, is_empty, length, length-drop, retain, take, take-append-drop}
use roci.Base.Map.{get, keys}
use roci.Base.Tests.{Bool-cases, Option-cases, if◌then◌else◌}
use roci.Base.Text.{split}
use roci.Storage.Metadata.{RepoState, State, repo_of}
use roci.Storage.Pages.{Page, is_after, sort_keys, tags_page, take_page, text_lt}
use roci.Storage.Pages.Sorted.{IsSorted, sort_keys-IsSorted, text_lt_irreflexive, text_lt_trans}

unfoldable pub last_item : Text → List Text → Text
last_item k [] = k
last_item k (j ∷ ks) = last_item j ks

-- The cursor behind a page.
abbrev pub cursor : List Text → Option Text → Option Text
cursor [] last = last
cursor (k ∷ ks) last = some (last_item k ks)

-- What a client collects in at most so many requests, from an answer for each cursor.
unfoldable pub follow :
    (requests : ℕ) → (Option Text → Option (Page Text)) → Option Text → List Text
follow zero ask last = []
follow (suc requests) ask last = elim (ask last) [
  | none ↦ []
  | some page ↦
      page.items
      ++ (elim page.more [ true ↦ follow requests ask (cursor page.items last) | false ↦ [] ])
]

all_after :
    (c : Text) (ys : List Text) → all (text_lt c) ys ≡ true → retain (is_after (some c)) ys ≡ ys
unfolding is_after
all_after c [] h = refl
all_after c (y ∷ ys) h = ground (arith, all_after c ys)

retain_everything : (ys : List Text) → retain (is_after none) ys ≡ ys
unfolding is_after
retain_everything [] = refl
retain_everything (y ∷ ys) = ap (λ zs. y ∷ zs) (retain_everything ys)

before :
    (x c : Text) (xs ys : List Text) → all (text_lt x) (xs ++ c ∷ ys) ≡ true → text_lt c x ≡ false
before x c [] ys h = ground (arith, text_lt_trans x c x, text_lt_irreflexive x)
before x c (z ∷ xs) ys h = before x c xs ys (ground arith)

-- The split of a sorted list at one of its keys.
after_key :
    (c : Text) (xs ys : List Text)
    → IsSorted (xs ++ c ∷ ys)
    → retain (is_after (some c)) (xs ++ c ∷ ys) ≡ ys
unfolding is_after
after_key c [] ys h = rw (text_lt_irreflexive c) (all_after c ys h.0)
after_key c (x ∷ xs) ys h = rw (before x c xs ys h.0) (after_key c xs ys h.1)

last_split :
    (k : Text) (ks : List Text) → (front : List Text) × (k ∷ ks ≡ front ++ last_item k ks ∷ [])
unfolding last_item
last_split k [] = ([], refl)
last_split k (j ∷ ks) = let (front, e) = last_split j ks in (k ∷ front, ap (λ zs. k ∷ zs) e)

take_all_empty : (n : ℕ) (ks : List Text) → is_empty (drop n ks) ≡ true → take n ks ≡ ks
take_all_empty zero [] h = refl
take_all_empty zero (k ∷ ks) h = cc
take_all_empty (suc n) [] h = refl
take_all_empty (suc n) (k ∷ ks) h = ap (λ zs. k ∷ zs) (take_all_empty n ks h)

module _ (keys_all : List Text) (sorted : IsSorted keys_all) (n : ℕ) where
  abbrev page_after : Option Text → Page Text
  page_after last = take_page (retain (is_after last) keys_all) (suc n)

  module _ (ask : Option Text → Option (Page Text))
      (answers : (last : Option Text) → ask last ≡ some (page_after last)) where
    -- The keys behind a page.
    next_rest :
        (done ks : List Text) (k : Text)
        → keys_all ≡ done ++ k ∷ ks
        → retain (is_after (some (last_item k (take n ks)))) keys_all ≡ drop n ks
    next_rest done ks k e =
        let (front, split) = last_split k (take n ks) in
        let whole : keys_all ≡ (done ++ front) ++ last_item k (take n ks) ∷ drop n ks =
          e
          ∙ ap (λ s. done ++ k ∷ s) (sym (take-append-drop n ks))
          ∙ ap (λ s. done ++ (s ++ drop n ks)) split
          ∙ ap (λ s. done ++ s) (append_assoc front (last_item k (take n ks) ∷ []) (drop n ks))
          ∙ sym (append_assoc done front (last_item k (take n ks) ∷ drop n ks)) in
        rw whole (after_key _ (done ++ front) (drop n ks) (subst IsSorted whole sorted))

    asked :
        (requests : ℕ) (rest : List Text) (last : Option Text)
        → retain (is_after last) keys_all ≡ rest
        → follow (suc requests) ask last
          ≡ take (suc n) rest
            ++ (if is_empty (drop (suc n) rest)
                then []
                else follow requests ask (cursor (take (suc n) rest) last))
    unfolding follow take_page
    asked requests rest last here =
        let got : ask last ≡ some (take_page rest (suc n)) =
          answers last ∙ ap (λ r. some (take_page r (suc n))) here in
        rw (got, follow)
          (elim (is_empty (drop (suc n) rest))
            as (λ b.
              take (suc n) rest ++ (elim (not b) as (λ _. List Text) [
                | true ↦ follow requests ask (cursor (take (suc n) rest) last)
                | false ↦ []
              ])
              ≡ take (suc n) rest
                ++ (if b then [] else follow requests ask (cursor (take (suc n) rest) last))) [
                  | true ↦ refl
                  | false ↦ refl
                ])

    follow_rest :
        (requests : ℕ) (done rest : List Text) (last : Option Text)
        → keys_all ≡ done ++ rest
        → retain (is_after last) keys_all ≡ rest
        → length rest < requests
        → follow requests ask last ≡ rest
    follow_rest zero done rest last e here h = absurd (omega arith)
    follow_rest (suc requests) done [] last e here h = asked requests [] last here
    follow_rest (suc requests) done (k ∷ ks) last e here h =
        elim (Bool-cases (is_empty (drop n ks))) [
          | inl over ↦
              asked requests (k ∷ ks) last here
              ∙ rw over (append-nil (k ∷ take n ks) ∙ ap (λ s. k ∷ s) (take_all_empty n ks over))
          | inr going ↦
              asked requests (k ∷ ks) last here
              ∙ rw going (
                  ap (λ s. (k ∷ take n ks) ++ s)
                    (follow_rest requests (done ++ (k ∷ take n ks)) (drop n ks)
                      (some (last_item k (take n ks)))
                      (e
                        ∙ ap (λ s. done ++ k ∷ s) (sym (take-append-drop n ks))
                        ∙ sym (append_assoc done (k ∷ take n ks) (drop n ks)))
                      (next_rest done ks k e) (omega (arith, length-drop n ks)))
                  ∙ ap (λ s. k ∷ s) (take-append-drop n ks))
        ]

-- The tags of a repository in order.
abbrev pub tags_of : Text → State → List Text
tags_of repo state = sort_keys (keys (repo_of repo state).tags)

nothing_asked :
    (requests : ℕ) (ask : Option Text → Option (Page Text))
    → ask none ≡ none
    → follow (suc requests) ask none ≡ []
unfolding follow
nothing_asked requests ask h = rw (h, follow)

is_empty-eq-nil {ℓ} : {A : Type ℓ} (xs : List A) → is_empty xs ≡ true → xs ≡ []
is_empty-eq-nil [] h = refl
is_empty-eq-nil (x ∷ xs) h = cc

tags_of-empty :
    (repo : Text) (state : State) → (repo_of repo state).tags ≡ [] → tags_of repo state ≡ []
unfolding sort_keys
tags_of-empty repo state h = ap (λ m. sort_keys (keys m)) h

tags_page-bare :
    (repo : Text) (state : State) (limit : ℕ) (rs : RepoState)
    → get repo state ≡ some rs
    → is_empty rs.tags ≡ true
    → tags_page repo none limit state ≡ none
unfolding tags_page
tags_page-bare repo state limit rs here bare = rw (here, bare)

tags_page-full :
    (repo : Text) (state : State) (n : ℕ) (rs : RepoState)
    → get repo state ≡ some rs
    → is_empty rs.tags ≡ false
    → (last : Option Text)
    → tags_page repo last (suc n) state
      ≡ some (take_page (retain (is_after last) (tags_of repo state)) (suc n))
unfolding tags_page
tags_page-full repo state n rs here full last = rw (here, full)

-- A client that asks `tags_page` for pages of a positive limit, each behind the last item of the page
-- before it, and as often as there are tags and once more at most, collects every tag of the repository
-- in order, each once, for a repository that is there and for one that is not.
pub follow-tags_page :
    (repo : Text) (state : State) (limit requests : ℕ)
    → 0 < limit
    → length (tags_of repo state) < requests
    → follow requests (λ last. tags_page repo last limit state) none ≡ tags_of repo state
unfolding tags_page
follow-tags_page repo state zero requests positive enough = absurd (omega arith)
follow-tags_page repo state (suc n) zero positive enough = absurd (omega arith)
follow-tags_page repo state (suc n) (suc requests) positive enough =
    elim (Option-cases (get repo state)) [
      | inl gone ↦
          nothing_asked requests _ (rw (gone, tags_page) refl)
          ∙ sym (tags_of-empty repo state (rw gone refl))
      | inr (rs, here) ↦ elim (Bool-cases (is_empty rs.tags)) [
        | inl bare ↦
            nothing_asked requests _ (tags_page-bare repo state (suc n) rs here bare)
            ∙ sym (tags_of-empty repo state (rw here (is_empty-eq-nil _ bare)))
        | inr full ↦
            follow_rest (tags_of repo state) (sort_keys-IsSorted _) n
              (λ last. tags_page repo last (suc n) state) (tags_page-full repo state n rs here full)
              (suc requests) [] (tags_of repo state) none refl
              (retain_everything (tags_of repo state)) enough
      ]
    ]
