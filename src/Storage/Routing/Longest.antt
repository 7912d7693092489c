-- ===== src/Storage/Routing/Longest.antt =====
-- crates/roci-storage/src/routing.rs: the backend of a name is that of a longest prefix that matches it.
use mathlib.Core.Path.{subst}
use roci.Base.{
  Bool, List, [], ap, arith, inl, inr, none, not, refl, some, sym, true, ℕ, ◌&&◌, ◌||◌, ◌∙◌, ◌∷◌,
  ◌≡◌, ◌≤◌, ◌⊎◌,
}
use roci.Base.Eq.{Text, text_eq}
use roci.Base.Lists.{all, length}
use roci.Base.Tests.{
  Bool-cases, Option-cases, and-eq-true, and_intro, leb, leb→le, or-left, or-right, unwrap_or,
}
use roci.Storage.Routing.{
  backend_for, backend_or, first_match, insert_route, matches_prefix, new_routed, sort_routes,
}

leb_trans : (a m n : ℕ) → leb a m ≡ true → m ≤ n → leb a n ≡ true
leb_trans a m n h k = ground arith

leb_self : (n : ℕ) → leb n n ≡ true
leb_self n = ground arith

module _ {B : Type 0} where
  abbrev pub Among : Text × B → List (Text × B) → Type 0
  Among r [] = ⊥
  Among r (s ∷ routes) = (r ≡ s) ⊎ Among r routes

  -- No route that matches the name has a longer prefix.
  abbrev pub is_longest : Text → Text → List (Text × B) → Bool
  is_longest repo prefix routes =
      all (λ r. not (matches_prefix repo r.0) || leb (length r.0) (length prefix)) routes

  abbrev bounded : ℕ → List (Text × B) → Bool
  bounded n routes = all (λ r. leb (length r.0) n) routes

  abbrev IsDescending : List (Text × B) → Type 0
  IsDescending [] = Unit {0}
  IsDescending (r ∷ routes) = (bounded (length r.0) routes ≡ true) × IsDescending routes

  bounded-insert_route :
      (n : ℕ) (r : Text × B) (routes : List (Text × B))
      → leb (length r.0) n ≡ true
      → bounded n routes ≡ true
      → bounded n (insert_route r routes) ≡ true
  unfolding insert_route
  bounded-insert_route n r [] h k = and_intro h refl
  bounded-insert_route n r (s ∷ routes) h k = elim (Bool-cases (leb (length s.0) (length r.0))) [
    | inl e ↦ rw e (and_intro h k)
    | inr e ↦
        rw e (
          and_intro (and-eq-true _ _ k).0 (bounded-insert_route n r routes h (and-eq-true _ _ k).1))
  ]

  bounded_mono :
      (m n : ℕ) (routes : List (Text × B))
      → m ≤ n
      → bounded m routes ≡ true
      → bounded n routes ≡ true
  bounded_mono m n [] h k = refl
  bounded_mono m n (r ∷ routes) h k =
      let (first, rest) = and-eq-true _ _ k in
      and_intro (leb_trans (length r.0) m n first h) (bounded_mono m n routes h rest)

  insert_route-IsDescending :
      (r : Text × B) (routes : List (Text × B))
      → IsDescending routes
      → IsDescending (insert_route r routes)
  unfolding insert_route
  insert_route-IsDescending r [] h = (refl, tt)
  insert_route-IsDescending r (s ∷ routes) h = elim (Bool-cases (leb (length s.0) (length r.0))) [
    | inl e ↦
        rw e (and_intro e (bounded_mono (length s.0) (length r.0) routes (leb→le _ _ e) h.0), h)
    | inr e ↦ rw e (
      bounded-insert_route (length s.0) r routes (ground arith) h.0,
      insert_route-IsDescending r routes h.1,
    )
  ]

  sort_routes-IsDescending : (routes : List (Text × B)) → IsDescending (sort_routes routes)
  unfolding sort_routes
  sort_routes-IsDescending [] = tt
  sort_routes-IsDescending (r ∷ routes) =
      insert_route-IsDescending r (sort_routes routes) (sort_routes-IsDescending routes)

  -- A test of all routes does not depend on their order.
  all-insert_route :
      (p : Text × B → Bool) (r : Text × B) (routes : List (Text × B))
      → all p (insert_route r routes) ≡ (p r && all p routes)
  unfolding insert_route
  all-insert_route p r [] = refl
  all-insert_route p r (s ∷ routes) = ground (arith, all-insert_route p r routes)

  all-sort_routes :
      (p : Text × B → Bool) (routes : List (Text × B)) → all p (sort_routes routes) ≡ all p routes
  unfolding sort_routes
  all-sort_routes p [] = refl
  all-sort_routes p (r ∷ routes) =
      all-insert_route p r (sort_routes routes) ∙ ap (λ b. p r && b) (all-sort_routes p routes)

  beside :
      (t r s : Text × B) (routes : List (Text × B)) {later : Type 0}
      → (later → (t ≡ r) ⊎ Among t routes)
      → (t ≡ s) ⊎ later
      → (t ≡ r) ⊎ ((t ≡ s) ⊎ Among t routes)
  beside t r s routes ih (inl at_s) = inr (inl at_s)
  beside t r s routes ih (inr there) = elim (ih there) [
    | inl at_r ↦ inl at_r
    | inr further ↦ inr (inr further)
  ]

  Among-insert_route :
      (t r : Text × B) (routes : List (Text × B))
      → Among t (insert_route r routes)
      → (t ≡ r) ⊎ Among t routes
  unfolding insert_route
  Among-insert_route t r [] h = h
  Among-insert_route t r (s ∷ routes) h = elim (Bool-cases (leb (length s.0) (length r.0))) [
    | inl e ↦ (rw e at h)
    | inr e ↦ beside t r s routes (Among-insert_route t r routes) (rw e at h)
  ]

  Among-sort_routes :
      (t : Text × B) (routes : List (Text × B)) → Among t (sort_routes routes) → Among t routes
  unfolding sort_routes
  Among-sort_routes t [] h = h
  Among-sort_routes t (r ∷ routes) h = elim (Among-insert_route t r (sort_routes routes) h) [
    | inl e ↦ inl e
    | inr later ↦ inr (Among-sort_routes t routes later)
  ]

  bounded-is_longest :
      (repo prefix : Text) (routes : List (Text × B))
      → bounded (length prefix) routes ≡ true
      → is_longest repo prefix routes ≡ true
  bounded-is_longest repo prefix [] h = refl
  bounded-is_longest repo prefix (r ∷ routes) h =
      let (first, rest) = and-eq-true _ _ h in
      and_intro (or-right (not (matches_prefix repo r.0)) first)
        (bounded-is_longest repo prefix routes rest)

  some_route : {r s : Text × B} → some r ≡ some s → r ≡ s
  some_route {r} h = ap (λ o. unwrap_or o r) h

  none_is_some : {r : Text × B} → some r ≡ none → ⊥
  none_is_some h = cc

  -- The first match of a sorted table.
  first_match-some :
      (repo : Text) (routes : List (Text × B)) (r : Text × B)
      → IsDescending routes
      → first_match repo routes ≡ some r
      → Among r routes × (matches_prefix repo r.0 ≡ true) × (is_longest repo r.0 routes ≡ true)
  unfolding first_match
  first_match-some repo [] r h found = absurd (cc)
  first_match-some repo (s ∷ routes) r h found = elim (Bool-cases (matches_prefix repo s.0)) [
    | inl e ↦
        let same : s ≡ r = some_route (rw e at found) in
        (
          inl (sym same),
          subst (λ t. matches_prefix repo t.0 ≡ true) same e,
          subst (λ t. is_longest repo t.0 (s ∷ routes) ≡ true) same
              (and_intro (or-right (not (matches_prefix repo s.0)) (leb_self (length s.0)))
                (bounded-is_longest repo s.0 routes h.0)),
        )
    | inr e ↦
        let (among, fits, longest) = first_match-some repo routes r h.1 (rw e at found) in
        (inr among, fits, and_intro (or-left (leb (length s.0) (length r.0)) (ap not e)) longest)
  ]

  first_match-none :
      (repo : Text) (routes : List (Text × B))
      → first_match repo routes ≡ none
      → all (λ r. not (matches_prefix repo r.0)) routes ≡ true
  unfolding first_match
  first_match-none repo [] found = refl
  first_match-none repo (s ∷ routes) found = elim (Bool-cases (matches_prefix repo s.0)) [
    | inl e ↦ absurd (none_is_some (rw e at found))
    | inr e ↦ and_intro (rw e refl) (first_match-none repo routes (rw e at found))
  ]

  -- The backend of a name under a new table is that of a configured route whose prefix matches it and
  -- than which no matching route has a longer prefix, or the default, and then no route matches it.
  pub backend_for-new_routed :
      (default : B) (routes : List (Text × B)) (repo : Text)
      → ((r : Text × B) × Among r routes
          × (matches_prefix repo r.0 ≡ true)
          × (is_longest repo r.0 routes ≡ true)
          × (backend_for (new_routed default routes) repo ≡ r.1))
        ⊎ ((all (λ r. not (matches_prefix repo r.0)) routes ≡ true)
            × (backend_for (new_routed default routes) repo ≡ default))
  unfolding backend_for new_routed
  backend_for-new_routed default routes repo =
      elim (Option-cases (first_match repo (sort_routes routes))) [
        | inl nowhere ↦ inr (
          sym (all-sort_routes (λ r. not (matches_prefix repo r.0)) routes)
              ∙ first_match-none repo (sort_routes routes) nowhere,
          ap (backend_or default) nowhere,
        )
        | inr (r, found) ↦
            let (among, fits, longest) =
              first_match-some repo (sort_routes routes) r (sort_routes-IsDescending routes)
                found in
            inl (
              r,
              Among-sort_routes r routes among,
              fits,
              sym (
                    all-sort_routes
                      (λ s. not (matches_prefix repo s.0) || leb (length s.0) (length r.0)) routes)
                  ∙ longest,
              ap (backend_or default) found,
            )
      ]
