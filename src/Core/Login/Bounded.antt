-- ===== src/Core/Login/Bounded.antt =====
-- crates/roci-core/src/auth/cache.rs: what every attempt keeps of the cache, its lifetime and its bound.
use roci.Base.{List, [], arith, inl, inr, refl, ℕ, ◌∙◌, ◌∷◌, ◌≡◌, ◌≤◌}
use roci.Base.Eq.{Text, text_eq}
use roci.Base.Lists.{length}
use roci.Base.Map.{Map, get, insert, length-insert, remove}
use roci.Base.Result.{Result-cases}
use roci.Base.Tests.{Bool-cases, Option-cases, if◌then◌else◌, leb, nat_beq}
use roci.Core.Auth.{AuthMethod}
use roci.Core.Login.{
  Backends, CachedUser, CredentialCache, Logins, Moment, cache_capacity, check_password,
  credential_get, credential_insert, credential_key, log_in, new_credential_cache, remember,
  unexpired,
}
use roci.Storage.Wal.{fresh}

pub record Attempt : Type 0 where
  pub moment : Moment
  pub name : Text
  pub password : Text

length-remove : (k : Text) (m : Map Text CachedUser) → length (remove k m) ≤ length m
unfolding remove
length-remove k [] = omega arith
length-remove k ((j, w) ∷ m) = ground (arith, length-remove k m)

inserted_within :
    (k : Text) (entry : CachedUser) (m : Map Text CachedUser)
    → length m ≤ cache_capacity
    → length (insert k entry (if leb cache_capacity (length m) then [] else m)) ≤ cache_capacity
inserted_within k entry m h = elim (Bool-cases (leb cache_capacity (length m))) [
  | inl over ↦ rw (over, length-insert k entry ([])) (ground arith)
  | inr room ↦ rw (room, length-insert k entry m) (ground arith)
]

module _ (b : Backends) (self : Logins) where
  -- Attempts entry after another, from a cache; the answers are forgotten.
  unfoldable pub cache_after : List Attempt → CredentialCache → CredentialCache
  cache_after [] cache = cache
  cache_after (a ∷ attempts) cache =
      cache_after attempts (log_in b self a.moment a.name a.password cache).1

  abbrev Keeps : CredentialCache → CredentialCache → Type 0
  Keeps cache after =
      (after.ttl ≡ cache.ttl)
      × ((length cache.cached ≤ cache_capacity → length after.cached ≤ cache_capacity))

  Keeps-refl : (cache : CredentialCache) → Keeps cache cache
  Keeps-refl cache = (refl, λ h. h)

  get-Keeps :
      (now : ℕ) (name password : Text) (cache : CredentialCache)
      → Keeps cache (credential_get b now name password cache).1
  unfolding credential_get unexpired
  get-Keeps now name password cache = elim (Bool-cases (nat_beq cache.ttl 0)) [
    | inl off ↦ rw off (Keeps-refl cache)
    | inr live ↦ elim (Option-cases (get (credential_key b name password) cache.cached)) [
      | inl miss ↦ rw (live, miss, unexpired) (Keeps-refl cache)
      | inr (hit, found) ↦ elim (Bool-cases (leb hit.expires now)) [
        | inl old ↦
            rw (live, found, unexpired, old)
              (
                refl,
                λ h. omega (arith, h, length-remove (credential_key b name password) cache.cached),
              )
        | inr fresh ↦ rw (live, found, unexpired, fresh) (Keeps-refl cache)
      ]
    ]
  ]

  insert-Keeps :
      (now : ℕ) (name password : Text) (groups : List Text) (method : AuthMethod)
      (cache : CredentialCache)
      → Keeps cache (credential_insert b now name password groups method cache).1
  unfolding credential_insert
  insert-Keeps now name password groups method cache = elim (Bool-cases (nat_beq cache.ttl 0)) [
    | inl off ↦ rw off (Keeps-refl cache)
    | inr live ↦
        rw live (refl, λ h. inserted_within (credential_key b name password) _ cache.cached h)
  ]

  log_in-Keeps :
      (m : Moment) (name password : Text) (cache : CredentialCache)
      → Keeps cache (log_in b self m name password cache).1
  unfolding log_in remember
  log_in-Keeps m name password cache =
      let got = credential_get b m.asked name password cache in
      let looked = get-Keeps m.asked name password cache in
      elim (Option-cases got.0) [
        | inr (p, hit) ↦ rw hit looked
        | inl miss ↦ elim (Result-cases (check_password b self m name password)) [
          | inr (label, refused) ↦ rw (miss, refused, remember) looked
          | inl ((groups, method), checked) ↦
              let kept = insert-Keeps m.answered name password groups method got.1 in
              rw (miss, checked, remember) (kept.0 ∙ looked.0, λ h. kept.1 (looked.1 h))
        ]
      ]

  cache_after-Keeps :
      (attempts : List Attempt) (cache : CredentialCache) → Keeps cache (cache_after attempts cache)
  unfolding cache_after
  cache_after-Keeps [] cache = Keeps-refl cache
  cache_after-Keeps (a ∷ attempts) cache =
      let first = log_in-Keeps a.moment a.name a.password cache in
      let later = cache_after-Keeps attempts (log_in b self a.moment a.name a.password cache).1 in
      (later.0 ∙ first.0, λ h. later.1 (first.1 h))

  pub ttl_after :
      (attempts : List Attempt) (ttl : ℕ)
      → (cache_after attempts (new_credential_cache ttl)).ttl ≡ ttl
  unfolding new_credential_cache
  ttl_after attempts ttl = (cache_after-Keeps attempts (new_credential_cache ttl)).0

  -- However many attempts are made on a new cache, it holds at most `CAPACITY` entries.
  pub length-cache_after :
      (ttl : ℕ) (attempts : List Attempt)
      → length (cache_after attempts (new_credential_cache ttl)).cached ≤ cache_capacity
  unfolding new_credential_cache
  length-cache_after ttl attempts =
      (cache_after-Keeps attempts (new_credential_cache ttl)).1 (omega arith)
