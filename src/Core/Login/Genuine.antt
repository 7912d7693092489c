-- ===== src/Core/Login/Genuine.antt =====
-- crates/roci-core/src/auth/mod.rs, `authenticate_basic`; auth/cache.rs: whom the cache lets in was
-- accepted with the same password, not longer ago than an entry lives.
use mathlib.Core.Path.{subst}
use roci.Base.{
  Bool, List, Option, [], ap, arith, false, inl, inr, none, refl, some, sym, true, ℕ, ◌+◌, ◌<◌, ◌∙◌,
  ◌∷◌, ◌≡◌, ◌⊎◌,
}
use roci.Base.Eq.{Text, eq_iff, nat_eq, text_eq, ◌==◌}
use roci.Base.Lists.{length}
use roci.Base.Map.{Map, get, get-insert, get-remove, remove}
use roci.Base.Result.{Result, Result-cases, err, ok}
use roci.Base.Tests.{Bool-cases, Option-cases, if◌then◌else◌, leb, nat_beq, unwrap_or}
use roci.Base.Text.{HasNoNul, nul_injective}
use roci.Core.Auth.{AuthMethod, Principal, user}
use roci.Core.Login.{
  Backends, CachedUser, CredentialCache, Logins, Moment, cache_capacity, cached_principal,
  check_password, credential_get, credential_insert, credential_key, log_in, new_credential_cache,
  remember, unexpired,
}
use roci.Core.Login.Bounded.{Attempt, cache_after, ttl_after}
use roci.Storage.Wal.{fresh}

none_hit : {o : Option CachedUser} {hit : CachedUser} → o ≡ none → o ≡ some hit → ⊥
none_hit h k = cc

none_principal : {o : Option Principal} {q : Principal} → o ≡ none → o ≡ some q → ⊥
none_principal h k = cc

some_principal : {x y : Principal} → some x ≡ some y → x ≡ y
some_principal {x} h = ap (λ o. unwrap_or o x) h

ok_principal : {x y : Principal} → Path (Result Text Principal) (ok x) (ok y) → x ≡ y
ok_principal h = cc

module _ (b : Backends) (self : Logins) where
  -- An entry that a check at some moment has made.
  abbrev Backed : ℕ → Text → Text → CachedUser → Type 0
  Backed ttl name password hit =
      (m : Moment) × (check_password b self m name password ≡ ok (hit.ldap_groups, hit.method))
      × (hit.name ≡ name)
      × (hit.expires ≡ m.answered + ttl)

  abbrev IsGenuine : CredentialCache → Type 0
  IsGenuine cache =
      (name password : Text) (hit : CachedUser)
      → HasNoNul name
      → get (credential_key b name password) cache.cached ≡ some hit
      → Backed cache.ttl name password hit

  credential_key-injective :
      (n n' p p' : Text)
      → HasNoNul n
      → HasNoNul n'
      → credential_key b n p ≡ credential_key b n' p'
      → (n ≡ n') × (p ≡ p')
  unfolding credential_key
  credential_key-injective n n' p p' h h' e =
      nul_injective n n' p p' h h' (b.sha256-injective _ _ e)

  removed-IsGenuine :
      (k : Text) (cache : CredentialCache)
      → IsGenuine cache
      → IsGenuine (record cache { cached = remove k cache.cached })
  removed-IsGenuine k cache h name password hit named found =
      elim (Bool-cases (k == credential_key b name password)) [
        | inl e ↦ absurd (
            none_hit (get-remove k (credential_key b name password) cache.cached ∙ rw e refl) found)
        | inr ne ↦
            h name password hit named (
              sym (get-remove k (credential_key b name password) cache.cached ∙ rw ne refl) ∙ found)
      ]

  get-IsGenuine :
      (now : ℕ) (name password : Text) (cache : CredentialCache)
      → IsGenuine cache
      → IsGenuine (credential_get b now name password cache).1
  unfolding credential_get unexpired
  get-IsGenuine now name password cache h = elim (Bool-cases (nat_beq cache.ttl 0)) [
    | inl off ↦ rw off h
    | inr live ↦ elim (Option-cases (get (credential_key b name password) cache.cached)) [
      | inl miss ↦ rw (live, miss, unexpired) h
      | inr (hit, found) ↦ elim (Bool-cases (leb hit.expires now)) [
        | inl old ↦
            rw (live, found, unexpired, old)
              (removed-IsGenuine (credential_key b name password) cache h)
        | inr fresh ↦ rw (live, found, unexpired, fresh) h
      ]
    ]
  ]

  room_get :
      (k : Text) (full : Bool) (m : Map Text CachedUser) (hit : CachedUser)
      → get k (if full then [] else m) ≡ some hit
      → get k m ≡ some hit
  unfolding get
  room_get k true m hit h = absurd (cc)
  room_get k false m hit h = h

  some_hit : {x y : CachedUser} → some x ≡ some y → x ≡ y
  some_hit {x} h = ap (λ o. unwrap_or o x) h

  -- The entry that a successful check leaves.
  insert-IsGenuine :
      (m : Moment) (name password : Text) (groups : List Text) (method : AuthMethod)
      (cache : CredentialCache)
      → HasNoNul name
      → check_password b self m name password ≡ ok (groups, method)
      → IsGenuine cache
      → IsGenuine (credential_insert b m.answered name password groups method cache).1
  unfolding credential_insert
  insert-IsGenuine m name password groups method cache clean checked h =
      elim (Bool-cases (nat_beq cache.ttl 0)) [
        | inl off ↦ rw off h
        | inr live ↦ rw live (λ n p hit named found.
            let k = credential_key b name password in
            let room = if leb cache_capacity (length cache.cached) then [] else cache.cached in
            let entry : CachedUser = record {
              expires = m.answered + cache.ttl;
              ldap_groups = groups;
              method = method;
              name = name;
            } in
            let there : (if k == credential_key b n p
                  then some entry
                  else get (credential_key b n p) room)
                ≡ some hit =
              sym (get-insert k (credential_key b n p) entry room) ∙ found in
            elim (Bool-cases (k == credential_key b n p)) [
              | inl e ↦
                  let same : entry ≡ hit = some_hit (rw e at there) in
                  let (names, passwords) =
                    credential_key-injective name n password p clean named
                      ((eq_iff k (credential_key b n p)).0 e) in
                  subst (Backed cache.ttl n p) same (
                    m,
                    sym (λ i. check_password b self m (names i) (passwords i)) ∙ checked,
                    names,
                    refl,
                  )
              | inr ne ↦
                  h n p hit named
                    (room_get (credential_key b n p) _ cache.cached hit (rw ne at there))
            ])
      ]

  remember-IsGenuine :
      (m : Moment) (name password : Text) (cache : CredentialCache)
      → HasNoNul name
      → IsGenuine cache
      → IsGenuine (remember b m name password (check_password b self m name password) cache).1
  unfolding remember
  remember-IsGenuine m name password cache clean h =
      elim (Result-cases (check_password b self m name password)) [
        | inl ((groups, method), checked) ↦
            rw (checked, remember)
              (insert-IsGenuine m name password groups method cache clean checked h)
        | inr (label, refused) ↦ rw (refused, remember) h
      ]

  log_in-IsGenuine :
      (a : Attempt) (cache : CredentialCache)
      → HasNoNul a.name
      → IsGenuine cache
      → IsGenuine (log_in b self a.moment a.name a.password cache).1
  unfolding log_in
  log_in-IsGenuine a cache clean h =
      let got = credential_get b a.moment.asked a.name a.password cache in
      let looked = get-IsGenuine a.moment.asked a.name a.password cache h in
      elim (Option-cases got.0) [
        | inl miss ↦ rw miss (remember-IsGenuine a.moment a.name a.password got.1 clean looked)
        | inr (p, hit) ↦ rw hit looked
      ]

  abbrev pub AreClean : List Attempt → Type 0
  AreClean [] = Unit {0}
  AreClean (a ∷ attempts) = HasNoNul a.name × AreClean attempts

  cache_after-IsGenuine :
      (attempts : List Attempt) (cache : CredentialCache)
      → AreClean attempts
      → IsGenuine cache
      → IsGenuine (cache_after b self attempts cache)
  unfolding cache_after
  cache_after-IsGenuine [] cache clean h = h
  cache_after-IsGenuine (a ∷ attempts) cache clean h =
      cache_after-IsGenuine attempts _ clean.1 (log_in-IsGenuine a cache clean.0 h)

  -- A principal that is answered was checked now, or at a moment from which its entry has not expired.
  abbrev pub Accepted : ℕ → Attempt → Principal → Type 0
  Accepted ttl a p =
      (m : Moment) × (groups : List Text) × (method : AuthMethod) × (check_password b self m a.name
          a.password
        ≡ ok (groups, method))
      × (p ≡ user a.name groups method)
      × ((m ≡ a.moment) ⊎ (a.moment.asked < m.answered + ttl))

  pub remember-eq-ok :
      (m : Moment) (name password : Text) (r : Result Text (List Text × AuthMethod))
      (cache : CredentialCache) (p : Principal)
      → (remember b m name password r cache).0 ≡ ok p
      → (groups : List Text) × (method : AuthMethod) × (r ≡ ok (groups, method))
        × (p ≡ user name groups method)
  unfolding remember credential_insert
  remember-eq-ok m name password (err label) cache p h = absurd (cc)
  remember-eq-ok m name password (ok (groups, method)) cache p h = (groups, method, refl, cc)

  -- A hit is an entry that has not expired.
  pub credential_get-hit :
      (now : ℕ) (name password : Text) (cache : CredentialCache) (q : Principal)
      → (credential_get b now name password cache).0 ≡ some q
      → (entry : CachedUser) × (get (credential_key b name password) cache.cached ≡ some entry)
        × (now < entry.expires)
        × (cached_principal entry ≡ q)
  unfolding credential_get unexpired
  credential_get-hit now name password cache q h = elim (Bool-cases (nat_beq cache.ttl 0)) [
    | inl off ↦ absurd (none_principal (rw off refl) h)
    | inr live ↦ elim (Option-cases (get (credential_key b name password) cache.cached)) [
      | inl miss ↦ absurd (none_principal (rw (live, miss, unexpired) refl) h)
      | inr (entry, found) ↦ elim (Bool-cases (leb entry.expires now)) [
        | inl old ↦ absurd (none_principal (rw (live, found, unexpired, old) refl) h)
        | inr fresh ↦
            let same : (credential_get b now name password cache).0
                ≡ some (cached_principal entry) =
              rw (live, found, unexpired, fresh) refl in
            (entry, found, ground arith, some_principal (sym same ∙ h))
      ]
    ]
  ]

  log_in-Accepted :
      (a : Attempt) (cache : CredentialCache) (p : Principal)
      → HasNoNul a.name
      → IsGenuine cache
      → (log_in b self a.moment a.name a.password cache).0 ≡ ok p
      → Accepted cache.ttl a p
  unfolding log_in
  log_in-Accepted a cache p clean h answered =
      let got = credential_get b a.moment.asked a.name a.password cache in
      elim (Option-cases got.0) [
        | inl miss ↦
            let (groups, method, checked, same) =
              remember-eq-ok a.moment a.name a.password
                (check_password b self a.moment a.name a.password) got.1 p (rw miss at answered) in
            (a.moment, groups, method, checked, same, inl refl)
        | inr (q, hit) ↦
            let (entry, found, live, same) =
              credential_get-hit a.moment.asked a.name a.password cache q hit in
            let (m, checked, named, lives) = h a.name a.password entry clean found in
            let answer : q ≡ p = ok_principal (rw hit at answered) in
            (
              m,
              entry.ldap_groups,
              entry.method,
              checked,
              sym answer ∙ sym same ∙ (λ i. user (named i) entry.ldap_groups entry.method),
              inr (omega (arith, lives, live)),
            )
      ]

  empty-IsGenuine : (ttl : ℕ) → IsGenuine (new_credential_cache ttl)
  unfolding new_credential_cache get
  empty-IsGenuine ttl name password hit named found = absurd (cc)

  -- After any attempts on a new cache, by names that hold no NUL byte: if an attempt is answered with a
  -- principal, then it is the user of this name, with the groups and the method with which the password
  -- file or the directory accepted this name and this password, at the moment of the attempt or at a
  -- moment from whose answer to this attempt's asking less than the lifetime of an entry has passed.
  pub log_in-cache_after :
      (ttl : ℕ) (attempts : List Attempt) (a : Attempt) (p : Principal)
      → AreClean attempts
      → HasNoNul a.name
      → (log_in b self a.moment a.name a.password
          (cache_after b self attempts (new_credential_cache ttl))).0
        ≡ ok p
      → Accepted ttl a p
  log_in-cache_after ttl attempts a p clean named answered =
      subst (λ t. Accepted t a p) (ttl_after b self attempts ttl)
        (log_in-Accepted a (cache_after b self attempts (new_credential_cache ttl)) p named
          (cache_after-IsGenuine attempts (new_credential_cache ttl) clean (empty-IsGenuine ttl))
          answered)
