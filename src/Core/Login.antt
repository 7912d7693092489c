-- ===== src/Core/Login.antt =====
-- crates/roci-core/src/auth/cache.rs, `CredentialCache`; auth/htpasswd.rs, `Htpasswd::verify`;
-- auth/ldap.rs, `authenticate`; auth/mod.rs, `authenticate` and what it calls; auth/middleware.rs. SHA-256,
-- bcrypt, base64 and UTF-8 belong to other packages, the directory is another server: they are the fields
-- of `Backends`. A `Moment` has the times at which a request reads its clock.
pub mod Genuine
pub mod Bounded
pub mod Tests
use roci.Base.{Bool, List, Option, [], false, none, not, some, true, ℕ, ◌++◌, ◌+◌, ◌||◌, ◌∷◌, ◌≡◌}
use roci.Base.Eq.{Text, codes, text_eq}
use roci.Base.Lists.{is_empty, length}
use roci.Base.Map.{Map, get, insert, remove}
use roci.Base.Result.{Result, err, ok}
use roci.Base.Tests.{and_then, if◌then◌else◌, is_some, leb, nat_beq, unwrap_or}
use roci.Base.Text.{split_once}
use roci.Core.Auth.{AuthMethod, Principal, by_htpasswd, by_ldap, user}
use roci.Storage.Digest.{sha256}

pub record Moment : Type 0 where
  pub asked : ℕ
  pub answered : ℕ

-- No two of the texts that are hashed are taken to have one hash.
pub record Backends : Type 0 where
  pub sha256 : Text → Text
  pub bcrypt_verify : (password hash : Text) → Bool
  pub search_and_bind : Moment → (user password : Text) → Option (List Text)
  pub base64 : Text → Option Text
  pub from_utf8 : Text → Option Text
  pub to_str : Text → Option Text
  pub sha256-injective : (s t : Text) → sha256 s ≡ sha256 t → s ≡ t

abbrev pub cache_capacity : ℕ
cache_capacity = 4096

pub record CachedUser : Type 0 where
  pub name : Text
  pub ldap_groups : List Text
  pub method : AuthMethod
  pub expires : ℕ

pub record CredentialCache : Type 0 where
  pub ttl : ℕ
  pub cached : Map Text CachedUser

unfoldable pub credential_key : Backends → Text → Text → Text
credential_key b name password = b.sha256 (name ++ 0 ∷ password)

unfoldable pub new_credential_cache : ℕ → CredentialCache
new_credential_cache ttl = record { cached = []; ttl = ttl }

abbrev pub cached_principal : CachedUser → Principal
cached_principal hit = user hit.name hit.ldap_groups hit.method

-- `hit`, with the clock.
unfoldable pub unexpired :
    Text → ℕ → Option CachedUser → CredentialCache → Option Principal × CredentialCache
unexpired k now none self = (none, self)
unexpired k now (some hit) self =
    if leb hit.expires now
    then (none, record self { cached = remove k self.cached })
    else (some (cached_principal hit), self)

unfoldable pub credential_get :
    Backends → ℕ → Text → Text → CredentialCache → Option Principal × CredentialCache
credential_get b now name password self =
    let k = credential_key b name password in
    if nat_beq self.ttl 0 then (none, self) else unexpired k now (get k self.cached) self

unfoldable pub credential_insert :
    Backends
    → ℕ
    → (name password : Text) → List Text
    → AuthMethod
    → CredentialCache
    → Principal × CredentialCache
credential_insert b now name password ldap_groups method self =
    let room = if leb cache_capacity (length self.cached) then [] else self.cached in
    let entry : CachedUser = record {
      expires = now + self.ttl;
      ldap_groups = ldap_groups;
      method = method;
      name = name;
    } in
    (
      user name ldap_groups method,
      (if nat_beq self.ttl 0
          then self
          else record self { cached = insert (credential_key b name password) entry room }),
    )

pub data HtpasswdResult : Type 0 where
  password_ok bad_password unknown_user : HtpasswdResult

pub record Htpasswd : Type 0 where
  pub users : Map Text Text
  pub dummy : Text

abbrev pub htpasswd_result : (known accepted : Bool) → HtpasswdResult
htpasswd_result false accepted = unknown_user
htpasswd_result true true = password_ok
htpasswd_result true false = bad_password

-- An unknown user's password is checked too, against the dummy.
unfoldable pub htpasswd_verify : Backends → Htpasswd → Text → Text → HtpasswdResult
htpasswd_verify b self name password =
    let known = get name self.users in
    htpasswd_result (is_some known) (b.bcrypt_verify password (unwrap_or known self.dummy))

-- `LdapAuthenticator::authenticate`; a directory's error and a timeout are none.
unfoldable pub ldap_authenticate : Backends → Moment → Text → Text → Option (List Text)
ldap_authenticate b m name password =
    if is_empty password then none else b.search_and_bind m name password

-- The fields `htpasswd` and `ldap` of `Auth`, of which the latter is only there or not.
pub record Logins : Type 0 where
  pub htpasswd : Option Htpasswd
  pub ldap : Bool

unfoldable pub basic_label : Logins → Text
basic_label self = if is_some self.htpasswd || not self.ldap then codes "htpasswd" else codes "ldap"

unfoldable pub ask_directory :
    Backends → Logins → Moment → Text → Text → Result Text (List Text × AuthMethod)
ask_directory b self m name password =
    if self.ldap
    then (elim (ldap_authenticate b m name password) [
      | none ↦ err (codes "ldap")
      | some groups ↦ ok (groups, by_ldap)
    ])
    else err (basic_label self)

abbrev pub on_htpasswd :
    HtpasswdResult → Result Text (List Text × AuthMethod) → Result Text (List Text × AuthMethod)
on_htpasswd password_ok directory = ok ([], by_htpasswd)
on_htpasswd bad_password directory = err (codes "htpasswd")
on_htpasswd unknown_user directory = directory

-- What the two files say of a user and a password, without the cache.
unfoldable pub check_password :
    Backends → Logins → Moment → Text → Text → Result Text (List Text × AuthMethod)
check_password b self m name password = elim self.htpasswd [
  | none ↦ ask_directory b self m name password
  | some h ↦ on_htpasswd (htpasswd_verify b h name password) (ask_directory b self m name password)
]

unfoldable pub remember :
    Backends
    → Moment
    → Text
    → Text
    → Result Text (List Text × AuthMethod)
    → CredentialCache
    → Result Text Principal × CredentialCache
remember b m name password (err label) cache = (err label, cache)
remember b m name password (ok (groups, method)) cache =
    let (p, kept) = credential_insert b m.answered name password groups method cache in (ok p, kept)

abbrev pub or_check :
    Option Principal
    → Result Text Principal × CredentialCache
    → CredentialCache
    → Result Text Principal × CredentialCache
or_check none checked cache = checked
or_check (some p) checked cache = (ok p, cache)

-- `authenticate_basic` behind the decoding.
unfoldable pub log_in :
    Backends
    → Logins
    → Moment
    → Text
    → Text
    → CredentialCache
    → Result Text Principal × CredentialCache
log_in b self m name password cache =
    let (hit, looked) = credential_get b m.asked name password cache in
    or_check hit (remember b m name password (check_password b self m name password) looked) looked

-- The user and the password of the credentials; none where they are refused unread.
unfoldable pub decode_basic : Backends → Text → Option (Text × Text)
decode_basic b cred = and_then (b.base64 cred) (λ decoded. and_then (b.from_utf8 decoded) (λ pair.
    and_then (split_once b':' pair) (λ parts. if is_empty parts.0 then none else some parts)))

unfoldable pub authenticate_basic :
    Backends → Logins → Moment → Text → CredentialCache → Result Text Principal × CredentialCache
authenticate_basic b self m cred cache = elim (decode_basic b cred) [
  | none ↦ (err (basic_label self), cache)
  | some (name, password) ↦ log_in b self m name password cache
]
