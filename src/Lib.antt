-- ===== src/Lib.antt =====
-- roci, an OCI container registry in Rust: a model of its storage accounting, its caches and
-- routing, its request parsing, authentication and access control, and its metadata index with
-- the log behind it, with the theorems that make them correct.
--
-- The program: crates/roci-core takes an HTTP request, authenticates it, parses its path,
-- authorises it and calls a storage backend of crates/roci-storage, which keeps blobs and
-- manifests and a metadata index derived from them. Each change of the index is an operation that
-- is appended to a log and applied in memory; on opening, the log is replayed.
--
-- crates/roci-config checks what the operator has written, before the registry starts.
--
-- Texts are their bytes, numbers are natural numbers with the wrap-around or the saturation of a
-- 64-bit word written out, a `HashMap` is an association list, and a method takes the state and
-- returns it beside its result. Locks hold for one method, so that threads are orders of calls.
-- Metrics, spans and log lines are left out everywhere.
--
-- Files:
-- Base.antt and Base/: shared names, tests, equality, texts, maps, words, results.
-- Storage/Error.antt: crates/roci-storage/src/error.rs, `StorageError`.
-- Storage/Quota.antt, Storage/Quota/: crates/roci-storage/src/quota.rs, `QuotaTracker`.
-- Storage/Digest.antt, Storage/Digest/: crates/roci-storage/src/digest.rs, `Digest`.
-- Core/Error.antt: crates/roci-core/src/error.rs, `ErrorCode`, `ApiError`.
-- Core/Names.antt, Core/Names/: crates/roci-core/src/names.rs, `RepositoryName::parse`.
-- Config.antt, Config/: crates/roci-config/src/lib.rs, `is_repo_prefix`.
-- Core/Routes.antt, Core/Routes/: crates/roci-core/src/routes.rs, `parse_path`,
--   `required_action`.
-- Core/Actions.antt, Core/Actions/: crates/roci-core/src/auth/mod.rs, `ActionSet`; crates/roci-
--   config/src/lib.rs, `Action`.
-- Core/Glob.antt, Core/Glob/: crates/roci-core/src/auth/policy.rs, `tokenize`, `glob_match`.
-- Core/Policy.antt, Core/Policy/: crates/roci-core/src/auth/policy.rs, `AccessPolicy`.
-- Core/Bearer.antt, Core/Bearer/: crates/roci-core/src/auth/bearer.rs,
--   `BearerVerifier::verify`, `grants_allow`.
-- Core/Auth.antt, Core/Auth/: crates/roci-core/src/auth/mod.rs, `Principal`, `Auth::allows`,
--   `authorize`, `challenge`.
-- Core/Login.antt, Core/Login/: crates/roci-core/src/auth/cache.rs, `CredentialCache`;
--   crates/roci-core/src/auth/htpasswd.rs, `verify`; crates/roci-core/src/auth/ldap.rs,
--   `authenticate`; crates/roci-core/src/auth/mod.rs, `authenticate_basic`.
-- Core/Authn.antt, Core/Authn/: crates/roci-core/src/auth/mod.rs, `authenticate`; crates/roci-
--   core/src/auth/middleware.rs.
-- Core/Dispatch.antt, Core/Dispatch/: crates/roci-core/src/routes.rs, `dispatch`.
-- Core/Ranges.antt, Core/Ranges/: crates/roci-core/src/http_util.rs, `parse_byte_range`,
--   `if_none_match_hit`.
-- Storage/Paths.antt, Storage/Paths/: crates/roci-storage/src/fs_storage/paths.rs.
-- Storage/Gc.antt, Storage/Gc/: crates/roci-storage/src/gc.rs, `GcTracker`;
--   Storage/Gc/Sweep.antt, Storage/Gc/Sweep/: crates/roci-storage/src/fs_storage/gc.rs,
--   `sweep_at`.
-- Storage/Dedupe.antt, Storage/Dedupe/: crates/roci-storage/src/dedupe.rs, `DedupeIndex`.
-- Storage/Metadata.antt, Storage/Metadata/: crates/roci-storage/src/metadata/mod.rs, `MetaOp`;
--   crates/roci-storage/src/metadata/log.rs, `apply_in_ram` and the point queries.
-- Storage/Ops.antt, Storage/Ops/: crates/roci-storage/src/metadata/log.rs, `serialize_op`,
--   `deserialize_op`, `generation_marker`.
-- Storage/Wal.antt, Storage/Wal/: crates/roci-storage/src/metadata/log.rs, the framing of the
--   log, `replay_log`, `open_inner`, `append_record`; crates/roci-
--   storage/src/metadata/wal_hmac.rs, the header.
-- Storage/Pages.antt, Storage/Pages/: crates/roci-storage/src/metadata/mod.rs, `take_page`,
--   `after`; crates/roci-storage/src/metadata/log.rs, the pages of tags and referrers, `repos`.
-- Storage/Cache.antt, Storage/Cache/: crates/roci-storage/src/cache.rs, `SmallBlobCache`.
-- Storage/Presence.antt, Storage/Presence/: crates/roci-storage/src/filter.rs,
--   `BlobPresenceFilter`.
-- Storage/Routing.antt, Storage/Routing/: crates/roci-storage/src/routing.rs, `Routed`.
--
-- Every loop of the parts modelled is recursion on a list, but for four that take fuel: those
-- over the bytes of a component of a name and of a prefix (`scan` of Core/Names.antt,
-- `scan_prefix` of Config.antt), where a round takes at least one byte or refuses, so that the
-- length of the component is enough, and a model without fuel would refuse names that the grammar
-- accepts; the replay of the log (`replay_loop` and `legacy_loop` of Storage/Wal.antt), where a
-- record has eight bytes at least, so that the length of the log is enough; and the eviction of
-- the cache (`evict` of Storage/Cache.antt), where a round takes an entry, so that their number
-- is enough. The replay and the eviction answer none where the fuel runs out.
--
-- Parameters stand for what is not in the repository: base64, JSON and signatures (`Jose`), the
-- JSON of the log (`Json`), CRC32C and HMAC (`Checksum`, `HmacKey`), the LRU map and the cuckoo
-- filter (`Lru`, `Cuckoo`), SHA-256, bcrypt and the directory (`Backends`), the legality of a
-- header value, the `artifactType` in a descriptor. The handlers of a request, and for a sweep
-- the metadata store and the file system (`World`), are parameters too: they are other parts of
-- the program, which a sweep and a dispatch only call.
--
-- A sweep is one step: the fence that keeps it apart from writers is not modelled, nor are stale
-- uploads, the rebuilding of backrefs, and what of the caches and the dedupe index `blob_left`
-- updates.
--
-- Of the metadata index export, compaction, the group commit and the LMDB engine are not
-- modelled; a write to the log is whole or, at a crash, a front part of it. Of the authentication
-- the reading of the htpasswd file, the calls of the directory and the parsing of client
-- certificates are not. The storage backends themselves, the handlers, the upload bodies, rate
-- limits, the rest of the configuration, telemetry and the command line are not.
pub mod Base
pub mod Storage
pub mod Core
pub mod Config
