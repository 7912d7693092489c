-- ===== src/Storage/Wal.antt =====
-- crates/roci-storage/src/metadata/log.rs: the framing of the metadata log and its replay;
-- metadata/wal_hmac.rs: the header record. The CRC32C and the HMAC belong to other packages: they are
-- the fields of `Checksum` and `HmacKey`. A position in the log is the bytes from there on.
pub mod Records
pub mod Layout
pub mod Replay
pub mod Written
pub mod Reopen
pub mod Durable
mod Tests
use roci.Base.{
  Bool, List, Option, [], false, none, not, some, suc, true, zero, ℕ, ◌%◌, ◌&&◌, ◌++◌, ◌+◌, ◌<◌,
  ◌^◌, ◌∷◌, ◌≡◌,
}
use roci.Base.Eq.{Text, codes, nat_eq, text_eq, ◌==◌}
use roci.Base.Lists.{drop, is_empty, length, take}
use roci.Base.Tests.{if◌then◌else◌, is_some, leb, ltb, nat_beq}
use roci.Base.Word.{from_le, le_bytes}
use roci.Storage.Gc.{len}
use roci.Storage.Metadata.{MetaOp, State, apply_in_ram}
use roci.Storage.Ops.{Json, deserialize_op, generation_marker, serialize_op}

pub record Checksum : Type 0 where
  pub crc32c : Text → ℕ
  pub crc32c-lt : (payload : Text) → crc32c payload < 2 ^ 32

-- `HmacKey` with the two calls of the `hmac` crate and what they promise.
pub record HmacKey : Type 0 where
  pub tag : Text → Text
  pub verify : Text → Text → Bool
  pub length-tag : (payload : Text) → length (tag payload) ≡ 32
  pub verify-tag : (payload : Text) → verify payload (tag payload) ≡ true

pub data FramingMode : Type 0 where
  plain hmac_sha256 : FramingMode

abbrev pub mode_beq : FramingMode → FramingMode → Bool
mode_beq plain plain = true
mode_beq hmac_sha256 hmac_sha256 = true
mode_beq _ _ = false

unfoldable pub framing_mode : Option HmacKey → FramingMode
framing_mode none = plain
framing_mode (some key) = hmac_sha256

abbrev pub header_magic : Text
header_magic = codes "roci-wal" ++ 0 ∷ []

unfoldable pub encode_header : FramingMode → Text
encode_header plain = header_magic ++ 0 ∷ []
encode_header hmac_sha256 = header_magic ++ 1 ∷ []

-- The `match` on the byte behind the magic.
unfoldable pub mode_of : Text → Option FramingMode
mode_of [] = none
mode_of (b ∷ s) = if nat_beq b 0 then some plain else if nat_beq b 1 then some hmac_sha256 else none

unfoldable pub decode_header : Text → Option FramingMode
decode_header payload =
    if ltb (length payload) (length header_magic + 1)
    then none
    else if not (take (length header_magic) payload == header_magic)
    then none
    else mode_of (drop (length header_magic) payload)

unfoldable pub tag_bytes : Option HmacKey → Text → Text
tag_bytes none payload = []
tag_bytes (some key) payload = key.tag payload

-- `payload.len() as u32` wraps.
unfoldable pub encode_record_raw : Checksum → Option HmacKey → Text → Text
encode_record_raw c key payload =
    le_bytes (length payload % 2 ^ 32)
    ++ (le_bytes (c.crc32c payload) ++ (payload ++ tag_bytes key payload))

unfoldable pub encode_record : Checksum → Json → Option HmacKey → MetaOp → Text
encode_record c json key op = encode_record_raw c key (serialize_op json op)

abbrev pub hmac_extra : Option HmacKey → ℕ
hmac_extra none = 0
hmac_extra (some key) = 32

unfoldable pub key_accepts : Option HmacKey → Text → Text → Bool
key_accepts none payload tag = true
key_accepts (some key) payload tag = key.verify payload tag

-- One round of the loop: the payload of the record at the front and what follows it; none where the
-- loop breaks or ends.
unfoldable pub read_record : Checksum → Option HmacKey → Text → Option (Text × Text)
read_record c key bytes =
    let len = from_le bytes in
    let payload = take len (drop 8 bytes) in
    let record_end = 8 + len + hmac_extra key in
    if ltb (length bytes) 8
    then none
    else if ltb (length bytes) record_end
    then none
    else if not (nat_beq (c.crc32c payload) (from_le (drop 4 bytes)))
    then none
    else if not (key_accepts key payload (take (hmac_extra key) (drop (8 + len) bytes)))
    then none
    else some (payload, drop record_end bytes)

-- What replay fills in.
pub record Replayed : Type 0 where
  pub state : State
  pub generation : ℕ

unfoldable pub apply_payload : Json → (Text → Option Text) → Text → Replayed → Replayed
apply_payload json artifact_of payload r = elim (deserialize_op json payload) [
  | none ↦ r
  | some op ↦ record r { state = apply_in_ram artifact_of op r.state }
]

unfoldable pub mark_or_apply : Option ℕ → Json → (Text → Option Text) → Text → Replayed → Replayed
mark_or_apply none json artifact_of payload r = apply_payload json artifact_of payload r
mark_or_apply (some g) json artifact_of payload r = record r { generation = g }

-- The rest of a round, for the record with this number from 1 on.
unfoldable pub on_payload : Json → (Text → Option Text) → (index : ℕ) → Text → Replayed → Replayed
on_payload json artifact_of index payload r =
    if nat_beq index 1 && is_some (decode_header payload)
    then r
    else if leb index 2
    then mark_or_apply (generation_marker json payload) json artifact_of payload r
    else apply_payload json artifact_of payload r

-- The loop, after `index` records; none says that the fuel ran out.
unfoldable pub replay_loop :
    Checksum
    → Json
    → (Text → Option Text)
    → Option HmacKey
    → (fuel index : ℕ) → Text
    → Replayed
    → Option Replayed
replay_loop c json artifact_of key zero index bytes r = elim (read_record c key bytes) [
  | none ↦ some r
  | some _ ↦ none
]
replay_loop c json artifact_of key (suc fuel) index bytes r = elim (read_record c key bytes) [
  | none ↦ some r
  | some (payload, rest) ↦
      replay_loop c json artifact_of key fuel (suc index) rest
        (on_payload json artifact_of (suc index) payload r)
]

-- Every record has 8 bytes at least.
unfoldable pub replay_log :
    Checksum → Json → (Text → Option Text) → Option HmacKey → Text → Replayed → Option Replayed
replay_log c json artifact_of key bytes r =
    replay_loop c json artifact_of key (length bytes) 0 bytes r

pub data LogFramingCheck : Type 0 where
  compatible incompatible no_header : LogFramingCheck

-- The arm for a header of the expected mode.
unfoldable pub check_tag : Option HmacKey → Text → Text → LogFramingCheck
check_tag none payload after = compatible
check_tag (some key) payload after =
    if ltb (length after) 32
    then incompatible
    else if not (key.verify payload (take 32 after))
    then incompatible
    else compatible

unfoldable pub check_mode :
    Option FramingMode → FramingMode → Option HmacKey → Text → Text → LogFramingCheck
check_mode none expected key payload after = no_header
check_mode (some mode) expected key payload after =
    if mode_beq mode expected then check_tag key payload after else incompatible

unfoldable pub check_log_framing : Checksum → Text → FramingMode → Option HmacKey → LogFramingCheck
check_log_framing c bytes expected key =
    let len = from_le bytes in
    let payload = take len (drop 8 bytes) in
    if ltb (length bytes) 8
    then no_header
    else if ltb (length bytes) (8 + len)
    then no_header
    else if not (nat_beq (c.crc32c payload) (from_le (drop 4 bytes)))
    then no_header
    else check_mode (decode_header payload) expected key payload (drop (8 + len) bytes)

-- The loop of `replay_legacy`: no header, no marker and no tag.
unfoldable pub legacy_loop :
    Checksum → Json → (Text → Option Text) → (fuel : ℕ) → Text → Replayed → Option Replayed
legacy_loop c json artifact_of zero bytes r = elim (read_record c none bytes) [
  | none ↦ some r
  | some _ ↦ none
]
legacy_loop c json artifact_of (suc fuel) bytes r = elim (read_record c none bytes) [
  | none ↦ some r
  | some (payload, rest) ↦
      legacy_loop c json artifact_of fuel rest (apply_payload json artifact_of payload r)
]

unfoldable pub replay_legacy :
    Checksum → Json → (Text → Option Text) → Text → Replayed → Option Replayed
replay_legacy c json artifact_of bytes r = legacy_loop c json artifact_of (length bytes) bytes r

-- `LogMetadataStore`: the file's bytes and what is in memory.
pub record LogMetadataStore : Type 0 where
  pub log : Text
  pub inner : State
  pub generation : ℕ

abbrev pub opened : Text → Option Replayed → Option LogMetadataStore
opened log none = none
opened log (some r) = some (record { generation = r.generation; inner = r.state; log = log })

abbrev pub fresh : Replayed
fresh = record { generation = 0; state = [] }

-- The `match` in `open_inner`; `discard_log` moves the file away.
unfoldable pub open_checked :
    Checksum
    → Json
    → (Text → Option Text)
    → Option HmacKey
    → LogFramingCheck
    → Text
    → Option LogMetadataStore
open_checked c json artifact_of key compatible bytes =
    opened bytes (replay_log c json artifact_of key bytes fresh)
open_checked c json artifact_of key incompatible bytes = opened [] (some fresh)
open_checked c json artifact_of (some key) no_header bytes = opened [] (some fresh)
open_checked c json artifact_of none no_header bytes =
    opened bytes (replay_legacy c json artifact_of bytes fresh)

-- `open_inner` on a log with these bytes, a missing one being empty.
unfoldable pub open_inner :
    Checksum → Json → (Text → Option Text) → Option HmacKey → Text → Option LogMetadataStore
open_inner c json artifact_of key bytes =
    if is_empty bytes
    then opened [] (some fresh)
    else open_checked c json artifact_of key (check_log_framing c bytes (framing_mode key) key)
        bytes

-- `append_record`: the first record of a log is its header.
unfoldable pub append_record :
    Checksum
    → Json
    → (Text → Option Text)
    → Option HmacKey
    → MetaOp
    → LogMetadataStore
    → LogMetadataStore
append_record c json artifact_of key op self =
    let framed = encode_record c json key op in
    let header = encode_record_raw c key (encode_header (framing_mode key)) in
    record self {
      log = if is_empty self.log then header ++ framed else self.log ++ framed;
      inner = apply_in_ram artifact_of op self.inner;
    }

-- One operation after another.
unfoldable pub append_all :
    Checksum
    → Json
    → (Text → Option Text)
    → Option HmacKey
    → List MetaOp
    → LogMetadataStore
    → LogMetadataStore
append_all c json artifact_of key [] self = self
append_all c json artifact_of key (op ∷ ops) self =
    append_all c json artifact_of key ops (append_record c json artifact_of key op self)

unfoldable pub apply_ops : (Text → Option Text) → List MetaOp → State → State
apply_ops artifact_of [] state = state
apply_ops artifact_of (op ∷ ops) state =
    apply_ops artifact_of ops (apply_in_ram artifact_of op state)
