-- ===== src/Storage/Wal/Written.antt =====
-- crates/roci-storage/src/metadata/log.rs, `append_record` and `open_inner`: what a store has written
-- is what a store that is opened on its file has.
use mathlib.Core.List.{append_assoc}
use roci.Base.{
  Option, ap, arith, false, none, refl, some, sym, true, ◌++◌, ◌+◌, ◌<◌, ◌^◌, ◌∙◌, ◌≡◌, ◌≤◌,
}
use roci.Base.Eq.{Text, text_beq, text_eq}
use roci.Base.Lists.{
  drop, drop-append, drop-drop, length, length-append, length-drop, take, take-append,
}
use roci.Base.Text.{split}
use roci.Base.Word.{from_le, from_le-le_bytes, le_bytes}
use roci.Storage.Wal.{
  Checksum, FramingMode, HmacKey, check_log_framing, check_mode, check_tag, compatible,
  decode_header, encode_header, encode_record_raw, framing_mode, hmac_sha256, incompatible,
  mode_beq, mode_of, plain, tag_bytes,
}

pub decode_header-encode_header :
    (mode : FramingMode) → decode_header (encode_header mode) ≡ some mode
unfolding decode_header encode_header mode_of text_beq
decode_header-encode_header plain = refl
decode_header-encode_header hmac_sha256 = refl

pub length-encode_header : (mode : FramingMode) → length (encode_header mode) ≡ 10
unfolding encode_header
length-encode_header plain = refl
length-encode_header hmac_sha256 = refl

mode_beq_self : (mode : FramingMode) → mode_beq mode mode ≡ true
mode_beq_self plain = refl
mode_beq_self hmac_sha256 = refl

-- From a checked prefix on, the check of a log depends on these parts of its bytes only.
check_parts :
    (c : Checksum) (bytes payload behind : Text) (expected : FramingMode) (other : Option HmacKey)
    → from_le bytes ≡ length payload
    → from_le (drop 4 bytes) ≡ c.crc32c payload
    → drop 8 bytes ≡ payload ++ behind
    → 8 ≤ length bytes
    → check_log_framing c bytes expected other
      ≡ check_mode (decode_header payload) expected other payload behind
unfolding check_log_framing
check_parts c bytes payload behind expected other sized checked split eight =
    let whole : take (from_le bytes) (drop 8 bytes) ≡ payload =
      rw (sized, split) (take-append payload behind) in
    let after : drop (8 + from_le bytes) bytes ≡ behind =
      sym (drop-drop 8 (from_le bytes) bytes) ∙ rw (sized, split) (drop-append payload behind) in
    let long : length bytes ≡ 8 + length payload + length behind =
      omega (arith, ap length split, length-drop 8 bytes, length-append payload behind) in
    ground arith

-- The check of a log that starts with a record under `key`, made with the key `other`.
check_log_framing-frame :
    (c : Checksum) (key : Option HmacKey) (payload rest : Text) (expected : FramingMode)
    (other : Option HmacKey)
    → length payload < 2 ^ 32
    → check_log_framing c (encode_record_raw c key payload ++ rest) expected other
      ≡ check_mode (decode_header payload) expected other payload (tag_bytes key payload ++ rest)
unfolding encode_record_raw le_bytes
check_log_framing-frame c key payload rest expected other small =
    check_parts c (encode_record_raw c key payload ++ rest) payload (tag_bytes key payload ++ rest)
      expected other (from_le-le_bytes _ _ (omega arith) ∙ omega arith)
      (from_le-le_bytes _ _ (c.crc32c-lt payload))
      (append_assoc payload (tag_bytes key payload) rest) (omega arith)

-- The record that `append_record` starts a log with.
unfoldable pub header_record : Checksum → Option HmacKey → Text
header_record c key = encode_record_raw c key (encode_header (framing_mode key))

check_log_framing-header_record :
    (c : Checksum) (key other : Option HmacKey) (rest : Text)
    → check_log_framing c (header_record c key ++ rest) (framing_mode other) other
      ≡ check_mode
          (some (framing_mode key))
          (framing_mode other)
          other
          (encode_header (framing_mode key))
          (tag_bytes key (encode_header (framing_mode key)) ++ rest)
unfolding header_record
check_log_framing-header_record c key other rest =
    check_log_framing-frame c key (encode_header (framing_mode key)) rest (framing_mode other) other
      (omega (arith, length-encode_header (framing_mode key)))
    ∙ rw (decode_header-encode_header (framing_mode key))

check_tag-tag_bytes :
    (key : Option HmacKey) (payload rest : Text)
    → check_tag key payload (tag_bytes key payload ++ rest) ≡ compatible
unfolding check_tag tag_bytes
check_tag-tag_bytes none payload rest = refl
check_tag-tag_bytes (some k) payload rest =
    let taken : take 32 (k.tag payload ++ rest) ≡ k.tag payload =
      rw (← k.length-tag payload) (take-append (k.tag payload) rest) in
    let good : k.verify payload (take 32 (k.tag payload ++ rest)) ≡ true =
      rw taken (k.verify-tag payload) in
    ground (arith, length-append (k.tag payload) rest, k.length-tag payload)

-- A log that starts with the header record of a key passes the check under that key; under no key, or
-- under any key if it was written with none, it is refused.
pub check_log_framing-written :
    (c : Checksum) (key : Option HmacKey) (rest : Text)
    → check_log_framing c (header_record c key ++ rest) (framing_mode key) key ≡ compatible
unfolding check_mode
check_log_framing-written c key rest =
    check_log_framing-header_record c key key rest
    ∙ rw (mode_beq_self (framing_mode key)) (check_tag-tag_bytes key _ rest)

pub check_log_framing-mismatch :
    (c : Checksum) (key other : Option HmacKey) (rest : Text)
    → mode_beq (framing_mode key) (framing_mode other) ≡ false
    → check_log_framing c (header_record c key ++ rest) (framing_mode other) other ≡ incompatible
unfolding check_mode
check_log_framing-mismatch c key other rest differ =
    check_log_framing-header_record c key other rest ∙ rw differ
