-- ===== src/Storage/Wal/Records.antt =====
-- crates/roci-storage/src/metadata/log.rs: a record that is framed is read back.
use mathlib.Core.List.{append_assoc}
use roci.Base.{
  Option, ap, arith, inl, inr, min, none, refl, some, sym, true, ℕ, ◌%◌, ◌++◌, ◌+◌, ◌<◌, ◌^◌, ◌∙◌,
  ◌≡◌, ◌≤◌,
}
use roci.Base.Eq.{Text, text_eq}
use roci.Base.Lists.{
  drop, drop-append, drop-drop, length, length-append, length-drop, length-take, take, take-append,
  take-append_above,
}
use roci.Base.Tests.{Bool-cases, ltb}
use roci.Base.Text.{split}
use roci.Base.Word.{from_le, from_le-le_bytes, le_bytes}
use roci.Storage.Wal.{
  Checksum, HmacKey, encode_record_raw, hmac_extra, key_accepts, read_record, tag_bytes,
}

module _ (c : Checksum) (key : Option HmacKey) where
  length-tag_bytes : (payload : Text) → length (tag_bytes key payload) ≡ hmac_extra key
  unfolding tag_bytes
  length-tag_bytes payload = elim key as (λ k. length (tag_bytes k payload) ≡ hmac_extra k) [
    | none ↦ refl
    | some k ↦ k.length-tag payload
  ]

  key_accepts-tag_bytes : (payload : Text) → key_accepts key payload (tag_bytes key payload) ≡ true
  unfolding tag_bytes key_accepts
  key_accepts-tag_bytes payload =
      elim key as (λ k. key_accepts k payload (tag_bytes k payload) ≡ true) [
        | none ↦ refl
        | some k ↦ k.verify-tag payload
      ]

  pub length-encode_record_raw :
      (payload : Text)
      → length (encode_record_raw c key payload) ≡ 8 + length payload + hmac_extra key
  unfolding encode_record_raw le_bytes
  length-encode_record_raw payload =
      omega (arith, length-append payload (tag_bytes key payload), length-tag_bytes payload)

  -- From a checked prefix on, reading depends on these five parts of the bytes only.
  read_parts :
      (bytes payload tag rest : Text)
      → from_le bytes ≡ length payload
      → from_le (drop 4 bytes) ≡ c.crc32c payload
      → drop 8 bytes ≡ payload ++ (tag ++ rest)
      → length tag ≡ hmac_extra key
      → key_accepts key payload tag ≡ true
      → 8 ≤ length bytes
      → read_record c key bytes ≡ some (payload, rest)
  unfolding read_record
  read_parts bytes payload tag rest sized checked split tagged good long =
      let whole : take (from_le bytes) (drop 8 bytes) ≡ payload =
        rw (sized, split) (take-append payload (tag ++ rest)) in
      let behind : drop (8 + from_le bytes) bytes ≡ tag ++ rest =
        sym (drop-drop 8 (from_le bytes) bytes)
        ∙ rw (sized, split) (drop-append payload (tag ++ rest)) in
      let tag_read : take (hmac_extra key) (drop (8 + from_le bytes) bytes) ≡ tag =
        rw (behind, ← tagged) (take-append tag rest) in
      let rest_read : drop (8 + from_le bytes + hmac_extra key) bytes ≡ rest =
        sym (drop-drop (8 + from_le bytes) (hmac_extra key) bytes)
        ∙ rw (behind, ← tagged) (drop-append tag rest) in
      let long_enough : length bytes ≡ 8 + length payload + hmac_extra key + length rest = omega (
        arith,
        ap length split,
        length-drop 8 bytes,
        length-append payload (tag ++ rest),
        length-append tag rest,
      ) in
      ground (arith)

  pub read_record-encode_record_raw :
      (payload rest : Text)
      → length payload < 2 ^ 32
      → read_record c key (encode_record_raw c key payload ++ rest) ≡ some (payload, rest)
  unfolding encode_record_raw le_bytes
  read_record-encode_record_raw payload rest small =
      read_parts (encode_record_raw c key payload ++ rest) payload (tag_bytes key payload) rest
        (from_le-le_bytes _ _ (omega arith) ∙ omega arith)
        (from_le-le_bytes _ _ (c.crc32c-lt payload))
        (append_assoc payload (tag_bytes key payload) rest) (length-tag_bytes payload)
        (key_accepts-tag_bytes payload) (omega arith)

  -- A frame that is cut anywhere is not read.
  pub read_record-cut :
      (payload : Text) (n : ℕ)
      → length payload < 2 ^ 32
      → n < length (encode_record_raw c key payload)
      → read_record c key (take n (encode_record_raw c key payload)) ≡ none
  unfolding read_record encode_record_raw le_bytes
  read_record-cut payload n small cut =
      let bytes = take n (encode_record_raw c key payload) in
      let short : length bytes ≡ min n (length (encode_record_raw c key payload)) =
        length-take n (encode_record_raw c key payload) in
      elim (Bool-cases (ltb n 8)) [
        | inl few ↦ ground arith
        | inr eight ↦
            let sized : from_le bytes ≡ length payload =
              ap from_le (
                take-append_above n
                  (le_bytes (length payload % 2 ^ 32) ++ le_bytes (c.crc32c payload))
                  (payload ++ tag_bytes key payload) (ground arith))
              ∙ from_le-le_bytes _ _ (omega arith)
              ∙ omega arith in
            ground (arith, length-encode_record_raw payload)
      ]

  -- A frame that was cut behind its length stays unread while what follows does not fill it up.
  pub read_record-torn :
      (payload rest : Text) (n : ℕ)
      → length payload < 2 ^ 32
      → 8 ≤ n
      → n + length rest < length (encode_record_raw c key payload)
      → read_record c key (take n (encode_record_raw c key payload) ++ rest) ≡ none
  unfolding read_record encode_record_raw le_bytes
  read_record-torn payload rest n small eight short =
      let frame = encode_record_raw c key payload in
      let bytes = take n frame ++ rest in
      let sized : from_le bytes ≡ length payload =
        ap (λ s. from_le (s ++ rest))
          (take-append_above n (le_bytes (length payload % 2 ^ 32) ++ le_bytes (c.crc32c payload))
            (payload ++ tag_bytes key payload) eight)
        ∙ from_le-le_bytes _ _ (omega arith)
        ∙ omega arith in
      let long : length bytes ≡ n + length rest =
        omega (arith, length-append (take n frame) rest, length-take n frame) in
      ground (arith, length-encode_record_raw payload)
