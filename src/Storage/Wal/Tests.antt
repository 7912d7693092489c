-- ===== src/Storage/Wal/Tests.antt =====
-- Tests of the metadata log, with stand-ins for the CRC32C and the HMAC.
use roci.Base.{
  List, Option, [], arith, none, refl, some, suc, zero, ℕ, ◌%◌, ◌++◌, ◌-◌, ◌^◌, ◌∷◌, ◌≡◌,
}
use roci.Base.Eq.{Text, beq_self, codes, nat_eq, text_beq, text_eq, ◌==◌}
use roci.Base.Lists.{length, take}
use roci.Base.Word.{le_bytes}
use roci.Storage.Metadata.{MetaOp, delete_blob_op}
use roci.Storage.Ops.{find_field, get_field, op_value, serialize_op, text_at}
use roci.Storage.Ops.Tests.{digest_format, digest_format-IsRead}
use roci.Storage.Wal.{
  Checksum, HmacKey, append_all, apply_ops, encode_header, encode_record_raw, framing_mode, fresh,
  open_inner, replay_log, tag_bytes,
}
use roci.Storage.Wal.Durable.{
  open_inner-append_all, replay_log_after_crash, replay_log_behind_torn, replay_log_ends,
}
use roci.Storage.Wal.Layout.{AreRecords}
use roci.Storage.Wal.Records.{length-encode_record_raw}
use roci.Storage.Wal.Reopen.{AreLoggable, empty_store, payloads}
use roci.Storage.Wal.Replay.{frames, on_payloads, whole_frames}

abbrev toy_crc : Checksum
toy_crc = record { crc32c = λ p. length p % 2 ^ 32; crc32c-lt = λ p. omega arith }

abbrev zeros : ℕ → Text
zeros zero = []
zeros (suc n) = 0 ∷ zeros n

abbrev toy_key : HmacKey
toy_key = record {
  length-tag = λ p. refl;
  tag = λ p. zeros 32;
  verify = λ p t. t == zeros 32;
  verify-tag = λ p. beq_self (zeros 32);
}

abbrev artifact_none : Text → Option Text
artifact_none t = none

abbrev two_ops : List MetaOp
two_ops =
    delete_blob_op (codes "r") (codes "sha256:aa") ∷ delete_blob_op (codes "r") (codes "b") ∷ []

two_ops-AreLoggable : AreLoggable toy_crc digest_format artifact_none (some toy_key) two_ops
unfolding serialize_op op_value text_at get_field find_field text_beq
two_ops-AreLoggable =
    ((tt, digest_format-IsRead _, omega arith), ((tt, digest_format-IsRead _, omega arith), tt))

open_inner-append_all_example :
    open_inner toy_crc digest_format artifact_none
      (some toy_key)
      (append_all toy_crc digest_format artifact_none
        (some toy_key)
        two_ops
        (empty_store toy_crc digest_format artifact_none (some toy_key))).log
    ≡ some (
        append_all toy_crc digest_format artifact_none
          (some toy_key)
          two_ops
          (empty_store toy_crc digest_format artifact_none (some toy_key)))
open_inner-append_all_example =
    open_inner-append_all toy_crc digest_format artifact_none (some toy_key) two_ops
      two_ops-AreLoggable

replay_log_after_crash_example :
    replay_log toy_crc digest_format artifact_none
      (some toy_key)
      (take 120
        (append_all toy_crc digest_format artifact_none
          (some toy_key)
          two_ops
          (empty_store toy_crc digest_format artifact_none (some toy_key))).log)
      fresh
    ≡ some (record {
      generation = 0;
      state =
          apply_ops artifact_none
            (take
              (whole_frames toy_crc
                  (some toy_key)
                  120
                  (payloads toy_crc digest_format artifact_none (some toy_key) two_ops)
                - 1)
              two_ops)
            [];
    })
replay_log_after_crash_example =
    replay_log_after_crash toy_crc digest_format artifact_none (some toy_key)
      (delete_blob_op (codes "r") (codes "sha256:aa")) (delete_blob_op (codes "r") (codes "b") ∷ [])
      120 two_ops-AreLoggable

-- The log of the example holds the header and one operation before the cut.
one_survives :
    whole_frames toy_crc
      (some toy_key)
      120
      (payloads toy_crc digest_format artifact_none (some toy_key) two_ops)
    ≡ 2
unfolding whole_frames payloads serialize_op op_value text_at get_field find_field text_beq
    encode_record_raw le_bytes tag_bytes encode_header framing_mode
one_survives = refl

replay_log_behind_torn_example :
    replay_log toy_crc digest_format artifact_none none
      (frames toy_crc none (codes "a" ∷ [])
        ++ (take 9 (encode_record_raw toy_crc none (zeros 30))
            ++ encode_record_raw toy_crc none (codes "b")))
      fresh
    ≡ replay_log toy_crc digest_format artifact_none none
        (frames toy_crc none (codes "a" ∷ []))
        fresh
replay_log_behind_torn_example =
    replay_log_behind_torn toy_crc digest_format artifact_none none (codes "a" ∷ []) (zeros 30)
      (encode_record_raw toy_crc none (codes "b")) 9 fresh (omega arith, tt) (omega arith)
      (omega arith)
      (omega (
        arith,
        length-encode_record_raw toy_crc none (codes "b"),
        length-encode_record_raw toy_crc none (zeros 30),
      ))

replay_log_ends_example :
    (ps : List Text) × AreRecords toy_crc none (codes "garbage of some length") ps
    × (replay_log toy_crc digest_format artifact_none none (codes "garbage of some length") fresh
        ≡ some (on_payloads toy_crc none digest_format artifact_none 0 ps fresh))
replay_log_ends_example =
    replay_log_ends toy_crc digest_format artifact_none none (codes "garbage of some length") fresh
