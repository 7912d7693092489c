-- ===== src/Storage/Ops/Tests.antt =====
-- Tests of the payloads of log records, with a format that stands in for JSON: it writes the digest
-- of a value, and reads every text as the digest of a deleted blob.
-- It is read back whole.
use roci.Base.{[], refl, some, ◌≡◌}
use roci.Base.Eq.{Text, codes, text_beq, text_eq}
use roci.Base.Tests.{unwrap_or}
use roci.Storage.Metadata.{MetaOp, delete_blob_op}
use roci.Storage.Ops.{
  Json, deserialize_op, field_then, find_field, get_field, no_fields, object_value, op_value,
  serialize_op, text_at, text_value,
}
use roci.Storage.Ops.RoundTrip.{IsRead, deserialize_op-serialize_op}

abbrev pub digest_format : Json
digest_format = record {
  from_slice = λ t. some (
      object_value (
        field_then (codes "op") (text_value (codes "delete_blob")) (
          field_then (codes "repo") (text_value (codes "r"))
            (field_then (codes "digest") (text_value t) no_fields))));
  from_utf8_lossy = λ t. t;
  to_vec = λ v. unwrap_or (text_at (get_field v) (codes "digest")) [];
}

pub digest_format-IsRead :
    (digest : Text)
    → IsRead digest_format (op_value digest_format (delete_blob_op (codes "r") digest))
unfolding text_at get_field find_field text_beq op_value
digest_format-IsRead digest = (_, refl, λ k. refl)

abbrev d1 : MetaOp
d1 = delete_blob_op (codes "r") (codes "sha256:aa")

deserialize_op-serialize_op_example :
    deserialize_op digest_format (serialize_op digest_format d1) ≡ some d1
deserialize_op-serialize_op_example =
    deserialize_op-serialize_op digest_format d1 tt (digest_format-IsRead (codes "sha256:aa"))
