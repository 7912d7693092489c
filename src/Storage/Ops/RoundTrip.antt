-- ===== src/Storage/Ops/RoundTrip.antt =====
-- crates/roci-storage/src/metadata/log.rs: an operation that is serialized is read back.
use roci.Base.{List, [], ap, arith, none, refl, some, ℕ, ◌<◌, ◌^◌, ◌∙◌, ◌∷◌, ◌≡◌}
use roci.Base.Eq.{Text, text_beq, text_eq}
use roci.Base.Tests.{and_then}
use roci.Storage.Metadata.{
  MetaOp, checksum, delete_blob_op, delete_manifest_op, put_backrefs, put_checksum, put_manifest_op,
  put_referrer,
}
use roci.Storage.Ops.{
  Json, Value, as_u32, delete_blob_of, delete_manifest_of, deserialize_op, find_field,
  generation_marker, generation_of, get_field, number_at, op_of, op_of_fields, op_value,
  put_backrefs_of, put_checksum_of, put_manifest_of, put_referrer_of, reference_fields,
  referrer_fields, serialize_op, text_array, text_at, texts_at, texts_of, zip_options,
}

-- What is relied on of JSON, for one value: its text is read as a value with the same fields.
abbrev pub IsRead : Json → Value → Type 0
IsRead json v =
    (w : Value) × (json.from_slice (json.to_vec v) ≡ some w)
    × ((k : Text) → get_field w k ≡ get_field v k)

-- The parts of an operation that the format can hold: descriptors in UTF-8, a checksum of 32 bits.
abbrev pub IsStorable : Json → MetaOp → Type 0
IsStorable json
      (put_manifest_op repo digest media_type tag references (some (subject, descriptor))) =
    json.from_utf8_lossy descriptor ≡ descriptor
IsStorable json (put_referrer repo subject referrer descriptor) =
    json.from_utf8_lossy descriptor ≡ descriptor
IsStorable json (put_checksum repo digest checksum) = checksum.crc32c < 2 ^ 32
IsStorable json _ = Unit {0}

texts_of-text_array : (ts : List Text) → texts_of (text_array ts) ≡ ts
unfolding texts_of text_array
texts_of-text_array [] = refl
texts_of-text_array (t ∷ ts) = ap (λ r. t ∷ r) (texts_of-text_array ts)

as_u32-eq-some : (n : ℕ) → n < 2 ^ 32 → as_u32 n ≡ some n
unfolding as_u32
as_u32-eq-some n h = ground arith

op_of-op_value :
    (json : Json) (op : MetaOp)
    → IsStorable json op
    → op_of (get_field (op_value json op)) ≡ some op
unfolding op_of op_of_fields op_value get_field find_field text_beq text_at texts_at number_at
    put_manifest_of delete_manifest_of put_referrer_of put_backrefs_of put_checksum_of
    delete_blob_of reference_fields referrer_fields zip_options text_array texts_of
op_of-op_value json (put_manifest_op repo digest media_type none [] none) h = refl
op_of-op_value json (put_manifest_op repo digest media_type (some t) [] none) h = refl
op_of-op_value json (put_manifest_op repo digest media_type none [] (some (s, d))) h = rw h
op_of-op_value json (put_manifest_op repo digest media_type (some t) [] (some (s, d))) h = rw h
op_of-op_value json (put_manifest_op repo digest media_type none (r ∷ rs) none) h =
    rw (texts_of-text_array rs, texts_of)
op_of-op_value json (put_manifest_op repo digest media_type (some t) (r ∷ rs) none) h =
    rw (texts_of-text_array rs, texts_of)
op_of-op_value json (put_manifest_op repo digest media_type none (r ∷ rs) (some (s, d))) h =
    rw (texts_of-text_array rs, texts_of, h)
op_of-op_value json (put_manifest_op repo digest media_type (some t) (r ∷ rs) (some (s, d))) h =
    rw (texts_of-text_array rs, texts_of, h)
op_of-op_value json (delete_manifest_op repo digest) h = refl
op_of-op_value json (put_referrer repo subject referrer descriptor) h = rw h
op_of-op_value json (put_backrefs repo manifest blobs) h = rw (texts_of-text_array blobs)
op_of-op_value json (put_checksum repo digest sums) h =
    ap
      (λ o.
        and_then o
          (λ crc. some (put_checksum repo digest (record { crc32c = crc; size = sums.size }))))
      (as_u32-eq-some sums.crc32c h)
op_of-op_value json (delete_blob_op repo digest) h = refl

generation_of-op_value :
    (json : Json) (op : MetaOp) → generation_of (get_field (op_value json op)) ≡ none
unfolding generation_of op_value get_field find_field text_beq text_at
generation_of-op_value json (put_manifest_op repo digest media_type tag references referrer) = refl
generation_of-op_value json (delete_manifest_op repo digest) = refl
generation_of-op_value json (put_referrer repo subject referrer descriptor) = refl
generation_of-op_value json (put_backrefs repo manifest blobs) = refl
generation_of-op_value json (put_checksum repo digest checksum) = refl
generation_of-op_value json (delete_blob_op repo digest) = refl

-- An operation whose descriptors are UTF-8 and whose checksum has 32 bits is read back from its payload
-- unchanged, if JSON gives back the fields of its value.
pub deserialize_op-serialize_op :
    (json : Json) (op : MetaOp)
    → IsStorable json op
    → IsRead json (op_value json op)
    → deserialize_op json (serialize_op json op) ≡ some op
unfolding deserialize_op serialize_op
deserialize_op-serialize_op json op storable (w, read, same) =
    ap (λ o. and_then o (λ v. op_of (get_field v))) read
    ∙ ap op_of (λ i k. same k i)
    ∙ op_of-op_value json op storable

-- No operation is taken for a generation marker.
pub generation_marker-serialize_op :
    (json : Json) (op : MetaOp)
    → IsRead json (op_value json op)
    → generation_marker json (serialize_op json op) ≡ none
unfolding generation_marker serialize_op
generation_marker-serialize_op json op (w, read, same) =
    ap (λ o. and_then o (λ v. generation_of (get_field v))) read
    ∙ ap generation_of (λ i k. same k i)
    ∙ generation_of-op_value json op
