-- ===== src/Storage/Ops.antt =====
-- crates/roci-storage/src/metadata/log.rs, `serialize_op`, `deserialize_op` and `generation_marker`: an
-- operation as the payload of a record. JSON and the replacing of illegal UTF-8 belong to other
-- packages: they are the fields of `Json`.
pub mod RoundTrip
pub mod Tests
use roci.Base.{List, Option, [], none, some, ℕ, ◌^◌, ◌∷◌}
use roci.Base.Eq.{Text, codes, nat_eq, text_eq, ◌==◌}
use roci.Base.Lists.{is_empty}
use roci.Base.Tests.{and_then, if◌then◌else◌, ltb, unwrap_or}
use roci.Storage.Metadata.{
  MetaOp, checksum, delete_blob_op, delete_manifest_op, put_backrefs, put_checksum, put_manifest_op,
  put_referrer,
}

mutual
  -- `serde_json::Value`, as far as the code reads one
  pub data Value : Type 0 where
    null_value other_value : Value
    text_value : Text → Value
    number_value : ℕ → Value
    array_value : Values → Value
    object_value : Fields → Value

  pub data Values : Type 0 where
    no_values : Values
    value_then : Value → Values → Values

  pub data Fields : Type 0 where
    no_fields : Fields
    field_then : Text → Value → Fields → Fields

pub record Json : Type 0 where
  pub to_vec : Value → Text
  pub from_slice : Text → Option Value
  pub from_utf8_lossy : Text → Text

unfoldable pub find_field : Text → Fields → Option Value
find_field k no_fields = none
find_field k (field_then j v fields) =
    let rest = find_field k fields in if j == k then some v else rest

-- `v.get(k)`
unfoldable pub get_field : Value → Text → Option Value
get_field (object_value fields) k = find_field k fields
get_field _ k = none

abbrev pub as_str : Value → Option Text
as_str (text_value t) = some t
as_str _ = none

abbrev pub as_u64 : Value → Option ℕ
as_u64 (number_value n) = some n
as_u64 _ = none

unfoldable pub text_array : List Text → Values
text_array [] = no_values
text_array (t ∷ ts) = value_then (text_value t) (text_array ts)

-- `a.iter().filter_map(as_str)`
unfoldable pub texts_of : Values → List Text
texts_of no_values = []
texts_of (value_then v vs) =
    let rest = texts_of vs in (elim (as_str v) [ none ↦ rest | some t ↦ t ∷ rest ])

abbrev pub array_texts : Value → List Text
array_texts (array_value vs) = texts_of vs
array_texts _ = []

-- `json!` of an `Option<String>`
abbrev pub optional_text : Option Text → Value
optional_text none = null_value
optional_text (some t) = text_value t

unfoldable pub reference_fields : List Text → Fields → Fields
reference_fields references fields =
    if is_empty references
    then fields
    else field_then (codes "references") (array_value (text_array references)) fields

unfoldable pub referrer_fields : Json → Option (Text × Text) → Fields
referrer_fields json none = no_fields
referrer_fields json (some (subject, descriptor)) =
    field_then (codes "subject") (text_value subject)
      (field_then (codes "descriptor") (text_value (json.from_utf8_lossy descriptor)) no_fields)

-- The value that `serialize_op` builds.
unfoldable pub op_value : Json → MetaOp → Value
op_value json (put_manifest_op repo digest media_type tag references referrer) = object_value (
    field_then (codes "op") (text_value (codes "put_manifest")) (
      field_then (codes "repo") (text_value repo) (
        field_then (codes "digest") (text_value digest) (
          field_then (codes "media_type") (text_value media_type) (
            field_then (codes "tag") (optional_text tag)
              (reference_fields references (referrer_fields json referrer)))))))
op_value json (delete_manifest_op repo digest) = object_value (
    field_then (codes "op") (text_value (codes "delete_manifest")) (
      field_then (codes "repo") (text_value repo)
        (field_then (codes "digest") (text_value digest) no_fields)))
op_value json (put_referrer repo subject referrer descriptor) = object_value (
    field_then (codes "op") (text_value (codes "put_referrer")) (
      field_then (codes "repo") (text_value repo) (
        field_then (codes "subject") (text_value subject) (
          field_then (codes "referrer") (text_value referrer) (
            field_then (codes "descriptor") (text_value (json.from_utf8_lossy descriptor))
              no_fields)))))
op_value json (put_backrefs repo manifest blobs) = object_value (
    field_then (codes "op") (text_value (codes "put_backrefs")) (
      field_then (codes "repo") (text_value repo) (
        field_then (codes "manifest") (text_value manifest)
          (field_then (codes "blobs") (array_value (text_array blobs)) no_fields))))
op_value json (put_checksum repo digest checksum) = object_value (
    field_then (codes "op") (text_value (codes "put_checksum")) (
      field_then (codes "repo") (text_value repo) (
        field_then (codes "digest") (text_value digest) (
          field_then (codes "crc32c") (number_value checksum.crc32c)
            (field_then (codes "size") (number_value checksum.size) no_fields)))))
op_value json (delete_blob_op repo digest) = object_value (
    field_then (codes "op") (text_value (codes "delete_blob")) (
      field_then (codes "repo") (text_value repo)
        (field_then (codes "digest") (text_value digest) no_fields)))

unfoldable pub serialize_op : Json → MetaOp → Text
serialize_op json op = json.to_vec (op_value json op)

-- The closures `s` and `strings`, from `v.get`.
unfoldable pub text_at : (Text → Option Value) → Text → Option Text
text_at at k = and_then (at k) as_str

unfoldable pub texts_at : (Text → Option Value) → Text → List Text
texts_at at k = unwrap_or (and_then (at k) (λ v. some (array_texts v))) []

unfoldable pub number_at : (Text → Option Value) → Text → Option ℕ
number_at at k = and_then (at k) as_u64

-- `u32::try_from(n).ok()`
unfoldable pub as_u32 : ℕ → Option ℕ
as_u32 n = if ltb n (2 ^ 32) then some n else none

-- `a.zip(b)`
unfoldable pub zip_options : Option Text → Option Text → Option (Text × Text)
zip_options (some a) (some b) = some (a, b)
zip_options _ _ = none

-- The arms of the `match` in `deserialize_op`.
unfoldable pub put_manifest_of : (Text → Option Value) → Option MetaOp
put_manifest_of at = and_then (text_at at (codes "repo")) (λ repo.
    and_then (text_at at (codes "digest")) (λ digest.
      and_then (text_at at (codes "media_type")) (λ media_type. some (
        put_manifest_op repo digest media_type (text_at at (codes "tag"))
          (texts_at at (codes "references"))
          (zip_options (text_at at (codes "subject")) (text_at at (codes "descriptor")))))))

unfoldable pub delete_manifest_of : (Text → Option Value) → Option MetaOp
delete_manifest_of at = and_then (text_at at (codes "repo")) (λ repo.
    and_then (text_at at (codes "digest")) (λ digest. some (delete_manifest_op repo digest)))

unfoldable pub put_referrer_of : (Text → Option Value) → Option MetaOp
put_referrer_of at = and_then (text_at at (codes "repo")) (λ repo.
    and_then (text_at at (codes "subject")) (λ subject.
      and_then (text_at at (codes "referrer")) (λ referrer.
        and_then (text_at at (codes "descriptor"))
          (λ descriptor. some (put_referrer repo subject referrer descriptor)))))

unfoldable pub put_backrefs_of : (Text → Option Value) → Option MetaOp
put_backrefs_of at = and_then (text_at at (codes "repo")) (λ repo.
    and_then (text_at at (codes "manifest"))
      (λ manifest. some (put_backrefs repo manifest (texts_at at (codes "blobs")))))

unfoldable pub put_checksum_of : (Text → Option Value) → Option MetaOp
put_checksum_of at = and_then (text_at at (codes "repo")) (λ repo.
    and_then (text_at at (codes "digest")) (λ digest.
      and_then (and_then (number_at at (codes "crc32c")) as_u32) (λ crc.
        and_then (number_at at (codes "size"))
          (λ size. some (put_checksum repo digest (record { crc32c = crc; size = size }))))))

unfoldable pub delete_blob_of : (Text → Option Value) → Option MetaOp
delete_blob_of at =
    and_then (text_at at (codes "repo"))
      (λ repo. and_then (text_at at (codes "digest")) (λ digest. some (delete_blob_op repo digest)))

unfoldable pub op_of_fields : (Text → Option Value) → Text → Option MetaOp
op_of_fields at op =
    if op == codes "put_manifest"
    then put_manifest_of at
    else if op == codes "delete_manifest"
    then delete_manifest_of at
    else if op == codes "put_referrer"
    then put_referrer_of at
    else if op == codes "put_backrefs"
    then put_backrefs_of at
    else if op == codes "put_checksum"
    then put_checksum_of at
    else if op == codes "delete_blob"
    then delete_blob_of at
    else none

unfoldable pub op_of : (Text → Option Value) → Option MetaOp
op_of at = and_then (text_at at (codes "op")) (op_of_fields at)

unfoldable pub deserialize_op : Json → Text → Option MetaOp
deserialize_op json payload = and_then (json.from_slice payload) (λ v. op_of (get_field v))

unfoldable pub generation_of : (Text → Option Value) → Option ℕ
generation_of at =
    and_then (text_at at (codes "op"))
      (λ op. if op == codes "gen" then number_at at (codes "gen") else none)

unfoldable pub generation_marker : Json → Text → Option ℕ
generation_marker json payload =
    and_then (json.from_slice payload) (λ v. generation_of (get_field v))
