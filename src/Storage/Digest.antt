-- ===== src/Storage/Digest.antt =====
-- crates/roci-storage/src/digest.rs: content digests. The hash functions of the `sha2` crate are
-- parameters where they are used.
pub mod Laws
mod Tests
use roci.Base.{Bool, Option, false, map, none, not, some, ℕ, ◌&&◌, ◌++◌, ◌||◌, ◌∷◌}
use roci.Base.Bits.{diff_bytes}
use roci.Base.Eq.{Text, codes, nat_eq, text_eq, ◌==◌}
use roci.Base.Lists.{all, length}
use roci.Base.Result.{Result, err, ok}
use roci.Base.Tests.{if◌then◌else◌, leb, nat_beq}
use roci.Base.Text.{ascii_lower, is_digit, split_once}
use roci.Storage.Error.{StorageError, bad_digest}

pub record Digest : Type 0 where
  pub algorithm : Text
  pub hex : Text

abbrev pub sha256 : Text
sha256 = codes "sha256"

abbrev pub sha512 : Text
sha512 = codes "sha512"

unfoldable pub is_hex_digit : ℕ → Bool
is_hex_digit c = is_digit c || (leb b'a' c && leb c b'f') || (leb b'A' c && leb c b'F')

-- The `match` on the algorithm: the number of hex digits.
unfoldable pub ok_len : Text → Option ℕ
ok_len algorithm =
    if algorithm == sha256 then some 64 else if algorithm == sha512 then some 128 else none

unfoldable pub parse : Text → Result StorageError Digest
parse s = elim (split_once b':' s) [
  | none ↦ err (bad_digest s)
  | some (algorithm, hex) ↦ elim (ok_len algorithm) [
    | none ↦ err (bad_digest s)
    | some n ↦
        if not (nat_beq (length hex) n) || not (all is_hex_digit hex)
        then err (bad_digest s)
        else ok (record { algorithm = algorithm; hex = map ascii_lower hex })
  ]
]

-- `Display`, `as_string`
unfoldable pub as_string : Digest → Text
as_string d = d.algorithm ++ b':' ∷ d.hex

unfoldable pub ct_eq : Digest → Digest → Bool
ct_eq d e =
    if not (d.algorithm == e.algorithm) || not (nat_beq (length d.hex) (length e.hex))
    then false
    else nat_beq (diff_bytes 0 d.hex e.hex) 0
