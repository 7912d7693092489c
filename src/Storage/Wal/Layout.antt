-- ===== src/Storage/Wal/Layout.antt =====
-- crates/roci-storage/src/metadata/log.rs: the bytes that replay takes for a record, told apart from the
-- code that reads them.
use roci.Base.{
  List, Option, [], ap, arith, none, refl, some, sym, true, ℕ, ◌++◌, ◌+◌, ◌∙◌, ◌∷◌, ◌≡◌, ◌≤◌,
}
use roci.Base.Eq.{Text, text_eq}
use roci.Base.Lists.{drop, drop-drop, length, length-drop, length-take, take, take-append-drop}
use roci.Base.Word.{from_le}
use roci.Storage.Wal.{Checksum, HmacKey, hmac_extra, key_accepts, read_record}

-- The tag behind a payload: none without a key, and with one 32 bytes that it verifies.
abbrev pub IsTagged : Option HmacKey → Text → Text → Type 0
IsTagged none payload tag_text = tag_text ≡ []
IsTagged (some key) payload tag_text = (length tag_text ≡ 32) × (key.verify payload tag_text ≡ true)

module _ (c : Checksum) (key : Option HmacKey) where
  -- Four bytes of length and four of checksum, the payload, and its tag.
  abbrev pub IsRecord : Text → Text → Text → Type 0
  IsRecord bytes payload rest =
      (size_bytes : Text) × (sum_bytes : Text) × (tag_text : Text) × (bytes
        ≡ size_bytes ++ (sum_bytes ++ (payload ++ (tag_text ++ rest))))
      × (length size_bytes ≡ 4)
      × (length sum_bytes ≡ 4)
      × (from_le size_bytes ≡ length payload)
      × (from_le sum_bytes ≡ c.crc32c payload)
      × IsTagged key payload tag_text

  -- The bytes begin with records of these payloads, one behind the other.
  abbrev pub AreRecords : Text → List Text → Type 0
  AreRecords bytes [] = Unit {0}
  AreRecords bytes (p ∷ ps) = (rest : Text) × IsRecord bytes p rest × AreRecords rest ps

from_le-append : (s t : Text) → 4 ≤ length s → from_le (s ++ t) ≡ from_le s
unfolding from_le
from_le-append [] t h = absurd (omega arith)
from_le-append (a ∷ []) t h = absurd (omega arith)
from_le-append (a ∷ b ∷ []) t h = absurd (omega arith)
from_le-append (a ∷ b ∷ d ∷ []) t h = absurd (omega arith)
from_le-append (a ∷ b ∷ d ∷ e ∷ s) t h = refl

-- The first four bytes, of at least four, are all that `from_le` reads.
from_le-take : (s : Text) → 4 ≤ length s → from_le (take 4 s) ≡ from_le s
from_le-take s h =
    sym (from_le-append (take 4 s) (drop 4 s) (omega (arith, length-take 4 s)))
    ∙ ap from_le (take-append-drop 4 s)

cut : (n k : ℕ) (bytes : Text) → drop n bytes ≡ take k (drop n bytes) ++ drop (n + k) bytes
cut n k bytes =
    sym (take-append-drop k (drop n bytes))
    ∙ ap (λ s. take k (drop n bytes) ++ s) (drop-drop n k bytes)

-- Bytes cut into five pieces.
pieces :
    (n m : ℕ) (bytes : Text)
    → bytes
      ≡ take 4 bytes
        ++ (take 4 (drop 4 bytes)
            ++ (take n (drop 8 bytes) ++ (take m (drop (8 + n) bytes) ++ drop (8 + n + m) bytes)))
pieces n m bytes =
    cut 0 4 bytes
    ∙ ap (λ s. take 4 bytes ++ s)
        (cut 4 4 bytes
          ∙ ap (λ s. take 4 (drop 4 bytes) ++ s)
              (cut 8 n bytes ∙ ap (λ s. take n (drop 8 bytes) ++ s) (cut (8 + n) m bytes)))

accepted-IsTagged :
    (key : Option HmacKey) (payload behind : Text)
    → hmac_extra key ≤ length behind
    → key_accepts key payload (take (hmac_extra key) behind) ≡ true
    → IsTagged key payload (take (hmac_extra key) behind)
unfolding key_accepts
accepted-IsTagged none payload behind enough h = refl
accepted-IsTagged (some key) payload behind enough h = (omega (arith, length-take 32 behind), h)

-- What is read is a record of the layout, and it takes eight bytes at least.
pub read_record-eq-some :
    (c : Checksum) (key : Option HmacKey) (bytes payload rest : Text)
    → read_record c key bytes ≡ some (payload, rest)
    → (8 + length rest ≤ length bytes) × IsRecord c key bytes payload rest
unfolding read_record
read_record-eq-some c key bytes payload rest h =
    let n = from_le bytes in
    let m = hmac_extra key in
    let eight : 8 ≤ length bytes = ground arith in
    let whole : 8 + n + m ≤ length bytes = ground arith in
    let content : payload ≡ take n (drop 8 bytes) = ground arith in
    let behind : rest ≡ drop (8 + n + m) bytes = ground arith in
    let summed : c.crc32c (take n (drop 8 bytes)) ≡ from_le (drop 4 bytes) = ground arith in
    let accepted : key_accepts key (take n (drop 8 bytes)) (take m (drop (8 + n) bytes)) ≡ true =
      ground arith in
    let behind_length = length-drop (8 + n) bytes in
    let content_length : n ≡ length (take n (drop 8 bytes)) =
      omega (arith, length-take n (drop 8 bytes), length-drop 8 bytes) in
    rw (content, behind)
      (
        omega (arith, length-drop (8 + n + m) bytes),
        (
          take 4 bytes,
          take 4 (drop 4 bytes),
          take m (drop (8 + n) bytes),
          pieces n m bytes,
          omega (arith, length-take 4 bytes),
          omega (arith, length-take 4 (drop 4 bytes), length-drop 4 bytes),
          from_le-take bytes (omega arith) ∙ content_length,
          from_le-take (drop 4 bytes) (omega (arith, length-drop 4 bytes)) ∙ sym summed,
          accepted-IsTagged key _ (drop (8 + n) bytes) (omega (arith, behind_length)) accepted,
        ),
      )
