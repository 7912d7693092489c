-- ===== src/Storage/Digest/Laws.antt =====
-- crates/roci-storage/src/digest.rs: what a parsed digest is, and that printing it parses back.
use roci.Base.{
  Bool, [], ap, arith, inl, inr, map, refl, some, suc, true, ℕ, ◌&&◌, ◌++◌, ◌||◌, ◌↔◌, ◌∷◌, ◌≡◌,
  ◌⊎◌,
}
use roci.Base.Bits.{diff_bytes-eq-zero, diff_bytes_self}
use roci.Base.Eq.{Text, text_beq_iff, text_eq}
use roci.Base.Lists.{all, length}
use roci.Base.Result.{ok}
use roci.Base.Tests.{Option-cases, and-eq-true, leb, nat_beq_iff}
use roci.Base.Text.{
  IsFree, ascii_lower, is_digit, split_once, split_once-IsFree, split_once-eq-some,
}
use roci.Storage.Digest.{Digest, as_string, ct_eq, is_hex_digit, ok_len, parse, sha256, sha512}

abbrev pub is_lower_hex : ℕ → Bool
is_lower_hex c = is_digit c || (leb b'a' c && leb c b'f')

-- A canonical digest: a registered algorithm, its number of digits, all lower-case hex.
pub record IsCanonical (d : Digest) : Type 0 where
  pub length_fits : ok_len d.algorithm ≡ some (length d.hex)
  pub all_hex : all is_lower_hex d.hex ≡ true

length-map : (f : ℕ → ℕ) (s : Text) → length (map f s) ≡ length s
length-map f [] = refl
length-map f (c ∷ s) = ap suc (length-map f s)

lower_hex : (c : ℕ) → is_hex_digit c ≡ true → is_lower_hex (ascii_lower c) ≡ true
unfolding is_hex_digit
lower_hex c h = ground arith

all_lower_hex : (s : Text) → all is_hex_digit s ≡ true → all is_lower_hex (map ascii_lower s) ≡ true
all_lower_hex [] h = refl
all_lower_hex (c ∷ s) h =
    let (first, rest) = and-eq-true (is_hex_digit c) (all is_hex_digit s) h in
    rw (lower_hex c first, all_lower_hex s rest)

hex_of_lower : (c : ℕ) → is_lower_hex c ≡ true → (is_hex_digit c ≡ true) × (ascii_lower c ≡ c)
unfolding is_hex_digit
hex_of_lower c h = ground arith

all_hex_of_lower :
    (s : Text) → all is_lower_hex s ≡ true → (all is_hex_digit s ≡ true) × (map ascii_lower s ≡ s)
all_hex_of_lower [] h = (refl, refl)
all_hex_of_lower (c ∷ s) h =
    let (first, rest) = and-eq-true (is_lower_hex c) (all is_lower_hex s) h in
    let (hex, same) = hex_of_lower c first in
    let (hexes, sames) = all_hex_of_lower s rest in (rw (hex, hexes), rw (same, sames))

-- What `parse` accepts, spelled out: the text is an algorithm, a colon and the right number of hex
-- digits, and the digest holds them in lower case.
pub parse-eq-ok :
    (s : Text) (d : Digest)
    → parse s ≡ ok d
    → (hex : Text) × (s ≡ d.algorithm ++ b':' ∷ hex)
      × (d.hex ≡ map ascii_lower hex)
      × (ok_len d.algorithm ≡ some (length hex))
      × (all is_hex_digit hex ≡ true)
unfolding parse
parse-eq-ok s d h = elim (Option-cases (split_once b':' s)) [
  | inl missing ↦ ground arith
  | inr ((algorithm, hex), found) ↦ elim (Option-cases (ok_len algorithm)) [
    | inl no_such ↦ ground arith
    | inr (n, known) ↦
        let (text, _) = split_once-eq-some b':' s algorithm hex found in
        (hex, ground arith, ground arith, ground arith, ground arith)
  ]
]

-- Whatever `parse` returns is canonical.
pub parse-IsCanonical : (s : Text) (d : Digest) → parse s ≡ ok d → IsCanonical d
parse-IsCanonical s d h =
    let (hex, text, lowered, fits, hexes) = parse-eq-ok s d h in
    record {
      length_fits = rw (lowered, length-map ascii_lower hex) fits;
      all_hex = rw lowered (all_lower_hex hex hexes);
    }

pub registered : (a : Text) (n : ℕ) → ok_len a ≡ some n → (a ≡ sha256) ⊎ (a ≡ sha512)
unfolding ok_len
registered a n h = ground (arith, text_beq_iff a sha256, text_beq_iff a sha512)

registered-IsFree : (a : Text) (n : ℕ) → ok_len a ≡ some n → IsFree b':' a
registered-IsFree a n h = elim (registered a n h) [
  | inl e ↦ rw e (omega arith)
  | inr e ↦ rw e (omega arith)
]

-- Parsing what a canonical digest prints gives the digest back.
pub parse-as_string : (d : Digest) → IsCanonical d → parse (as_string d) ≡ ok d
unfolding parse as_string
parse-as_string d c =
    let free = registered-IsFree d.algorithm (length d.hex) c.length_fits in
    let (hexes, same) = all_hex_of_lower d.hex c.all_hex in
    ground (arith, split_once-IsFree b':' d.algorithm d.hex free, c.length_fits, hexes, same)

-- No slash and no NUL stands in a canonical digest, so it is one path component.
lower_hex-IsFree : (s : Text) → all is_lower_hex s ≡ true → IsFree b'/' s
lower_hex-IsFree [] h = tt
lower_hex-IsFree (c ∷ s) h =
    let (first, rest) = and-eq-true (is_lower_hex c) (all is_lower_hex s) h in
    (ground arith, lower_hex-IsFree s rest)

IsFree-append : (sep : ℕ) (a b : Text) → IsFree sep a → IsFree sep b → IsFree sep (a ++ b)
IsFree-append sep [] b h k = k
IsFree-append sep (c ∷ a) b h k = (h.0, IsFree-append sep a b h.1 k)

-- The printed form of a canonical digest holds no slash: it is one path component.
pub as_string-IsFree : (d : Digest) → IsCanonical d → IsFree b'/' (as_string d)
unfolding as_string
as_string-IsFree d c =
    IsFree-append b'/' d.algorithm (b':' ∷ d.hex)
      (elim (registered d.algorithm (length d.hex) c.length_fits) [
        | inl e ↦ rw e (omega arith)
        | inr e ↦ rw e (omega arith)
      ])
      (omega arith, lower_hex-IsFree d.hex c.all_hex)

-- The comparison in constant time answers true exactly on equal digests.
pub ct_eq_iff : (d e : Digest) → (ct_eq d e ≡ true) ↔ (d ≡ e)
unfolding ct_eq
ct_eq_iff d e = (
  λ h. ground (
    arith,
    text_beq_iff d.algorithm e.algorithm,
    diff_bytes-eq-zero 0 d.hex e.hex,
    nat_beq_iff (length d.hex) (length e.hex),
  ),
  λ h. rw h (ground (arith, text_beq_iff e.algorithm e.algorithm, diff_bytes_self e.hex)),
)
