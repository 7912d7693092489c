-- ===== src/Base/Bits.antt =====
-- `|` and `^` of words: when they give zero.
use Prim.Native.Nat.{bit_or, bit_or-bitwise, bit_xor, bit_xor-bitwise, differ, digits}
use native.Mathlib.Nat.{le_refl}
use roci.Base.{[], arith, max, refl, suc, sym, zero, ℕ, ◌%◌, ◌/◌, ◌<◌, ◌∙◌, ◌∷◌, ◌≡◌, ◌≤◌}
use roci.Base.Eq.{Text, text_eq}
use roci.Base.Lists.{length}

or_digits-eq-zero : (n a b : ℕ) → a ≤ n → digits (λ c. c) max n a b ≡ 0 → (a ≡ 0) × (b ≡ 0)
or_digits-eq-zero zero a b le h = omega arith
or_digits-eq-zero (suc n) zero b le h = omega arith
or_digits-eq-zero (suc n) (suc a) b le h =
    omega (arith, or_digits-eq-zero n (suc a / 2) (b / 2) (omega arith) (omega arith))

xor_digits-eq-zero : (n a b : ℕ) → a ≤ n → digits (λ c. c) differ n a b ≡ 0 → a ≡ b
xor_digits-eq-zero zero a b le h = omega arith
xor_digits-eq-zero (suc n) zero b le h = omega arith
xor_digits-eq-zero (suc n) (suc a) b le h = ground (arith, xor_digits-eq-zero n (suc a / 2) (b / 2))

differ_self : (n : ℕ) → n < 2 → differ n n ≡ 0
differ_self zero h = refl
differ_self (suc zero) h = refl
differ_self (suc (suc n)) h = absurd (omega arith)

xor_digits_self : (n a : ℕ) → a ≤ n → digits (λ c. c) differ n a a ≡ 0
xor_digits_self zero a le = omega arith
xor_digits_self (suc n) zero le = refl
xor_digits_self (suc n) (suc a) le =
    omega
      (arith, xor_digits_self n (suc a / 2) (omega arith), differ_self (suc a % 2) (omega arith))

pub bit_or-eq-zero : (a b : ℕ) → bit_or a b ≡ 0 → (a ≡ 0) × (b ≡ 0)
bit_or-eq-zero a b h = or_digits-eq-zero a a b (le_refl a) (sym (bit_or-bitwise a b) ∙ h)

pub bit_xor-eq-zero : (a b : ℕ) → bit_xor a b ≡ 0 → a ≡ b
bit_xor-eq-zero a b h = xor_digits-eq-zero a a b (le_refl a) (sym (bit_xor-bitwise a b) ∙ h)

pub bit_xor_self : (a : ℕ) → bit_xor a a ≡ 0
bit_xor_self a = bit_xor-bitwise a a ∙ xor_digits_self a a (le_refl a)

-- The loop of a comparison in constant time: the accumulator collects the differing bits.
unfoldable pub diff_bytes : ℕ → Text → Text → ℕ
diff_bytes diff (a ∷ xs) (b ∷ ys) = diff_bytes (bit_or diff (bit_xor a b)) xs ys
diff_bytes diff _ _ = diff

pub diff_bytes-eq-zero :
    (diff : ℕ) (xs ys : Text)
    → length xs ≡ length ys
    → diff_bytes diff xs ys ≡ 0
    → (diff ≡ 0) × (xs ≡ ys)
unfolding diff_bytes
diff_bytes-eq-zero diff [] [] same h = (h, refl)
diff_bytes-eq-zero diff [] (b ∷ ys) same h = absurd (omega arith)
diff_bytes-eq-zero diff (a ∷ xs) [] same h = absurd (omega arith)
diff_bytes-eq-zero diff (a ∷ xs) (b ∷ ys) same h =
    let (head, rest) = diff_bytes-eq-zero (bit_or diff (bit_xor a b)) xs ys (omega arith) h in
    let (zero_diff, zero_xor) = bit_or-eq-zero diff (bit_xor a b) head in
    (zero_diff, cc (bit_xor-eq-zero a b zero_xor))

pub diff_bytes_self : (xs : Text) → diff_bytes 0 xs xs ≡ 0
unfolding diff_bytes
diff_bytes_self [] = refl
diff_bytes_self (a ∷ xs) = rw (bit_xor_self a) (diff_bytes_self xs)
