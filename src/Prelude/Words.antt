-- ===== src/Prelude/Words.antt =====
-- Bit masks: `1 << i`, `|` and the test `(mask & (1 << i)) != 0`, with the laws that the tactics
-- do not know. The masks of the program stay below `2 ^ 26`, so no bit reaches the sign of an int.
use Prim.Native.Nat.{
  ℕ, zero, suc, ◌+◌, ◌*◌, ◌/◌, ◌%◌, ◌^◌, ◌≤◌, min, max, bit_and, bit_or, digits, bit_and-bitwise,
  bit_or-bitwise,
}
use mathlib.Core.Path.{◌≡◌, refl, ap}
use mathlib.Core.Bool.{Bool, false, not, ◌||◌}
use native.Mathlib.Omega.{arith}
use native.Mathlib.Nat.{pow-suc}
use distiller_fs.Prelude.Tests.{◌==◌, if◌then◌else◌}

-- The recursion on binary digits by which the library explains the native operations does not
-- depend on its fuel, once there is enough of it.
digits_agree :
    (base : ℕ → ℕ) (op : ℕ → ℕ → ℕ) (a n m b : ℕ)
    → a ≤ n
    → a ≤ m
    → digits base op n a b ≡ digits base op m a b
digits_agree base op (suc a) (suc n) (suc m) b p q =
    omega (arith, digits_agree base op (suc a / 2) n m (b / 2) (omega arith) (omega arith))
digits_agree base op zero zero zero b p q = refl
digits_agree base op zero zero (suc m) b p q = refl
digits_agree base op zero (suc n) zero b p q = refl
digits_agree base op zero (suc n) (suc m) b p q = refl
digits_agree base op (suc a) zero m b p q = absurd (omega arith)
digits_agree base op (suc a) (suc n) zero b p q = absurd (omega arith)

pub bit_and_step : (a b : ℕ) → bit_and a b ≡ bit_and (a / 2) (b / 2) * 2 + min (a % 2) (b % 2)
bit_and_step zero b = omega (arith, bit_and-bitwise 0 b, bit_and-bitwise 0 (b / 2))
bit_and_step (suc a) b =
    let half = suc a / 2 in
    omega (
      arith,
      bit_and-bitwise (suc a) b,
      bit_and-bitwise half (b / 2),
      digits_agree (λ _. 0) min half a half (b / 2) (omega arith) (omega arith),
    )

bit_or_step : (a b : ℕ) → bit_or a b ≡ bit_or (a / 2) (b / 2) * 2 + max (a % 2) (b % 2)
bit_or_step zero b = omega (arith, bit_or-bitwise 0 b, bit_or-bitwise 0 (b / 2))
bit_or_step (suc a) b =
    let half = suc a / 2 in
    omega (
      arith,
      bit_or-bitwise (suc a) b,
      bit_or-bitwise half (b / 2),
      digits_agree (λ y. y) max half a half (b / 2) (omega arith) (omega arith),
    )

-- The binary digit `i` of `a`.
unfoldable pub bit : ℕ → ℕ → ℕ
bit a zero = a % 2
bit a (suc i) = bit (a / 2) i

pub bit_le_one : (a i : ℕ) → bit a i ≤ 1
unfolding bit
bit_le_one a zero = omega arith
bit_le_one a (suc i) = bit_le_one (a / 2) i

pub bit_and-zero : (n a : ℕ) → a ≤ n → bit_and a 0 ≡ 0
bit_and-zero n zero h = refl
bit_and-zero zero (suc a) h = absurd (omega arith)
bit_and-zero (suc n) (suc a) h =
    omega (arith, bit_and_step (suc a) 0, bit_and-zero n (suc a / 2) (omega arith))

half-two_pow : (i : ℕ) → 2 ^ suc i / 2 ≡ 2 ^ i
half-two_pow i = omega (arith, pow-suc 2 i)

pub two_pow_pos : (i : ℕ) → 1 ≤ 2 ^ i
two_pow_pos zero = omega arith
two_pow_pos (suc i) = omega (arith, pow-suc 2 i, two_pow_pos i)

-- Masking with one bit keeps that digit, in its place.
pub bit_and-two_pow : (a i : ℕ) → bit_and a (2 ^ i) ≡ bit a i * 2 ^ i
unfolding bit
bit_and-two_pow a zero = omega (arith, bit_and_step a 1, bit_and-zero (a / 2) (a / 2) (omega arith))
bit_and-two_pow a (suc i) =
    let step = rw (half-two_pow i) at (bit_and_step a (2 ^ suc i)) in
    omega (
      arith,
      pow-suc 2 i,
      step,
      bit_and-two_pow (a / 2) i,
      ap (λ (t : ℕ). bit (a / 2) i * t) (pow-suc 2 i),
    )

half-bit_or : (a b : ℕ) → bit_or a b / 2 ≡ bit_or (a / 2) (b / 2)
half-bit_or a b = omega (arith, bit_or_step a b)

pub bit-bit_or : (a b i : ℕ) → bit (bit_or a b) i ≡ max (bit a i) (bit b i)
unfolding bit
bit-bit_or a b zero = omega (arith, bit_or_step a b)
bit-bit_or a b (suc i) = rw (half-bit_or a b) (bit-bit_or (a / 2) (b / 2) i)

pub bit-zero : (j : ℕ) → bit 0 j ≡ 0
unfolding bit
bit-zero zero = refl
bit-zero (suc j) = bit-zero j

pub bit-two_pow : (i j : ℕ) → bit (2 ^ i) j ≡ (if i == j then 1 else 0)
unfolding bit
bit-two_pow zero zero = refl
bit-two_pow zero (suc j) = ground (arith, bit-zero j)
bit-two_pow (suc i) zero = ground (arith, pow-suc 2 i)
bit-two_pow (suc i) (suc j) = rw (half-two_pow i) (ground (arith, bit-two_pow i j))

-- The test `(mask & (1 << i)) != 0`.
abbrev pub has_bit : ℕ → ℕ → Bool
has_bit mask i = not (bit_and mask (2 ^ i) == 0)

digit_test : (d p : ℕ) → d ≤ 1 → 1 ≤ p → not (d * p == 0) ≡ (d == 1)
digit_test zero p h k = ground arith
digit_test (suc zero) p h k = ground arith
digit_test (suc (suc d)) p h k = absurd (omega arith)

has_bit-eq-bit : (a i : ℕ) → has_bit a i ≡ (bit a i == 1)
has_bit-eq-bit a i =
    rw (bit_and-two_pow a i) (digit_test (bit a i) (2 ^ i) (bit_le_one a i) (two_pow_pos i))

pub has_bit-bit_or : (a b i : ℕ) → has_bit (bit_or a b) i ≡ (has_bit a i || has_bit b i)
has_bit-bit_or a b i =
    rw (has_bit-eq-bit (bit_or a b) i, has_bit-eq-bit a i, has_bit-eq-bit b i)
      (ground (arith, bit-bit_or a b i, bit_le_one a i, bit_le_one b i))

pub has_bit-two_pow : (i j : ℕ) → has_bit (2 ^ i) j ≡ (i == j)
has_bit-two_pow i j = rw (has_bit-eq-bit (2 ^ i) j) (ground (arith, bit-two_pow i j))

pub has_bit-zero : (j : ℕ) → has_bit 0 j ≡ false
has_bit-zero j = rw (has_bit-eq-bit 0 j) (ground (arith, bit-zero j))

-- A number is known by its digits.
bit_ext : (n a b : ℕ) → a ≤ n → b ≤ n → ((i : ℕ) → bit a i ≡ bit b i) → a ≡ b
unfolding bit
bit_ext zero a b la lb same = omega (arith, la, lb)
bit_ext (suc n) a b la lb same =
    let halves =
      bit_ext n (a / 2) (b / 2) (omega (arith, la)) (omega (arith, lb)) (λ i. same (suc i)) in
    omega (arith, same 0, halves)

pub bit_or_comm : (a b : ℕ) → bit_or a b ≡ bit_or b a
bit_or_comm a b =
    bit_ext (bit_or a b + bit_or b a) _ _ (omega arith) (omega arith)
      (λ i. ground (arith, bit-bit_or a b i, bit-bit_or b a i))

-- The order in which bits are set does not matter.
pub bit_or_swap : (a b c : ℕ) → bit_or (bit_or a b) c ≡ bit_or (bit_or a c) b
bit_or_swap a b c =
    bit_ext (bit_or (bit_or a b) c + bit_or (bit_or a c) b) _ _ (omega arith) (omega arith) (λ i.
      ground (
        arith,
        bit-bit_or (bit_or a b) c i,
        bit-bit_or a b i,
        bit-bit_or (bit_or a c) b i,
        bit-bit_or a c i,
      ))
