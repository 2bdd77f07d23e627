-- ===== src/Prelude/Digits.antt =====
-- More on binary digits: of `&`, of a shifted word, of the complement `~m` in 64 bits, and of the
-- low digits that `& (2 ^ m - 1)` keeps.
use Prim.Native.Nat.{ℕ, zero, suc, ◌+◌, ◌-◌, ◌*◌, ◌/◌, ◌%◌, ◌^◌, ◌<◌, min, bit_and}
use mathlib.Core.Path.{◌≡◌, refl, ap, ◌∙◌, sym}
use native.Mathlib.Omega.{arith}
use native.Mathlib.Nat.{
  pow-suc, pow-succ', div-add-mod', mod-lt, mod-eq_of_lt, mul_assoc, add-mul-mod_self_right,
  div-div-eq-div-mul,
}
use distiller_fs.Prelude.Words.{bit, bit_le_one, bit_and_step, two_pow_pos, bit_and-zero, bit-zero}
use distiller_fs.Prelude.Tests.{◌==◌, if◌then◌else◌}

half-bit_and : (a b : ℕ) → bit_and a b / 2 ≡ bit_and (a / 2) (b / 2)
half-bit_and a b = omega (arith, bit_and_step a b)

pub bit-bit_and : (a b i : ℕ) → bit (bit_and a b) i ≡ min (bit a i) (bit b i)
unfolding bit
bit-bit_and a b zero = omega (arith, bit_and_step a b)
bit-bit_and a b (suc i) = rw (half-bit_and a b) (bit-bit_and (a / 2) (b / 2) i)

half-complement : (n a : ℕ) → a < 2 ^ suc n → (2 ^ suc n - 1 - a) / 2 ≡ 2 ^ n - 1 - a / 2
half-complement n a h = omega (arith, pow-suc 2 n)

-- The digits of `2 ^ n - 1 - a`, which is the complement of `a` in `n` bits.
pub bit-complement : (n a i : ℕ) → a < 2 ^ n → i < n → bit (2 ^ n - 1 - a) i + bit a i ≡ 1
unfolding bit
bit-complement zero a i h below = absurd (omega arith)
bit-complement (suc n) a zero h below = omega (arith, pow-suc 2 n)
bit-complement (suc n) a (suc i) h below =
    rw (half-complement n a h)
      (bit-complement n (a / 2) i (omega (arith, pow-suc 2 n)) (omega arith))

-- A digit of a word shifted to the right.
pub bit-shift : (s a i : ℕ) → bit (a / 2 ^ s) i ≡ bit a (s + i)
unfolding bit
bit-shift zero a i =
    let whole : a / 2 ^ 0 ≡ a = omega arith in
    let same : i ≡ 0 + i = omega arith in ap (λ (x : ℕ). bit x i) whole ∙ ap (bit a) same
bit-shift (suc s) a i =
    let halves : a / 2 ^ suc s ≡ a / 2 / 2 ^ s =
      rw (pow-succ' 2 s) (sym (div-div-eq-div-mul a 2 (2 ^ s))) in
    let same : suc (s + i) ≡ suc s + i = omega arith in
    ap (λ (x : ℕ). bit x i) halves ∙ (bit-shift s (a / 2) i ∙ ap (bit a) same)

mod-double : (a p : ℕ) → 0 < p → a % (p * 2) ≡ a / 2 % p * 2 + a % 2
mod-double a p h =
    let q = a / 2 / p in
    let r = a / 2 % p in
    let split : a ≡ r * 2 + a % 2 + q * (p * 2) =
      omega (arith, div-add-mod' (a / 2) p, mul_assoc q p 2) in
    let small : r * 2 + a % 2 < p * 2 = omega (arith, mod-lt (a / 2) h) in
    ap (λ (x : ℕ). x % (p * 2)) split
    ∙ (add-mul-mod_self_right (r * 2 + a % 2) q (p * 2) ∙ mod-eq_of_lt small)

-- Masking with `2 ^ m - 1` keeps the lowest `m` digits.
pub bit_and-ones : (m a : ℕ) → bit_and a (2 ^ m - 1) ≡ a % 2 ^ m
bit_and-ones zero a = omega (arith, bit_and-zero a a (omega arith))
bit_and-ones (suc m) a =
    let half : (2 ^ suc m - 1) / 2 ≡ 2 ^ m - 1 = omega (arith, pow-suc 2 m, two_pow_pos m) in
    let odd : (2 ^ suc m - 1) % 2 ≡ 1 = omega (arith, pow-suc 2 m, two_pow_pos m) in
    let step = rw half at (bit_and_step a (2 ^ suc m - 1)) in
    omega (
      arith,
      step,
      bit_and-ones m (a / 2),
      mod-double a (2 ^ m) (two_pow_pos m),
      pow-suc 2 m,
      odd,
      ap (λ (t : ℕ). a % t) (pow-suc 2 m),
    )

-- The digits of `3 * 2 ^ p`.
pub bit-three : (p k : ℕ) → bit (3 * 2 ^ p) k ≡ (if p == k then 1 else if suc p == k then 1 else 0)
unfolding bit
bit-three zero zero = refl
bit-three zero (suc zero) = refl
bit-three zero (suc (suc k)) = ground (arith, bit-zero k)
bit-three (suc p) zero = ground (arith, pow-suc 2 p)
bit-three (suc p) (suc k) =
    let half : 3 * 2 ^ suc p / 2 ≡ 3 * 2 ^ p = omega (arith, pow-suc 2 p) in
    ap (λ (x : ℕ). bit x k) half ∙ ground (arith, bit-three p k)

pub two_pow-lt : (m n : ℕ) → m < n → 2 ^ m < 2 ^ n
two_pow-lt zero (suc n) h = omega (arith, pow-suc 2 n, two_pow_pos n)
two_pow-lt (suc m) (suc n) h = omega (arith, pow-suc 2 n, pow-suc 2 m, two_pow-lt m n (omega arith))
two_pow-lt m zero h = absurd (omega arith)

-- `w & ~x` clears the digits of `x`.
pub bit-clear :
    (n w x k : ℕ)
    → x < 2 ^ n
    → k < n
    → bit (bit_and w (2 ^ n - 1 - x)) k ≡ (if bit x k == 1 then 0 else bit w k)
bit-clear n w x k small below = ground (
  arith,
  bit-bit_and w (2 ^ n - 1 - x) k,
  bit-complement n x k small below,
  bit_le_one x k,
  bit_le_one w k,
)

-- The two lowest digits.
pub mod_four : (a : ℕ) → a % 4 ≡ bit a 0 + 2 * bit a 1
unfolding bit
mod_four a = omega arith
