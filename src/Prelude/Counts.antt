-- ===== src/Prelude/Counts.antt =====
-- How many numbers below a bound pass a test.
use Prim.Native.Nat.{ℕ, zero, suc, ◌≤◌, ◌<◌}
use mathlib.Core.Path.{◌≡◌, refl, ap}
use mathlib.Core.Logic.{◌≢◌, inl, inr}
use mathlib.Core.Bool.{Bool, true, false}
use native.Mathlib.Omega.{arith}
use distiller_fs.Prelude.Tests.{◌==◌, Bool-cases, if◌then◌else◌}

unfoldable pub count : (ℕ → Bool) → ℕ → ℕ
count p zero = 0
count p (suc n) = let rest = count p n in if p n then suc rest else rest

pub count-le : (p : ℕ → Bool) (n : ℕ) → count p n ≤ n
unfolding count
count-le p zero = omega arith
count-le p (suc n) = ground (arith, count-le p n)

-- Where not all pass, there is one that does not.
pub count-lt : (p : ℕ → Bool) (n : ℕ) → count p n < n → (i : ℕ) × (i < n) × (p i ≡ false)
unfolding count
count-lt p zero h = absurd (omega (arith, h))
count-lt p (suc n) h = elim (Bool-cases (p n)) [
  | inl passes ↦
      let (i, low, e) = count-lt p n (ground (arith, passes, h)) in (i, omega (arith, low), e)
  | inr fails ↦ (n, omega arith, fails)
]

pub count-same : (p q : ℕ → Bool) (n : ℕ) → ((i : ℕ) → i < n → p i ≡ q i) → count p n ≡ count q n
unfolding count
count-same p q zero h = refl
count-same p q (suc n) h =
    ground (arith, h n (omega arith), count-same p q n (λ i low. h i (omega (arith, low))))

pub count_mono :
    (p q : ℕ → Bool) (n : ℕ) → ((i : ℕ) → p i ≡ true → q i ≡ true) → count p n ≤ count q n
unfolding count
count_mono p q zero h = omega arith
count_mono p q (suc n) h = ground (arith, h n, count_mono p q n h)

-- One more passes.
pub count-more :
    (p q : ℕ → Bool) (n x : ℕ)
    → x < n
    → ((i : ℕ) → i ≢ x → p i ≡ q i)
    → p x ≡ false
    → q x ≡ true
    → count q n ≡ suc (count p n)
unfolding count
count-more p q zero x low same no_x yes_x = absurd (omega (arith, low))
count-more p q (suc n) x low same no_x yes_x = elim (Bool-cases (n == x)) [
  | inl last ↦
      let at : n ≡ x = ground arith in
      let below = count-same p q n (λ i h. same i (omega (arith, at, h))) in
      ground (arith, ap p at, ap q at, below, no_x, yes_x)
  | inr other ↦
      let ne : n ≢ x = ground arith in
      ground (arith, same n ne, count-more p q n x (omega (arith, low, ne)) same no_x yes_x)
]
