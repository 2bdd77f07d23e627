-- ===== src/Khash/Positions.antt =====
-- The bucket of each try of a loop of src/khash.h, as the code computes it: `& mask` on a sum that
-- wraps at `2 ^ 32`, in a table of at most `2 ^ 31` buckets.
use distiller_fs.Prelude.{
  ℕ, suc, ◌+◌, ◌-◌, ◌%◌, ◌^◌, ◌≤◌, ◌<◌, ◌≡◌, sym, ap, ◌∙◌, arith, Bool-cases, ◌==◌, inl, inr,
  bit_and, bit_and-ones, two_pow_pos, two_pow-lt,
}
use native.Mathlib.Nat.{mod-lt, mod-eq_of_lt, mod-add-mod, add-mod-mod, add-mod_right}
use distiller_fs.Khash.Probe.{tri, tri_reaches, tri-injective}
use distiller_fs.Khash.Table.{u32, kh_mask, next_step, advance}

-- The bucket of try `j` from the bucket `i`.
unfoldable pub pos : ℕ → ℕ → ℕ → ℕ
pos m i j = (i + tri j) % 2 ^ m

pub two_pow-le : (m : ℕ) → m ≤ 31 → 2 ^ m ≤ 2 ^ 31
two_pow-le m h = elim (Bool-cases (m == 31)) [
  | inl top ↦ let same : m ≡ 31 = ground arith in rw same (omega arith)
  | inr low ↦ omega (arith, two_pow-lt m 31 (ground arith))
]

module _ (m : ℕ) (m_le : m ≤ 31) where
  pub kh_mask-two_pow : kh_mask (2 ^ m) ≡ 2 ^ m - 1
  kh_mask-two_pow = omega (arith, two_pow_pos m, two_pow-le m m_le)

  -- `k & mask`
  pub first_bucket : (k : ℕ) → bit_and k (kh_mask (2 ^ m)) ≡ k % 2 ^ m
  first_bucket k = ap (bit_and k) kh_mask-two_pow ∙ bit_and-ones m k

  module _ (i : ℕ) (small : i < 2 ^ m) where
    pub pos-zero : pos m i 0 ≡ i
    unfolding pos tri
    pos-zero = ap (λ (t : ℕ). t % 2 ^ m) (omega arith) ∙ mod-eq_of_lt small

    pub pos-lt : (j : ℕ) → pos m i j < 2 ^ m
    unfolding pos
    pos-lt j = mod-lt (i + tri j) (two_pow_pos m)

    pub next_step_lem : (j : ℕ) → j < 2 ^ m → next_step j ≡ suc j
    next_step_lem j h = omega (arith, h, two_pow-le m m_le)

    pub advance-pos :
        (j : ℕ) → j < 2 ^ m → advance (kh_mask (2 ^ m)) (pos m i j) j ≡ pos m i (suc j)
    unfolding advance pos tri
    advance-pos j h =
        let p = (i + tri j) % 2 ^ m in
        let sum : u32 (p + next_step j) ≡ p + suc j =
          omega (arith, h, two_pow-le m m_le, mod-lt (i + tri j) (two_pow_pos m)) in
        first_bucket (u32 (p + next_step j))
        ∙ (ap (λ (t : ℕ). t % 2 ^ m) sum
            ∙ (mod-add-mod (i + tri j) (2 ^ m) (suc j) ∙ ap (λ (t : ℕ). t % 2 ^ m) (omega arith)))

    pub pos-reaches : (e : ℕ) → e < 2 ^ m → (j : ℕ) × (j < 2 ^ m) × (pos m i j ≡ e)
    unfolding pos
    pos-reaches e h =
        let n = 2 ^ m in
        let (j, low, at) =
          tri_reaches m ((e + (n - i)) % n) (mod-lt (e + (n - i)) (two_pow_pos m)) in
        let back : i + (e + (n - i)) ≡ e + n = omega (arith, small) in
        (
          j,
          low,
          sym (add-mod-mod i (tri j) n)
              ∙ (ap (λ (t : ℕ). (i + t) % n) at
                  ∙ (add-mod-mod i (e + (n - i)) n
                      ∙ (ap (λ (t : ℕ). t % n) back ∙ (add-mod_right e n ∙ mod-eq_of_lt h)))),
        )

    tri-pos : (j : ℕ) → (pos m i j + (2 ^ m - i)) % 2 ^ m ≡ tri j % 2 ^ m
    unfolding pos
    tri-pos j =
        let n = 2 ^ m in
        let back : i + tri j + (n - i) ≡ tri j + n = omega (arith, small) in
        mod-add-mod (i + tri j) n (n - i) ∙ (ap (λ (t : ℕ). t % n) back ∙ add-mod_right (tri j) n)

    pub pos-injective : (a b : ℕ) → a < 2 ^ m → b < 2 ^ m → pos m i a ≡ pos m i b → a ≡ b
    pos-injective a b ha hb e =
        tri-injective m a b ha hb
          (sym (tri-pos a) ∙ (ap (λ (t : ℕ). (t + (2 ^ m - i)) % 2 ^ m) e ∙ tri-pos b))
