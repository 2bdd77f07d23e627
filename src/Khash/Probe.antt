-- ===== src/Khash/Probe.antt =====
-- The order in which the loops of src/khash.h try the buckets: by steps of length 1, 2, 3 and so on,
-- in a power of two of buckets. The first `2 ^ m` tries are at different buckets, so they reach all.
use distiller_fs.Prelude.{
  ℕ, zero, suc, ◌+◌, ◌-◌, ◌*◌, ◌/◌, ◌%◌, ◌^◌, ◌≤◌, ◌<◌, ◌≡◌, ◌≢◌, refl, sym, ap, ◌∙◌, ◌⊎◌, inl, inr,
  arith, two_pow_pos, leb, Bool-cases,
}
use native.Mathlib.Nat.{
  pow-suc, mod-lt, mod-eq-sub-mod, mod-eq_of_lt, add-mul-mod_self_right, div-add-mod', mod-add-mod,
}

-- The distance after `j` steps.
unfoldable pub tri : ℕ → ℕ
tri zero = 0
tri (suc j) = tri j + suc j

tri_closed : (j : ℕ) → tri j * 2 ≡ j * j + j
unfolding tri
tri_closed zero = refl
tri_closed (suc j) = grind (arith, tri_closed j)

-- Taking the other end of twice as many tries moves by half of them.
tri_mirror : (n a b : ℕ) → a + b + 1 ≡ n * 2 → tri b + n + n * 2 * a ≡ n * 2 * n + tri a
tri_mirror n a b e = grind (
  arith,
  tri_closed a,
  tri_closed b,
  ap (λ (t : ℕ). t * t) e,
  ap (λ (t : ℕ). t * a) e,
  ap (λ (t : ℕ). t * n) e,
)

le_or_lt : (a b : ℕ) → (a ≤ b) ⊎ (b < a)
le_or_lt a b = elim (Bool-cases (leb a b)) [
  | inl low ↦ inl (ground arith)
  | inr high ↦ inr (ground arith)
]

-- A number modulo twice `n` is its rest modulo `n`, or that and `n`.
mod_halves : (x n : ℕ) → 0 < n → (x % (n * 2) ≡ x % n) ⊎ (x % (n * 2) ≡ x % n + n)
mod_halves x n h =
    let y = x % (n * 2) in
    let q = x / (n * 2) in
    let below : y < n * 2 = mod-lt x (omega (arith, h)) in
    let split : x ≡ y + q * 2 * n = omega (arith, div-add-mod' x (n * 2)) in
    let same : x % n ≡ y % n = ap (λ (t : ℕ). t % n) split ∙ add-mul-mod_self_right y (q * 2) n in
    elim (le_or_lt n y) [
      | inl high ↦
          let rest : (y - n) % n ≡ y - n = mod-eq_of_lt (omega (arith, below)) in
          inr (omega (arith, same, rest, mod-eq-sub-mod high))
      | inr low ↦ inl (omega (arith, same, mod-eq_of_lt low))
    ]

shift_ne : (x n : ℕ) → 0 < n → (x + n) % (n * 2) ≢ x % (n * 2)
shift_ne x n h e =
    let y = x % (n * 2) in
    let below : y < n * 2 = mod-lt x (omega (arith, h)) in
    let same : (x + n) % (n * 2) ≡ (y + n) % (n * 2) = sym (mod-add-mod x (n * 2) n) in
    elim (le_or_lt n y) [
      | inl high ↦
          let over : n * 2 ≤ y + n = omega (arith, high) in
          let rest : (y + n - n * 2) % (n * 2) ≡ y + n - n * 2 =
            mod-eq_of_lt (omega (arith, below, h)) in
          omega (arith, same, e, rest, mod-eq-sub-mod over, h)
      | inr low ↦
          let rest : (y + n) % (n * 2) ≡ y + n = mod-eq_of_lt (omega (arith, low)) in
          omega (arith, same, e, rest, h)
    ]

module _ (n a b : ℕ) (h : 0 < n) (e : a + b + 1 ≡ n * 2) where
  mirror_half : tri b % n ≡ tri a % n
  mirror_half =
      let same : tri b + (1 + 2 * a) * n ≡ tri a + (2 * n) * n =
        omega (arith, tri_mirror n a b e) in
      sym (add-mul-mod_self_right (tri b) (1 + 2 * a) n)
      ∙ (ap (λ (t : ℕ). t % n) same ∙ add-mul-mod_self_right (tri a) (2 * n) n)

  mirror_whole : (tri b + n) % (n * 2) ≡ tri a % (n * 2)
  mirror_whole =
      let same : tri b + n + a * (n * 2) ≡ tri a + n * (n * 2) =
        omega (arith, tri_mirror n a b e) in
      sym (add-mul-mod_self_right (tri b + n) a (n * 2))
      ∙ (ap (λ (t : ℕ). t % (n * 2)) same ∙ add-mul-mod_self_right (tri a) n (n * 2))

-- The first `2 ^ m` tries reach every bucket.
pub tri_reaches : (m r : ℕ) → r < 2 ^ m → (j : ℕ) × (j < 2 ^ m) × (tri j % 2 ^ m ≡ r)
unfolding tri
tri_reaches zero r h = (0, omega arith, omega (arith, h))
tri_reaches (suc m) r h =
    let n = 2 ^ m in
    let double : 2 ^ suc m ≡ n * 2 = pow-suc 2 m in
    let pos = two_pow_pos m in
    let (a, low, at) = tri_reaches m (r % n) (mod-lt r pos) in
    let b = n * 2 - 1 - a in
    let e : a + b + 1 ≡ n * 2 = omega (arith, low) in
    let rest : r % (n * 2) ≡ r = mod-eq_of_lt (omega (arith, h, double)) in
    let half = mirror_half n a b pos e in
    let whole = mirror_whole n a b pos e in
    let ne = shift_ne (tri b) n pos in
    rw double (elim (mod_halves (tri a) n pos) [
      | inl a_low ↦ elim (mod_halves r n pos) [
        | inl r_low ↦ (a, omega (arith, low), omega (arith, at, a_low, r_low, rest))
        | inr r_high ↦ elim (mod_halves (tri b) n pos) [
          | inl b_low ↦ absurd (ne (omega (arith, whole, half, a_low, b_low)))
          | inr b_high ↦ (b, omega (arith, low), omega (arith, at, half, b_high, r_high, rest))
        ]
      ]
      | inr a_high ↦ elim (mod_halves r n pos) [
        | inl r_low ↦ elim (mod_halves (tri b) n pos) [
          | inl b_low ↦ (b, omega (arith, low), omega (arith, at, half, b_low, r_low, rest))
          | inr b_high ↦ absurd (ne (omega (arith, whole, half, a_high, b_high)))
        ]
        | inr r_high ↦ (a, omega (arith, low), omega (arith, at, a_high, r_high, rest))
      ]
    ])

-- A try of the second half stands for one of the first half.
record Folded (n a : ℕ) : Type 0 where
  base : ℕ
  low : base < n
  same : tri base % n ≡ tri a % n
  side : (a ≡ base) ⊎ (a + base + 1 ≡ n * 2)

fold_half : (n a : ℕ) → 0 < n → a < n * 2 → Folded n a
fold_half n a pos h = elim (le_or_lt n a) [
  | inl high ↦
      let b = n * 2 - 1 - a in
      let e : a + b + 1 ≡ n * 2 = omega (arith, h) in
      record {
        base = b;
        low = omega (arith, high, h);
        same = mirror_half n a b pos e;
        side = inr e;
      }
  | inr low ↦ record { base = a; low = low; same = refl; side = inl refl }
]

-- They are at different buckets.
pub tri-injective : (m a b : ℕ) → a < 2 ^ m → b < 2 ^ m → tri a % 2 ^ m ≡ tri b % 2 ^ m → a ≡ b
tri-injective zero a b ha hb e = omega (arith, ha, hb)
tri-injective (suc m) a b ha hb e =
    let n = 2 ^ m in
    let double : 2 ^ suc m ≡ n * 2 = pow-suc 2 m in
    let pos = two_pow_pos m in
    let fa = fold_half n a pos (omega (arith, ha, double)) in
    let fb = fold_half n b pos (omega (arith, hb, double)) in
    let e' : tri a % (n * 2) ≡ tri b % (n * 2) = rw double at e in
    let half : tri a % n ≡ tri b % n = omega (
      arith,
      e',
      mod_halves (tri a) n pos,
      mod_halves (tri b) n pos,
      mod-lt (tri a) pos,
      mod-lt (tri b) pos,
    ) in
    let bases =
      tri-injective m fa.base fb.base fa.low fb.low (omega (arith, fa.same, fb.same, half)) in
    let ne = shift_ne (tri b) n pos in
    elim fa.side [
      | inl a_base ↦ elim fb.side [
        | inl b_base ↦ omega (arith, a_base, b_base, bases)
        | inr b_far ↦
            absurd (ne (mirror_whole n a b pos (omega (arith, a_base, b_far, bases)) ∙ e'))
      ]
      | inr a_far ↦ elim fb.side [
        | inl b_base ↦
            absurd (ne (mirror_whole n a b pos (omega (arith, a_far, b_base, bases)) ∙ e'))
        | inr b_far ↦ omega (arith, a_far, b_far, bases)
      ]
    ]
