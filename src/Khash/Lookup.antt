-- ===== src/Khash/Lookup.antt =====
-- `kh_get` of src/khash.h: where its loop stops, and what it returns.
use distiller_fs.Prelude.{
  ℕ, zero, suc, ◌+◌, ◌-◌, ◌*◌, ◌%◌, ◌^◌, ◌≤◌, ◌<◌, ◌≡◌, ◌≢◌, refl, sym, ap, ◌∙◌, subst, arith, ◌⊎◌,
  inl, inr, Bool, true, false, Bool-cases, ◌==◌, if◌then◌else◌, Text, some, two_pow_pos, bit_and,
}
use native.Mathlib.Nat.{mod-lt}
use distiller_fs.Khash.Flags.{is_empty, is_either}
use distiller_fs.Khash.Table.{
  KhText, hash_string, kh_mask, next_step, advance, goes_on, get_loop, kh_get, rounds,
}
use distiller_fs.Khash.Positions.{
  pos, first_bucket, pos-zero, pos-lt, next_step_lem, advance-pos, pos-reaches, pos-injective,
}

-- The first number below `n` at which a test fails.
pub record First (p : ℕ → Bool) (n : ℕ) : Type 0 where
  pub j : ℕ
  pub low : j < n
  pub before : (k : ℕ) → k < j → p k ≡ true
  pub stop : p j ≡ false

pub all_or_stop : (p : ℕ → Bool) (n : ℕ) → ((k : ℕ) → k < n → p k ≡ true) ⊎ First p n
all_or_stop p zero = inl (λ k h. absurd (omega (arith, h)))
all_or_stop p (suc n) = elim (all_or_stop p n) [
  | inr f ↦ inr (record { j = f.j; low = omega (arith, f.low); before = f.before; stop = f.stop })
  | inl all ↦ elim (Bool-cases (p n)) [
    | inl more ↦ inl (λ k h. elim (Bool-cases (k == n)) [
      | inl same ↦ subst (λ i. p i ≡ true) (ground arith) more
      | inr other ↦ all k (ground (arith, h))
    ])
    | inr stop ↦ inr (record { j = n; low = omega arith; before = all; stop = stop })
  ]
]

pub stop_from : (p : ℕ → Bool) (n e : ℕ) → e < n → p e ≡ false → First p n
stop_from p n e low stop = elim (all_or_stop p n) [
  | inl all ↦ absurd (cc (all e low, stop))
  | inr f ↦ f
]

-- The bucket of try `j` for a key.
unfoldable pub try_at : ℕ → Text → ℕ → ℕ
try_at m key j = pos m (hash_string key % 2 ^ m) j

-- The tries for a key, up to the first at which a loop stops.
abbrev pub Trail : ℕ → KhText → Text → Type 0
Trail m h key = First (λ k. goes_on h key (try_at m key k)) (2 ^ m)

module _ (m : ℕ) (m_le : m ≤ 31) where
  pub try_at-lt : (key : Text) (j : ℕ) → try_at m key j < 2 ^ m
  unfolding try_at
  try_at-lt key j =
      pos-lt m m_le (hash_string key % 2 ^ m) (mod-lt (hash_string key) (two_pow_pos m)) j

  pub try_at-zero : (key : Text) → bit_and (hash_string key) (kh_mask (2 ^ m)) ≡ try_at m key 0
  unfolding try_at
  try_at-zero key =
      first_bucket m m_le (hash_string key)
      ∙ sym (pos-zero m m_le (hash_string key % 2 ^ m) (mod-lt (hash_string key) (two_pow_pos m)))

  pub try_at-suc :
      (key : Text) (j : ℕ)
      → j < 2 ^ m
      → advance (kh_mask (2 ^ m)) (try_at m key j) j ≡ try_at m key (suc j)
  unfolding try_at
  try_at-suc key j h = advance-pos m m_le _ (mod-lt (hash_string key) (two_pow_pos m)) j h

  pub try_at-reaches :
      (key : Text) (e : ℕ) → e < 2 ^ m → (j : ℕ) × (j < 2 ^ m) × (try_at m key j ≡ e)
  unfolding try_at
  try_at-reaches key e h = pos-reaches m m_le _ (mod-lt (hash_string key) (two_pow_pos m)) e h

  pub try_at-injective :
      (key : Text) (a b : ℕ) → a < 2 ^ m → b < 2 ^ m → try_at m key a ≡ try_at m key b → a ≡ b
  unfolding try_at
  try_at-injective key a b ha hb e =
      pos-injective m m_le _ (mod-lt (hash_string key) (two_pow_pos m)) a b ha hb e

  -- An empty bucket stops every loop.
  pub empty-Trail :
      (h : KhText) (key : Text) (e : ℕ) → e < 2 ^ m → is_empty h.flags e ≡ true → Trail m h key
  unfolding goes_on
  empty-Trail h key e low empty =
      let (j, j_low, at) = try_at-reaches key e low in
      stop_from _ (2 ^ m) j j_low (ground (arith, ap (is_empty h.flags) at, empty))

  module _ (h : KhText) (size_at : h.n_buckets ≡ 2 ^ m) (key : Text) where
    abbrev i0 : ℕ
    i0 = try_at m key 0

    get_step :
        (f j : ℕ)
        → suc j < 2 ^ m
        → goes_on h key (try_at m key j) ≡ true
        → get_loop h key i0 (suc f) (try_at m key j) j
          ≡ get_loop h key i0 f (try_at m key (suc j)) (suc j)
    unfolding get_loop
    get_step f j low more =
        let i = try_at m key j in
        let to : advance (kh_mask h.n_buckets) i j ≡ try_at m key (suc j) =
          ap (λ (t : ℕ). advance (kh_mask t) i j) size_at ∙ try_at-suc key j (omega (arith, low)) in
        let step : next_step j ≡ suc j =
          next_step_lem m m_le i (try_at-lt key j) j (omega (arith, low)) in
        let other : try_at m key (suc j) ≢ i0 =
          λ e. absurd (omega (arith, try_at-injective key (suc j) 0 low (two_pow_pos m) e)) in
        rw (get_loop, more, to, step) (ground (arith, other))

    get_stop :
        (f j : ℕ)
        → goes_on h key (try_at m key j) ≡ false
        → get_loop h key i0 (suc f) (try_at m key j) j
          ≡ (if is_either h.flags (try_at m key j) then some h.n_buckets else some (try_at m key j))
    unfolding get_loop
    get_stop f j stop = rw (get_loop, stop) refl

    get_walk :
        (j f : ℕ)
        → j < 2 ^ m
        → ((k : ℕ) → k < j → goes_on h key (try_at m key k) ≡ true)
        → get_loop h key i0 (j + f) i0 0 ≡ get_loop h key i0 f (try_at m key j) j
    get_walk zero f low before = ap (λ (t : ℕ). get_loop h key i0 t i0 0) (omega arith)
    get_walk (suc j) f low before =
        ap (λ (t : ℕ). get_loop h key i0 t i0 0) (omega arith)
        ∙ (get_walk j (suc f) (omega (arith, low)) (λ k b. before k (omega (arith, b)))
            ∙ get_step f j low (before j (omega arith)))

    kh_get-loop : kh_get h key ≡ (
        let i = bit_and (hash_string key) (kh_mask h.n_buckets) in
        get_loop h key i (rounds h.n_buckets) i 0)
    unfolding kh_get
    kh_get-loop =
        let some_bucket : (h.n_buckets == 0) ≡ false = ground (arith, size_at, two_pow_pos m) in
        rw (kh_get, some_bucket) refl

    -- `kh_get` returns the bucket at which its loop stops, or `n_buckets` where that is free.
    pub kh_get-Trail :
        (t : Trail m h key)
        → let i = try_at m key t.j in
          kh_get h key ≡ (if is_either h.flags i then some h.n_buckets else some i)
    kh_get-Trail t =
        let n = h.n_buckets in
        let start : bit_and (hash_string key) (kh_mask n) ≡ i0 =
          ap (λ (k : ℕ). bit_and (hash_string key) (kh_mask k)) size_at ∙ try_at-zero key in
        let f = 2 * n - 1 - t.j in
        let fuel : rounds n ≡ t.j + suc f = omega (arith, size_at, t.low) in
        kh_get-loop
        ∙ (ap (λ (i : ℕ). get_loop h key i (rounds n) i 0) start
            ∙ (ap (λ (r : ℕ). get_loop h key i0 r i0 0) fuel
                ∙ (get_walk t.j (suc f) t.low t.before ∙ get_stop f t.j t.stop)))
