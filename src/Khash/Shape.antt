-- ===== src/Khash/Shape.antt =====
-- The invariant of a table of src/khash.h with buckets: the counters count, every live bucket is where
-- the loop for its key stops, and at least one bucket is empty. `kh_get` on such a table.
use distiller_fs.Prelude.{
  count, count-lt, ℕ, ◌^◌, ◌≤◌, ◌<◌, ◌≡◌, ◌≢◌, ◌↔◌, refl, sym, ap, ◌∙◌, subst, arith, inl, inr,
  true, false, not, Bool-cases, ◌==◌, if◌then◌else◌, Text, text_eq_iff, some, two_pow-lt,
}
use distiller_fs.Khash.Flags.{is_empty, is_either, is_either-or}
use distiller_fs.Khash.Table.{KhText, goes_on, kh_get, upper_of}
use distiller_fs.Khash.Lookup.{Trail, try_at, try_at-lt, empty-Trail, kh_get-Trail}

some-injective : {a b : ℕ} → some a ≡ some b → a ≡ b
some-injective e = ground (arith, e)

-- A bucket that holds a key.
abbrev pub IsLive : KhText → ℕ → Type 0
IsLive h i = is_either h.flags i ≡ false

-- The loop for a key stops in this bucket.
pub record Reaches (m : ℕ) (h : KhText) (key : Text) (i : ℕ) : Type 0 where
  pub trail : Trail m h key
  pub ends : try_at m key trail.j ≡ i

pub record Shape (m : ℕ) (h : KhText) : Type 0 where
  pub m_le : m ≤ 31
  pub two_le : 2 ≤ m
  pub buckets : h.n_buckets ≡ 2 ^ m
  pub reached : (i : ℕ) → i < 2 ^ m → IsLive h i → Reaches m h (h.keys i) i
  pub occupied : h.n_occupied ≡ count (λ i. not (is_empty h.flags i)) (2 ^ m)
  pub live : h.size ≡ count (λ i. not (is_either h.flags i)) (2 ^ m)
  pub bound : h.upper_bound ≡ upper_of (2 ^ m)
  pub within : h.n_occupied ≤ h.upper_bound

pub upper_of-lt : (n : ℕ) → 4 ≤ n → upper_of n < n
unfolding upper_of
upper_of-lt n h = omega (arith, h)

pub four_le : (m : ℕ) → 2 ≤ m → 4 ≤ 2 ^ m
four_le m two_le = elim (Bool-cases (m == 2)) [
  | inl two ↦ let same : m ≡ 2 = ground arith in rw same (omega arith)
  | inr more ↦ omega (arith, two_pow-lt 2 m (ground (arith, two_le)))
]

module _ (m : ℕ) (h : KhText) (s : Shape m h) where
  pub empty_bucket : (e : ℕ) × (e < 2 ^ m) × (is_empty h.flags e ≡ true)
  empty_bucket =
      let few : count (λ i. not (is_empty h.flags i)) (2 ^ m) < 2 ^ m =
        omega (arith, s.occupied, s.within, s.bound, upper_of-lt (2 ^ m) (four_le m s.two_le)) in
      let (e, low, stop) = count-lt (λ i. not (is_empty h.flags i)) (2 ^ m) few in
      (e, low, ground (arith, stop))

  pub key_trail : (key : Text) → Trail m h key
  key_trail key = let (e, low, empty) = empty_bucket in empty-Trail m s.m_le h key e low empty

  -- Where a loop stops at a live bucket, that has the key.
  pub stop-key : (key : Text) (i : ℕ) → goes_on h key i ≡ false → IsLive h i → h.keys i ≡ key
  unfolding goes_on
  stop-key key i stop live = ground (arith, is_either-or h.flags i, text_eq_iff (h.keys i) key)

  pub kh_get_lem :
      (key : Text)
      → let i = try_at m key (key_trail key).j in
        kh_get h key ≡ (if is_either h.flags i then some h.n_buckets else some i)
  kh_get_lem key = kh_get-Trail m s.m_le h s.buckets key (key_trail key)

  -- `kh_get` of a key that is live in a bucket.
  kh_get-live : (i : ℕ) → i < 2 ^ m → IsLive h i → kh_get h (h.keys i) ≡ some i
  kh_get-live i low live =
      let r = s.reached i low live in
      kh_get-Trail m s.m_le h s.buckets (h.keys i) r.trail
      ∙ (ap (λ (x : ℕ). if is_either h.flags x then some h.n_buckets else some x) r.ends
          ∙ rw live refl)

  found-IsLive :
      (key : Text) (i : ℕ) → i < h.n_buckets → kh_get h key ≡ some i → IsLive h i × (h.keys i ≡ key)
  found-IsLive key i low e =
      let t = key_trail key in
      let x = try_at m key t.j in
      elim (Bool-cases (is_either h.flags x)) [
        | inl free ↦ absurd (
            omega (
              arith,
              low,
              some-injective {a = i} {b = h.n_buckets} (sym e ∙ (kh_get_lem key ∙ rw free refl)),
            ))
        | inr live ↦
            let same : x ≡ i =
              some-injective {a = x} {b = i} (sym (kh_get_lem key ∙ rw live refl) ∙ e) in
            subst (λ y. IsLive h y × (h.keys y ≡ key)) same (live, stop-key key x t.stop live)
      ]

  -- On a table that keeps the invariant, `kh_get` returns a bucket below `n_buckets` exactly where that
  -- bucket is live and has the key.
  pub kh_get_iff :
      (key : Text) (i : ℕ)
      → i < h.n_buckets
      → (kh_get h key ≡ some i) ↔ (IsLive h i × (h.keys i ≡ key))
  kh_get_iff key i low = (
    found-IsLive key i low,
    λ here. ap (kh_get h) (sym here.1) ∙ kh_get-live i (omega (arith, s.buckets, low)) here.0,
  )

  -- A key that is live nowhere gives `n_buckets`.
  pub kh_get-absent :
      (key : Text)
      → ((i : ℕ) → i < h.n_buckets → IsLive h i → h.keys i ≢ key)
      → kh_get h key ≡ some h.n_buckets
  kh_get-absent key absent =
      let t = key_trail key in
      let x = try_at m key t.j in
      elim (Bool-cases (is_either h.flags x)) [
        | inl free ↦ kh_get_lem key ∙ rw free refl
        | inr live ↦ absurd (
            absent x (omega (arith, s.buckets, try_at-lt m s.m_le key t.j)) live
              (stop-key key x t.stop live))
      ]
