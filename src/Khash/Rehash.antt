-- ===== src/Khash/Rehash.antt =====
-- The rehashing of `kh_resize` of src/khash.h: the invariant of its loops, and the bucket that a round
-- of the kick-out process finds.
pub mod Settle
pub mod Outcomes
pub mod Loop
use distiller_fs.Prelude.{
  count, count-lt, ℕ, zero, suc, ◌+◌, ◌-◌, ◌*◌, ◌^◌, ◌≤◌, ◌<◌, ◌≡◌, ◌≢◌, refl, sym, ap, ◌∙◌, subst,
  arith, ◌⊎◌, inl, inr, Bool, true, false, not, ◌||◌, ◌&&◌, Bool-cases, ◌==◌, if◌then◌else◌, Text,
  text_eq, text_eq_iff, Option, none, some, two_pow_pos, bit_and,
}
use distiller_fs.Khash.Flags.{Words, is_empty, is_del, is_either, is_either-or}
use distiller_fs.Khash.Table.{
  KhText, Work, hash_string, kh_mask, advance, next_step, rounds, goes_on, find_empty,
}
use distiller_fs.Khash.Positions.{next_step_lem}
use distiller_fs.Khash.Lookup.{
  First, stop_from, Trail, try_at, try_at-lt, try_at-zero, try_at-suc, try_at-reaches,
}
use distiller_fs.Khash.Shape.{Reaches}

-- An old bucket, of `n`, that is not moved yet; and a new one that is taken.
abbrev pub HeldOld : ℕ → Work → ℕ → Type 0
HeldOld n w i = (i < n) × (is_either w.flags i ≡ false)

abbrev pub HeldNew : ℕ → Work → ℕ → Type 0
HeldNew m w i = (i < 2 ^ m) × (is_empty w.new_flags i ≡ false)

abbrev pub Held : ℕ → ℕ → Work → ℕ → Type 0
Held n m w i = HeldOld n w i ⊎ HeldNew m w i

-- The new table on the shared arrays.
abbrev pub new_table : Work → KhText
new_table w = record {
  n_buckets = 0;
  size = 0;
  n_occupied = 0;
  upper_bound = 0;
  flags = w.new_flags;
  keys = w.keys;
  vals = w.vals;
}

abbrev pub olds : ℕ → Work → ℕ
olds n w = count (λ i. not (is_either w.flags i)) n

abbrev pub news : ℕ → Work → ℕ
news m w = count (λ i. not (is_empty w.new_flags i)) (2 ^ m)

-- A key with its value in a bucket that is held.
pub record Has (n m : ℕ) (w : Work) (key : Text) (val : ℕ) : Type 0 where
  pub i : ℕ
  pub held : Held n m w i
  pub key_is : w.keys i ≡ key
  pub val_is : w.vals i ≡ val

-- The invariant, for a table with the contents `P`.
pub record Moving (n m : ℕ) (P : Text → ℕ → Type 0) (w : Work) : Type 0 where
  pub unique : (i j : ℕ) → Held n m w i → Held n m w j → w.keys i ≡ w.keys j → i ≡ j
  pub apart : (i : ℕ) → HeldOld n w i → is_empty w.new_flags i ≡ true
  pub undeleted : (i : ℕ) → is_del w.new_flags i ≡ false
  pub reached : (i : ℕ) → HeldNew m w i → Reaches m (new_table w) (w.keys i) i
  pub sound : (i : ℕ) → Held n m w i → P (w.keys i) (w.vals i)

-- With an element in hand.
pub record Carrying (n m : ℕ) (P : Text → ℕ → Type 0) (w : Work) (key : Text) (val : ℕ)
    : Type 0 where
  pub moving : Moving n m P w
  pub absent : (i : ℕ) → Held n m w i → w.keys i ≢ key
  pub belongs : P key val
  pub complete : (q : Text) (v : ℕ) → P q v → Has n m w q v ⊎ ((q ≡ key) × (v ≡ val))

module _ (m : ℕ) (m_le : m ≤ 31) (new_flags : Words) (key : Text) where
  abbrev i0 : ℕ
  i0 = try_at m key 0

  find_step :
      (f j : ℕ)
      → suc j < 2 ^ m
      → is_empty new_flags (try_at m key j) ≡ false
      → find_empty new_flags (kh_mask (2 ^ m)) (suc f) (try_at m key j) j
        ≡ find_empty new_flags (kh_mask (2 ^ m)) f (try_at m key (suc j)) (suc j)
  unfolding find_empty
  find_step f j low full =
      let i = try_at m key j in
      let to = try_at-suc m m_le key j (omega (arith, low)) in
      let step : next_step j ≡ suc j =
        next_step_lem m m_le i (try_at-lt m m_le key j) j (omega (arith, low)) in
      rw (find_empty, full, to, step) refl

  find_walk :
      (j f : ℕ)
      → j < 2 ^ m
      → ((k : ℕ) → k < j → not (is_empty new_flags (try_at m key k)) ≡ true)
      → find_empty new_flags (kh_mask (2 ^ m)) (j + f) i0 0
        ≡ find_empty new_flags (kh_mask (2 ^ m)) f (try_at m key j) j
  find_walk zero f low before =
      ap (λ (t : ℕ). find_empty new_flags (kh_mask (2 ^ m)) t i0 0) (omega arith)
  find_walk (suc j) f low before =
      ap (λ (t : ℕ). find_empty new_flags (kh_mask (2 ^ m)) t i0 0) (omega arith)
      ∙ (find_walk j (suc f) (omega (arith, low)) (λ k b. before k (omega (arith, b)))
          ∙ find_step f j low (ground (arith, before j (omega arith))))

  find_stop :
      (f j : ℕ)
      → is_empty new_flags (try_at m key j) ≡ true
      → find_empty new_flags (kh_mask (2 ^ m)) (suc f) (try_at m key j) j ≡ some (try_at m key j)
  unfolding find_empty
  find_stop f j empty = rw (find_empty, empty) refl

  -- The tries for a key up to the first empty bucket.
  abbrev pub Gap : Type 0
  Gap = First (λ k. not (is_empty new_flags (try_at m key k))) (2 ^ m)

  pub gap_here : count (λ i. not (is_empty new_flags i)) (2 ^ m) < 2 ^ m → Gap
  gap_here few =
      let (e, low, stop) = count-lt (λ i. not (is_empty new_flags i)) (2 ^ m) few in
      let (j, j_low, at) = try_at-reaches m m_le key e low in
      stop_from _ (2 ^ m) j j_low (ap (λ i. not (is_empty new_flags i)) at ∙ stop)

  pub find_empty-Gap :
      (g : Gap)
      → find_empty new_flags
          (kh_mask (2 ^ m))
          (rounds (2 ^ m))
          (bit_and (hash_string key) (kh_mask (2 ^ m)))
          0
        ≡ some (try_at m key g.j)
  find_empty-Gap g =
      let n = 2 ^ m in
      let f = 2 * n - 1 - g.j in
      let fuel : rounds n ≡ g.j + suc f = omega (arith, g.low) in
      ap (λ (i : ℕ). find_empty new_flags (kh_mask n) (rounds n) i 0) (try_at-zero m m_le key)
      ∙ (ap (λ (r : ℕ). find_empty new_flags (kh_mask n) r i0 0) fuel
          ∙ (find_walk g.j (suc f) g.low g.before ∙ find_stop f g.j (ground (arith, g.stop))))
