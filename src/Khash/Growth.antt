-- ===== src/Khash/Growth.antt =====
-- The growth of a table of src/khash.h before `kh_put` writes into it.
use distiller_fs.Prelude.{
  count, count_mono, ℕ, suc, ◌+◌, ◌-◌, ◌*◌, ◌^◌, ◌≤◌, ◌<◌, ◌≡◌, ◌↔◌, refl, sym, ap, ◌∙◌, subst,
  arith, ◌⊎◌, inl, inr, true, false, not, ◌||◌, Bool-cases, ltb, leb, ◌==◌, Text, Option, some,
}
use native.Mathlib.Nat.{pow-succ'}
use distiller_fs.Khash.Flags.{is_empty, is_either, is_either-or, below, below_sound}
use distiller_fs.Khash.Table.{KhText, u32, roundup32, new_size, upper_of, kh_resize, make_room}
use distiller_fs.Khash.Positions.{two_pow-le}
use distiller_fs.Khash.Shape.{Shape, four_le, upper_of-lt, kh_get_iff}
use distiller_fs.Khash.Resize.{Contains, Counted, Resized, kh_resize-Resized}

-- The sizes to which `kh_put` asks for: as many buckets again, or twice as many.
same_sizes : below 32 (λ m. ltb m 2 || (new_size (u32 (2 ^ m + (2 ^ 32 - 1))) == 2 ^ m)) ≡ true
unfolding below roundup32
same_sizes = refl

next_sizes : below 31 (λ m. ltb m 2 || (new_size (u32 (2 ^ m + 1)) == 2 ^ suc m)) ≡ true
unfolding below roundup32
next_sizes = refl

same_size : (m : ℕ) → m < 32 → 2 ≤ m → new_size (u32 (2 ^ m + (2 ^ 32 - 1))) ≡ 2 ^ m
same_size m low two_le = ground (
  arith,
  two_le,
  below_sound 32 (λ m. ltb m 2 || (new_size (u32 (2 ^ m + (2 ^ 32 - 1))) == 2 ^ m)) m same_sizes
      low,
)

next_size : (m : ℕ) → m < 31 → 2 ≤ m → new_size (u32 (2 ^ m + 1)) ≡ 2 ^ suc m
next_size m low two_le = ground (
  arith,
  two_le,
  below_sound 31 (λ m. ltb m 2 || (new_size (u32 (2 ^ m + 1)) == 2 ^ suc m)) m next_sizes low,
)

-- A table without buckets, as `kh_init` gives it.
pub record Blank (h : KhText) : Type 0 where
  pub no_buckets : h.n_buckets ≡ 0
  pub no_size : h.size ≡ 0
  pub none_occupied : h.n_occupied ≡ 0
  pub no_bound : h.upper_bound ≡ 0

-- A table that can grow once more: one without buckets, or with up to `2 ^ 30`.
abbrev pub Growable : KhText → Type 0
Growable h = Blank h ⊎ ((m : ℕ) × (m < 31) × Shape m h)

-- A table with room for one more key, and the contents of another one.
pub record Roomy (h : KhText) (r : Option KhText) : Type 0 where
  pub m : ℕ
  pub table : KhText
  pub result : r ≡ some table
  pub shape : Shape m table
  pub room : table.n_occupied < table.upper_bound
  pub same_size : table.size ≡ h.size
  -- as long as it holds less than `2 ^ 29` keys, the table can grow again
  pub small : h.size < 2 ^ 29 → m < 31
  pub contents : (q : Text) (v : ℕ) → Contains table q v ↔ Contains h q v

Resized-Roomy :
    (m : ℕ) (h : KhText) (r : Option KhText)
    → (h.size < 2 ^ 29 → m < 31)
    → Resized m h r
    → Roomy h r
Resized-Roomy m h r small z = record {
  m = m;
  table = z.table;
  result = z.result;
  shape = z.shape;
  room = z.room;
  same_size = z.same_size;
  small = small;
  contents = z.contents;
}

some-injective : (a b : ℕ) → some a ≡ some b → a ≡ b
some-injective a b e = ground (arith, e)

pub Shape-Counted : (m : ℕ) (h : KhText) → Shape m h → Counted h
Shape-Counted m h s = record {
  once = λ i j low_i low_j live_i live_j same. some-injective i j (
      sym ((kh_get_iff m h s (h.keys i) i low_i).1 (live_i, refl))
      ∙ (kh_get_iff m h s (h.keys i) j low_j).1 (live_j, sym same));
  size_is = s.live ∙ ap (count (λ i. not (is_either h.flags i))) (sym s.buckets);
}

small_enough : (m : ℕ) → 2 ≤ m → upper_of (2 ^ m) < 2 ^ m
small_enough m two_le = upper_of-lt (2 ^ m) (four_le m two_le)

-- The three ways of `make_room`.
pub make_room-as_is : (h : KhText) → h.n_occupied < h.upper_bound → make_room h ≡ some h
unfolding make_room
make_room-as_is h room =
    let fits : leb h.upper_bound h.n_occupied ≡ false = ground (arith, room) in
    rw (make_room, fits) refl

make_room-same :
    (h : KhText)
    → h.upper_bound ≤ h.n_occupied
    → u32 (h.size * 2) < h.n_buckets
    → make_room h ≡ kh_resize h (u32 (h.n_buckets + (2 ^ 32 - 1)))
unfolding make_room
make_room-same h full half =
    let test : leb h.upper_bound h.n_occupied ≡ true = ground (arith, full) in
    let few : ltb (u32 (h.size * 2)) h.n_buckets ≡ true = ground (arith, half) in
    rw (make_room, test, few) refl

make_room-next :
    (h : KhText)
    → h.upper_bound ≤ h.n_occupied
    → h.n_buckets ≤ u32 (h.size * 2)
    → make_room h ≡ kh_resize h (u32 (h.n_buckets + 1))
unfolding make_room
make_room-next h full half =
    let test : leb h.upper_bound h.n_occupied ≡ true = ground (arith, full) in
    let few : ltb (u32 (h.size * 2)) h.n_buckets ≡ false = ground (arith, half) in
    rw (make_room, test, few) refl

resized :
    (m k : ℕ) (h : KhText)
    → Counted h
    → m ≤ 31
    → 2 ≤ m
    → h.size < upper_of (2 ^ m)
    → new_size k ≡ 2 ^ m
    → make_room h ≡ kh_resize h k
    → (h.size < 2 ^ 29 → m < 31)
    → Roomy h (make_room h)
resized m k h c m_le two_le room size_at way small = subst (Roomy h) (sym way) (
    Resized-Roomy m h (kh_resize h k) small
      (kh_resize-Resized h c m m_le two_le room (small_enough m two_le) k size_at))

first_size : new_size 1 ≡ 2 ^ 2
unfolding roundup32
first_size = refl

Blank-Counted : (h : KhText) → Blank h → Counted h
unfolding count
Blank-Counted h b = record {
  once = λ i j low. absurd (omega (arith, low, b.no_buckets));
  size_is = b.no_size ∙ ap (count (λ i. not (is_either h.flags i))) (sym b.no_buckets);
}

Blank-make_room : (h : KhText) → Blank h → Roomy h (make_room h)
unfolding upper_of
Blank-make_room h b =
    let way = make_room-next h (omega (arith, b.no_bound)) (omega (arith, b.no_buckets)) in
    resized 2 1 h (Blank-Counted h b) (omega arith) (omega arith) (omega (arith, b.no_size))
      first_size (way ∙ ap (λ (n : ℕ). kh_resize h (u32 (n + 1))) b.no_buckets) (λ few. omega arith)

next_small : (m : ℕ) → m < 31 → 2 ^ m < 2 ^ 30 → suc m < 31
next_small m low few = elim (Bool-cases (m == 30)) [
  | inl top ↦
      let same : m ≡ 30 = ground arith in absurd (omega (arith, few, ap (λ (k : ℕ). 2 ^ k) same))
  | inr other ↦ ground (arith, low, other)
]

module _ (m : ℕ) (h : KhText) (s : Shape m h) where
  size_le : h.size ≤ h.n_occupied
  size_le =
      let le =
        count_mono (λ i. not (is_either h.flags i)) (λ i. not (is_empty h.flags i)) (2 ^ m)
          (λ i live. ground (arith, live, is_either-or h.flags i)) in
      omega (arith, le, s.live, s.occupied)

  -- Twice the size does not wrap.
  twice : u32 (h.size * 2) ≡ h.size * 2
  unfolding upper_of
  twice = omega (arith, size_le, s.within, s.bound, two_pow-le m s.m_le)

  Shape-make_room : m < 31 → Roomy h (make_room h)
  unfolding upper_of
  Shape-make_room low = elim (Bool-cases (leb h.upper_bound h.n_occupied)) [
    | inr fits ↦
        let room : h.n_occupied < h.upper_bound = ground (arith, fits) in
        record {
          m = m;
          table = h;
          result = make_room-as_is h room;
          shape = s;
          room = room;
          same_size = refl;
          small = λ few. low;
          contents = λ q v. (λ e. e, λ e. e);
        }
    | inl full ↦
        let no_room : h.upper_bound ≤ h.n_occupied = ground (arith, full) in
        elim (Bool-cases (ltb (h.size * 2) h.n_buckets)) [
          | inl half ↦
              let few : h.size * 2 < h.n_buckets = ground (arith, half) in
              let way = make_room-same h no_room (omega (arith, few, twice)) in
              resized m _ h (Shape-Counted m h s) s.m_le s.two_le
                (omega (arith, few, s.buckets, four_le m s.two_le))
                (same_size m (omega (arith, low)) s.two_le)
                (way ∙ ap (λ (n : ℕ). kh_resize h (u32 (n + (2 ^ 32 - 1)))) s.buckets)
                (λ few_keys. low)
          | inr more ↦
              let many : h.n_buckets ≤ h.size * 2 = ground (arith, more) in
              let way = make_room-next h no_room (omega (arith, many, twice)) in
              let double : 2 ^ suc m ≡ 2 * 2 ^ m = pow-succ' 2 m in
              resized (suc m) _ h (Shape-Counted m h s) (omega (arith, low))
                (omega (arith, s.two_le))
                (omega (arith, size_le, s.within, s.bound, double, four_le m s.two_le))
                (next_size m low s.two_le)
                (way ∙ ap (λ (n : ℕ). kh_resize h (u32 (n + 1))) s.buckets)
                (λ few. next_small m low (omega (arith, few, many, s.buckets)))
        ]
  ]

-- A table that can grow has room for one more key after `make_room`, and the same contents.
pub make_room-Roomy : (h : KhText) → Growable h → Roomy h (make_room h)
make_room-Roomy h (inl b) = Blank-make_room h b
make_room-Roomy h (inr (m, low, s)) = Shape-make_room m h s low
