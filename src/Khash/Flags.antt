-- ===== src/Khash/Flags.antt =====
-- The flags of the buckets of src/khash.h: two bits for each bucket, packed sixteen to a word of an
-- array. The macros compute with words; the lemmas say what they do bucket by bucket.
use distiller_fs.Prelude.{
  ℕ, zero, suc, ◌&&◌, ◌-◌, ◌*◌, ◌/◌, ◌%◌, ◌^◌, ◌<◌, ◌≡◌, refl, sym, ap, ◌∙◌, Bool, true, false, not,
  ◌||◌, ◌==◌, bit_and, bit_or, if◌then◌else◌, arith, bit, bit_le_one, bit_and-two_pow, bit-bit_or,
  bit-two_pow, bit-clear, bit-three, bit-shift, two_pow-lt, bit_and-ones, mod_four,
}
use native.Mathlib.Nat.{pow-succ'}

-- `khint32_t *flags`
abbrev pub Words : Type 0
Words = ℕ → ℕ

-- The word of a bucket, and the place of its two bits there: `i >> 4` and `(i & 0xfU) << 1`.
abbrev word : ℕ → ℕ
word i = i / 16

abbrev place : ℕ → ℕ
place i = i % 16 * 2

abbrev write_word : Words → ℕ → ℕ → Words
write_word flag w v w' = if w' == w then v else flag w'

-- `~m` on an unsigned long.
abbrev complement : ℕ → ℕ
complement m = 2 ^ 64 - 1 - m

unfoldable pub is_empty : Words → ℕ → Bool
is_empty flag i = not (bit_and (flag (word i) / 2 ^ place i) 2 == 0)

unfoldable pub is_del : Words → ℕ → Bool
is_del flag i = not (bit_and (flag (word i) / 2 ^ place i) 1 == 0)

unfoldable pub is_either : Words → ℕ → Bool
is_either flag i = not (bit_and (flag (word i) / 2 ^ place i) 3 == 0)

unfoldable pub set_isempty_false : Words → ℕ → Words
set_isempty_false flag i =
    write_word flag (word i) (bit_and (flag (word i)) (complement (2 * 2 ^ place i)))

unfoldable pub set_isboth_false : Words → ℕ → Words
set_isboth_false flag i =
    write_word flag (word i) (bit_and (flag (word i)) (complement (3 * 2 ^ place i)))

unfoldable pub set_isdel_true : Words → ℕ → Words
set_isdel_true flag i = write_word flag (word i) (bit_or (flag (word i)) (2 ^ place i))

-- `memset(flags, 0xaa, ...)`
unfoldable pub all_empty : Words
all_empty w = 0xaaaaaaaa

-- The two bits of a bucket.
low : Words → ℕ → ℕ
low flag i = bit (flag (word i)) (place i)

high : Words → ℕ → ℕ
high flag i = bit (flag (word i)) (suc (place i))

test_two : (a : ℕ) → not (bit_and a 2 == 0) ≡ (bit a 1 == 1)
test_two a = ground (arith, bit_and-two_pow a 1, bit_le_one a 1)

test_one : (a : ℕ) → not (bit_and a 1 == 0) ≡ (bit a 0 == 1)
test_one a = ground (arith, bit_and-two_pow a 0, bit_le_one a 0)

is_empty-high : (flag : Words) (i : ℕ) → is_empty flag i ≡ (high flag i == 1)
unfolding is_empty high
is_empty-high flag i =
    test_two (flag (word i) / 2 ^ place i)
    ∙ ap (λ (x : ℕ). x == 1)
        (bit-shift (place i) (flag (word i)) 1 ∙ ap (bit (flag (word i))) (omega arith))

is_del-low : (flag : Words) (i : ℕ) → is_del flag i ≡ (low flag i == 1)
unfolding is_del low
is_del-low flag i =
    test_one (flag (word i) / 2 ^ place i)
    ∙ ap (λ (x : ℕ). x == 1)
        (bit-shift (place i) (flag (word i)) 0 ∙ ap (bit (flag (word i))) (omega arith))

write_word_digit :
    (flag : Words) (w v w' k : ℕ)
    → bit (write_word flag w v w') k ≡ (if w' == w then bit v k else bit (flag w') k)
write_word_digit flag w v w' k = ground arith

-- The digits of a word after one or two of them are cleared.
clear_one :
    (w p k : ℕ)
    → p < 32
    → k < 64
    → bit (bit_and w (complement (2 * 2 ^ p))) k ≡ (if suc p == k then 0 else bit w k)
clear_one w p k hp hk =
    let twice : 2 ^ suc p ≡ 2 * 2 ^ p = pow-succ' 2 p in
    let small : 2 * 2 ^ p < 2 ^ 64 = omega (arith, twice, two_pow-lt (suc p) 64 (omega arith)) in
    let at : bit (2 * 2 ^ p) k ≡ (if suc p == k then 1 else 0) =
      ap (λ (x : ℕ). bit x k) (sym twice) ∙ bit-two_pow (suc p) k in
    ground (arith, bit-clear 64 w (2 * 2 ^ p) k small hk, at)

clear_two :
    (w p k : ℕ)
    → p < 32
    → k < 64
    → bit (bit_and w (complement (3 * 2 ^ p))) k
      ≡ (if p == k then 0 else if suc p == k then 0 else bit w k)
clear_two w p k hp hk =
    let small : 3 * 2 ^ p < 2 ^ 64 = omega (arith, two_pow-lt p 32 hp) in
    ground (arith, bit-clear 64 w (3 * 2 ^ p) k small hk, bit-three p k)

set_one : (w p k : ℕ) → bit (bit_or w (2 ^ p)) k ≡ (if p == k then 1 else bit w k)
set_one w p k = ground (arith, bit-bit_or w (2 ^ p) k, bit-two_pow p k, bit_le_one w k)

-- `is_either` tests both bits.
pub is_either-or : (flag : Words) (i : ℕ) → is_either flag i ≡ (is_empty flag i || is_del flag i)
unfolding is_either is_empty is_del
is_either-or flag i =
    let x = flag (word i) / 2 ^ place i in
    ground
      (arith, bit_and-ones 2 x, mod_four x, test_two x, test_one x, bit_le_one x 0, bit_le_one x 1)

module _ (flag : Words) (i j : ℕ) where
  high-set_isempty_false : high (set_isempty_false flag i) j ≡ (if i == j then 0 else high flag j)
  unfolding high set_isempty_false
  high-set_isempty_false =
      write_word_digit flag (word i) _ (word j) (suc (place j))
      ∙ ground
          (arith, clear_one (flag (word i)) (place i) (suc (place j)) (omega arith) (omega arith))

  low-set_isempty_false : low (set_isempty_false flag i) j ≡ low flag j
  unfolding low set_isempty_false
  low-set_isempty_false =
      write_word_digit flag (word i) _ (word j) (place j)
      ∙ ground (arith, clear_one (flag (word i)) (place i) (place j) (omega arith) (omega arith))

  high-set_isboth_false : high (set_isboth_false flag i) j ≡ (if i == j then 0 else high flag j)
  unfolding high set_isboth_false
  high-set_isboth_false =
      write_word_digit flag (word i) _ (word j) (suc (place j))
      ∙ ground
          (arith, clear_two (flag (word i)) (place i) (suc (place j)) (omega arith) (omega arith))

  low-set_isboth_false : low (set_isboth_false flag i) j ≡ (if i == j then 0 else low flag j)
  unfolding low set_isboth_false
  low-set_isboth_false =
      write_word_digit flag (word i) _ (word j) (place j)
      ∙ ground (arith, clear_two (flag (word i)) (place i) (place j) (omega arith) (omega arith))

  high-set_isdel_true : high (set_isdel_true flag i) j ≡ high flag j
  unfolding high set_isdel_true
  high-set_isdel_true =
      write_word_digit flag (word i) _ (word j) (suc (place j))
      ∙ ground (arith, set_one (flag (word i)) (place i) (suc (place j)))

  low-set_isdel_true : low (set_isdel_true flag i) j ≡ (if i == j then 1 else low flag j)
  unfolding low set_isdel_true
  low-set_isdel_true =
      write_word_digit flag (word i) _ (word j) (place j)
      ∙ ground (arith, set_one (flag (word i)) (place i) (place j))

  -- The macros, bucket by bucket.
  pub is_empty-set_isempty_false :
      is_empty (set_isempty_false flag i) j ≡ (if i == j then false else is_empty flag j)
  is_empty-set_isempty_false = ground (
    arith,
    is_empty-high (set_isempty_false flag i) j,
    is_empty-high flag j,
    high-set_isempty_false,
  )

  pub is_del-set_isempty_false : is_del (set_isempty_false flag i) j ≡ is_del flag j
  is_del-set_isempty_false =
      ground
        (arith, is_del-low (set_isempty_false flag i) j, is_del-low flag j, low-set_isempty_false)

  pub is_empty-set_isboth_false :
      is_empty (set_isboth_false flag i) j ≡ (if i == j then false else is_empty flag j)
  is_empty-set_isboth_false = ground (
    arith,
    is_empty-high (set_isboth_false flag i) j,
    is_empty-high flag j,
    high-set_isboth_false,
  )

  pub is_del-set_isboth_false :
      is_del (set_isboth_false flag i) j ≡ (if i == j then false else is_del flag j)
  is_del-set_isboth_false =
      ground
        (arith, is_del-low (set_isboth_false flag i) j, is_del-low flag j, low-set_isboth_false)

  pub is_empty-set_isdel_true : is_empty (set_isdel_true flag i) j ≡ is_empty flag j
  is_empty-set_isdel_true =
      ground
        (arith, is_empty-high (set_isdel_true flag i) j, is_empty-high flag j, high-set_isdel_true)

  pub is_del-set_isdel_true :
      is_del (set_isdel_true flag i) j ≡ (if i == j then true else is_del flag j)
  is_del-set_isdel_true =
      ground (arith, is_del-low (set_isdel_true flag i) j, is_del-low flag j, low-set_isdel_true)

-- A test of every number below a bound.
unfoldable pub below : ℕ → (ℕ → Bool) → Bool
below zero p = true
below (suc n) p = p n && below n p

pub below_sound : (n : ℕ) (p : ℕ → Bool) (x : ℕ) → below n p ≡ true → x < n → p x ≡ true
unfolding below
below_sound zero p x h lt = absurd (omega arith)
below_sound (suc n) p x h lt = ground (arith, below_sound n p x)

-- Every bucket is empty, and none is deleted, after `memset`.
pub is_empty-all_empty : (i : ℕ) → is_empty all_empty i ≡ true
unfolding is_empty all_empty below
is_empty-all_empty i =
    below_sound 16 (λ r. not (bit_and (0xaaaaaaaa / 2 ^ (r * 2)) 2 == 0)) (i % 16) refl
      (omega arith)

pub is_del-all_empty : (i : ℕ) → is_del all_empty i ≡ false
unfolding is_del all_empty below
is_del-all_empty i =
    let clear =
      below_sound 16 (λ r. bit_and (0xaaaaaaaa / 2 ^ (r * 2)) 1 == 0) (i % 16) refl (omega arith) in
    ap not clear
