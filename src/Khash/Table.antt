-- ===== src/Khash/Table.antt =====
-- `kh_text_t`, the hash table that src/utils.h makes of src/khash.h by `KHASH_MAP_INIT_STR`: open
-- addressing in a power of two of buckets, by steps of growing length. Integers are `khint_t`, which
-- wraps at `2 ^ 32`. Allocation succeeds. An array is a function, and a loop takes fuel: `none` says
-- that it ran out.
use distiller_fs.Prelude.{
  ℕ, zero, suc, ◌+◌, ◌-◌, ◌*◌, ◌/◌, ◌%◌, ◌^◌, Text, text_eq, [], ◌∷◌, Bool, true, false, not, ◌&&◌,
  ◌||◌, Option, none, some, ◌==◌, ltb, leb, bit_and, bit_or, if◌then◌else◌,
}
use distiller_fs.Khash.Flags.{
  Words, is_empty, is_del, is_either, set_isempty_false, set_isboth_false, set_isdel_true,
  all_empty,
}

pub record KhText : Type 0 where
  pub n_buckets : ℕ
  pub size : ℕ
  pub n_occupied : ℕ
  pub upper_bound : ℕ
  pub flags : Words
  pub keys : ℕ → Text
  pub vals : ℕ → ℕ

abbrev pub u32 : ℕ → ℕ
u32 x = x % 2 ^ 32

-- `(khint_t)*s`, of a signed char.
unfoldable pub char_value : ℕ → ℕ
char_value c = if ltb c 128 then c else u32 (c + (2 ^ 32 - 256))

-- The loop of `__ac_X31_hash_string`: `h = (h << 5) - h + (khint_t)*s`.
unfoldable pub hash_loop : ℕ → Text → ℕ
unfolding char_value
hash_loop h [] = h
hash_loop h (c ∷ s) = hash_loop (u32 (u32 (h * 2 ^ 5) + (2 ^ 32 - h) + char_value c)) s

unfoldable pub hash_string : Text → ℕ
unfolding hash_loop
hash_string [] = 0
hash_string (c ∷ s) = hash_loop (char_value c) s

-- `kroundup32`, on a variable of type `khint_t`.
unfoldable pub roundup32 : ℕ → ℕ
roundup32 x =
    let x0 = u32 (x + (2 ^ 32 - 1)) in
    let x1 = bit_or x0 (x0 / 2 ^ 1) in
    let x2 = bit_or x1 (x1 / 2 ^ 2) in
    let x4 = bit_or x2 (x2 / 2 ^ 4) in
    let x8 = bit_or x4 (x4 / 2 ^ 8) in let x16 = bit_or x8 (x8 / 2 ^ 16) in u32 (x16 + 1)

-- `(khint_t)(n * __ac_HASH_UPPER + 0.5)`. For a power of two below `2 ^ 32` the product with 0.77 and
-- one half lies at least a hundredth away from any integer, so that the rounding of the floating
-- point numbers does not matter.
unfoldable pub upper_of : ℕ → ℕ
upper_of n = (n * 77 + 50) / 100

-- `n_buckets - 1`
abbrev pub kh_mask : ℕ → ℕ
kh_mask n = u32 (n + (2 ^ 32 - 1))

-- `++step`, and `i = (i + step) & mask` with it.
abbrev pub next_step : ℕ → ℕ
next_step step = u32 (step + 1)

unfoldable pub advance : ℕ → ℕ → ℕ → ℕ
advance mask i step = bit_and (u32 (i + next_step step)) mask

-- The test of the loops of `kh_get` and `kh_put`: another key was or is in this bucket.
unfoldable pub goes_on : KhText → Text → ℕ → Bool
goes_on h key i = not (is_empty h.flags i) && (is_del h.flags i || not (text_eq (h.keys i) key))

unfoldable pub kh_init : KhText
kh_init = record {
  n_buckets = 0;
  size = 0;
  n_occupied = 0;
  upper_bound = 0;
  flags = λ w. 0;
  keys = λ i. [];
  vals = λ i. 0;
}

unfoldable pub get_loop : KhText → Text → ℕ → ℕ → ℕ → ℕ → Option ℕ
unfolding goes_on advance
get_loop h key last zero i step = none
get_loop h key last (suc fuel) i step =
    let i' = advance (kh_mask h.n_buckets) i step in
    let rest = get_loop h key last fuel i' (next_step step) in
    if goes_on h key i
    then (if i' == last then some h.n_buckets else rest)
    else if is_either h.flags i
    then some h.n_buckets
    else some i

-- The rounds that a loop over the buckets is given: it comes back to its first bucket before.
abbrev pub rounds : ℕ → ℕ
rounds n = 2 * n

unfoldable pub kh_get : KhText → Text → Option ℕ
unfolding get_loop hash_string
kh_get h key =
    if h.n_buckets == 0
    then some 0
    else let i = bit_and (hash_string key) (kh_mask h.n_buckets) in
      get_loop h key i (rounds h.n_buckets) i 0

-- What `kh_resize` works on: the old flags, the new ones, and the arrays that both share.
pub record Work : Type 0 where
  pub flags : Words
  pub new_flags : Words
  pub keys : ℕ → Text
  pub vals : ℕ → ℕ

-- A write to an array.
abbrev pub put_at : {A : Type 0} → (ℕ → A) → ℕ → A → ℕ → A
put_at f i a j = if i == j then a else f j

-- `while (!__ac_isempty(new_flags, i)) i = (i + (++step)) & new_mask;`
unfoldable pub find_empty : Words → ℕ → ℕ → ℕ → ℕ → Option ℕ
unfolding advance
find_empty new_flags new_mask zero i step = none
find_empty new_flags new_mask (suc fuel) i step =
    let rest = find_empty new_flags new_mask fuel (advance new_mask i step) (next_step step) in
    if is_empty new_flags i then some i else rest

-- One round of the kick-out process at the bucket that was found: the new state, and the element that
-- was there, if it is to be moved in turn.
unfoldable pub settle : ℕ → Text → ℕ → ℕ → Work → Work × Option (Text × ℕ)
settle n_buckets key val i w =
    let w' : Work = record w {
      new_flags = set_isempty_false w.new_flags i;
      keys = put_at w.keys i key;
      vals = put_at w.vals i val;
    } in
    if ltb i n_buckets && not (is_either w.flags i)
    then (record w' { flags = set_isdel_true w.flags i }, some (w.keys i, w.vals i))
    else (w', none)

unfoldable pub kick_out : ℕ → ℕ → ℕ → Text → ℕ → Work → Option Work
unfolding find_empty settle hash_string
kick_out n_buckets new_n zero key val w = none
kick_out n_buckets new_n (suc fuel) key val w =
    elim (find_empty w.new_flags (kh_mask new_n) (rounds new_n)
      (bit_and (hash_string key) (kh_mask new_n)) 0) [
        | none ↦ none
        | some i ↦ elim ((settle n_buckets key val i w).1) [
          | none ↦ some (settle n_buckets key val i w).0
          | some (key', val') ↦
              kick_out n_buckets new_n fuel key' val' (settle n_buckets key val i w).0
        ]
      ]

-- The loop over the old buckets, `n` of them from `j` on.
unfoldable pub rehash : ℕ → ℕ → ℕ → ℕ → Work → Option Work
unfolding kick_out
rehash n_buckets new_n zero j w = some w
rehash n_buckets new_n (suc n) j w = elim (is_either w.flags j) [
  | true ↦ rehash n_buckets new_n n (suc j) w
  | false ↦
      elim (kick_out n_buckets new_n (suc n_buckets) (w.keys j) (w.vals j)
        (record w { flags = set_isdel_true w.flags j })) [
          | none ↦ none
          | some w' ↦ rehash n_buckets new_n n (suc j) w'
        ]
]

abbrev pub new_size : ℕ → ℕ
new_size new_n_buckets = if ltb (roundup32 new_n_buckets) 4 then 4 else roundup32 new_n_buckets

unfoldable pub kh_resize : KhText → ℕ → Option KhText
unfolding rehash roundup32 upper_of
kh_resize h new_n_buckets =
    let new_n = new_size new_n_buckets in
    if leb (upper_of new_n) h.size
    then some h
    else elim (rehash h.n_buckets new_n h.n_buckets 0
        (record { flags = h.flags; new_flags = all_empty; keys = h.keys; vals = h.vals })) [
          | none ↦ none
          | some w ↦ some (record {
            n_buckets = new_n;
            size = h.size;
            n_occupied = h.size;
            upper_bound = upper_of new_n;
            flags = w.new_flags;
            keys = w.keys;
            vals = w.vals;
          })
        ]

-- The loop of `kh_put`: `x`, `site` and `i` behind it.
pub record Search : Type 0 where
  pub x : ℕ
  pub site : ℕ
  pub i : ℕ

unfoldable pub put_loop : KhText → Text → ℕ → ℕ → ℕ → ℕ → ℕ → Option Search
unfolding goes_on advance
put_loop h key last zero i step site = none
put_loop h key last (suc fuel) i step site =
    let site' = if is_del h.flags i then i else site in
    let i' = advance (kh_mask h.n_buckets) i step in
    let rest = put_loop h key last fuel i' (next_step step) site' in
    if goes_on h key i
    then (if i' == last then some (record { x = site'; site = site'; i = i' }) else rest)
    else some (record { x = h.n_buckets; site = site; i = i })

-- The bucket for a key.
unfoldable pub choose : KhText → Search → ℕ
choose h s =
    if s.x == h.n_buckets
    then (if is_empty h.flags s.i && not (s.site == h.n_buckets) then s.site else s.i)
    else s.x

unfoldable pub find_bucket : KhText → Text → Option ℕ
unfolding put_loop choose hash_string
find_bucket h key =
    let i = bit_and (hash_string key) (kh_mask h.n_buckets) in
    if is_empty h.flags i
    then some i
    else elim (put_loop h key i (rounds h.n_buckets) i 0 h.n_buckets) [
      | none ↦ none
      | some s ↦ some (choose h s)
    ]

-- What `kh_put` writes into the bucket, with `*ret`.
unfoldable pub occupy : KhText → Text → ℕ → KhText × ℕ
occupy h key x =
    if is_empty h.flags x
    then (
      record h {
        keys = put_at h.keys x key;
        flags = set_isboth_false h.flags x;
        size = u32 (h.size + 1);
        n_occupied = u32 (h.n_occupied + 1);
      },
      1,
    )
    else if is_del h.flags x
    then (
      record h {
        keys = put_at h.keys x key;
        flags = set_isboth_false h.flags x;
        size = u32 (h.size + 1);
      },
      2,
    )
    else (h, 0)

-- The table with room for one more key.
unfoldable pub make_room : KhText → Option KhText
unfolding kh_resize
make_room h =
    if leb h.upper_bound h.n_occupied
    then (if ltb (u32 (h.size * 2)) h.n_buckets
        then kh_resize h (u32 (h.n_buckets + (2 ^ 32 - 1)))
        else kh_resize h (u32 (h.n_buckets + 1)))
    else some h

pub record Put : Type 0 where
  pub table : KhText
  pub x : ℕ
  pub ret : ℕ

unfoldable pub kh_put : KhText → Text → Option Put
unfolding make_room find_bucket occupy
kh_put h key = elim (make_room h) [
  | none ↦ none
  | some h' ↦ elim (find_bucket h' key) [
    | none ↦ none
    | some x ↦ let r = occupy h' key x in some (record { table = r.0; x = x; ret = r.1 })
  ]
]

unfoldable pub kh_del : KhText → ℕ → KhText
kh_del h x =
    if not (x == h.n_buckets) && not (is_either h.flags x)
    then record h { flags = set_isdel_true h.flags x; size = u32 (h.size + (2 ^ 32 - 1)) }
    else h
