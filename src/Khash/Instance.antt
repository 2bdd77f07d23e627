-- ===== src/Khash/Instance.antt =====
-- The table of src/khash.h behind the interface of the calls that src/utils.c and
-- src/distillerfs.c make.
use distiller_fs.Prelude.{
  ℕ, zero, suc, ◌^◌, ◌≤◌, ◌≡◌, ◌≢◌, ◌↔◌, refl, sym, ap, ◌∙◌, subst, arith, inl, inr, not, Text,
  count,
}
use distiller_fs.Khash.{Khash, KhashLaws}
use distiller_fs.Khash.Flags.{is_either}
use distiller_fs.Khash.Table.{KhText, goes_on, get_loop, kh_init, kh_get, kh_put, kh_del}
use distiller_fs.Khash.Shape.{Shape}
use distiller_fs.Khash.Growth.{Growable}
use distiller_fs.Khash.Insertion.{Inserted, kh_put-Inserted, Blank-kh_init}
use distiller_fs.Khash.Removal.{kh_del-Removed}
use distiller_fs.Khash.Room.{
  bucket_of, put_of, get, put, set_value, Room, get-keys, get-Hit, Hit-Contains, get-Contains,
  absent_iff,
}

-- A table that is given back is not used again: an empty one stands for it.
unfoldable pub text_table : Khash
unfolding bucket_of put_of
text_table = record {
  Table = KhText;
  kh_init = kh_init;
  kh_destroy = λ h. kh_init;
  kh_get = get;
  kh_put = put;
  kh_del = kh_del;
  kh_value = λ h i. h.vals i;
  kh_set_value = set_value;
  kh_key = λ h i. h.keys i;
  kh_exist = λ h i. not (is_either h.flags i);
  kh_end = λ h. h.n_buckets;
  kh_size = λ h. h.size;
  Fits = Room;
  capacity = 2 ^ 29;
}

pub text_table-capacity : text_table.capacity ≡ 2 ^ 29
unfolding text_table
text_table-capacity = refl

-- The table after a `kh_put`.
module _ (h : KhText) (q : Text) (n : ℕ) (r : Room (suc n) h) where
  abbrev x : Inserted h q (kh_put h q)
  x = kh_put-Inserted h q r.0

  put-table : (put h q).0 ≡ x.put.table
  unfolding put_of
  put-table = ap (λ o. (put_of h o).0) x.result

  put-bucket : (put h q).1 ≡ x.put.x
  unfolding put_of
  put-bucket = ap (λ o. (put_of h o).1) x.result

  after-Growable : Growable x.put.table
  after-Growable = inr (x.m, x.small (omega (arith, r.1)), x.shape)

  put-Room : Room n (put h q).0
  put-Room = subst (Room n) (sym put-table) (after-Growable, ground (arith, x.size_is, r.1))

  get-put_lem : get (put h q).0 q ≡ (put h q).1
  unfolding bucket_of
  get-put_lem = ap (λ t. get t q) put-table ∙ (ap (bucket_of x.put.table) x.found ∙ sym put-bucket)

  put-ne-end_lem : (put h q).1 ≢ (put h q).0.n_buckets
  put-ne-end_lem e = omega (arith, e, put-bucket, ap (λ t. t.n_buckets) put-table, x.low)

  module _ (j : Text) (ne : j ≢ q) where
    absent-put_lem : (get (put h q).0 j ≡ (put h q).0.n_buckets) ↔ (get h j ≡ h.n_buckets)
    absent-put_lem =
        subst (λ t. (get t j ≡ t.n_buckets) ↔ (get h j ≡ h.n_buckets)) (sym put-table)
          (let new = absent_iff x.put.table j after-Growable in
            let old = absent_iff h j r.0 in
            (
              λ e. old.1 (λ v c. new.0 e v ((x.others j v ne).1 c)),
              λ e. new.1 (λ v c. old.0 e v ((x.others j v ne).0 c)),
            ))

    value-put_lem : get h j ≢ h.n_buckets → (put h q).0.vals (get (put h q).0 j) ≡ h.vals (get h j)
    value-put_lem here =
        let c = Hit-Contains h j (get-Hit h j r.0 here) in
        ap (λ t. t.vals (get t j)) put-table
        ∙ (get-Contains x.put.table j _ after-Growable ((x.others j _ ne).1 c)).1

-- The values of a table do not matter to the loops.
module _ (h : KhText) (i v : ℕ) where
  get_loop-set_value :
      (key : Text) (last f j step : ℕ)
      → get_loop (set_value h i v) key last f j step ≡ get_loop h key last f j step
  unfolding get_loop goes_on
  get_loop-set_value key last zero j step = refl
  get_loop-set_value key last (suc f) j step = rw (get_loop-set_value key last f) refl

  get-set_value_lem : (q : Text) → get (set_value h i v) q ≡ get h q
  unfolding kh_get bucket_of
  get-set_value_lem q = rw (get_loop-set_value q) refl

  set_value-Shape : (m : ℕ) → Shape m h → Shape m (set_value h i v)
  unfolding goes_on
  set_value-Shape m s = record {
    m_le = s.m_le;
    two_le = s.two_le;
    buckets = s.buckets;
    reached = λ k low live.
        let r = s.reached k low live in
        record {
          trail = record {
            j = r.trail.j;
            low = r.trail.low;
            before = r.trail.before;
            stop = r.trail.stop;
          };
          ends = r.ends;
        };
    occupied = s.occupied;
    live = s.live;
    bound = s.bound;
    within = s.within;
  }

  set_value-Room : (n : ℕ) → Room n h → Room n (set_value h i v)
  set_value-Room n (inl b, few) = (
    inl (record {
      no_buckets = b.no_buckets;
      no_size = b.no_size;
      none_occupied = b.none_occupied;
      no_bound = b.no_bound;
    }),
    few,
  )
  set_value-Room n (inr (m, low, s), few) = (inr (m, low, set_value-Shape m s), few)

-- The size counts the live buckets.
size-live : (h : KhText) → Growable h → h.size ≡ count (λ i. not (is_either h.flags i)) h.n_buckets
unfolding count
size-live h (inl b) = b.no_size ∙ ap (count (λ i. not (is_either h.flags i))) (sym b.no_buckets)
size-live h (inr (m, low, s)) = s.live ∙ ap (count (λ i. not (is_either h.flags i))) (sym s.buckets)

init-Room : (n : ℕ) → n ≤ 2 ^ 29 → Room n kh_init
unfolding kh_init
init-Room n few = (inl Blank-kh_init, omega (arith, few))

-- `kh_text_t` of src/utils.h, as src/khash.h makes it, has the behaviour that the string hash and
-- the report rely on, up to 536870912 keys: `kh_get` finds a key or the end, `kh_put` finds or makes its
-- place and keeps the other keys with their values, `kh_del` takes a key out and keeps the others, an
-- assignment changes one value, and `kh_size` counts the keys.
pub text_table-KhashLaws : KhashLaws text_table
unfolding text_table kh_init kh_get bucket_of
text_table-KhashLaws = record {
  fits-init = init-Room;
  fits-le = λ m n t le r. (r.0, omega (arith, le, r.1));
  fits-put = λ n t q r. put-Room t q n r;
  fits-set_value = λ n t i v. set_value-Room t i v n;
  get-init = λ q. refl;
  get-lt-end = λ t q r here. (get-Hit t q r.0 here).low;
  exist-get = λ t q r here. ap not (get-Hit t q r.0 here).live;
  key-get = λ t q r here. (get-Hit t q r.0 here).key_is;
  get-key = λ t i r low here. get-keys t i r.0 low (ground (arith, here));
  get-put = λ t q r. get-put_lem t q 0 r;
  put-ne-end = λ t q r. put-ne-end_lem t q 0 r;
  absent-put = λ t q j r ne. absent-put_lem t q 0 r j ne;
  value-put = λ t q j r ne. value-put_lem t q 0 r j ne;
  fits-del = λ n t q r. (kh_del-Removed t q n r).room;
  get-del = λ t q r. (kh_del-Removed t q 0 r).gone;
  absent-del = λ t q j r. (kh_del-Removed t q 0 r).absent j;
  value-del = λ t q j r. (kh_del-Removed t q 0 r).kept j;
  get-set_value = λ t i v q. get-set_value_lem t i v q;
  end-set_value = λ t i v. refl;
  value-set_value = λ t i v e. ground arith;
  size-count = λ t r. size-live t r.0;
  value-set_value_ne = λ t i j v ne. ground (arith, ne);
}
