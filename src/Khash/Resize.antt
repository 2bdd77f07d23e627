-- ===== src/Khash/Resize.antt =====
-- `kh_resize` of src/khash.h: the table with another number of buckets.
use distiller_fs.Prelude.{
  count, count-same, ℕ, zero, suc, ◌^◌, ◌≤◌, ◌<◌, ◌≡◌, ◌↔◌, refl, sym, ap, ◌∙◌, subst, arith, inl,
  inr, Bool, false, not, Bool-cases, leb, if◌then◌else◌, Text, Option, none, some,
}
use distiller_fs.Khash.Flags.{
  is_empty, is_either, is_either-or, all_empty, is_empty-all_empty, is_del-all_empty,
}
use distiller_fs.Khash.Table.{KhText, Work, goes_on, rehash, kh_resize, new_size, upper_of}
use distiller_fs.Khash.Shape.{Shape, IsLive}
use distiller_fs.Khash.Rehash.{HeldOld, HeldNew, Held, Has, Moving, new_table, olds, news}
use distiller_fs.Khash.Rehash.Loop.{Rehashed, rehash-Rehashed}

-- A key with its value in a live bucket.
pub record Contains (h : KhText) (key : Text) (val : ℕ) : Type 0 where
  pub i : ℕ
  pub low : i < h.n_buckets
  pub live : IsLive h i
  pub key_is : h.keys i ≡ key
  pub val_is : h.vals i ≡ val

-- Each key is live in one bucket at most, and `size` counts them.
pub record Counted (h : KhText) : Type 0 where
  pub once :
      (i j : ℕ)
      → i < h.n_buckets
      → j < h.n_buckets
      → IsLive h i
      → IsLive h j
      → h.keys i ≡ h.keys j
      → i ≡ j
  pub size_is : h.size ≡ count (λ i. not (is_either h.flags i)) h.n_buckets

-- What a resize to `2 ^ m` buckets gives.
pub record Resized (m : ℕ) (h : KhText) (r : Option KhText) : Type 0 where
  pub table : KhText
  pub result : r ≡ some table
  pub shape : Shape m table
  pub room : table.n_occupied < table.upper_bound
  pub same_size : table.size ≡ h.size
  pub contents : (q : Text) (v : ℕ) → Contains table q v ↔ Contains h q v

count-none : (p : ℕ → Bool) (n : ℕ) → ((i : ℕ) → i < n → p i ≡ false) → count p n ≡ 0
unfolding count
count-none p zero h = refl
count-none p (suc n) h =
    ground (arith, h n (omega arith), count-none p n (λ i low. h i (omega (arith, low))))

module _ (h : KhText) (c : Counted h) (m : ℕ) (m_le : m ≤ 31) (two_le : 2 ≤ m)
    (room : h.size < upper_of (2 ^ m)) (few : upper_of (2 ^ m) < 2 ^ m) where
  abbrev start : Work
  start = record { flags = h.flags; new_flags = all_empty; keys = h.keys; vals = h.vals }

  -- No new bucket is taken at the start.
  not_new : (i : ℕ) → HeldNew m start i → ⊥
  not_new i new = absurd (ground (arith, new.1, is_empty-all_empty i))

  is_old : (i : ℕ) → Held h.n_buckets m start i → HeldOld h.n_buckets start i
  is_old i (inl old) = old
  is_old i (inr new) = absurd (not_new i new)

  start-Moving : Moving h.n_buckets m (Contains h) start
  start-Moving = record {
    unique =
        λ i j hi hj e. let a = is_old i hi in let b = is_old j hj in c.once i j a.0 b.0 a.1 b.1 e;
    apart = λ i old. is_empty-all_empty i;
    undeleted = λ i. is_del-all_empty i;
    reached = λ i new. absurd (not_new i new);
    sound = λ i hi.
        let a = is_old i hi in
        record { i = i; low = a.0; live = a.1; key_is = refl; val_is = refl };
  }

  start-news : news m start ≡ 0
  start-news =
      count-none (λ i. not (is_empty all_empty i)) (2 ^ m) (λ i low. ap not (is_empty-all_empty i))

  moved :
      Rehashed h.n_buckets m m_le
        (Contains h)
        start
        (rehash h.n_buckets (2 ^ m) h.n_buckets 0 start)
  moved =
      rehash-Rehashed h.n_buckets m m_le (Contains h) h.n_buckets 0 start (omega arith)
        (λ a old. omega arith) start-Moving
        (λ q v has. record {
          i = has.i;
          held = inl (has.low, has.live);
          key_is = has.key_is;
          val_is = has.val_is;
        })
        (omega (arith, start-news, c.size_is, room, few))

  abbrev w : Work
  w = moved.work

  abbrev table : KhText
  table = record {
    n_buckets = 2 ^ m;
    size = h.size;
    n_occupied = h.size;
    upper_bound = upper_of (2 ^ m);
    flags = w.new_flags;
    keys = w.keys;
    vals = w.vals;
  }

  live-empty : (i : ℕ) → is_either w.new_flags i ≡ is_empty w.new_flags i
  live-empty i = ground (arith, is_either-or w.new_flags i, moved.moving.undeleted i)

  size-news : h.size ≡ news m w
  size-news =
      let gone : olds h.n_buckets w ≡ 0 =
        count-none (λ i. not (is_either w.flags i)) h.n_buckets
          (λ i low. elim (Bool-cases (is_either w.flags i)) [
            | inl free ↦ ap not free
            | inr live ↦ absurd (moved.none_old i (low, live))
          ]) in
      omega (arith, moved.counts, gone, start-news, c.size_is)

  goes_on-same : (q : Text) (i : ℕ) → goes_on table q i ≡ goes_on (new_table w) q i
  unfolding goes_on
  goes_on-same q i = refl

  table-Shape : Shape m table
  table-Shape = record {
    m_le = m_le;
    two_le = two_le;
    buckets = refl;
    reached = λ i low live.
        let r = moved.moving.reached i (low, sym (live-empty i) ∙ live) in
        record {
          trail = record {
            j = r.trail.j;
            low = r.trail.low;
            before = λ k b. goes_on-same (w.keys i) _ ∙ r.trail.before k b;
            stop = goes_on-same (w.keys i) _ ∙ r.trail.stop;
          };
          ends = r.ends;
        };
    occupied = size-news;
    live = size-news ∙ count-same _ _ (2 ^ m) (λ i low. ap not (sym (live-empty i)));
    bound = refl;
    within = omega (arith, room);
  }

  has-Contains : (q : Text) (v : ℕ) → Has h.n_buckets m w q v → Contains table q v
  has-Contains q v has = elim has.held [
    | inl old ↦ absurd (moved.none_old has.i old)
    | inr new ↦ record {
      i = has.i;
      low = new.0;
      live = live-empty has.i ∙ new.1;
      key_is = has.key_is;
      val_is = has.val_is;
    }
  ]

  -- `kh_resize` with the number of buckets that it rounds to.
  body : ℕ → Option KhText
  body n =
      if leb (upper_of n) h.size then some h else elim (rehash h.n_buckets n h.n_buckets 0 start) [
        | none ↦ none
        | some w' ↦ some (record {
          n_buckets = n;
          size = h.size;
          n_occupied = h.size;
          upper_bound = upper_of n;
          flags = w'.new_flags;
          keys = w'.keys;
          vals = w'.vals;
        })
      ]

  kh_resize-body : (k : ℕ) → kh_resize h k ≡ body (new_size k)
  unfolding kh_resize body
  kh_resize-body k = refl

  body-table : body (2 ^ m) ≡ some table
  unfolding body
  body-table =
      let large : leb (upper_of (2 ^ m)) h.size ≡ false = ground (arith, room) in
      rw (large, moved.result) refl

  -- On a table in which each key is live once and `size` counts the live buckets, a resize that rounds
  -- to `2 ^ m` buckets, whose bound for the elements exceeds the size, returns: its loops end, and the
  -- new table keeps the invariant, has room for one more key, and holds exactly the old keys with their
  -- values.
  pub kh_resize-Resized : (k : ℕ) → new_size k ≡ 2 ^ m → Resized m h (kh_resize h k)
  kh_resize-Resized k size_at = record {
    table = table;
    result = kh_resize-body k ∙ (ap body size_at ∙ body-table);
    shape = table-Shape;
    room = room;
    same_size = refl;
    contents = λ q v. (
      λ in_new.
          subst (λ p. Contains h p v) in_new.key_is
            (subst (Contains h (w.keys in_new.i)) in_new.val_is (
              moved.moving.sound in_new.i
                (inr (in_new.low, sym (live-empty in_new.i) ∙ in_new.live)))),
      λ in_old. has-Contains q v (moved.complete q v in_old),
    );
  }
