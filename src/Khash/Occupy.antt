-- ===== src/Khash/Occupy.antt =====
-- What `kh_put` of src/khash.h writes into a free bucket, and the invariant after it.
use distiller_fs.Prelude.{
  count, count-same, count-more, count-le, ℕ, ◌+◌, ◌^◌, ◌≤◌, ◌<◌, ◌≡◌, ◌≢◌, refl, sym, ap, ◌∙◌,
  subst, arith, inl, inr, true, false, not, Bool-cases, ◌==◌, if◌then◌else◌, Text, text_eq,
  text_eq_iff, some,
}
use distiller_fs.Khash.Flags.{
  is_empty, is_del, is_either, is_either-or, set_isboth_false, is_empty-set_isboth_false,
  is_del-set_isboth_false,
}
use distiller_fs.Khash.Table.{KhText, u32, put_at, goes_on, occupy, kh_get}
use distiller_fs.Khash.Positions.{two_pow-le}
use distiller_fs.Khash.Lookup.{try_at, try_at-lt, try_at-injective}
use distiller_fs.Khash.Shape.{Shape, Reaches, IsLive, key_trail, kh_get_lem, kh_get_iff}
use distiller_fs.Khash.Insert.{IsFree}

some-injective : (a b : ℕ) → some a ≡ some b → a ≡ b
some-injective a b e = ground (arith, e)

module _ (m : ℕ) (h : KhText) (s : Shape m h) (key : Text) (x : ℕ) (f : IsFree m h s key x) where
  abbrev h' : KhText
  h' = (occupy h key x).0

  occupy-flags : h'.flags ≡ set_isboth_false h.flags x
  unfolding occupy
  occupy-flags = ground (arith, f.free, is_either-or h.flags x)

  occupy-keys : h'.keys ≡ put_at h.keys x key
  unfolding occupy
  occupy-keys = ground (arith, f.free, is_either-or h.flags x)

  is_empty-occupy : (i : ℕ) → is_empty h'.flags i ≡ (if x == i then false else is_empty h.flags i)
  is_empty-occupy i = ap (λ w. is_empty w i) occupy-flags ∙ is_empty-set_isboth_false h.flags x i

  is_del-occupy : (i : ℕ) → is_del h'.flags i ≡ (if x == i then false else is_del h.flags i)
  is_del-occupy i = ap (λ w. is_del w i) occupy-flags ∙ is_del-set_isboth_false h.flags x i

  pub is_either-occupy :
      (i : ℕ) → is_either h'.flags i ≡ (if x == i then false else is_either h.flags i)
  is_either-occupy i =
      ground
        (arith, is_either-or h'.flags i, is_either-or h.flags i, is_empty-occupy i, is_del-occupy i)

  pub keys-occupy : (i : ℕ) → h'.keys i ≡ (if x == i then key else h.keys i)
  keys-occupy i = ap (λ k. k i) occupy-keys

  goes_on-other : (key' : Text) (i : ℕ) → x ≢ i → goes_on h' key' i ≡ goes_on h key' i
  unfolding goes_on
  goes_on-other key' i other =
      let test : (x == i) ≡ false = ground (arith, other) in
      rw (is_empty-occupy i, is_del-occupy i, keys-occupy i, test) refl

  goes_on-taken : (key' : Text) → goes_on h' key' x ≡ not (text_eq key key')
  unfolding goes_on
  goes_on-taken key' =
      let test : (x == x) ≡ true = ground arith in
      rw (is_empty-occupy x, is_del-occupy x, keys-occupy x, test) refl

  -- No live bucket has the key.
  pub key-absent : (i : ℕ) → i < 2 ^ m → IsLive h i → h.keys i ≢ key
  key-absent i low live e =
      let t = key_trail m h s key in
      let below : i < h.n_buckets = omega (arith, low, s.buckets) in
      let found = (kh_get_iff m h s key i below).1 (live, e) in
      let free : is_either h.flags (try_at m key t.j) ≡ true =
        ground (arith, is_either-or h.flags (try_at m key t.j), f.absent) in
      let gone : kh_get h key ≡ some h.n_buckets = kh_get_lem m h s key ∙ rw free refl in
      absurd (omega (arith, below, some-injective i h.n_buckets (sym found ∙ gone)))

  earlier : (k : ℕ) → k < f.k → x ≢ try_at m key k
  earlier k low e =
      let t = key_trail m h s key in
      absurd (
        omega (
          arith,
          low,
          f.k_le,
          t.low,
          try_at-injective m s.m_le key k f.k (omega (arith, low, f.k_le, t.low))
              (omega (arith, f.k_le, t.low)) (sym e ∙ sym f.at),
        ))

  new-Reaches : Reaches m h' key x
  new-Reaches = record {
    trail = record {
      j = f.k;
      low = omega (arith, f.k_le, (key_trail m h s key).low);
      before = λ k low.
          goes_on-other key (try_at m key k) (earlier k low)
          ∙ (key_trail m h s key).before k (omega (arith, low, f.k_le));
      stop = ap (goes_on h' key) f.at ∙ (goes_on-taken key ∙ ap not ((text_eq_iff key key).1 refl));
    };
    ends = f.at;
  }

  passes_taken : (key' : Text) (p : ℕ) → (x == p) ≡ true → key' ≢ key → goes_on h' key' p ≡ true
  passes_taken key' p same ne =
      let at : x ≡ p = ground (arith, same) in
      subst (λ i. goes_on h' key' i ≡ true) at
        (goes_on-taken key' ∙ ground (arith, text_eq_iff key key', ne))

  old-Reaches : (i : ℕ) → i < 2 ^ m → x ≢ i → IsLive h i → Reaches m h' (h.keys i) i
  old-Reaches i low other live =
      let r = s.reached i low live in
      record {
        trail = record {
          j = r.trail.j;
          low = r.trail.low;
          before = λ k b.
              let p = try_at m (h.keys i) k in
              elim (Bool-cases (x == p)) [
                | inl same ↦ passes_taken (h.keys i) p same (key-absent i low live)
                | inr apart ↦
                    goes_on-other (h.keys i) p (ground (arith, apart)) ∙ r.trail.before k b
              ];
          stop = goes_on-other (h.keys i) _ (λ e. other (e ∙ r.ends)) ∙ r.trail.stop;
        };
        ends = r.ends;
      }

  pub taken-lt : x < 2 ^ m
  taken-lt = rw (← f.at) (try_at-lt m s.m_le key f.k)

  occupy-reached : (i : ℕ) → i < 2 ^ m → IsLive h' i → Reaches m h' (h'.keys i) i
  occupy-reached i low live = elim (Bool-cases (x == i)) [
    | inl same ↦
        let at : x ≡ i = ground (arith, same) in
        let has_key : key ≡ h'.keys i = ground (arith, keys-occupy i, same) in
        subst (λ y. Reaches m h' y i) has_key (subst (Reaches m h' key) at new-Reaches)
    | inr other ↦
        let old_live : IsLive h i = ground (arith, is_either-occupy i, live, other) in
        let has_key : h.keys i ≡ h'.keys i = ground (arith, keys-occupy i, other) in
        subst (λ y. Reaches m h' y i) has_key (old-Reaches i low (ground (arith, other)) old_live)
  ]

  pub occupy-size : h'.size ≡ h.size + 1
  unfolding occupy
  occupy-size =
      let small : h.size ≤ 2 ^ m =
        omega (arith, s.live, count-le (λ i. not (is_either h.flags i)) (2 ^ m)) in
      let fits : u32 (h.size + 1) ≡ h.size + 1 = omega (arith, small, two_pow-le m s.m_le) in
      ground (arith, f.free, is_either-or h.flags x, fits)

  occupy-n_occupied :
      h'.n_occupied ≡ (if is_empty h.flags x then h.n_occupied + 1 else h.n_occupied)
  unfolding occupy
  occupy-n_occupied =
      let small : h.n_occupied ≤ 2 ^ m =
        omega (arith, s.occupied, count-le (λ i. not (is_empty h.flags i)) (2 ^ m)) in
      let fits : u32 (h.n_occupied + 1) ≡ h.n_occupied + 1 =
        omega (arith, small, two_pow-le m s.m_le) in
      ground (arith, f.free, is_either-or h.flags x, fits)

  occupy-live : h'.size ≡ count (λ i. not (is_either h'.flags i)) (2 ^ m)
  occupy-live =
      let more =
        count-more (λ i. not (is_either h.flags i)) (λ i. not (is_either h'.flags i)) (2 ^ m) x
          taken-lt (λ i ne. ground (arith, is_either-occupy i, ne)) (ground (arith, f.free))
          (ground (arith, is_either-occupy x)) in
      omega (arith, occupy-size, s.live, more)

  occupy-occupied :
      h.n_occupied < h.upper_bound
      → (h'.n_occupied ≡ count (λ i. not (is_empty h'.flags i)) (2 ^ m))
        × (h'.n_occupied ≤ h.upper_bound)
  occupy-occupied room = elim (Bool-cases (is_empty h.flags x)) [
    | inl empty ↦
        let one : h'.n_occupied ≡ h.n_occupied + 1 = ground (arith, occupy-n_occupied, empty) in
        let more =
          count-more (λ i. not (is_empty h.flags i)) (λ i. not (is_empty h'.flags i)) (2 ^ m) x
            taken-lt (λ i ne. ground (arith, is_empty-occupy i, ne)) (ground (arith, empty))
            (ground (arith, is_empty-occupy x)) in
        (omega (arith, one, s.occupied, more), omega (arith, one, room))
    | inr deleted ↦
        let none_more : h'.n_occupied ≡ h.n_occupied = ground (arith, occupy-n_occupied, deleted) in
        let same =
          count-same (λ i. not (is_empty h.flags i)) (λ i. not (is_empty h'.flags i)) (2 ^ m)
            (λ i low. elim (Bool-cases (x == i)) [
              | inl at ↦
                  let e : x ≡ i = ground (arith, at) in
                  ground (arith, is_empty-occupy i, deleted, at, ap (is_empty h.flags) e)
              | inr other ↦ ground (arith, is_empty-occupy i, other)
            ]) in
        (omega (arith, none_more, s.occupied, same), omega (arith, none_more, room))
  ]

  pub occupy-n_buckets : h'.n_buckets ≡ h.n_buckets
  unfolding occupy
  occupy-n_buckets = ground arith

  occupy-upper_bound : h'.upper_bound ≡ h.upper_bound
  unfolding occupy
  occupy-upper_bound = ground arith

  pub occupy-vals : h'.vals ≡ h.vals
  unfolding occupy
  occupy-vals = ground arith

  pub occupy-ret : (occupy h key x).1 ≢ 0
  unfolding occupy
  occupy-ret = ground (arith, f.free, is_either-or h.flags x)

  -- The table after a write into a free bucket.
  pub occupy-Shape : h.n_occupied < h.upper_bound → Shape m h'
  occupy-Shape room = record {
    m_le = s.m_le;
    two_le = s.two_le;
    buckets = occupy-n_buckets ∙ s.buckets;
    reached = occupy-reached;
    occupied = (occupy-occupied room).0;
    live = occupy-live;
    bound = occupy-upper_bound ∙ s.bound;
    within = omega (arith, occupy-upper_bound, (occupy-occupied room).1);
  }
