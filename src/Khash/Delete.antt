-- ===== src/Khash/Delete.antt =====
-- `kh_del` of src/khash.h.
use distiller_fs.Prelude.{
  count, count-more, count-same, count-le, ℕ, suc, ◌+◌, ◌-◌, ◌^◌, ◌<◌, ◌≡◌, ◌≢◌, ◌↔◌, refl, sym, ap,
  ◌∙◌, subst, arith, inl, inr, true, false, not, Bool-cases, ◌==◌, if◌then◌else◌, Text, some,
}
use distiller_fs.Khash.Flags.{
  is_empty, is_del, is_either, is_either-or, set_isdel_true, is_del-set_isdel_true,
  is_empty-set_isdel_true,
}
use distiller_fs.Khash.Table.{KhText, u32, goes_on, kh_del, kh_get}
use distiller_fs.Khash.Positions.{two_pow-le}
use distiller_fs.Khash.Lookup.{try_at}
use distiller_fs.Khash.Shape.{Shape, Reaches, IsLive, kh_get_iff, kh_get-absent}

some-injective : (a b : ℕ) → some a ≡ some b → a ≡ b
some-injective a b e = ground (arith, e)

module _ (m : ℕ) (h : KhText) (s : Shape m h) (x : ℕ) (low : x < h.n_buckets)
    (live : IsLive h x) where
  abbrev h' : KhText
  h' = kh_del h x

  del-flags : h'.flags ≡ set_isdel_true h.flags x
  unfolding kh_del
  del-flags = ground (arith, low, live)

  del-keys : h'.keys ≡ h.keys
  unfolding kh_del
  del-keys = ground arith

  is_empty-kh_del : (i : ℕ) → is_empty h'.flags i ≡ is_empty h.flags i
  is_empty-kh_del i = ap (λ w. is_empty w i) del-flags ∙ is_empty-set_isdel_true h.flags x i

  is_del-kh_del : (i : ℕ) → is_del h'.flags i ≡ (if x == i then true else is_del h.flags i)
  is_del-kh_del i = ap (λ w. is_del w i) del-flags ∙ is_del-set_isdel_true h.flags x i

  is_either-kh_del : (i : ℕ) → is_either h'.flags i ≡ (if x == i then true else is_either h.flags i)
  is_either-kh_del i =
      ground
        (arith, is_either-or h'.flags i, is_either-or h.flags i, is_empty-kh_del i, is_del-kh_del i)

  goes_on-kept : (q : Text) (i : ℕ) → x ≢ i → goes_on h' q i ≡ goes_on h q i
  unfolding goes_on
  goes_on-kept q i other =
      let test : (x == i) ≡ false = ground (arith, other) in
      rw (is_empty-kh_del i, is_del-kh_del i, del-keys, test) refl

  -- A deleted bucket does not stop the loops.
  goes_on-deleted : (q : Text) → goes_on h' q x ≡ true
  unfolding goes_on
  goes_on-deleted q =
      ground (arith, is_empty-kh_del x, is_del-kh_del x, is_either-or h.flags x, live)

  still_on : (q : Text) (i : ℕ) → goes_on h q i ≡ true → goes_on h' q i ≡ true
  still_on q i on = elim (Bool-cases (x == i)) [
    | inl same ↦
        let at : x ≡ i = ground (arith, same) in
        subst (λ j. goes_on h' q j ≡ true) at (goes_on-deleted q)
    | inr other ↦ goes_on-kept q i (ground (arith, other)) ∙ on
  ]

  del-reached : (i : ℕ) → i < 2 ^ m → IsLive h' i → Reaches m h' (h'.keys i) i
  del-reached i below is_live =
      let ne : x ≢ i = ground (arith, is_either-kh_del i, is_live) in
      let r = s.reached i below (ground (arith, is_either-kh_del i, is_live)) in
      subst (λ k. Reaches m h' (k i) i) (sym del-keys)
        (record {
          trail = record {
            j = r.trail.j;
            low = r.trail.low;
            before = λ k b. still_on (h.keys i) (try_at m (h.keys i) k) (r.trail.before k b);
            stop = goes_on-kept (h.keys i) _ (λ e. ne (e ∙ r.ends)) ∙ r.trail.stop;
          };
          ends = r.ends;
        })

  one_less :
      count (λ i. not (is_either h.flags i)) (2 ^ m)
      ≡ suc (count (λ i. not (is_either h'.flags i)) (2 ^ m))
  one_less =
      count-more (λ i. not (is_either h'.flags i)) (λ i. not (is_either h.flags i)) (2 ^ m) x
        (omega (arith, low, s.buckets)) (λ i ne. ground (arith, is_either-kh_del i, ne))
        (ground (arith, is_either-kh_del x)) (ground (arith, live))

  del-size : suc h'.size ≡ h.size
  unfolding kh_del
  del-size =
      let small = count-le (λ i. not (is_either h.flags i)) (2 ^ m) in
      let bound = two_pow-le m s.m_le in
      let less : u32 (h.size + (2 ^ 32 - 1)) ≡ h.size - 1 =
        omega (arith, small, bound, s.live, one_less) in
      let test : (x == h.n_buckets) ≡ false = ground (arith, low) in
      ground (arith, less, live, test, s.live, one_less)

  same_else :
      (h'.n_buckets ≡ h.n_buckets)
      × (h'.n_occupied ≡ h.n_occupied)
      × (h'.upper_bound ≡ h.upper_bound)
      × (h'.vals ≡ h.vals)
  unfolding kh_del
  same_else = (ground arith, ground arith, ground arith, ground arith)

  pub kh_del-Shape : Shape m h'
  kh_del-Shape = record {
    m_le = s.m_le;
    two_le = s.two_le;
    buckets = same_else.0 ∙ s.buckets;
    reached = del-reached;
    occupied =
        same_else.1
        ∙ (s.occupied ∙ count-same _ _ (2 ^ m) (λ i low. ap not (sym (is_empty-kh_del i))));
    live = omega (arith, del-size, s.live, one_less);
    bound = same_else.2 ∙ s.bound;
    within = omega (arith, s.within, same_else.1, same_else.2);
  }

  -- Each live key is in one bucket alone.
  key_once : (i : ℕ) → i < h.n_buckets → IsLive h i → h.keys i ≡ h.keys x → i ≡ x
  key_once i below is_live same = some-injective i x (
      sym ((kh_get_iff m h s (h.keys i) i below).1 (is_live, refl))
      ∙ (ap (kh_get h) same ∙ (kh_get_iff m h s (h.keys x) x low).1 (live, refl)))

  -- What the lookups see of it.
  pub record Deleted : Type 0 where
    pub shape : Shape m (kh_del h x)
    pub same_buckets : (kh_del h x).n_buckets ≡ h.n_buckets
    pub same_vals : (kh_del h x).vals ≡ h.vals
    pub smaller : suc (kh_del h x).size ≡ h.size
    pub this : kh_get (kh_del h x) (h.keys x) ≡ some h.n_buckets
    pub others :
        (q : Text)
        → q ≢ h.keys x
        → (i : ℕ) → i < h.n_buckets
        → (kh_get (kh_del h x) q ≡ some i) ↔ (kh_get h q ≡ some i)

  -- On a table that keeps the invariant, `kh_del` of a live bucket keeps it, with a size smaller by one
  -- and the values as they were; the key of the bucket is then found nowhere, and any other key where it
  -- was found before.
  pub kh_del-Deleted : Deleted
  kh_del-Deleted = record {
    shape = kh_del-Shape;
    same_buckets = same_else.0;
    same_vals = same_else.3;
    smaller = del-size;
    this =
        kh_get-absent m h' kh_del-Shape (h.keys x) (λ i below is_live same.
          let old_live : IsLive h i = ground (arith, is_either-kh_del i, is_live) in
          let ne : x ≢ i = ground (arith, is_either-kh_del i, is_live) in
          ne (
            sym (
              key_once i (omega (arith, below, same_else.0)) old_live
                (sym (ap (λ k. k i) del-keys) ∙ same))))
        ∙ ap (λ (n : ℕ). some n) same_else.0;
    others = λ q ne i below.
        let new = kh_get_iff m h' kh_del-Shape q i (omega (arith, below, same_else.0)) in
        let old = kh_get_iff m h s q i below in
        let keys_same : h'.keys i ≡ h.keys i = ap (λ k. k i) del-keys in
        (
          λ e.
              let found = new.0 e in
              old.1 (ground (arith, is_either-kh_del i, found.0), sym keys_same ∙ found.1),
          λ e.
              let found = old.0 e in
              let apart : x ≢ i = λ at. ne (sym found.1 ∙ ap h.keys (sym at)) in
              new.1 (ground (arith, is_either-kh_del i, found.0, apart), keys_same ∙ found.1),
        );
  }
