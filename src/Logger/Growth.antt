-- ===== src/Logger/Growth.antt =====
-- Memory accounting of the two ways to count an event: a new key brings two blocks that it owns,
-- a known key brings none.
use distiller_fs.Prelude.{
  ℕ, ◌+◌, Text, some, ◌≡◌, sym, subst, ◌≢◌, ◌∙◌, ◌⊎◌, inl, inr, List, arith, text_eq, text_eq_iff,
  Bool-cases, ◌==◌,
}
use distiller_fs.Khash.{Khash, KhashLaws}
use distiller_fs.Hash.{hash_find}
use distiller_fs.Hash.Laws.{find-add_self, find-add_ne}
use distiller_fs.Memory.{Block, item}
use distiller_fs.Logger.{State}
use distiller_fs.Logger.Invariant.{
  Holds, live-lt-next, IsValid, added, bumped, added-IsValid, bumped-IsValid,
}
use distiller_fs.Logger.Accounts.{In, OwnedBy, Sound}

module _ (kh : Khash) (laws : KhashLaws kh) {W : Type 0} (path : Text) (flag : ℕ) (temps : List ℕ)
    (s : State kh.Table W) (v : Sound kh temps s.heap s.table) where
  module _ (f : kh.Fits 1 s.table) (absent : hash_find kh s.table path ≡ 0) where
    abbrev grown : State kh.Table W
    grown = added kh path flag s

    grown-IsValid : IsValid kh grown.heap grown.table
    grown-IsValid = added-IsValid kh laws path flag s v.valid f

    find-grown : hash_find kh grown.table path ≡ s.heap.next
    find-grown = find-add_self kh laws s.table path s.heap.next f

    find-grown_known :
        (q : Text)
        → hash_find kh s.table q ≢ 0
        → hash_find kh grown.table q ≡ hash_find kh s.table q
    find-grown_known q ne =
        find-add_ne kh laws s.table path q s.heap.next f
          (λ (e : q ≡ path). ne (subst (λ p. hash_find kh s.table p ≡ 0) (sym e) absent))

    grown_kept : (a : ℕ) {b : Block} → s.heap.block a ≡ some b → grown.heap.block a ≡ s.heap.block a
    grown_kept a e = ground (arith, live-lt-next s.heap a v.valid.fresh e)

    find-grown_ne : hash_find kh grown.table path ≢ 0
    find-grown_ne = ground (arith, find-grown, v.valid.started)

    -- A key after the growth is the new one, or one that was there.
    grown-apart :
        (a : ℕ) (q : Text)
        → In a temps
        → hash_find kh grown.table q ≢ 0
        → (x : Holds grown.heap (hash_find kh grown.table q) q) → x.it.path ≢ a
    grown-apart a q m ne x e = elim (Bool-cases (text_eq q path)) [
      | inl same ↦
          let at =
            subst (λ p. hash_find kh grown.table p ≡ s.heap.next)
              (sym ((text_eq_iff q path).0 same)) find-grown in
          let (_, live, simple) = v.strings a m in
          ground (arith, x.counter, at, e, live-lt-next s.heap a v.valid.fresh live)
      | inr other ↦
          let kept =
            find-add_ne kh laws s.table path q s.heap.next f (ground (arith, text_eq_iff q path)) in
          let known : hash_find kh s.table q ≢ 0 = ground (arith, kept) in
          let y = v.valid.held q known in
          v.apart a q m known y (
            ground
              (arith, x.counter, y.counter, kept, grown_kept (hash_find kh s.table q) y.counter))
    ]

    grown-owned :
        (a : ℕ) (b : Block)
        → grown.heap.block a ≡ some b
        → In a temps ⊎ OwnedBy kh grown.heap grown.table a
    grown-owned a b e = elim (Bool-cases (a == s.heap.next)) [
      | inl counter ↦ inr (record {
        key = path;
        known = find-grown_ne;
        held = grown-IsValid.held path find-grown_ne;
        side = inl (ground (arith, find-grown));
      })
      | inr below ↦ elim (Bool-cases (a == s.heap.next + 1)) [
        | inl copy ↦
            let x = grown-IsValid.held path find-grown_ne in
            inr (record {
              key = path;
              known = find-grown_ne;
              held = x;
              side = inr (ground (arith, find-grown, x.counter));
            })
        | inr other ↦ elim (v.owned a b (ground arith)) [
          | inl m ↦ inl m
          | inr o ↦
              let kept = find-grown_known o.key o.known in
              let x = grown-IsValid.held o.key (ground (arith, kept, o.known)) in
              inr (record {
                key = o.key;
                known = ground (arith, kept, o.known);
                held = x;
                side = ground (
                  arith,
                  o.side,
                  kept,
                  x.counter,
                  o.held.counter,
                  grown_kept (hash_find kh s.table o.key) o.held.counter,
                );
              })
        ]
      ]
    ]

    pub added-Sound : Sound kh temps grown.heap grown.table
    added-Sound = record {
      valid = grown-IsValid;
      distinct = v.distinct;
      strings = λ a m. let (u, e, p) = v.strings a m in (u, ground (arith, e, grown_kept a e), p);
      apart = grown-apart;
      owned = grown-owned;
    }

  module _ (x : Holds s.heap (hash_find kh s.table path) path) where
    abbrev raised : State kh.Table W
    raised = bumped kh path flag (hash_find kh s.table path) x.it s

    -- Every counter keeps the address of its path.
    raised_path :
        (q : Text) (p : ℕ) (y : Holds s.heap p q) (z : Holds raised.heap p q)
        → z.it.path ≡ y.it.path
    raised_path q p y z = ground (arith, y.counter, z.counter, x.counter)

    raised-owned :
        (valid : IsValid kh raised.heap raised.table) (a : ℕ)
        → In a temps ⊎ OwnedBy kh s.heap s.table a
        → In a temps ⊎ OwnedBy kh raised.heap raised.table a
    raised-owned valid a (inl m) = inl m
    raised-owned valid a (inr o) =
        let z = valid.held o.key o.known in
        let same_path = raised_path o.key (hash_find kh s.table o.key) o.held z in
        inr (record {
          key = o.key;
          known = o.known;
          held = z;
          side = ground (arith, o.side, same_path);
        })

    pub bumped-Sound : Sound kh temps raised.heap raised.table
    bumped-Sound =
        let valid = bumped-IsValid kh laws path flag s x v.valid in
        record {
          valid = valid;
          distinct = v.distinct;
          strings = λ a m. let (u, e, p) = v.strings a m in (u, ground (arith, e, x.counter, p), p);
          apart = λ a q m ne z e.
              let y = v.valid.held q ne in
              v.apart a q m ne y (sym (raised_path q (hash_find kh s.table q) y z) ∙ e);
          owned = λ a b e. elim (Bool-cases (a == hash_find kh s.table path)) [
            | inl same ↦ raised-owned valid a (v.owned a (item x.it) (ground (arith, x.counter)))
            | inr other ↦ raised-owned valid a (v.owned a b (ground arith))
          ];
        }
