-- ===== src/Logger/Accounts.antt =====
-- Memory accounting: every live block is set aside, as the string that a handler has borrowed is, or
-- belongs to one key of the hash, as its counter or as its copy of the path.
use distiller_fs.Prelude.{
  ℕ, Text, some, ◌≡◌, refl, sym, subst, true, ◌≢◌, ◌⊎◌, inl, inr, List, [], ◌∷◌, arith, Bool-cases,
  ◌==◌,
}
use distiller_fs.Khash.{Khash}
use distiller_fs.Hash.{hash_find}
use distiller_fs.Memory
use distiller_fs.Memory.{LfsCount, Block, raw, text, item, plain, Heap, update}
use distiller_fs.Logger.Invariant.{Holds, Holds_transfer, live-lt-next, IsValid}

abbrev pub In : ℕ → List ℕ → Type 0
In a [] = ⊥
In a (b ∷ bs) = (a ≡ b) ⊎ In a bs

abbrev pub Distinct : List ℕ → Type 0
Distinct [] = Unit
Distinct (b ∷ bs) = ¬ In b bs × Distinct bs

module _ (kh : Khash) where
  -- A block of a key: its counter, or its copy of the path.
  pub record OwnedBy (h : Heap) (t : kh.Table) (a : ℕ) : Type 0 where
    pub key : Text
    pub known : hash_find kh t key ≢ 0
    pub held : Holds h (hash_find kh t key) key
    pub side : (a ≡ hash_find kh t key) ⊎ (a ≡ held.it.path)

  pub record Sound (temps : List ℕ) (h : Heap) (t : kh.Table) : Type 0 where
    pub valid : IsValid kh h t
    pub distinct : Distinct temps
    -- a block that is set aside is live, and no key owns it
    pub strings : (a : ℕ) → In a temps → (b : Block) × (h.block a ≡ some b) × (plain b ≡ true)
    pub apart :
        (a : ℕ) (q : Text)
        → In a temps
        → hash_find kh t q ≢ 0
        → (x : Holds h (hash_find kh t q) q) → x.it.path ≢ a
    -- nothing else is live
    pub owned : (a : ℕ) (b : Block) → h.block a ≡ some b → In a temps ⊎ OwnedBy h t a

module _ (kh : Khash) (temps : List ℕ) (h : Heap) (t : kh.Table) where
  module _ (s : Block) (simple : plain s ≡ true) (v : Sound kh temps h t) where
    abbrev strdup : Heap
    strdup = (Memory.alloc s h).1

    strdup_kept : (a : ℕ) {b : Block} → h.block a ≡ some b → strdup.block a ≡ h.block a
    strdup_kept a e = ground (arith, live-lt-next h a v.valid.fresh e)

    abbrev strdup_held : {p : ℕ} {q : Text} → Holds h p q → Holds strdup p q
    strdup_held {p} x =
        Holds_transfer strdup x (strdup_kept p x.counter) (strdup_kept x.it.path x.name)

    strdup-apart :
        (a : ℕ) (q : Text)
        → In a (h.next ∷ temps)
        → hash_find kh t q ≢ 0
        → (x : Holds strdup (hash_find kh t q) q) → x.it.path ≢ a
    strdup-apart a q (inl m) ne x e =
        let y = v.valid.held q ne in
        ground (
          arith,
          x.counter,
          y.counter,
          strdup_kept (hash_find kh t q) y.counter,
          live-lt-next h y.it.path v.valid.fresh y.name,
        )
    strdup-apart a q (inr m) ne x e =
        let y = v.valid.held q ne in
        v.apart a q m ne y
          (ground (arith, x.counter, y.counter, strdup_kept (hash_find kh t q) y.counter))

    strdup-owned :
        (a : ℕ) (b : Block)
        → strdup.block a ≡ some b
        → In a (h.next ∷ temps) ⊎ OwnedBy kh strdup t a
    strdup-owned a b e = elim (Bool-cases (a == h.next)) [
      | inl new ↦ inl (inl (ground arith))
      | inr old ↦ elim (v.owned a b (ground arith)) [
        | inl m ↦ inl (inr m)
        | inr o ↦
            inr (record { key = o.key; known = o.known; held = strdup_held o.held; side = o.side })
      ]
    ]

    -- `malloc` and `strdup` set one more block aside.
    pub alloc-Sound : Sound kh (h.next ∷ temps) strdup t
    alloc-Sound = record {
      valid = record {
        held = λ q ne. strdup_held (v.valid.held q ne);
        fresh = λ a p. ground (arith, v.valid.fresh a);
        started = omega arith;
        filled = v.valid.filled;
        made = v.valid.made;
        null = ground (arith, v.valid.null, v.valid.started);
      };
      distinct = (
        λ m. let (_, e, _) = v.strings h.next m in ground (arith, e, v.valid.fresh h.next),
        v.distinct,
      );
      strings = λ a m. elim m [
        | inl e ↦ (s, ground arith, simple)
        | inr m' ↦ let (u, e, p) = v.strings a m' in (u, ground (arith, e, strdup_kept a e), p)
      ];
      apart = strdup-apart;
      owned = strdup-owned;
    }

  module _ (a : ℕ) (v : Sound kh (a ∷ temps) h t) where
    abbrev freed : Heap
    freed = Memory.released a h

    freed_counter :
        (q : Text) (x : Holds h (hash_find kh t q) q)
        → freed.block (hash_find kh t q) ≡ h.block (hash_find kh t q)
    freed_counter q x = let (_, e, p) = v.strings a (inl refl) in ground (arith, e, x.counter, p)

    freed_name :
        (q : Text) (x : Holds h (hash_find kh t q) q)
        → hash_find kh t q ≢ 0
        → freed.block x.it.path ≡ h.block x.it.path
    freed_name q x ne = ground (arith, v.apart a q (inl refl) ne x)

    abbrev freed_held :
        (q : Text)
        → hash_find kh t q ≢ 0
        → Holds h (hash_find kh t q) q
        → Holds freed (hash_find kh t q) q
    freed_held q ne x = Holds_transfer freed x (freed_counter q x) (freed_name q x ne)

    freed-owned : (c : ℕ) (b : Block) → freed.block c ≡ some b → In c temps ⊎ OwnedBy kh freed t c
    freed-owned c b e = elim (v.owned c b (ground arith)) [
      | inl (inl same) ↦ absurd (ground arith)
      | inl (inr m) ↦ inl m
      | inr o ↦ inr (record {
        key = o.key;
        known = o.known;
        held = freed_held o.key o.known o.held;
        side = o.side;
      })
    ]

    freed-Sound : Sound kh temps freed t
    freed-Sound = record {
      valid = record {
        held = λ q ne. freed_held q ne (v.valid.held q ne);
        fresh = λ c p. ground (arith, v.valid.fresh c);
        started = v.valid.started;
        filled = v.valid.filled;
        made = v.valid.made;
        null = ground (arith, v.valid.null);
      };
      distinct = v.distinct.1;
      strings = λ c m.
          let (u, e, p) = v.strings c (inr m) in
          let other : c ≢ a = λ (p : c ≡ a). v.distinct.0 (subst (λ b. In b temps) p m) in
          (u, ground (arith, e, other), p);
      apart = λ c q m ne x e.
          let y = v.valid.held q ne in
          v.apart c q (inr m) ne y
            (ground (arith, x.counter, y.counter, (freed_held q ne y).counter));
      owned = freed-owned;
    }

    -- `free` of the string borrowed last does not fault, and gives it back.
    pub free-Sound :
        (Memory.free a h ≡ some (Memory.released a h)) × Sound kh temps (Memory.released a h) t
    unfolding Memory.free
    free-Sound = let (_, e, _) = v.strings a (inl refl) in (rw (e, Memory.free), freed-Sound)

-- With one more block set aside, the memory is not that of the log and the others alone.
pub borrowed-apart :
    (kh : Khash) {temps : List ℕ} (h : Heap) (t : kh.Table) (p : ℕ)
    → Sound kh (p ∷ temps) h t
    → ¬ Sound kh temps h t
borrowed-apart kh h t p v alone =
    let x = v.strings p (inl refl) in
    elim (alone.owned p x.0 x.1) [
      | inl again ↦ v.distinct.0 again
      | inr o ↦ elim o.side [
        | inl counter ↦ ground (arith, counter, o.held.counter, x.1, x.2)
        | inr name ↦ v.apart p o.key (inl refl) o.known o.held (sym name)
      ]
    ]
