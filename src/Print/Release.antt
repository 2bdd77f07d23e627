-- ===== src/Print/Release.antt =====
-- `Free_Hash` on a sound log: it gives back every block but those that are set aside.
use distiller_fs.Prelude.{
  ℕ, zero, suc, ◌+◌, ◌≤◌, ◌<◌, ◌≡◌, ◌≢◌, refl, sym, ap, ◌∙◌, subst, Text, none, some, Option-cases,
  List, Bool-cases, true, false, inl, inr, ◌⊎◌, ◌↔◌, arith, bind_some, Run, pure,
}
use distiller_fs.Khash.{Khash, KhashLaws}
use distiller_fs.Hash.{hash_find, hash_free}
use distiller_fs.Memory
use distiller_fs.Memory.{plain, Heap, Block, LfsCount, text, item}
use distiller_fs.Logger.Invariant.{Holds, Holds_transfer, IsValid}
use distiller_fs.Logger.Accounts.{In, Sound, OwnedBy}
use distiller_fs.Print.{free_item, free_from, free_hash}
use distiller_fs.Print.Lines.{value-slot, slot-held, slot-Filled}

-- The blocks of a list are live, and no others.
abbrev pub Only : List ℕ → Heap → Type 0
Only temps h = (a : ℕ) → (h.block a ≢ none) ↔ In a temps

abbrev without_item : (h : Heap) {p : ℕ} {q : Text} → Holds h p q → Heap
without_item h {p} x = Memory.released p (Memory.released x.it.path h)

free_item_lem :
    (h : Heap) (p : ℕ) (q : Text) (x : Holds h p q)
    → p ≢ 0
    → x.it.path ≢ 0
    → free_item p h ≡ some (tt, without_item h x)
unfolding free_item Memory.load_item Memory.free
free_item_lem h p q x nonzero named = ground (arith, x.counter, x.name)

-- Two keys share no block.
abbrev Holds-apart :
    (h : Heap) (p p' : ℕ) (q q' : Text) (x : Holds h p q) (y : Holds h p' q')
    → q' ≢ q
    → Holds (without_item h x) p' q'
Holds-apart h p p' q q' x y ne =
    Holds_transfer (without_item h x) y (ground (arith, x.counter, x.name, y.counter, y.name, ne))
      (ground (arith, x.counter, x.name, y.counter, y.name, ne))

module _ (kh : Khash) (laws : KhashLaws kh) (temps : List ℕ) (t : kh.Table) where
  -- A block of a slot from `i` on.
  record OwnedFrom (h : Heap) (i a : ℕ) : Type 0 where
    slot : ℕ
    low : i ≤ slot
    high : slot < kh.kh_end t
    there : kh.kh_exist t slot ≡ true
    held : Holds h (kh.kh_value t slot) (kh.kh_key t slot)
    side : (a ≡ kh.kh_value t slot) ⊎ (a ≡ held.it.path)

  -- The memory of the slots from `i` on, and those set aside: nothing else is live.
  record Left (h : Heap) (i : ℕ) : Type 0 where
    held :
        (k : ℕ)
        → i ≤ k
        → k < kh.kh_end t
        → kh.kh_exist t k ≡ true
        → Holds h (kh.kh_value t k) (kh.kh_key t k)
    filled : (k : ℕ) → k < kh.kh_end t → kh.kh_exist t k ≡ true → kh.kh_value t k ≢ 0
    null : h.block 0 ≡ none
    made : kh.Fits 0 t
    strings : (a : ℕ) → In a temps → (b : Block) × (h.block a ≡ some b) × (plain b ≡ true)
    apart :
        (a k : ℕ)
        → In a temps
        → i ≤ k
        → k < kh.kh_end t
        → kh.kh_exist t k ≡ true
        → (x : Holds h (kh.kh_value t k) (kh.kh_key t k)) → x.it.path ≢ a
    owned : (a : ℕ) (b : Block) → h.block a ≡ some b → In a temps ⊎ OwnedFrom h i a

  keys_differ :
      (made : kh.Fits 0 t) (i k : ℕ)
      → i < kh.kh_end t
      → k < kh.kh_end t
      → kh.kh_exist t i ≡ true
      → kh.kh_exist t k ≡ true
      → k ≢ i
      → kh.kh_key t k ≢ kh.kh_key t i
  keys_differ made i k low high here there ne e = ne (
      sym (laws.get-key t k made high there)
      ∙ (ap (kh.kh_get t) e ∙ laws.get-key t i made low here))

  record Freed (m : Run Heap (Unit {0})) (h : Heap) : Type 0 where
    heap : Heap
    run : m h ≡ some (tt, heap)
    left : Only temps heap

  module _ (h : Heap) (i : ℕ) (l : Left h i) (below : i < kh.kh_end t)
      (here : kh.kh_exist t i ≡ true) (x : Holds h (kh.kh_value t i) (kh.kh_key t i)) where
    abbrev kept :
        (k : ℕ)
        → suc i ≤ k
        → k < kh.kh_end t
        → kh.kh_exist t k ≡ true
        → Holds (without_item h x) (kh.kh_value t k) (kh.kh_key t k)
    kept k low high there =
        Holds-apart h (kh.kh_value t i) (kh.kh_value t k) (kh.kh_key t i) (kh.kh_key t k) x
          (l.held k (omega (arith, low)) high there)
          (keys_differ l.made i k below high here there (omega (arith, low)))

    -- What is live afterwards does not belong to the slot.
    gone :
        (a : ℕ) (b : Block) (o : OwnedFrom h i a) → (without_item h x).block a ≡ some b → o.slot ≢ i
    gone a b o e same =
        ground (arith, e, x.counter, o.held.counter, o.side, ap (kh.kh_value t) same)

    next-OwnedFrom :
        (a : ℕ) (b : Block)
        → (without_item h x).block a ≡ some b
        → OwnedFrom h i a
        → OwnedFrom (without_item h x) (suc i) a
    next-OwnedFrom a b e o =
        let low : suc i ≤ o.slot = omega (arith, o.low, gone a b o e) in
        record {
          slot = o.slot;
          low = low;
          high = o.high;
          there = o.there;
          held = kept o.slot low o.high o.there;
          side =
              ground (arith, o.side, o.held.counter, (l.held o.slot o.low o.high o.there).counter);
        }

    next-Left : Left (without_item h x) (suc i)
    next-Left = record {
      held = kept;
      filled = l.filled;
      null = ground (arith, l.null);
      made = l.made;
      strings = λ a m.
          let (b, e, p) = l.strings a m in
          (b, ground (arith, e, x.counter, p, l.apart a i m (omega arith) below here x), p);
      apart = λ a k m low high there y e.
          let z = l.held k (omega (arith, low)) high there in
          l.apart a k m (omega (arith, low)) high there z
            (ground (arith, y.counter, z.counter, (kept k low high there).counter));
      owned = λ a b e. elim (l.owned a b (ground (arith, e))) [
        | inl m ↦ inl m
        | inr o ↦ inr (next-OwnedFrom a b e o)
      ];
    }

  gap-Left : (h : Heap) (i : ℕ) → Left h i → kh.kh_exist t i ≡ false → Left h (suc i)
  gap-Left h i l gap = record {
    held = λ k low. l.held k (omega (arith, low));
    filled = l.filled;
    null = l.null;
    made = l.made;
    strings = l.strings;
    apart = λ a k m low. l.apart a k m (omega (arith, low));
    owned = λ a b e. elim (l.owned a b e) [
      | inl m ↦ inl m
      | inr o ↦
          let other : o.slot ≢ i = λ same. ground (arith, gap, o.there, ap (kh.kh_exist t) same) in
          inr (record {
            slot = o.slot;
            low = omega (arith, o.low, other);
            high = o.high;
            there = o.there;
            held = o.held;
            side = o.side;
          })
    ];
  }

  free_from-Freed :
      (n i : ℕ) (h : Heap) → i + n ≡ kh.kh_end t → Left h i → Freed (free_from kh t i n) h
  unfolding free_from
  free_from-Freed zero i h e l = record {
    heap = h;
    run = refl;
    left = λ a. (
      λ live. elim (Option-cases (h.block a)) [
        | inl free ↦ absurd (live free)
        | inr (b, there) ↦ elim (l.owned a b there) [
          | inl m ↦ m
          | inr o ↦ absurd (omega (arith, e, o.low, o.high))
        ]
      ],
      λ m. let (b, there, p) = l.strings a m in ground (arith, there),
    );
  }
  free_from-Freed (suc n) i h e l = elim (Bool-cases (kh.kh_exist t i)) [
    | inl here ↦
        let below : i < kh.kh_end t = omega (arith, e) in
        let x = l.held i (omega arith) below here in
        let r =
          free_from-Freed n (suc i) (without_item h x) (omega (arith, e))
            (next-Left h i l below here x) in
        record {
          heap = r.heap;
          run =
              rw (free_from, here)
                (bind_some (free_item (kh.kh_value t i)) (λ _. free_from kh t (suc i) n) h
                    (free_item_lem h _ _ x (l.filled i below here)
                      (λ z. ground (arith, z, x.name, l.null)))
                  ∙ r.run);
          left = r.left;
        }
    | inr gap ↦
        let r = free_from-Freed n (suc i) h (omega (arith, e)) (gap-Left h i l gap) in
        record { heap = r.heap; run = rw (free_from, gap) r.run; left = r.left }
  ]

  find_slot :
      (q : Text)
      → hash_find kh t q ≢ 0
      → (kh.kh_get t q ≢ kh.kh_end t) × (hash_find kh t q ≡ kh.kh_value t (kh.kh_get t q))
  unfolding hash_find
  find_slot q known = (λ e. ground (arith, e, known), ground (arith, known))

  -- What a key owns belongs to its slot.
  owned_from : (h : Heap) (a : ℕ) → IsValid kh h t → OwnedBy kh h t a → OwnedFrom h 0 a
  owned_from h a v o =
      let (present, value) = find_slot o.key o.known in
      let high = laws.get-lt-end t o.key v.made present in
      let there = laws.exist-get t o.key v.made present in
      let x = slot-held kh laws h t v (kh.kh_get t o.key) high there in
      record {
        slot = kh.kh_get t o.key;
        low = omega arith;
        high = high;
        there = there;
        held = x;
        side = ground (arith, o.side, value, o.held.counter, x.counter);
      }

  all-Left : (h : Heap) → Sound kh temps h t → Left h 0
  all-Left h v = record {
    held = λ k low high there. slot-held kh laws h t v.valid k high there;
    filled = λ k high there.
        subst (λ p. p ≢ 0) (value-slot kh laws h t v.valid k high there)
          (slot-Filled kh laws h t v.valid k high there);
    null = v.valid.null;
    made = v.valid.made;
    strings = v.strings;
    apart = λ a k m low high there x e.
        let at = value-slot kh laws h t v.valid k high there in
        let known = slot-Filled kh laws h t v.valid k high there in
        let y = v.valid.held (kh.kh_key t k) known in
        v.apart a (kh.kh_key t k) m known y (ground (arith, at, x.counter, y.counter));
    owned =
        λ a b e. elim (v.owned a b e) [ inl m ↦ inl m | inr o ↦ inr (owned_from h a v.valid o) ];
  }

  -- On a sound log, `Free_Hash` does not fault: no block is given back twice or used afterwards, and
  -- those that are left are the ones set aside.
  pub free_hash-Only :
      (h : Heap)
      → Sound kh temps h t
      → (h' : Heap) × (free_hash kh t h ≡ some (hash_free kh t, h')) × Only temps h'
  unfolding free_hash
  free_hash-Only h v =
      let l = all-Left h v in
      let r = free_from-Freed (kh.kh_end t) 0 h (omega arith) l in
      (
        r.heap,
        bind_some (free_from kh t 0 (kh.kh_end t)) (λ _. pure (hash_free kh t)) h r.run,
        r.left,
      )
