-- ===== src/Logger/Start.antt =====
-- A log without keys is ready for any number of events that the counts and the hash can hold.
use distiller_fs.Prelude.{
  ℕ, ◌≤◌, ◌≡◌, refl, none, Text, List, [], ◌∷◌, ◌+◌, length, All, true, false, arith,
}
use distiller_fs.Khash.{Khash, KhashLaws}
use distiller_fs.Hash.{hash_new}
use distiller_fs.Hash.Laws.{find-new, new-Filled, new-Fits}
use distiller_fs.Memory
use distiller_fs.Memory.{Block, Heap, plain}
use distiller_fs.Logger.{State, int_max}
use distiller_fs.Logger.Invariant.{view}
use distiller_fs.Logger.View.{view-absent}
use distiller_fs.Logger.Accounts.{Sound, alloc-Sound}
use distiller_fs.Logger.Store.{Assigned}
use distiller_fs.Logger.Ready.{Ready}

module _ (kh : Khash) (laws : KhashLaws kh) (size : ℕ) where
  pub empty-Sound : Sound kh [] Memory.empty (hash_new kh size)
  empty-Sound = record {
    valid = record {
      held = λ q ne. absurd (ne (find-new kh laws size q));
      fresh = λ a h. refl;
      started = omega arith;
      filled = new-Filled kh laws size;
      made = new-Fits kh laws 0 size (omega arith);
      null = refl;
    };
    distinct = tt;
    strings = λ a m. absurd m;
    apart = λ a q m. absurd m;
    owned = λ a b e. cc;
  }

  -- The blocks that are allocated before the first event are set aside, and nothing is logged.
  pub record SetAside (bs : List Block) (temps : List ℕ) (h : Heap) : Type 0 where
    pub aside : List ℕ
    pub number : length aside ≡ length bs + length temps
    pub sound : Sound kh aside (Memory.alloc_all bs h) (hash_new kh size)

  pub alloc_all-SetAside :
      (bs : List Block) (temps : List ℕ) (h : Heap)
      → All (λ b. plain b ≡ true) bs
      → Sound kh temps h (hash_new kh size)
      → SetAside bs temps h
  alloc_all-SetAside [] temps h simple v = record { aside = temps; number = omega arith; sound = v }
  alloc_all-SetAside (b ∷ bs) temps h (p, ps) v =
      let x =
        alloc_all-SetAside bs (h.next ∷ temps) (Memory.alloc b h).1 ps
          (alloc-Sound kh temps h (hash_new kh size) b p v) in
      record { aside = x.aside; number = omega (arith, x.number); sound = x.sound }

  -- Nothing is logged at first, whatever the memory.
  pub view-new : (h : Heap) (q : Text) → view kh h (hash_new kh size) q ≡ none
  view-new h q = view-absent kh h (hash_new kh size) q (find-new kh laws size q)

  pub view-empty : (q : Text) → view kh Memory.empty (hash_new kh size) q ≡ none
  view-empty = view-new Memory.empty

  pub new-Ready :
      {W : Type 0} (temps : List ℕ) (s : State kh.Table W) (n : ℕ)
      → Sound kh temps s.heap (hash_new kh size)
      → s.table ≡ hash_new kh size
      → s.locked ≡ false
      → Assigned s.filter
      → n ≤ int_max
      → n ≤ kh.capacity
      → Ready kh temps n s
  new-Ready temps s n v t l a room few = record {
    sound = rw t v;
    unlocked = l;
    assigned = a;
    roomy = λ q. rw (t, view-new s.heap q) (omega arith);
    fits = rw t (new-Fits kh laws n size few);
  }

  pub empty-Ready :
      {W : Type 0} (s : State kh.Table W) (n : ℕ)
      → s.heap ≡ Memory.empty
      → s.table ≡ hash_new kh size
      → s.locked ≡ false
      → Assigned s.filter
      → n ≤ int_max
      → n ≤ kh.capacity
      → Ready kh [] n s
  empty-Ready s n h t l a room few = new-Ready [] s n (rw h empty-Sound) t l a room few
