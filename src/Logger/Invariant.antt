-- ===== src/Logger/Invariant.antt =====
-- The invariant of the log: each key of the hash has its own live counter in memory, whose `path`
-- is a live copy of the key. And what the log shows of a key: its count and its mask.
use distiller_fs.Prelude.{
  ℕ, ◌+◌, ◌≤◌, ◌<◌, Text, Option, none, some, bit_or, ◌≡◌, ◌≢◌, ◌∙◌, inl, inr, arith, ◌==◌,
  if◌then◌else◌, text_eq, text_eq_iff, Bool-cases,
}
use distiller_fs.Khash.{Khash, KhashLaws}
use distiller_fs.Hash.{hash_find, hash_add}
use distiller_fs.Hash.Laws.{Filled, add-Filled, add-Fits, find-add_self, find-add_ne}
use distiller_fs.Memory
use distiller_fs.Memory.{LfsCount, Block, raw, text, item, Heap, update}
use distiller_fs.Logger.{State, int_max, increment, add_item, bump_item}

-- A line of the log: how often, and which operations.
pub record Entry : Type 0 where
  pub count : ℕ
  pub flags : ℕ

-- The counter at an address, with a live copy of its key.
pub record Holds (h : Heap) (p : ℕ) (q : Text) : Type 0 where
  pub it : LfsCount
  pub counter : h.block p ≡ some (item it)
  pub name : h.block it.path ≡ some (text q)

unfoldable pub entry_of : Option LfsCount → Option Entry
entry_of none = none
entry_of (some it) = some (record { count = it.count; flags = it.flags })

-- A counter stays held where its two blocks are left alone.
abbrev pub Holds_transfer :
    {h : Heap} (h' : Heap) {p : ℕ} {q : Text} (x : Holds h p q)
    → h'.block p ≡ h.block p
    → h'.block x.it.path ≡ h.block x.it.path
    → Holds h' p q
Holds_transfer h' x e f = record { it = x.it; counter = e ∙ x.counter; name = f ∙ x.name }

-- Two keys that have a counter at one address are one key.
pub Holds-unique : (h : Heap) (p : ℕ) (q j : Text) → Holds h p q → Holds h p j → q ≡ j
Holds-unique h p q j x y = cc

pub live-lt-next :
    (h : Heap) (a : ℕ) {b : Block}
    → ((a : ℕ) → h.next ≤ a → h.block a ≡ none)
    → h.block a ≡ some b
    → a < h.next
live-lt-next h a fresh e = ground (arith, fresh a)

module _ (kh : Khash) where
  pub record IsValid (h : Heap) (t : kh.Table) : Type 0 where
    pub held : (q : Text) → hash_find kh t q ≢ 0 → Holds h (hash_find kh t q) q
    pub fresh : (a : ℕ) → h.next ≤ a → h.block a ≡ none
    pub started : 0 < h.next
    pub filled : Filled kh t
    -- the calls of khash made the table
    pub made : kh.Fits 0 t
    -- nothing is at `NULL`
    pub null : h.block 0 ≡ none

  unfoldable pub view : Heap → kh.Table → Text → Option Entry
  unfolding Memory.load_item entry_of
  view h t q =
      if hash_find kh t q == 0 then none else entry_of (Memory.load_item (hash_find kh t q) h)

-- One more event under a key.
unfoldable pub bump : ℕ → Option Entry → Entry
bump flag none = record { count = 1; flags = flag }
bump flag (some e) = record { count = e.count + 1; flags = bit_or e.flags flag }

-- The count of a key can be raised without overflow.
abbrev pub HasRoom : Option Entry → Type 0
HasRoom none = Unit
HasRoom (some e) = e.count < int_max

module _ (kh : Khash) {W : Type 0} (path : Text) (flag : ℕ) where
  -- The state after `add_item`.
  abbrev pub added : State kh.Table W → State kh.Table W
  added s =
      let p = s.heap.next in
      record s {
        heap = record {
          block =
              update (update (update s.heap.block p (some raw)) (p + 1) (some (text path))) p
                (some (item (record { path = p + 1; count = 1; flags = flag })));
          next = p + 1 + 1;
        };
        table = (hash_add kh s.table path p).0;
      }

  pub add_item_lem : (s : State kh.Table W) → add_item kh path flag s ≡ some (s.heap.next, added s)
  unfolding add_item Memory.store_item
  add_item_lem s = ground arith

  -- The state after `bump_item` at a held counter.
  abbrev pub bumped : ℕ → LfsCount → State kh.Table W → State kh.Table W
  bumped p it s = record s {
    heap = record s.heap {
      block =
          update s.heap.block p
            (some (item (record it { count = it.count + 1; flags = bit_or it.flags flag })));
    };
  }

  pub bump_item_lem :
      (s : State kh.Table W) (p : ℕ) (it : LfsCount)
      → s.heap.block p ≡ some (item it)
      → it.count < int_max
      → bump_item kh p flag s ≡ some (p, bumped p it s)
  unfolding bump_item increment Memory.store_item Memory.load_item
  bump_item_lem s p it e h = ground arith

module _ (kh : Khash) (laws : KhashLaws kh) {W : Type 0} (path : Text) (flag : ℕ) where
  pub added-IsValid :
      (s : State kh.Table W)
      → IsValid kh s.heap s.table
      → kh.Fits 1 s.table
      → IsValid kh (added kh path flag s).heap (added kh path flag s).table
  added-IsValid s v f = record {
    held = λ q ne. elim (Bool-cases (text_eq q path)) [
      | inl e ↦
          let key = (text_eq_iff q path).0 e in
          rw (key, find-add_self kh laws s.table path s.heap.next f)
            (record {
              it = record { path = s.heap.next + 1; count = 1; flags = flag };
              counter = ground arith;
              name = ground arith;
            })
      | inr e ↦
          let kept =
            find-add_ne kh laws s.table path q s.heap.next f (ground (arith, text_eq_iff q path)) in
          let x = v.held q (rw kept at ne) in
          rw kept (
            Holds_transfer _ x
              (ground (arith, live-lt-next s.heap (hash_find kh s.table q) v.fresh x.counter))
              (ground (arith, live-lt-next s.heap x.it.path v.fresh x.name)))
    ];
    fresh = λ a h. ground (arith, v.fresh a);
    started = omega arith;
    filled = add-Filled kh laws s.table path s.heap.next f (omega (arith, v.started)) v.filled;
    made = add-Fits kh laws 0 s.table path s.heap.next f;
    null = ground (arith, v.null, v.started);
  }

  pub bumped-IsValid :
      (s : State kh.Table W) (x : Holds s.heap (hash_find kh s.table path) path)
      → IsValid kh s.heap s.table
      → IsValid kh
          (bumped kh path flag (hash_find kh s.table path) x.it s).heap
          (bumped kh path flag (hash_find kh s.table path) x.it s).table
  bumped-IsValid s x v = record {
    held = λ q ne. elim (Bool-cases (hash_find kh s.table q == hash_find kh s.table path)) [
      | inl e ↦
          let y = v.held q ne in
          record {
            it = record x.it { count = x.it.count + 1; flags = bit_or x.it.flags flag };
            counter = ground arith;
            name = ground (arith, y.counter, y.name);
          }
      | inr e ↦
          let y = v.held q ne in
          Holds_transfer _ y (ground arith) (ground (arith, y.name, x.counter))
    ];
    fresh = λ a h. ground (arith, v.fresh a);
    started = v.started;
    filled = v.filled;
    made = v.made;
    null = ground (arith, v.null, x.counter);
  }
