-- ===== src/Logger.antt =====
-- The log of src/distillerfs.c: its global state, `should_log`, `getRelativePath` and
-- `Store_In_Hash`. The state is passed on explicitly; `none` is a fault.
pub mod Invariant
pub mod View
pub mod Accounts
pub mod Growth
pub mod Frames
pub mod Events
pub mod Store
pub mod Ready
pub mod Start
pub mod Threads
use distiller_fs.Prelude.{
  ℕ, suc, ◌+◌, Text, List, [], ◌∷◌, Bool, true, false, not, Option, none, some, length, codes,
  bit_and, bit_or, Run, pure, lift, gets, ◌>>=◌, ◌>>◌, ◌==◌, ltb, if◌then◌else◌,
}
use distiller_fs.Ops.{FuseOp, flag}
use distiller_fs.Filter.{FilterDesc, is_included, is_excluded}
use distiller_fs.Khash.{Khash}
use distiller_fs.Hash.{hash_find, hash_add}
use distiller_fs.Memory
use distiller_fs.Memory.{LfsCount, Block, raw, text, item, Heap}

-- The globals `h`, `g_filter`, `op_flags`, `prmutex` and `errno`, the allocated memory, and what
-- the handlers reach through system calls.
pub record State (T W : Type 0) : Type 0 where
  pub heap : Heap
  pub table : T
  pub filter : FilterDesc
  pub op_flags : FuseOp → ℕ
  pub locked : Bool
  pub errno : ℕ
  pub world : W

-- `INT_MAX`: `count++` past it is undefined.
abbrev pub int_max : ℕ
int_max = 2147483647

unfoldable pub increment : ℕ → Option ℕ
increment n = if ltb n int_max then some (n + 1) else none

module _ {T W : Type 0} where
  -- `malloc` and `strdup`
  abbrev pub allocate : Block → Run (State T W) ℕ
  allocate b s = let (p, h) = Memory.alloc b s.heap in some (p, record s { heap = h })

  -- An access to the memory that gives a new memory.
  abbrev pub access : (Heap → Option Heap) → Run (State T W) (Unit {0})
  access f s = elim (f s.heap) [ none ↦ none | some h ↦ some (tt, record s { heap = h }) ]

  abbrev pub load : {A : Type 0} → (Heap → Option A) → Run (State T W) A
  load f s = lift (f s.heap) s

  abbrev pub free : ℕ → Run (State T W) (Unit {0})
  free p = access (Memory.free p)

  -- `pthread_mutex_lock` by a thread that holds the mutex, and an unlock of a free one, are faults.
  abbrev pub lock : Run (State T W) (Unit {0})
  lock s = if s.locked then none else some (tt, record s { locked = true })

  abbrev pub unlock : Run (State T W) (Unit {0})
  unlock s = if s.locked then some (tt, record s { locked = false }) else none

-- On the array `op_flags`.
unfoldable pub should_log : (FuseOp → ℕ) → FuseOp → ℕ → Bool
should_log op_flags fuse_op state = not (bit_and (op_flags fuse_op) state == 0)

-- The string that `getRelativePath` duplicates.
unfoldable pub relative : Text → Text
relative [] = []
relative (c ∷ []) = if c == b'/' then codes "." else c ∷ []
relative (c ∷ d ∷ rest) = if c == b'/' then d ∷ rest else c ∷ d ∷ rest

module _ {T W : Type 0} where
  unfoldable pub get_relative_path : Text → Run (State T W) ℕ
  get_relative_path path = allocate (text (relative path))

-- The tests of `Store_In_Hash` before the mutex: whether the path is counted.
unfoldable pub passes : FilterDesc → Text → Option Bool
passes filter path = elim (is_included path filter.include_path) [
  | none ↦ none
  | some inc ↦
      if not inc
      then some false
      else elim (is_excluded path filter.exclude_path) [ none ↦ none | some exc ↦ some (not exc) ]
]

module _ (kh : Khash) {W : Type 0} where
  -- The new entry of `Store_In_Hash`: returns the address of the counter.
  unfoldable pub add_item : Text → ℕ → Run (State kh.Table W) ℕ
  add_item path flag = do
    p ← allocate raw
    name ← allocate (text path)
    access (Memory.store_item p (record { path = name; count = 1; flags = flag }))
    λ s. some (tt, record s { table = (hash_add kh s.table path p).0 })
    pure p

  -- The known entry: `item->count++` and `item->flags | flag`.
  unfoldable pub bump_item : ℕ → ℕ → Run (State kh.Table W) ℕ
  bump_item p flag = do
    it ← load (Memory.load_item p)
    n ← lift (increment it.count)
    access (Memory.store_item p (record it { count = n; flags = bit_or it.flags flag }))
    pure p

  -- What follows `Hash_Find`, up to the count that is returned.
  unfoldable pub record_event : Text → ℕ → ℕ → Run (State kh.Table W) ℕ
  unfolding add_item bump_item
  record_event path flag found = do
    p ← if found == 0 then add_item path flag else bump_item found flag
    it ← load (Memory.load_item p)
    pure it.count

  -- The part of `Store_In_Hash` under the mutex.
  unfoldable pub count_event : Text → ℕ → Run (State kh.Table W) ℕ
  unfolding record_event
  count_event path flag = do
    lock
    found ← gets (λ s. hash_find kh s.table path)
    n ← record_event path flag found
    unlock
    pure n

  -- `none` is a `NULL` path.
  unfoldable pub store_in_hash : FilterDesc → Option Text → ℕ → Run (State kh.Table W) ℕ
  unfolding passes
  store_in_hash filter none flag = pure 0
  store_in_hash filter (some path) flag = do
    pass ← lift (passes filter path)
    if pass then count_event path flag else pure 0

  -- `if (should_log(op, state) == 1) Store_In_Hash(h, g_filter, path, FLAG_op)`
  unfoldable pub log_op : FuseOp → ℕ → Text → Run (State kh.Table W) (Unit {0})
  log_op op state path s =
      if should_log s.op_flags op state
      then (store_in_hash s.filter (some path) (flag op) >> pure tt) s
      else some (tt, s)
