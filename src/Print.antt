-- ===== src/Print.antt =====
-- `Print_Hash` and `Free_Hash` of src/distillerfs.c: the log as it is written at the end, and the
-- memory given back. `none` is a fault.
pub mod Masks
pub mod Lines
pub mod Contents
pub mod Release
use distiller_fs.Prelude.{
  ℕ, zero, suc, ◌+◌, Text, List, [], ◌∷◌, map, Option, none, some, bit_and, Run, pure, lift, ◌>>=◌,
  ◌>>◌, ◌==◌, if◌then◌else◌,
}
use distiller_fs.Ops.{FuseOp, flag, symbol, all_ops}
use distiller_fs.Khash.{Khash}
use distiller_fs.Hash.{hash_free}
use distiller_fs.Memory
use distiller_fs.Memory.{Heap}

-- What `fprintf(dest, "[%s]:%010d:%s\n", mask, v->count, k)` is called with.
pub record Line : Type 0 where
  pub mask : Text
  pub count : ℕ
  pub key : Text

-- The output: the notice that there is no hash, or a line for each entry.
pub data Printed : Type 0 where
  empty_hash : Printed
  printed : List Line → Printed

unfoldable pub mask_char : ℕ → FuseOp → ℕ
mask_char flags op = if bit_and flags (flag op) == 0 then b'.' else symbol op

-- The loop that fills `mask`.
unfoldable pub mask_of : ℕ → Text
unfolding mask_char
mask_of flags = map (mask_char flags) all_ops

-- An access to the memory that gives a value, or a new memory.
abbrev reading : {A : Type 0} → (Heap → Option A) → Run Heap A
reading f h = lift (f h) h

abbrev writing : (Heap → Option Heap) → Run Heap (Unit {0})
writing f h = elim (f h) [ none ↦ none | some h' ↦ some (tt, h') ]

unfoldable pub free_item : ℕ → Run Heap (Unit {0})
free_item p = if p == 0 then pure tt else (do
  it ← reading (Memory.load_item p)
  if it.path == 0 then pure tt else (do writing (Memory.free it.path); writing (Memory.free p)))

module _ (kh : Khash) where
  open kh use {Table, kh_exist, kh_value, kh_key, kh_end}

  unfoldable pub print_item : Table → ℕ → Run Heap Line
  unfolding mask_of
  print_item t i = do
    v ← reading (Memory.load_item (kh_value t i))
    pure (record { mask = mask_of v.flags; count = v.count; key = kh_key t i })

  -- `kh_foreach` over the `n` slots from `i` on.
  unfoldable pub print_from : Table → ℕ → ℕ → Run Heap (List Line)
  unfolding print_item
  print_from t i zero = pure []
  print_from t i (suc n) =
      let rest = print_from t (suc i) n in
      if kh_exist t i then (do line ← print_item t i; lines ← rest; pure (line ∷ lines)) else rest

  -- `none` is a `NULL` hash.
  unfoldable pub print_hash : Option Table → Run Heap Printed
  unfolding print_from
  print_hash none = pure empty_hash
  print_hash (some t) = do lines ← print_from t 0 (kh_end t); pure (printed lines)

  unfoldable pub free_from : Table → ℕ → ℕ → Run Heap (Unit {0})
  unfolding free_item
  free_from t i zero = pure tt
  free_from t i (suc n) =
      let rest = free_from t (suc i) n in
      if kh_exist t i then free_item (kh_value t i) >> rest else rest

  unfoldable pub free_hash : Table → Run Heap Table
  unfolding free_from
  free_hash t = do free_from t 0 (kh_end t); pure (hash_free kh t)
