-- ===== src/Memory.antt =====
-- The allocated memory that src/distillerfs.c handles by `malloc`, `strdup` and `free`: blocks at
-- addresses. A read, a write or a `free` at an address that holds no live block is a fault.
-- Allocation succeeds, as the program takes for granted, and never hands out an address twice.
use distiller_fs.Prelude.{
  ℕ, ◌+◌, Text, Option, none, some, ◌==◌, if◌then◌else◌, List, [], ◌∷◌, Bool, true, false,
}

-- `lfs_count_t`; `path` is the address of a string.
pub record LfsCount : Type 0 where
  pub path : ℕ
  pub count : ℕ
  pub flags : ℕ

-- What a block holds: a string, a counter, or what the model does not look at.
pub data Block : Type 0 where
  raw : Block
  text : Text → Block
  item : LfsCount → Block

-- It is no counter.
abbrev pub plain : Block → Bool
plain (item it) = false
plain raw = true
plain (text t) = true

pub record Heap : Type 0 where
  pub block : ℕ → Option Block
  pub next : ℕ

-- Address 0 is `NULL`.
abbrev pub empty : Heap
empty = record { block = λ _. none; next = 1 }

abbrev pub update : (ℕ → Option Block) → ℕ → Option Block → ℕ → Option Block
update f p b a = if a == p then b else f a

-- `malloc` and `strdup`: a fresh block with this content.
abbrev pub alloc : Block → Heap → ℕ × Heap
alloc b h = (h.next, record { block = update h.block h.next (some b); next = h.next + 1 })

-- One block after another.
abbrev pub alloc_all : List Block → Heap → Heap
alloc_all [] h = h
alloc_all (b ∷ bs) h = alloc_all bs (alloc b h).1

-- The memory without one block.
abbrev pub released : ℕ → Heap → Heap
released p h = record h { block = update h.block p none }

unfoldable pub free : ℕ → Heap → Option Heap
free p h = elim (h.block p) [ none ↦ none | some b ↦ some (released p h) ]

unfoldable pub load_text : ℕ → Heap → Option Text
load_text p h = elim (h.block p) [ some (text t) ↦ some t | _ ↦ none ]

unfoldable pub load_item : ℕ → Heap → Option LfsCount
load_item p h = elim (h.block p) [ some (item it) ↦ some it | _ ↦ none ]

-- A write of all the fields of a counter into a live block.
unfoldable pub store_item : ℕ → LfsCount → Heap → Option Heap
store_item p it h = elim (h.block p) [
  | none ↦ none
  | some b ↦ some (record h { block = update h.block p (some (item it)) })
]
