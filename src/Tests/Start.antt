-- ===== src/Tests/Start.antt =====
-- A state to start from: an empty log, a filter with one prefix of each kind, and every operation
-- logged.
use distiller_fs.Prelude.{◌^◌, arith, ℕ, ◌≤◌, refl, Text, codes, List, [], ◌∷◌, some, false, map}
use distiller_fs.Filter.{FilterDesc}
use distiller_fs.Hash.{hash_new}
use distiller_fs.Hash.Laws.{new-Fits}
use distiller_fs.Khash.Instance.{text_table, text_table-KhashLaws, text_table-capacity}
use distiller_fs.Memory
use distiller_fs.Logger.{State}
use distiller_fs.Logger.Start.{empty-Ready}
use distiller_fs.Logger.Store.{Assigned}
use distiller_fs.Logger.Ready.{Ready}
use distiller_fs.Tests.Disk.{disk}

abbrev pub includes : List Text
includes = codes "/src" ∷ []

abbrev pub excludes : List Text
excludes = codes "/src/out" ∷ []

abbrev pub a_filter : FilterDesc
a_filter = record { include_path = map some includes; exclude_path = map some excludes }

abbrev pub a_filter-Assigned : Assigned a_filter
a_filter-Assigned = record {
  includes = includes;
  excludes = excludes;
  include_path = refl;
  exclude_path = refl;
}

-- With the files `src` and `src/a.c`.
abbrev pub start : State text_table.Table disk.World
start = record {
  heap = Memory.empty;
  table = hash_new text_table 32;
  filter = a_filter;
  op_flags = λ op. 3;
  locked = false;
  errno = 0;
  world = codes "src" ∷ codes "src/a.c" ∷ [];
}

pub start-Ready : (n : ℕ) → n ≤ 2 ^ 29 → Ready text_table [] n start
start-Ready n room =
    empty-Ready text_table text_table-KhashLaws 32 start n refl refl refl a_filter-Assigned
      (omega (arith, room)) (omega (arith, room, text_table-capacity))

pub start-Fits : text_table.Fits 1 start.table
start-Fits = new-Fits text_table text_table-KhashLaws 1 32 (omega (arith, text_table-capacity))
