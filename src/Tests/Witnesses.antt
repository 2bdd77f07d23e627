-- ===== src/Tests/Witnesses.antt =====
-- The theorems of the development at concrete inputs.
use distiller_fs.Prelude.{
  Text, codes, ◌≡◌, ◌↔◌, refl, [], ◌∷◌, some, none, true, pos, negate, arith,
}
use distiller_fs.Ops.{flag, op_getattr, op_mkdir, op_mknod, op_open, log_success, log_unsuccess}
use distiller_fs.Khash.Instance.{text_table, text_table-KhashLaws}
use distiller_fs.Hash.{hash_new}
use distiller_fs.Hash.Map.{Updates, hash_ops-Updates}
use distiller_fs.Filter.Prefix.{Accepts}
use distiller_fs.Logger.{relative}
use distiller_fs.Logger.Store.{chosen, chosen_iff, Stored, store_in_hash-Stored}
use distiller_fs.Logger.Start.{view-empty, empty-Sound}
use distiller_fs.Handlers.{path_handler, mkdir, mknod}
use distiller_fs.Handlers.Calls.{Ends}
use distiller_fs.Handlers.Paths.{logged, path_handler-Ends}
use distiller_fs.Handlers.Creation.{mkdir-Ends, mknod-Ends, node_call}
use distiller_fs.Tests.Disk.{disk, enoent}
use distiller_fs.Tests.Start.{
  includes, excludes, a_filter, a_filter-Assigned, start, start-Ready, start-Fits,
}

abbrev source : Text
source = codes "/src/a.c"

-- A file that is missing: `-ENOENT`, logged as unsuccessful.
path_handler-Ends_example :
    Ends text_table
      (path_handler text_table disk op_getattr disk.lstat (codes "/src/b.c"))
      start
      []
      9
      (negate enoent, none)
      start.world
      enoent
      (logged text_table text_table-KhashLaws disk start op_getattr log_unsuccess
        (codes "/src/b.c"))
unfolding relative
path_handler-Ends_example =
    path_handler-Ends text_table text_table-KhashLaws disk op_getattr disk.lstat (codes "/src/b.c")
      9 start (start-Ready 10 (omega arith))

mkdir-Ends_example :
    Ends text_table
      (mkdir text_table disk (codes "/src/lib") 493)
      start
      []
      9
      (pos 0, some tt)
      (codes "src/lib" ∷ start.world)
      0
      (logged text_table text_table-KhashLaws disk start op_mkdir log_success (codes "/src/lib"))
unfolding relative
mkdir-Ends_example =
    mkdir-Ends text_table text_table-KhashLaws disk (codes "/src/lib") 493 9 start
      (start-Ready 10 (omega arith))

mknod-Ends_example :
    Ends text_table
      (mknod text_table disk (codes "/src/a.c") 2 0)
      start
      []
      9
      (negate 17, none)
      start.world
      17
      (logged text_table text_table-KhashLaws disk start op_mknod log_unsuccess (codes "/src/a.c"))
unfolding relative node_call
mknod-Ends_example =
    mknod-Ends text_table text_table-KhashLaws disk (codes "/src/a.c") 2 0 9 start
      (start-Ready 10 (omega arith))

store_in_hash-Stored_example : Stored text_table text_table-KhashLaws source (flag op_open) [] start
store_in_hash-Stored_example =
    store_in_hash-Stored text_table text_table-KhashLaws source (flag op_open) [] start
      a_filter-Assigned (empty-Sound text_table text_table-KhashLaws 32) start-Fits refl
      (rw (view-empty text_table text_table-KhashLaws 32 source) (omega arith))

chosen_iff_example : (chosen a_filter source ≡ true) ↔ Accepts includes excludes source
chosen_iff_example = chosen_iff a_filter a_filter-Assigned source

hash_ops-Updates_example :
    Updates text_table text_table-KhashLaws (hash_new text_table 32) (codes "/src/a.c") 7
hash_ops-Updates_example =
    hash_ops-Updates text_table text_table-KhashLaws (hash_new text_table 32) (codes "/src/a.c") 7
      start-Fits
