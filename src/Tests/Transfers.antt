-- ===== src/Tests/Transfers.antt =====
-- The theorems on the handlers with two paths, or with a file handle, at concrete inputs.
use distiller_fs.Prelude.{ℕ, Text, codes, refl, [], ◌∷◌, some, none, true, Bool, pos, negate, arith}
use distiller_fs.Ops.{
  op_read, op_write, op_rename, op_link, op_symlink, op_readdir, op_release, op_fsync, log_success,
  log_unsuccess,
}
use distiller_fs.Khash.Instance.{text_table, text_table-KhashLaws}
use distiller_fs.Logger.{relative}
use distiller_fs.Logger.Accounts.{Sound}
use distiller_fs.Posix.{Outcome}
use distiller_fs.Handlers.{int_of, read, release, fsync}
use distiller_fs.Handlers.Calls.{answer, IsInt, Ends}
use distiller_fs.Handlers.Paths.{logged}
use distiller_fs.Handlers.Direct.{always_logged, read-Ends, release-Ends, fsync-Ends}
use distiller_fs.Handlers.Pairs.{FillStat, rename, link, symlink, readdir, write}
use distiller_fs.Handlers.Pairs.Events.{logged_two}
use distiller_fs.Handlers.Pairs.Rename.{rename-Ends}
use distiller_fs.Handlers.Pairs.Links.{link-Ends, symlink-Ends}
use distiller_fs.Handlers.Pairs.Files.{FillsFrom, readdir-Ends}
use distiller_fs.Handlers.Pairs.Write.{write-done, write-failed}
use distiller_fs.Tests.Disk.{disk, enoent}
use distiller_fs.Tests.Start.{start, start-Ready}

abbrev a_c : Text
a_c = codes "/src/a.c"

abbrev b_c : Text
b_c = codes "/src/b.c"

rename-Ends_example :
    Ends text_table
      (rename text_table disk a_c b_c)
      start
      []
      8
      (pos 0, some tt)
      (codes "src/b.c" ∷ codes "src" ∷ [])
      0
      (logged_two text_table text_table-KhashLaws disk start op_rename log_success a_c b_c)
unfolding relative
rename-Ends_example =
    rename-Ends text_table text_table-KhashLaws disk a_c b_c 8 start (start-Ready 10 (omega arith))

link-Ends_example :
    Ends text_table
      (link text_table disk b_c a_c)
      start
      []
      8
      (negate enoent, none)
      start.world
      enoent
      (logged_two text_table text_table-KhashLaws disk start op_link log_unsuccess b_c a_c)
unfolding relative
link-Ends_example =
    link-Ends text_table text_table-KhashLaws disk b_c a_c 8 start (start-Ready 10 (omega arith))

symlink-Ends_example :
    Ends text_table
      (symlink text_table disk (codes "a.c") b_c)
      start
      []
      8
      (pos 0, some tt)
      (codes "src/b.c" ∷ start.world)
      0
      (logged_two text_table text_table-KhashLaws disk start op_symlink log_success b_c
        (codes "a.c"))
unfolding relative
symlink-Ends_example =
    symlink-Ends text_table text_table-KhashLaws disk (codes "a.c") b_c 8 start
      (start-Ready 10 (omega arith))

-- A buffer with room for one name.
abbrev one_name : Text → Text → FillStat → Text × Bool
one_name buf name st = (name, true)

readdir-Ends_example :
    (reply : Outcome Text) × FillsFrom one_name [] (disk.opendir (codes "src") start.world).0 reply
    × Ends text_table
        (readdir text_table disk one_name [] (codes "/src"))
        start
        []
        9
        (answer (λ _. pos 0) reply)
        start.world
        0
        (logged text_table text_table-KhashLaws disk start op_readdir log_success (codes "/src"))
unfolding relative
readdir-Ends_example =
    readdir-Ends text_table text_table-KhashLaws disk one_name [] (codes "/src") 9 start
      (start-Ready 10 (omega arith))

write-done_example :
    ((k : ℕ) → IsInt k (int_of k))
    × Ends text_table
        (write text_table disk a_c (codes "int") 0)
        start
        []
        9
        (pos 3, some 3)
        start.world
        0
        (logged text_table text_table-KhashLaws disk start op_write log_success a_c)
unfolding relative
write-done_example =
    write-done text_table text_table-KhashLaws disk a_c (codes "int") 0 9 start
      (start-Ready 10 (omega arith)) 3 refl

write-failed_example :
    (x : Ends text_table
      (write text_table disk b_c (codes "int") 0)
      start
      (1 ∷ [])
      9
      (negate enoent, none)
      start.world
      enoent
      (logged text_table text_table-KhashLaws disk start op_write log_unsuccess b_c))
    × ¬ Sound text_table [] x.heap x.table
unfolding relative
write-failed_example =
    write-failed text_table text_table-KhashLaws disk b_c (codes "int") 0 9 start
      (start-Ready 10 (omega arith)) enoent refl

read-Ends_example :
    ((k : ℕ) → IsInt k (int_of k))
    × Ends text_table
        (read text_table disk a_c 3 4096 0)
        start
        []
        9
        (pos 0, some [])
        start.world
        0
        (logged text_table text_table-KhashLaws disk start op_read log_success a_c)
read-Ends_example =
    read-Ends text_table text_table-KhashLaws disk a_c 3 4096 0 9 start
      (start-Ready 10 (omega arith))

release-Ends_example :
    Ends text_table
      (release text_table disk a_c 3)
      start
      []
      9
      (pos 0)
      start.world
      0
      (always_logged text_table text_table-KhashLaws disk start op_release a_c)
release-Ends_example =
    release-Ends text_table text_table-KhashLaws disk a_c 3 9 start (start-Ready 10 (omega arith))

fsync-Ends_example :
    Ends text_table
      (fsync text_table disk a_c)
      start
      []
      9
      (pos 0)
      start.world
      0
      (always_logged text_table text_table-KhashLaws disk start op_fsync a_c)
fsync-Ends_example =
    fsync-Ends text_table text_table-KhashLaws disk a_c 9 start (start-Ready 10 (omega arith))
