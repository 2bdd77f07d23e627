-- ===== src/Tests/Sessions.antt =====
-- The theorems on sequences of calls at concrete inputs.
use distiller_fs.Prelude.{Text, codes, List, [], ◌∷◌, false, arith}
use distiller_fs.Khash.Instance.{text_table, text_table-KhashLaws}
use distiller_fs.Logger.{relative}
use distiller_fs.Handlers.Operations.{
  Build, Request, init_fuse_oper, perform, call_mkdir, call_write, call_rename, call_rmdir,
}
use distiller_fs.Handlers.Sequences.{perform-Kept}
use distiller_fs.Handlers.Reference.{Event, asked}
use distiller_fs.Handlers.Kept.{Kept}
use distiller_fs.Handlers.Runs.{perform_all, perform_all-Kept}
use distiller_fs.Ops.{op_mkdir, op_rename, op_rmdir, op_write, log_success, log_unsuccess}
use distiller_fs.Tests.Disk.{disk}
use distiller_fs.Tests.Start.{start, start-Ready}

-- The build of the Makefile.
abbrev pub build : Build
build = record { version_25 = false; have_setxattr = false }

abbrev make_lib : Request text_table disk (List Text)
make_lib = call_mkdir (codes "/src/lib") 493

abbrev rewrite : Request text_table disk (List Text)
rewrite = call_write (codes "/src/a.c") (codes "x") 0

perform-Kept_example :
    Kept text_table text_table-KhashLaws disk
      (List Text)
      (perform text_table disk
        (List Text)
        (init_fuse_oper text_table disk (List Text) build 5)
        rewrite)
      []
      3
      start
      0
      (start.world, asked op_write log_success (codes "/src/a.c") ∷ [])
unfolding relative
perform-Kept_example =
    perform-Kept text_table text_table-KhashLaws disk (List Text) build 5 rewrite 3 start
      (start-Ready 5 (omega arith))

-- A new directory, a file that is renamed, a refused `rmdir`, and a `write` that finds no file.
abbrev pub calls : List (Request text_table disk (List Text))
calls =
    make_lib
    ∷ call_rename (codes "/src/a.c") (codes "/src/b.c")
    ∷ call_rmdir (codes "/x")
    ∷ call_write (codes "/src/a.c") (codes "x") 0
    ∷ []

abbrev events : List Event
events =
    asked op_mkdir log_success (codes "/src/lib")
    ∷ asked op_rename log_success (codes "/src/a.c")
    ∷ asked op_rename log_success (codes "/src/b.c")
    ∷ asked op_rmdir log_unsuccess (codes "/x")
    ∷ asked op_write log_unsuccess (codes "/src/a.c")
    ∷ []

perform_all-Kept_example :
    Kept text_table text_table-KhashLaws disk
      (List Text)
      (perform_all text_table disk
        (List Text)
        (init_fuse_oper text_table disk (List Text) build 5)
        calls)
      []
      2
      start
      1
      (codes "src/b.c" ∷ codes "src/lib" ∷ codes "src" ∷ [], events)
unfolding relative
perform_all-Kept_example =
    perform_all-Kept text_table text_table-KhashLaws disk (List Text) build 5 calls [] 2 start
      (start-Ready 10 (omega arith))
