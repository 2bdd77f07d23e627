-- ===== src/Startup.antt =====
-- `main` of src/distillerfs.c, from the arguments to the log that it writes. `fuse_main` is the FUSE
-- library's: it runs the handlers on the state. `none` is a fault.
pub mod Ending
pub mod Main
pub mod Refusal
use distiller_fs.Prelude.{
  ◌^◌, ◌-◌, ℕ, zero, suc, Text, codes, List, [], ◌∷◌, map, Bool, true, false, Option, none, some,
  bit_or, Run, ◌==◌, if◌then◌else◌, ◌++◌,
}
use distiller_fs.Ops.{FuseOp, all_ops, log_success, log_unsuccess}
use distiller_fs.Khash.{Khash}
use distiller_fs.Hash.{hash_new}
use distiller_fs.Memory
use distiller_fs.Memory.{Block, raw, text, Heap}
use distiller_fs.Filter.{FilterDesc}
use distiller_fs.Toml.{Toml}
use distiller_fs.Config.{Parsed, parse_config}
use distiller_fs.Args.{LoggedFsArgs, process_args}
use distiller_fs.Logger.{State}
use distiller_fs.Posix.{Posix, Outcome, done, failed}
use distiller_fs.Handlers.{S, errno_after}
use distiller_fs.Handlers.Operations.{Build, FuseOperations, init_fuse_oper}
use distiller_fs.Print.{Printed, print_hash, free_hash}

-- The loop that sets every operation to `LOG_SUCCESS | LOG_UNSUCCESS`.
unfoldable pub default_flags : FuseOp → ℕ
default_flags op = bit_or log_success log_unsuccess

-- `g_filter` after `memset`.
abbrev pub empty_filter : FilterDesc
empty_filter = record { exclude_path = []; include_path = [] }

-- The chain of tests on `op_flags[i]`. The first compares with `LOG_UNSUCCESS | LOG_UNSUCCESS`.
unfoldable pub legend_char : (FuseOp → ℕ) → FuseOp → ℕ
legend_char op_flags op =
    if op_flags op == bit_or log_unsuccess log_unsuccess
    then b'a'
    else if op_flags op == log_success
    then b's'
    else if op_flags op == log_unsuccess
    then b'u'
    else b'.'

unfoldable pub legend : (FuseOp → ℕ) → Text
unfolding legend_char
legend op_flags = map (legend_char op_flags) all_ops

-- `hash_log`: the file of that name, opened for writing, or the standard error stream.
pub data Dest : Type 0 where
  log_file : Text → Dest
  standard_error : Dest

-- A daemon without a file name reads a field that was never assigned.
unfoldable pub open_log : LoggedFsArgs → Option Dest
open_log args =
    if args.is_daemon
    then elim args.log_filename [ none ↦ none | some name ↦ some (log_file name) ]
    else some standard_error

-- What the program writes at its end: the number of keys, the legend, and the lines of the log.
pub record Report : Type 0 where
  pub dest : Dest
  pub size : ℕ
  pub op_legend : Text
  pub entries : Printed

-- The program returns a code before it starts, or writes the report and leaves this memory.
pub data Exit : Type 0 where
  stopped : ℕ → Exit
  finished : Report → Heap → Exit

-- The configuration, where a file is named. The files are given by name.
unfoldable pub configure : (tm : Toml) → (Text → Option Text) → LoggedFsArgs → Option Parsed
unfolding default_flags
configure tm files args = elim args.config_filename [
  | none ↦ some (record { rc = 0; filter = empty_filter; op_flags = default_flags })
  | some name ↦ parse_config tm (files name) empty_filter default_flags
]

-- The blocks of a list of paths: its array, where it has an element, and the copy of each that was
-- assigned.
abbrev pub path_copies : List (Option Text) → List Block
path_copies [] = []
path_copies (none ∷ paths) = path_copies paths
path_copies (some path ∷ paths) = text path ∷ path_copies paths

abbrev pub path_blocks : List (Option Text) → List Block
path_blocks [] = []
path_blocks (p ∷ paths) = raw ∷ path_copies (p ∷ paths)

-- What `main` and `parse_config` allocate, and never free: `loggedfsArgs`, `g_filter`, and the paths.
abbrev pub own_blocks : FilterDesc → List Block
own_blocks f = raw ∷ raw ∷ (path_blocks f.exclude_path ++ path_blocks f.include_path)

module _ (kh : Khash) {W : Type 0} where
  -- The state in which `fuse_main` is called.
  unfoldable pub initial : Parsed → W → ℕ → State kh.Table W
  initial conf world errno = record {
    heap = Memory.alloc_all (own_blocks conf.filter) Memory.empty;
    table = hash_new kh 32;
    filter = conf.filter;
    op_flags = conf.op_flags;
    locked = false;
    errno = errno;
    world = world;
  }

  -- The end of `main`, behind `fuse_main`.
  unfoldable pub write_report : Dest → State kh.Table W → Option (Report × Heap)
  unfolding legend
  write_report dest s = elim (print_hash kh (some s.table) s.heap) [
    | none ↦ none
    | some (entries, h) ↦ elim (free_hash kh s.table h) [
      | none ↦ none
      | some (t, h') ↦ some (
        record {
          dest = dest;
          size = kh.kh_size s.table;
          op_legend = legend s.op_flags;
          entries = entries;
        },
        h',
      )
    ]
  ]

-- `savefd = open(".", 0)`
unfoldable pub saved : Outcome ℕ → ℕ
saved (done fd) = fd
saved (failed _) = 2 ^ 32 - 1

module _ (kh : Khash) (tm : Toml) (px : Posix) (B : Type 0) (build : Build) where
  open px use {World}

  -- `fuse_main`: it gets the arguments and the table of operations.
  abbrev pub FuseMain : Type 0
  FuseMain = List (Option Text) → FuseOperations kh px B → Run (S kh px) (Unit {0})

  -- The change to the directory at the mount point, whose outcome is not looked at, and the
  -- descriptor of it.
  unfoldable pub enter : Text → World → Outcome ℕ × World
  enter mount_point w = px.open_file (codes ".") 0 0 (px.chdir mount_point w).1

  unfoldable pub enter_errno : Text → World → ℕ → ℕ
  unfolding enter
  enter_errno mount_point w errno =
      errno_after (enter mount_point w).0 (errno_after (px.chdir mount_point w).0 errno)

  -- From the change of the directory on.
  unfoldable pub run_fuse : FuseMain → World → ℕ → LoggedFsArgs → Dest → Parsed → Text → Option Exit
  unfolding enter enter_errno saved init_fuse_oper initial write_report
  run_fuse fuse_main world errno args dest conf mount_point =
      let opened = enter mount_point world in
      elim (fuse_main args.fuse_argv (init_fuse_oper kh px B build (saved opened.0))
        (initial kh conf opened.1 (enter_errno mount_point world errno))) [
          | none ↦ none
          | some (_, s) ↦ elim (write_report kh dest s) [
            | none ↦ none
            | some (report, h) ↦ some (finished report h)
          ]
        ]

  -- Behind the arguments. `chdir` of a mount point that was never assigned is a fault.
  unfoldable pub serve : (Text → Option Text) → FuseMain → World → ℕ → LoggedFsArgs → Option Exit
  unfolding open_log configure run_fuse
  serve files fuse_main world errno args = elim (open_log args) [
    | none ↦ none
    | some dest ↦ elim (configure tm files args) [
      | none ↦ none
      | some conf ↦
          if conf.rc == 0
          then elim args.mount_point [
            | none ↦ none
            | some mount_point ↦ run_fuse fuse_main world errno args dest conf mount_point
          ]
          else some (stopped conf.rc)
    ]
  ]

  -- `main`, on the results of `getopt` and the arguments behind the options. `blank` is the memory
  -- for them.
  unfoldable pub main :
      (Text → Option Text)
      → FuseMain
      → World
      → ℕ
      → LoggedFsArgs
      → Text
      → List (ℕ × Text)
      → List Text
      → Option Exit
  unfolding serve
  main files fuse_main world errno blank name options rest =
      elim (process_args name options rest blank) [
        | none ↦ none
        | some (false, args) ↦ some (stopped 0)
        | some (true, args) ↦ serve files fuse_main (px.umask 0 world) errno args
      ]
