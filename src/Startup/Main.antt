-- ===== src/Startup/Main.antt =====
-- `main` of src/distillerfs.c as a whole, where FUSE makes a list of calls.
use mathlib.Core.Path.{fun_ext}
use distiller_fs.Prelude.{
  ℕ, ◌+◌, ◌*◌, ◌≤◌, ◌≡◌, refl, sym, ap, ◌∙◌, subst, arith, Text, Option, some, none, List, length,
  true, ◌==◌, Run,
}
use distiller_fs.Khash.{Khash, KhashLaws}
use distiller_fs.Posix.{Posix}
use distiller_fs.Memory.{Heap}
use distiller_fs.Toml.{Toml}
use distiller_fs.Config.{Parsed}
use distiller_fs.Args.{LoggedFsArgs, process_args, is_absolute_path}
use distiller_fs.Args.Vector.{process_args-Mounted}
use distiller_fs.Logger.{int_max}
use distiller_fs.Logger.Invariant.{Entry, view}
use distiller_fs.Logger.Accounts.{Distinct}
use distiller_fs.Logger.Store.{Assigned}
use distiller_fs.Handlers.{S}
use distiller_fs.Handlers.Operations.{Build, Request, FuseOperations}
use distiller_fs.Handlers.Reference.{Event, Filters, replay, trace, lost_by_all}
use distiller_fs.Handlers.Runs.{perform_all, perform_all-Kept}
use distiller_fs.Print.{Line, printed}
use distiller_fs.Print.Contents.{Tells, Listing-Tells}
use distiller_fs.Print.Masks.{Legend}
use distiller_fs.Print.Release.{Only}
use distiller_fs.Startup.{
  Dest, Report, Exit, finished, legend, initial, open_log, configure, enter, enter_errno, saved,
  run_fuse, serve, main,
}
use distiller_fs.Startup.Ending.{allocated, initial-Begun, write_report-Reported}

module _ (kh : Khash) (laws : KhashLaws kh) (tm : Toml) (px : Posix) (B : Type 0) (build : Build)
    (reqs : List (Request kh px B)) where
  abbrev pub serve_all : List (Option Text) → FuseOperations kh px B → Run (S kh px) (Unit {0})
  serve_all argv ops = perform_all kh px B ops reqs

  -- What the reference makes of the calls, from the file system in which `main` changes to the mount
  -- point.
  abbrev pub effect : Text → px.World → px.World × List Event
  effect mount world =
      let opened = enter kh tm px B build mount world in
      trace kh px B build (saved opened.0) reqs opened.1

  -- The strings that these calls lose there.
  abbrev pub lost : Text → px.World → ℕ
  lost mount world =
      let opened = enter kh tm px B build mount world in
      lost_by_all kh px B build (saved opened.0) reqs opened.1

  -- The end of a run: the report of this log, and a memory with `k` blocks and those of `main` itself.
  pub record Finished (r : Option Exit) (dest : Dest) (conf : Parsed) (k : ℕ)
      (log : Text → Option Entry) : Type 0 where
    pub report : Report
    pub heap : Heap
    pub result : r ≡ some (finished report heap)
    pub left : List ℕ
    pub number : length left ≡ k + allocated conf.filter
    pub distinct : Distinct left
    pub only : Only left heap
    pub dest_is : report.dest ≡ dest
    pub legend_is : Legend conf.op_flags report.op_legend
    pub lines : List Line
    pub entries_are : report.entries ≡ printed lines
    pub tells : Tells log lines
    pub size_is : report.size ≡ length lines

  module _ (dest : Dest) (conf : Parsed) (args : LoggedFsArgs) (mount : Text) (world : px.World)
      (errno : ℕ) (assigned : Assigned conf.filter) (few : 2 * length reqs ≤ int_max)
      (fit : 2 * length reqs ≤ kh.capacity) where
    abbrev start : S kh px
    start =
        initial kh conf (enter kh tm px B build mount world).1
          (enter_errno kh tm px B build mount world errno)

    abbrev settings : Filters
    settings = record { paths = conf.filter; ops = conf.op_flags }

    abbrev final_log : Text → Option Entry
    final_log = replay settings (effect mount world).1 (λ q. none)

    run_fuse-Finished :
        Finished
          (run_fuse kh tm px B build serve_all world errno args dest conf mount)
          dest
          conf
          (lost mount world)
          final_log
    unfolding run_fuse initial
    run_fuse-Finished =
        let all : 2 * length reqs + 0 ≡ 2 * length reqs = omega arith in
        let savefd = saved (enter kh tm px B build mount world).0 in
        let b =
          initial-Begun kh laws conf start.world start.errno (2 * length reqs + 0) assigned
            (rw all few) (rw all fit) in
        let k = perform_all-Kept kh laws px B build savefd reqs b.aside 0 start b.ready in
        let r = write_report-Reported kh laws dest k.to k.ready.sound in
        let nothing : view kh start.heap start.table ≡ (λ q. none) = fun_ext b.nothing in
        record {
          heap = r.heap;
          report = _;
          result = rw (run_fuse, k.run, r.result) refl;
          left = k.left;
          number = omega (arith, k.number, b.number);
          distinct = k.ready.sound.distinct;
          only = r.only;
          dest_is = refl;
          legend_is = subst (λ f. Legend f.ops (legend k.to.op_flags)) k.same_filters r.rows;
          lines = r.listing.lines;
          entries_are = refl;
          tells =
              Listing-Tells kh laws k.to.heap k.to.table k.ready.sound.valid _ r.listing final_log
                (λ q. k.shows q ∙ ap (λ l. replay settings (effect mount world).1 l q) nothing);
          size_is = sym r.listing.number;
        }

  main-run_fuse :
      (files : Text → Option Text) (world : px.World) (errno : ℕ) (blank : LoggedFsArgs)
      (name : Text) (options : List (ℕ × Text)) (rest : List Text) (args : LoggedFsArgs)
      (dest : Dest) (conf : Parsed) (mount : Text)
      → process_args name options rest blank ≡ some (true, args)
      → open_log args ≡ some dest
      → configure tm files args ≡ some conf
      → conf.rc ≡ 0
      → args.mount_point ≡ some mount
      → main kh tm px B build files serve_all world errno blank name options rest
        ≡ run_fuse kh tm px B build serve_all (px.umask 0 world) errno args dest conf mount
  unfolding main serve
  main-run_fuse files world errno blank name options rest args dest conf mount a l c rc at =
      let no_error : (conf.rc == 0) ≡ true = ground (arith, rc) in
      rw (main, serve, a, l, c, no_error, at) refl

  -- `main` with arguments that `processArgs` accepts, a destination for the report, a configuration
  -- that is read without an error and whose paths were all assigned, where FUSE makes a list of calls,
  -- at most so many of them that a count and the hash can hold two events of each: it changes to an
  -- absolute mount point and runs to its end without a fault. The report has a legend with the letter of
  -- each operation's filter, and one line for each key of the log, which is what the reference makes of
  -- these calls there, with the key's count and the letters of its mask; its size is the number of these
  -- lines; and the blocks of memory that are left are different ones, as many as `main` allocated for
  -- itself (its arguments, its filter, and for each list of paths that is not empty the array and the
  -- copies) and as there are `write`s whose `open` is refused.
  pub main-Finished :
      (files : Text → Option Text) (world : px.World) (errno : ℕ) (blank : LoggedFsArgs)
      (name : Text) (options : List (ℕ × Text)) (rest : List Text) (args : LoggedFsArgs)
      (dest : Dest) (conf : Parsed)
      → process_args name options rest blank ≡ some (true, args)
      → open_log args ≡ some dest
      → configure tm files args ≡ some conf
      → conf.rc ≡ 0
      → Assigned conf.filter
      → 2 * length reqs ≤ int_max
      → 2 * length reqs ≤ kh.capacity
      → (mount : Text) × (is_absolute_path mount ≡ true)
        × (args.mount_point ≡ some mount)
        × Finished
            (main kh tm px B build files serve_all world errno blank name options rest)
            dest
            conf
            (lost mount (px.umask 0 world))
            (replay
              (record { paths = conf.filter; ops = conf.op_flags })
              (effect mount (px.umask 0 world)).1
              (λ q. none))
  main-Finished files world errno blank name options rest args dest conf a l c rc assigned few fit =
      let m = process_args-Mounted name options rest blank args a in
      let at : args.mount_point ≡ some m.mount = m.vector.mounted in
      let f = run_fuse-Finished dest conf args m.mount (px.umask 0 world) errno assigned few fit in
      (
        m.mount,
        m.absolute,
        at,
        record {
          report = f.report;
          heap = f.heap;
          result =
              main-run_fuse files world errno blank name options rest args dest conf m.mount a l c
                rc at
              ∙ f.result;
          left = f.left;
          number = f.number;
          distinct = f.distinct;
          only = f.only;
          dest_is = f.dest_is;
          legend_is = f.legend_is;
          lines = f.lines;
          entries_are = f.entries_are;
          tells = f.tells;
          size_is = f.size_is;
        },
      )
