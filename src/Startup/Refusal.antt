-- ===== src/Startup/Refusal.antt =====
-- `main` of src/distillerfs.c on a configuration with a word that is none of the four.
use distiller_fs.Prelude.{
  ℕ, ◌≡◌, refl, ap, arith, Text, codes, List, Option, some, none, [], true, false, ◌==◌,
}
use distiller_fs.Ops.{FuseOp, op_name, all_ops}
use distiller_fs.Khash.{Khash}
use distiller_fs.Posix.{Posix}
use distiller_fs.Toml.{Toml}
use distiller_fs.Config.{Parsed, filter_value, read_ops, section_paths, parse_config}
use distiller_fs.Config.Operations.{read_ops-wrong}
use distiller_fs.Args.{LoggedFsArgs, process_args}
use distiller_fs.Handlers.Operations.{Build}
use distiller_fs.Startup.{
  Dest, stopped, empty_filter, default_flags, open_log, configure, FuseMain, serve, main,
}

module _ (tm : Toml) where
  -- The code of such a file.
  parse_config-wrong :
      (file : Text) (conf filter : tm.Table) (op : FuseOp) (word : Text)
      → tm.toml_parse_file file ≡ some conf
      → tm.toml_table_in conf (codes "filter") ≡ some filter
      → tm.toml_string_in filter (op_name op) ≡ some word
      → filter_value word ≡ none
      → (p : Parsed) × (parse_config tm (some file) empty_filter default_flags ≡ some p)
        × (p.rc ≡ 3)
  unfolding parse_config
  parse_config-wrong file conf filter op word parses here there wrong =
      let (code, op_flags) = read_ops tm filter all_ops default_flags in
      let p : Parsed = record {
        rc = code;
        filter = record {
          exclude_path = section_paths tm conf (codes "exclude") [];
          include_path = section_paths tm conf (codes "include_only") [];
        };
        op_flags = op_flags;
      } in
      (
        p,
        rw (parse_config, parses, here) refl,
        read_ops-wrong tm filter default_flags op word there wrong,
      )

  module _ (kh : Khash) (px : Posix) (B : Type 0) (build : Build) where
    serve-stops :
        (files : Text → Option Text) (fuse_main : FuseMain kh tm px B build) (world : px.World)
        (errno : ℕ) (args : LoggedFsArgs) (dest : Dest) (p : Parsed)
        → open_log args ≡ some dest
        → configure tm files args ≡ some p
        → p.rc ≡ 3
        → serve kh tm px B build files fuse_main world errno args ≡ some (stopped 3)
    unfolding serve
    serve-stops files fuse_main world errno args dest p l c code =
        let no_zero : (p.rc == 0) ≡ false = ground (arith, code) in
        rw (serve, l, c, no_zero) (ap (λ (n : ℕ). some (stopped n)) code)

    -- With arguments that `processArgs` accepts, a destination for the report, and a named
    -- configuration that can be opened, parses and has a filter table with an entry, for any
    -- operation, that is none of the four words, `main` returns 3 without a report,
    -- whatever FUSE would do.
    pub main-wrong_word :
        (files : Text → Option Text) (fuse_main : FuseMain kh tm px B build) (world : px.World)
        (errno : ℕ) (blank : LoggedFsArgs) (name : Text) (options : List (ℕ × Text))
        (rest : List Text) (args : LoggedFsArgs) (dest : Dest) (config file word : Text)
        (conf filter : tm.Table) (op : FuseOp)
        → process_args name options rest blank ≡ some (true, args)
        → open_log args ≡ some dest
        → args.config_filename ≡ some config
        → files config ≡ some file
        → tm.toml_parse_file file ≡ some conf
        → tm.toml_table_in conf (codes "filter") ≡ some filter
        → tm.toml_string_in filter (op_name op) ≡ some word
        → filter_value word ≡ none
        → main kh tm px B build files fuse_main world errno blank name options rest
          ≡ some (stopped 3)
    unfolding main configure
    main-wrong_word files fuse_main world errno blank name options rest args dest config file word
          conf filter op a l named here parses table there wrong =
        let (p, run, code) = parse_config-wrong file conf filter op word parses table there wrong in
        let c : configure tm files args ≡ some p = rw (configure, named, here) run in
        rw (main, a) (serve-stops files fuse_main (px.umask 0 world) errno args dest p l c code)
