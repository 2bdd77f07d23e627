-- ===== src/Tests/Mains.antt =====
-- `main` at concrete inputs: four calls on a file system with two files, one of which loses a string, and a configuration with a
-- wrong word.
use distiller_fs.Prelude.{
  Text, codes, ◌≡◌, refl, List, [], ◌∷◌, some, none, true, false, arith, text_eq, if◌then◌else◌,
}
use distiller_fs.Khash.Instance.{text_table, text_table-KhashLaws, text_table-capacity}
use distiller_fs.Ops.{op_name, op_read}
use distiller_fs.Toml.{Toml}
use distiller_fs.Config.{Parsed, filter_value}
use distiller_fs.Args.{LoggedFsArgs, process_args, is_absolute_path}
use distiller_fs.Logger.{relative}
use distiller_fs.Handlers.Reference.{replay}
use distiller_fs.Startup.{
  stopped, standard_error, empty_filter, default_flags, open_log, configure, enter, saved, main,
}
use distiller_fs.Startup.Main.{Finished, serve_all, effect, main-Finished}
use distiller_fs.Startup.Refusal.{main-wrong_word}
use distiller_fs.Tests.Disk.{disk}
use distiller_fs.Tests.Start.{start}
use distiller_fs.Tests.Settings.{settings, blank, foreground}
use distiller_fs.Tests.Sessions.{build, calls}

abbrev conf : Parsed
conf = record { rc = 0; filter = empty_filter; op_flags = default_flags }

main-Finished_example :
    (mount : Text) × (is_absolute_path mount ≡ true)
    × (foreground.mount_point ≡ some mount)
    × Finished text_table text_table-KhashLaws settings disk
        (List Text)
        build
        calls
        (main text_table settings disk
          (List Text)
          build
          (λ name. none)
          (serve_all text_table text_table-KhashLaws settings disk (List Text) build calls)
          start.world
          0
          blank
          (codes "distillerfs")
          ((b'f', []) ∷ [])
          (codes "/mnt" ∷ []))
        standard_error
        conf
        1
        (replay
          (record { paths = conf.filter; ops = conf.op_flags })
          (effect text_table text_table-KhashLaws settings disk
            (List Text)
            build
            calls
            mount
            start.world).1
          (λ q. none))
unfolding relative process_args open_log configure enter saved
main-Finished_example =
    main-Finished text_table text_table-KhashLaws settings disk (List Text) build calls
      (λ name. none) start.world 0 blank (codes "distillerfs") ((b'f', []) ∷ []) (codes "/mnt" ∷ [])
      foreground standard_error conf refl refl refl refl
      (record { includes = []; excludes = []; include_path = refl; exclude_path = refl })
      (omega arith) (omega (arith, text_table-capacity))

-- A file with `read = "al"` in its filter.
abbrev misspelt : Toml
misspelt = record settings {
  toml_string_in = λ table name. if text_eq name (codes "read") then some (codes "al") else none;
}

-- `distillerfs -f -c /etc/d.toml /mnt`
abbrev configured : LoggedFsArgs
configured = record foreground { config_filename = some (codes "/etc/d.toml") }

main-wrong_word_example :
    main text_table misspelt disk
      (List Text)
      build
      (λ name. some [])
      (λ argv ops state. none)
      start.world
      0
      blank
      (codes "distillerfs")
      ((b'f', []) ∷ (b'c', codes "/etc/d.toml") ∷ [])
      (codes "/mnt" ∷ [])
    ≡ some (stopped 3)
unfolding op_name process_args open_log filter_value
main-wrong_word_example =
    main-wrong_word misspelt text_table disk (List Text) build (λ name. some [])
      (λ argv ops state. none) start.world 0 blank (codes "distillerfs")
      ((b'f', []) ∷ (b'c', codes "/etc/d.toml") ∷ []) (codes "/mnt" ∷ []) configured standard_error
      (codes "/etc/d.toml") [] (codes "al") true false op_read refl refl refl refl refl refl refl
      refl
