-- ===== src/Tests/Settings.antt =====
-- The theorems on the configuration, and on the start and the end of the program, at concrete
-- inputs.
use distiller_fs.Prelude.{
  ◌^◌, ◌≡◌, ◌≢◌, ◌↔◌, refl, codes, text_eq, [], ◌∷◌, Bool, true, false, none, some, if◌then◌else◌,
  ◌==◌, arith,
}
use distiller_fs.Ops.{op_name, op_read, op_open, flag, log_success, log_unsuccess}
use distiller_fs.Khash.Instance.{text_table, text_table-KhashLaws, text_table-capacity}
use distiller_fs.Toml.{Toml}
use distiller_fs.Args.{LoggedFsArgs, process_args}
use distiller_fs.Args.Vector.{Mounted, process_args-Mounted}
use distiller_fs.Config.{Parsed, assign, parse_config}
use distiller_fs.Config.File.{
  Configured, parse_config-Configured, all-should_log, Configured-Assigned,
}
use distiller_fs.Logger.{should_log}
use distiller_fs.Logger.Events.{after}
use distiller_fs.Logger.Store.{Assigned, Stored, store_in_hash-Stored}
use distiller_fs.Logger.Start.{empty-Sound, view-empty}
use distiller_fs.Startup.{standard_error, empty_filter, default_flags, legend_char, initial}
use distiller_fs.Startup.Ending.{
  Begun, initial-Begun, legend_char_lem, Reported, write_report-Reported,
}
use distiller_fs.Tests.Start.{start-Fits, start, a_filter, a_filter-Assigned}

-- A file with `read = "all"` in its filter, and the path `/out` in each list of paths.
abbrev pub settings : Toml
settings = record {
  Table = Bool;
  Array = Unit {0};
  toml_parse_file = λ file. some true;
  toml_table_in = λ conf name. if conf then some false else none;
  toml_array_in = λ table name. some tt;
  toml_array_nelem = λ a. 1;
  toml_string_at = λ a i. if i == 0 then some (codes "/out") else none;
  toml_string_in = λ table name. if text_eq name (codes "read") then some (codes "all") else none;
}

parse_config-Configured_example :
    Configured settings true false empty_filter default_flags
      (parse_config settings (some []) empty_filter default_flags)
parse_config-Configured_example =
    parse_config-Configured settings [] empty_filter default_flags true false refl refl

-- What the file gives.
abbrev parsed_settings : Parsed
parsed_settings = record {
  rc = 0;
  filter = record {
    exclude_path = some (codes "/out") ∷ [];
    include_path = some (codes "/out") ∷ [];
  };
  op_flags = assign default_flags op_read 2;
}

all-should_log_example :
    (should_log parsed_settings.op_flags op_read log_success ≡ false)
    × (should_log parsed_settings.op_flags op_read log_unsuccess ≡ true)
unfolding parse_config op_name
all-should_log_example =
    all-should_log settings [] empty_filter default_flags parsed_settings true false op_read refl
      refl refl refl refl

Configured-Assigned_example :
    Assigned
      (parse_config-Configured settings [] empty_filter default_flags true false refl
        refl).parsed.filter
Configured-Assigned_example =
    Configured-Assigned settings true false empty_filter default_flags
      (parse_config settings (some []) empty_filter default_flags)
      (λ t a d e i below. ground (arith, below)) (λ t a d e i below. ground (arith, below))
      (parse_config-Configured settings [] empty_filter default_flags true false refl refl)
      (record { includes = []; excludes = []; include_path = refl; exclude_path = refl })

legend_char_lem_example :
    ((legend_char default_flags op_read ≡ b'a') ↔ (default_flags op_read ≡ log_unsuccess))
    × ((legend_char default_flags op_read ≡ b's') ↔ (default_flags op_read ≡ log_success))
    × (legend_char default_flags op_read ≢ b'u')
legend_char_lem_example = legend_char_lem default_flags op_read

initial-Begun_example :
    Begun text_table text_table-KhashLaws
      (record { rc = 0; filter = a_filter; op_flags = default_flags })
      (2 ^ 29)
      (initial text_table
        (record { rc = 0; filter = a_filter; op_flags = default_flags })
        start.world
        0)
initial-Begun_example =
    initial-Begun text_table text_table-KhashLaws
      (record { rc = 0; filter = a_filter; op_flags = default_flags }) start.world 0 (2 ^ 29)
      a_filter-Assigned (omega arith) (omega (arith, text_table-capacity))

-- A log with one event.
abbrev one_event : Stored text_table text_table-KhashLaws (codes "/src/a.c") (flag op_open) [] start
one_event =
    store_in_hash-Stored text_table text_table-KhashLaws (codes "/src/a.c") (flag op_open) [] start
      a_filter-Assigned (empty-Sound text_table text_table-KhashLaws 32) start-Fits refl
      (rw (view-empty text_table text_table-KhashLaws 32 (codes "/src/a.c")) (omega arith))

write_report-Reported_example :
    Reported text_table text_table-KhashLaws standard_error []
      (after start one_event.heap one_event.table)
      one_event.sound
write_report-Reported_example =
    write_report-Reported text_table text_table-KhashLaws standard_error
      (after start one_event.heap one_event.table) one_event.sound

abbrev pub blank : LoggedFsArgs
blank = record {
  mount_point = none;
  config_filename = none;
  log_filename = none;
  is_daemon = false;
  log_to_syslog = false;
  fuse_argv = [];
}

-- `distillerfs -f /mnt`
abbrev pub foreground : LoggedFsArgs
foreground = record blank {
  mount_point = some (codes "/mnt");
  fuse_argv =
      some (codes "distillerfs")
      ∷ some (codes "/mnt")
      ∷ some (codes "-f")
      ∷ some (codes "-o")
      ∷ some (codes "nonempty,use_ino,attr_timeout=0,entry_timeout=0,negative_timeout=0")
      ∷ [];
}

process_args-Mounted_example : Mounted (codes "distillerfs") foreground
unfolding process_args
process_args-Mounted_example =
    process_args-Mounted (codes "distillerfs") ((b'f', []) ∷ []) (codes "/mnt" ∷ []) blank
      foreground refl
