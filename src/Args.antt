-- ===== src/Args.antt =====
-- `processArgs` of src/distillerfs.c. `getopt` is the C library's: the model takes the options that
-- its calls return, with their arguments, and the arguments behind them, from `optind` on. `none`
-- is a failed `assert`.
pub mod Vector
use distiller_fs.Prelude.{
  ℕ, Text, codes, List, [], ◌∷◌, ◌++◌, Bool, true, false, Option, none, some, length, ◌==◌, ltb,
  Run, pure, ◌>>=◌, ◌>>◌, if◌then◌else◌,
}

-- `MaxFuseArgs`
abbrev pub max_fuse_args : ℕ
max_fuse_args = 32

-- `LoggedFS_Args`. The first `fuseArgc` elements of `fuseArgv` are a list, with `none` for `NULL`;
-- a `logFilename` of `none` was never assigned.
pub record LoggedFsArgs : Type 0 where
  pub mount_point : Option Text
  pub config_filename : Option Text
  pub log_filename : Option Text
  pub is_daemon : Bool
  pub log_to_syslog : Bool
  pub fuse_argv : List (Option Text)

unfoldable pub is_absolute_path : Text → Bool
is_absolute_path [] = false
is_absolute_path (c ∷ name) = c == b'/'

-- `COMMON_OPTS`
abbrev common_opts : Text
common_opts = codes "nonempty,use_ino,attr_timeout=0,entry_timeout=0,negative_timeout=0"

-- `PUSHARG`
unfoldable pub push_arg : Text → Run LoggedFsArgs (Unit {0})
push_arg arg out =
    if ltb (length out.fuse_argv) max_fuse_args
    then some (tt, record out { fuse_argv = out.fuse_argv ++ some arg ∷ [] })
    else none

abbrev pub modify : (LoggedFsArgs → LoggedFsArgs) → Run LoggedFsArgs (Unit {0})
modify f out = some (tt, f out)

-- One round of the loop over the options. The value is `got_p`, or `none` where the function
-- returns.
unfoldable pub read_option : ℕ → Text → Bool → Run LoggedFsArgs (Option Bool)
unfolding push_arg
read_option res optarg got_p =
    if res == b'h'
    then pure none
    else if res == b'f'
    then (do
      modify (λ out. record out { is_daemon = false; log_to_syslog = false })
      push_arg (codes "-f")
      pure (some got_p))
    else if res == b'p'
    then (do
      push_arg (codes "-o")
      push_arg (codes "allow_other,default_permissions," ++ common_opts)
      pure (some true))
    else if res == b'e'
    then (do push_arg (codes "-o"); push_arg (codes "nonempty"); pure (some got_p))
    else if res == b'c'
    then (do modify (λ out. record out { config_filename = some optarg }); pure (some got_p))
    else if res == b'l'
    then (do
      modify (λ out. record out { log_to_syslog = false; log_filename = some optarg })
      pure (some got_p))
    else pure (some got_p)

unfoldable pub read_options : List (ℕ × Text) → Bool → Run LoggedFsArgs (Option Bool)
unfolding read_option
read_options [] got_p = pure (some got_p)
read_options ((res, optarg) ∷ rest) got_p = do
  next ← read_option res optarg got_p
  elim next [ none ↦ pure none | some got ↦ read_options rest got ]

-- The arguments that are left go to FUSE.
unfoldable pub push_args : List Text → Run LoggedFsArgs (Unit {0})
unfolding push_arg
push_args [] = pure tt
push_args (arg ∷ args) = do push_arg arg; push_args args

-- `out->fuseArgv[1] = mountPoint`
unfoldable pub set_second : Text → List (Option Text) → List (Option Text)
set_second name [] = []
set_second name (x ∷ []) = x ∷ []
set_second name (x ∷ y ∷ rest) = x ∷ some name ∷ rest

-- The part behind the options, on `argv` from `optind` on.
unfoldable pub read_mount : List Text → Run LoggedFsArgs Bool
unfolding push_args set_second is_absolute_path
read_mount [] = pure false
read_mount (mount_point ∷ extra) = do
  modify (λ out. record out {
    mount_point = some mount_point;
    fuse_argv = set_second mount_point out.fuse_argv;
  })
  push_args extra
  pure (is_absolute_path mount_point)

-- `processArgs`: `argv[0]`, the results of `getopt` on the arguments, and the arguments from
-- `optind` on.
unfoldable pub process_args : Text → List (ℕ × Text) → List Text → Run LoggedFsArgs Bool
unfolding read_options read_mount push_arg
process_args name options rest = do
  modify (λ out. record out {
    is_daemon = true;
    log_to_syslog = true;
    config_filename = none;
    fuse_argv = some name ∷ none ∷ [];
  })
  got ← read_options options false
  elim got [
    | none ↦ pure false
    | some got_p ↦ (do
      if got_p then pure tt else (do push_arg (codes "-o"); push_arg common_opts)
      read_mount rest)
  ]
