-- ===== src/Handlers/Operations.antt =====
-- The table of operations that `main` hands to FUSE: `init_fuse_oper` of src/distillerfs.c, and the
-- call of one of its members. FUSE skips an operation whose member is null.
use distiller_fs.Prelude.{ℕ, Text, Bool, not, Option, none, some, ℤ, Run, pure, ◌>>◌, if◌then◌else◌}
use distiller_fs.Khash.{Khash}
use distiller_fs.Posix.{Posix}
use distiller_fs.Handlers.{
  S, Reply, sys, getattr, access, readlink, mknod, mkdir, unlink, rmdir, chmod, chown, truncate,
  utime, utimens, open_handler, read, statfs, release, fsync, setxattr, getxattr, listxattr,
  removexattr,
}
use distiller_fs.Handlers.Pairs.{FillStat, readdir, symlink, rename, link, write}

-- The constants of the build: `FUSE_USE_VERSION == 25`, and whether `HAVE_SETXATTR` is defined.
pub record Build : Type 0 where
  pub version_25 : Bool
  pub have_setxattr : Bool

-- The buffer of `readdir` is of the type `B`.
module _ (kh : Khash) (px : Posix) (B : Type 0) where
  abbrev Action : Type 0 → Type 0
  Action A = Run (S kh px) (Reply A)

  -- `struct fuse_operations`, the members that the program sets. Null is `none`.
  pub record FuseOperations : Type 0 where
    pub on_init : Option (Run (S kh px) (Unit {0}))
    pub on_getattr : Option (Text → Action px.Stat)
    pub on_access : Option (Text → ℕ → Action (Unit {0}))
    pub on_readlink : Option (Text → ℕ → Action Text)
    pub on_readdir : Option ((B → Text → FillStat → B × Bool) → B → Text → Action B)
    pub on_mknod : Option (Text → ℕ → ℕ → Action (Unit {0}))
    pub on_mkdir : Option (Text → ℕ → Action (Unit {0}))
    pub on_symlink : Option (Text → Text → Action (Unit {0}))
    pub on_unlink : Option (Text → Action (Unit {0}))
    pub on_rmdir : Option (Text → Action (Unit {0}))
    pub on_rename : Option (Text → Text → Action (Unit {0}))
    pub on_link : Option (Text → Text → Action (Unit {0}))
    pub on_chmod : Option (Text → ℕ → Action (Unit {0}))
    pub on_chown : Option (Text → ℕ → ℕ → Action (Unit {0}))
    pub on_truncate : Option (Text → ℕ → Action (Unit {0}))
    pub on_utime : Option (Text → px.TimeBuf → Action (Unit {0}))
    pub on_utimens : Option (Text → px.Times → Action (Unit {0}))
    pub flag_utime_omit_ok : Bool
    pub on_open : Option (Text → ℕ → Action ℕ)
    pub on_read : Option (Text → ℕ → ℕ → ℕ → Action Text)
    pub on_write : Option (Text → Text → ℕ → Action ℕ)
    pub on_statfs : Option (Text → Action px.StatVfs)
    pub on_release : Option (Text → ℕ → Run (S kh px) ℤ)
    pub on_fsync : Option (Text → Run (S kh px) ℤ)
    pub on_setxattr : Option (Text → Text → Text → ℕ → Action (Unit {0}))
    pub on_getxattr : Option (Text → Text → ℕ → Action Text)
    pub on_listxattr : Option (Text → ℕ → Action Text)
    pub on_removexattr : Option (Text → Text → Action (Unit {0}))

  -- `loggedFS_init`, with the descriptor `savefd` of the saved directory. It returns null.
  unfoldable pub logged_fs_init : ℕ → Run (S kh px) (Unit {0})
  logged_fs_init savefd = do sys (px.fchdir savefd); sys (px.close savefd); pure tt

  -- A member under a condition of the preprocessor.
  abbrev pub given : {A : Type 0} → Bool → A → Option A
  given b f = if b then some f else none

  unfoldable pub init_fuse_oper : Build → ℕ → FuseOperations
  init_fuse_oper build savefd = record {
    on_init = some (logged_fs_init savefd);
    on_getattr = some (getattr kh px);
    on_access = some (access kh px);
    on_readlink = some (readlink kh px);
    on_readdir = some (readdir kh px);
    on_mknod = some (mknod kh px);
    on_mkdir = some (mkdir kh px);
    on_symlink = some (symlink kh px);
    on_unlink = some (unlink kh px);
    on_rmdir = some (rmdir kh px);
    on_rename = some (rename kh px);
    on_link = some (link kh px);
    on_chmod = some (chmod kh px);
    on_chown = some (chown kh px);
    on_truncate = some (truncate kh px);
    on_utime = given build.version_25 (utime kh px);
    on_utimens = given (not build.version_25) (utimens kh px);
    flag_utime_omit_ok = not build.version_25;
    on_open = some (open_handler kh px);
    on_read = some (read kh px);
    on_write = some (write kh px);
    on_statfs = some (statfs kh px);
    on_release = some (release kh px);
    on_fsync = some (fsync kh px);
    on_setxattr = given build.have_setxattr (setxattr kh px);
    on_getxattr = given build.have_setxattr (getxattr kh px);
    on_listxattr = given build.have_setxattr (listxattr kh px);
    on_removexattr = given build.have_setxattr (removexattr kh px);
  }

  -- A call of FUSE, with its arguments.
  pub data Request : Type 0 where
    call_init : Request
    call_getattr : Text → Request
    call_access : Text → ℕ → Request
    call_readlink : Text → ℕ → Request
    call_readdir : (B → Text → FillStat → B × Bool) → B → Text → Request
    call_mknod : Text → ℕ → ℕ → Request
    call_mkdir : Text → ℕ → Request
    call_symlink : Text → Text → Request
    call_unlink : Text → Request
    call_rmdir : Text → Request
    call_rename : Text → Text → Request
    call_link : Text → Text → Request
    call_chmod : Text → ℕ → Request
    call_chown : Text → ℕ → ℕ → Request
    call_truncate : Text → ℕ → Request
    call_utime : Text → px.TimeBuf → Request
    call_utimens : Text → px.Times → Request
    call_open : Text → ℕ → Request
    call_read : Text → ℕ → ℕ → ℕ → Request
    call_write : Text → Text → ℕ → Request
    call_statfs : Text → Request
    call_release : Text → ℕ → Request
    call_fsync : Text → Request
    call_setxattr : Text → Text → Text → ℕ → Request
    call_getxattr : Text → Text → ℕ → Request
    call_listxattr : Text → ℕ → Request
    call_removexattr : Text → Text → Request

  -- A call through a member, whose result goes back to FUSE.
  unfoldable pub through :
      {F A : Type 0} → Option F → (F → Run (S kh px) A) → Run (S kh px) (Unit {0})
  through none call = pure tt
  through (some f) call = call f >> pure tt

  unfoldable pub perform : FuseOperations → Request → Run (S kh px) (Unit {0})
  unfolding through
  perform ops call_init = through ops.on_init (λ f. f)
  perform ops (call_getattr path) = through ops.on_getattr (λ f. f path)
  perform ops (call_access path mask) = through ops.on_access (λ f. f path mask)
  perform ops (call_readlink path size) = through ops.on_readlink (λ f. f path size)
  perform ops (call_readdir filler buf path) = through ops.on_readdir (λ f. f filler buf path)
  perform ops (call_mknod path mode rdev) = through ops.on_mknod (λ f. f path mode rdev)
  perform ops (call_mkdir path mode) = through ops.on_mkdir (λ f. f path mode)
  perform ops (call_symlink from to) = through ops.on_symlink (λ f. f from to)
  perform ops (call_unlink path) = through ops.on_unlink (λ f. f path)
  perform ops (call_rmdir path) = through ops.on_rmdir (λ f. f path)
  perform ops (call_rename from to) = through ops.on_rename (λ f. f from to)
  perform ops (call_link from to) = through ops.on_link (λ f. f from to)
  perform ops (call_chmod path mode) = through ops.on_chmod (λ f. f path mode)
  perform ops (call_chown path uid gid) = through ops.on_chown (λ f. f path uid gid)
  perform ops (call_truncate path size) = through ops.on_truncate (λ f. f path size)
  perform ops (call_utime path buf) = through ops.on_utime (λ f. f path buf)
  perform ops (call_utimens path ts) = through ops.on_utimens (λ f. f path ts)
  perform ops (call_open path flags) = through ops.on_open (λ f. f path flags)
  perform ops (call_read path fh size offset) = through ops.on_read (λ f. f path fh size offset)
  perform ops (call_write path buf offset) = through ops.on_write (λ f. f path buf offset)
  perform ops (call_statfs path) = through ops.on_statfs (λ f. f path)
  perform ops (call_release path fh) = through ops.on_release (λ f. f path fh)
  perform ops (call_fsync path) = through ops.on_fsync (λ f. f path)
  perform ops (call_setxattr path name value flags) =
      through ops.on_setxattr (λ f. f path name value flags)
  perform ops (call_getxattr path name size) = through ops.on_getxattr (λ f. f path name size)
  perform ops (call_listxattr path size) = through ops.on_listxattr (λ f. f path size)
  perform ops (call_removexattr path name) = through ops.on_removexattr (λ f. f path name)
