-- ===== src/Handlers.antt =====
-- The FUSE operations of src/distillerfs.c: each makes its system calls on the relative path,
-- logs the outcome, and returns 0, a length, or `-errno`. Some bodies are the same text up to the
-- call and the operation: those are instances of one function.
pub mod Calls
pub mod Paths
pub mod Creation
pub mod Direct
pub mod Pairs
pub mod Operations
pub mod Reference
pub mod Kept
pub mod Sequences
pub mod Runs
use distiller_fs.Prelude.{
  ℕ, ◌+◌, ◌-◌, ◌%◌, ◌^◌, Text, List, length, Bool, true, false, Option, none, some, ℤ, pos, negate,
  ◌==◌, ltb, Run, pure, lift, gets, ◌>>=◌, ◌>>◌, if◌then◌else◌,
}
use distiller_fs.Ops.{
  FuseOp, log_success, log_unsuccess, op_getattr, op_access, op_readlink, op_readdir, op_mknod,
  op_mkdir, op_symlink, op_unlink, op_rmdir, op_rename, op_link, op_chmod, op_chown, op_truncate,
  op_utime, op_utimens, op_open, op_read, op_write, op_statfs, op_release, op_fsync, op_setxattr,
  op_getxattr, op_listxattr, op_removexattr, flag,
}
use distiller_fs.Khash.{Khash}
use distiller_fs.Memory
use distiller_fs.Posix.{Posix, Outcome, done, failed, Dirent}
use distiller_fs.Logger.{State, load, free, get_relative_path, store_in_hash, log_op}

-- `errno` after a call.
abbrev pub errno_after {ℓ} : {A : Type ℓ} → Outcome A → ℕ → ℕ
errno_after (done a) e = e
errno_after (failed n) e = n

module _ {T W A : Type 0} where
  -- A system call.
  abbrev pub sys : (W → Outcome A × W) → Run (State T W) (Outcome A)
  sys call s =
      let r = call s.world in some (r.0, record s { world = r.1; errno = errno_after r.0 s.errno })

  -- A system call on the string at an address.
  abbrev pub sys_at : ℕ → (Text → W → Outcome A × W) → Run (State T W) (Outcome A)
  sys_at p call = do name ← load (Memory.load_text p); sys (call name)

-- A size in an `int`, in two's complement.
abbrev pub int_of : ℕ → ℤ
int_of n = let r = n % 2 ^ 32 in if ltb r (2 ^ 31) then pos r else negate (2 ^ 32 - r)

-- `int res = call(...)` where the call returns a `ssize_t`: a size that is -1 as an `int` is taken for
-- a failure, with the error number that is there.
abbrev pub narrowed : {A : Type 0} → (A → ℕ) → ℕ → Outcome A → Outcome A
narrowed size errno (failed e) = failed e
narrowed size errno (done a) = if size a % 2 ^ 32 == 2 ^ 32 - 1 then failed errno else done a

abbrev pub to_int : {T W A : Type 0} → (A → ℕ) → Outcome A → Run (State T W) (Outcome A)
to_int size res s = some (narrowed size s.errno res, s)

-- What a handler returns: the `int`, and what it wrote to the caller's buffer.
abbrev pub Reply : Type 0 → Type 0
Reply A = ℤ × Option A

module _ {T W A : Type 0} where
  -- `return -errno`
  abbrev pub fail : Run (State T W) (Reply A)
  fail s = some ((negate s.errno, none), s)

module _ (kh : Khash) (px : Posix) where
  open px use {World}

  abbrev pub S : Type 0
  S = State kh.Table World

  module _ {A : Type 0} where
    -- The log and the result after a call on one path.
    pub report : FuseOp → Text → (A → ℤ) → Outcome A → Run S (Reply A)
    report op orig_path value (failed _) = do log_op kh op log_unsuccess orig_path; fail
    report op orig_path value (done a) = do
      log_op kh op log_success orig_path
      pure (value a, some a)

    -- The handlers that give their string back directly after the call.
    pub path_handler : FuseOp → (Text → World → Outcome A × World) → Text → Run S (Reply A)
    unfolding report
    path_handler op call orig_path = do
      path ← get_relative_path orig_path
      res ← sys_at path call
      free path
      report op orig_path (λ _. pos 0) res

  -- `loggedFS_getattr`
  pub getattr : Text → Run S (Reply px.Stat)
  unfolding path_handler
  getattr = path_handler op_getattr px.lstat

  -- `loggedFS_access`
  pub access : Text → ℕ → Run S (Reply (Unit {0}))
  unfolding path_handler
  access orig_path mask = path_handler op_access (λ path. px.access path mask) orig_path

  -- `loggedFS_readlink`: the last byte of the buffer is kept for the final NUL, and `size - 1` is
  -- a `size_t`.
  pub readlink : Text → ℕ → Run S (Reply Text)
  unfolding path_handler
  readlink orig_path size =
      path_handler op_readlink (λ path. px.readlink path ((size + 2 ^ 64 - 1) % 2 ^ 64)) orig_path

  pub unlink : Text → Run S (Reply (Unit {0}))
  unfolding path_handler
  unlink = path_handler op_unlink px.unlink

  pub rmdir : Text → Run S (Reply (Unit {0}))
  unfolding path_handler
  rmdir = path_handler op_rmdir px.rmdir

  pub chmod : Text → ℕ → Run S (Reply (Unit {0}))
  unfolding path_handler
  chmod orig_path mode = path_handler op_chmod (λ path. px.chmod path mode) orig_path

  pub chown : Text → ℕ → ℕ → Run S (Reply (Unit {0}))
  unfolding path_handler
  chown orig_path uid gid = path_handler op_chown (λ path. px.lchown path uid gid) orig_path

  pub truncate : Text → ℕ → Run S (Reply (Unit {0}))
  unfolding path_handler
  truncate orig_path size = path_handler op_truncate (λ path. px.truncate path size) orig_path

  pub utime : Text → px.TimeBuf → Run S (Reply (Unit {0}))
  unfolding path_handler
  utime orig_path buf = path_handler op_utime (λ path. px.utime path buf) orig_path

  pub utimens : Text → px.Times → Run S (Reply (Unit {0}))
  unfolding path_handler
  utimens orig_path ts = path_handler op_utimens (λ path. px.utimensat path ts) orig_path

  pub statfs : Text → Run S (Reply px.StatVfs)
  unfolding path_handler
  statfs = path_handler op_statfs px.statvfs

  -- `loggedFS_open`: the value is `fi->fh`.
  pub open_handler : Text → ℕ → Run S (Reply ℕ)
  unfolding path_handler
  open_handler orig_path flags = path_handler op_open (λ path. px.open_file path flags 0) orig_path

  -- `loggedFS_read`: no path is needed, and the length read is returned. `fi->fh` becomes an `int`, whose
  -- bits are a number below `2 ^ 32`.
  pub read : Text → ℕ → ℕ → ℕ → Run S (Reply Text)
  unfolding report
  read orig_path fh size offset = do
    got ← sys (px.pread (fh % 2 ^ 32) size offset)
    res ← to_int length got
    report op_read orig_path (λ bytes. int_of (length bytes)) res

  -- The extended attribute handlers call with `orig_path` itself.
  pub setxattr : Text → Text → Text → ℕ → Run S (Reply (Unit {0}))
  unfolding report
  setxattr orig_path name value flags = do
    res ← sys (px.lsetxattr orig_path name value flags)
    report op_setxattr orig_path (λ _. pos 0) res

  pub getxattr : Text → Text → ℕ → Run S (Reply Text)
  unfolding report
  getxattr orig_path name size = do
    got ← sys (px.lgetxattr orig_path name size)
    res ← to_int length got
    report op_getxattr orig_path (λ value. int_of (length value)) res

  pub listxattr : Text → ℕ → Run S (Reply Text)
  unfolding report
  listxattr orig_path size = do
    got ← sys (px.llistxattr orig_path size)
    res ← to_int length got
    report op_listxattr orig_path (λ names. int_of (length names)) res

  pub removexattr : Text → Text → Run S (Reply (Unit {0}))
  unfolding report
  removexattr orig_path name = do
    res ← sys (px.lremovexattr orig_path name)
    report op_removexattr orig_path (λ _. pos 0) res

  -- `loggedFS_release` logs whatever the filter on the operation says, and so does `fsync`.
  pub release : Text → ℕ → Run S ℤ
  release orig_path fh = do
    filter ← gets (λ s. s.filter)
    store_in_hash kh filter (some orig_path) (flag op_release)
    sys (px.close (fh % 2 ^ 32))
    pure (pos 0)

  pub fsync : Text → Run S ℤ
  fsync orig_path = do
    filter ← gets (λ s. s.filter)
    store_in_hash kh filter (some orig_path) (flag op_fsync)
    pure (pos 0)

  -- The handlers that create a file give it to the caller's user and group. `loggedFS_mkdir` and
  -- the part of `loggedFS_mknod` behind its three calls.
  pub finish_create : FuseOp → Text → ℕ → Outcome (Unit {0}) → Run S (Reply (Unit {0}))
  finish_create op orig_path path (failed _) = do
    free path
    log_op kh op log_unsuccess orig_path
    fail
  finish_create op orig_path path (done _) = do
    w ← gets (λ s. s.world)
    sys_at path (λ name. px.lchown name (px.uid w) (px.gid w))
    free path
    log_op kh op log_success orig_path
    pure (pos 0, some tt)

  pub mkdir : Text → ℕ → Run S (Reply (Unit {0}))
  unfolding finish_create
  mkdir orig_path mode = do
    path ← get_relative_path orig_path
    res ← sys_at path (λ name. px.mkdir name mode)
    finish_create op_mkdir orig_path path res

  -- A new regular file is opened and closed.
  pub close_new : Outcome ℕ → Run S (Outcome (Unit {0}))
  close_new (failed e) = pure (failed e)
  close_new (done fd) = sys (px.close fd)

  pub make_node : ℕ → ℕ → ℕ → Run S (Outcome (Unit {0}))
  unfolding close_new
  make_node path mode rdev =
      if px.s_isreg mode
      then (do res ← sys_at path (λ name. px.open_file name px.o_create_new mode); close_new res)
      else if px.s_isfifo mode
      then sys_at path (λ name. px.mkfifo name mode)
      else sys_at path (λ name. px.mknod name mode rdev)

  pub mknod : Text → ℕ → ℕ → Run S (Reply (Unit {0}))
  unfolding make_node finish_create
  mknod orig_path mode rdev = do
    path ← get_relative_path orig_path
    res ← make_node path mode rdev
    finish_create op_mknod orig_path path res
