-- ===== src/Handlers/Pairs.antt =====
-- The FUSE operations of src/distillerfs.c that name two paths, and those with a shape of their
-- own: `symlink`, `rename`, `link`, `readdir` and `write`.
pub mod Events
pub mod Rename
pub mod Links
pub mod Files
pub mod Write
use distiller_fs.Prelude.{
  ℕ, ◌*◌, ◌^◌, Text, List, [], ◌∷◌, Bool, none, some, pos, negate, Run, pure, gets, ◌>>=◌, ◌>>◌,
  if◌then◌else◌,
}
use distiller_fs.Ops.{
  FuseOp, log_success, log_unsuccess, op_readdir, op_symlink, op_rename, op_link, op_write,
}
use distiller_fs.Khash.{Khash}
use distiller_fs.Memory
use distiller_fs.Posix.{Posix, Outcome, done, failed, Dirent}
use distiller_fs.Logger.{load, free, get_relative_path, log_op}
use distiller_fs.Handlers.{S as AnyState, Reply, int_of, to_int, sys, sys_at, fail}

-- The fields of `struct stat` that `readdir` fills.
pub record FillStat : Type 0 where
  pub st_ino : ℕ
  pub st_mode : ℕ

-- The loop over the entries, up to the first that the filler refuses. The buffer is the filler's.
unfoldable pub fill_entries {ℓ} :
    {B : Type ℓ} → (B → Text → FillStat → B × Bool) → B → List Dirent → B
fill_entries filler buf [] = buf
fill_entries filler buf (de ∷ rest) =
    let r = filler buf de.d_name (record { st_ino = de.d_ino; st_mode = de.d_type * 2 ^ 12 }) in
    let more = fill_entries filler r.0 rest in if r.1 then r.0 else more

module _ (kh : Khash) (px : Posix) where
  open px use {World}

  -- Two events of one operation, the second path after the first.
  pub log_two : FuseOp → ℕ → Text → Text → Run (AnyState kh px) (Unit {0})
  log_two op state first second = do log_op kh op state first; log_op kh op state second

  pub symlink_outcome :
      Text → Text → ℕ → Outcome (Unit {0}) → Run (AnyState kh px) (Reply (Unit {0}))
  unfolding log_two
  symlink_outcome from orig_to to (failed _) = do
    free to
    log_two op_symlink log_unsuccess orig_to from
    fail
  symlink_outcome from orig_to to (done _) = do
    w ← gets (λ s. s.world)
    sys_at to (λ name. px.lchown name (px.uid w) (px.gid w))
    log_two op_symlink log_success orig_to from
    free to
    pure (pos 0, some tt)

  -- `loggedFS_symlink`: `from` is the text of the new link.
  pub symlink : Text → Text → Run (AnyState kh px) (Reply (Unit {0}))
  unfolding symlink_outcome
  symlink from orig_to = do
    to ← get_relative_path orig_to
    res ← sys_at to (px.symlink from)
    symlink_outcome from orig_to to res

  -- A system call on two strings.
  pub sys_at_two :
      ℕ
      → ℕ
      → (Text → Text → World → Outcome (Unit {0}) × World)
      → Run (AnyState kh px) (Outcome (Unit {0}))
  sys_at_two p q call = do name ← load (Memory.load_text p); sys_at q (call name)

  pub rename_outcome : Text → Text → Outcome (Unit {0}) → Run (AnyState kh px) (Reply (Unit {0}))
  unfolding log_two
  rename_outcome orig_from orig_to (failed _) = do
    log_two op_rename log_unsuccess orig_from orig_to
    fail
  rename_outcome orig_from orig_to (done _) = do
    log_two op_rename log_success orig_from orig_to
    pure (pos 0, some tt)

  -- `loggedFS_rename`
  pub rename : Text → Text → Run (AnyState kh px) (Reply (Unit {0}))
  unfolding sys_at_two rename_outcome
  rename orig_from orig_to = do
    from ← get_relative_path orig_from
    to ← get_relative_path orig_to
    res ← sys_at_two from to px.rename
    free from
    free to
    rename_outcome orig_from orig_to res

  pub link_outcome : Text → Text → ℕ → Outcome (Unit {0}) → Run (AnyState kh px) (Reply (Unit {0}))
  unfolding log_two
  link_outcome orig_from orig_to to (failed _) = do
    free to
    log_two op_link log_unsuccess orig_from orig_to
    fail
  link_outcome orig_from orig_to to (done _) = do
    w ← gets (λ s. s.world)
    sys_at to (λ name. px.lchown name (px.uid w) (px.gid w))
    log_two op_link log_success orig_from orig_to
    free to
    pure (pos 0, some tt)

  -- `loggedFS_link`
  pub link : Text → Text → Run (AnyState kh px) (Reply (Unit {0}))
  unfolding sys_at_two link_outcome
  link orig_from orig_to = do
    from ← get_relative_path orig_from
    to ← get_relative_path orig_to
    res ← sys_at_two from to px.link
    free from
    link_outcome orig_from orig_to to res

  -- `res = -errno` is saved before the log. The value is the filled buffer.
  pub readdir_outcome :
      {B : Type 0}
      → (B → Text → FillStat → B × Bool)
      → B
      → Text
      → ℕ
      → Outcome (List Dirent)
      → Run (AnyState kh px) (Reply B)
  readdir_outcome filler buf orig_path path (failed _) = do
    errno ← gets (λ s. s.errno)
    free path
    log_op kh op_readdir log_unsuccess orig_path
    pure (negate errno, none)
  readdir_outcome filler buf orig_path path (done entries) = do
    free path
    log_op kh op_readdir log_success orig_path
    pure (pos 0, some (fill_entries filler buf entries))

  -- `loggedFS_readdir`
  pub readdir :
      {B : Type 0} → (B → Text → FillStat → B × Bool) → B → Text → Run (AnyState kh px) (Reply B)
  unfolding readdir_outcome fill_entries
  readdir filler buf orig_path = do
    path ← get_relative_path orig_path
    dp ← sys_at path px.opendir
    readdir_outcome filler buf orig_path path dp

  -- The tail of `loggedFS_write` behind `pwrite`; `res` is saved before the log.
  pub pwrite_outcome : Text → ℕ → ℕ → Outcome ℕ → Run (AnyState kh px) (Reply ℕ)
  pwrite_outcome orig_path path fd (failed _) = do
    errno ← gets (λ s. s.errno)
    log_op kh op_write log_unsuccess orig_path
    sys (px.close fd)
    free path
    pure (negate errno, none)
  pwrite_outcome orig_path path fd (done res) = do
    log_op kh op_write log_success orig_path
    sys (px.close fd)
    free path
    pure (int_of res, some res)

  -- Where the file cannot be opened, the string is not given back.
  pub write_outcome : Text → Text → ℕ → ℕ → Outcome ℕ → Run (AnyState kh px) (Reply ℕ)
  unfolding pwrite_outcome
  write_outcome orig_path buf offset path (failed _) = do
    log_op kh op_write log_unsuccess orig_path
    fail
  write_outcome orig_path buf offset path (done fd) = do
    written ← sys (px.pwrite fd buf offset)
    res ← to_int (λ n. n) written
    pwrite_outcome orig_path path fd res

  -- `loggedFS_write`: the file is opened anew.
  pub write : Text → Text → ℕ → Run (AnyState kh px) (Reply ℕ)
  unfolding write_outcome
  write orig_path buf offset = do
    path ← get_relative_path orig_path
    fd ← sys_at path (λ name. px.open_file name px.o_wronly 0)
    write_outcome orig_path buf offset path fd
