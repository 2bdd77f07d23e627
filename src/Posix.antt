-- ===== src/Posix.antt =====
-- The system calls that the handlers of src/distillerfs.c make. The file system below is not part
-- of the program: it is a parameter, a state that each call reads and changes.
use distiller_fs.Prelude.{ℕ, Text, List, Bool}

-- A call returns a value, or -1 with this error number in `errno`.
pub data Outcome {ℓ} (A : Type ℓ) : Type ℓ where
  done : A → Outcome A
  failed : ℕ → Outcome A

-- `struct dirent`
pub record Dirent : Type 0 where
  pub d_name : Text
  pub d_ino : ℕ
  pub d_type : ℕ

pub record Posix : Type 1 where
  pub World : Type 0
  -- `struct stat`, `struct statvfs`, `struct timespec[2]`, `struct utimbuf`
  pub Stat : Type 0
  pub StatVfs : Type 0
  pub Times : Type 0
  pub TimeBuf : Type 0
  pub lstat : Text → World → Outcome Stat × World
  pub access : Text → ℕ → World → Outcome (Unit {0}) × World
  -- the text that was read, at most so many bytes
  pub readlink : Text → ℕ → World → Outcome Text × World
  -- a directory stream: the entries that `readdir` will return before `NULL`
  pub opendir : Text → World → Outcome (List Dirent) × World
  -- `open` with flags and a mode, which counts only where a file is created
  pub open_file : Text → ℕ → ℕ → World → Outcome ℕ × World
  -- the mask of `umask`, whose answer, the mask before, is not looked at
  pub umask : ℕ → World → World
  pub chdir : Text → World → Outcome (Unit {0}) × World
  -- a descriptor of -1, which a failed call left, stands as `2 ^ 32 - 1`
  pub fchdir : ℕ → World → Outcome (Unit {0}) × World
  pub close : ℕ → World → Outcome (Unit {0}) × World
  pub mkfifo : Text → ℕ → World → Outcome (Unit {0}) × World
  pub mknod : Text → ℕ → ℕ → World → Outcome (Unit {0}) × World
  pub mkdir : Text → ℕ → World → Outcome (Unit {0}) × World
  pub lchown : Text → ℕ → ℕ → World → Outcome (Unit {0}) × World
  pub unlink : Text → World → Outcome (Unit {0}) × World
  pub rmdir : Text → World → Outcome (Unit {0}) × World
  pub symlink : Text → Text → World → Outcome (Unit {0}) × World
  pub rename : Text → Text → World → Outcome (Unit {0}) × World
  pub link : Text → Text → World → Outcome (Unit {0}) × World
  pub chmod : Text → ℕ → World → Outcome (Unit {0}) × World
  pub truncate : Text → ℕ → World → Outcome (Unit {0}) × World
  pub utime : Text → TimeBuf → World → Outcome (Unit {0}) × World
  -- with `AT_FDCWD` and `AT_SYMLINK_NOFOLLOW`
  pub utimensat : Text → Times → World → Outcome (Unit {0}) × World
  pub statvfs : Text → World → Outcome StatVfs × World
  -- the bytes read, and the number of bytes written
  pub pread : ℕ → ℕ → ℕ → World → Outcome Text × World
  pub pwrite : ℕ → Text → ℕ → World → Outcome ℕ × World
  pub lsetxattr : Text → Text → Text → ℕ → World → Outcome (Unit {0}) × World
  -- the value or the list, whose length is returned
  pub lgetxattr : Text → Text → ℕ → World → Outcome Text × World
  pub llistxattr : Text → ℕ → World → Outcome Text × World
  pub lremovexattr : Text → Text → World → Outcome (Unit {0}) × World
  -- `fuse_get_context()->uid` and `->gid`
  pub uid : World → ℕ
  pub gid : World → ℕ
  -- `S_ISREG`, `S_ISFIFO`, `O_CREAT | O_EXCL | O_WRONLY` and `O_WRONLY`
  pub s_isreg : ℕ → Bool
  pub s_isfifo : ℕ → Bool
  pub o_create_new : ℕ
  pub o_wronly : ℕ
