-- ===== src/Tests/Disk.antt =====
-- A small file system for the witnesses and tests: the list of the relative paths that exist.
use distiller_fs.Prelude.{
  ℕ, ◌+◌, Text, List, [], ◌∷◌, Bool, false, ◌||◌, length, text_eq, ◌==◌, if◌then◌else◌,
}
use distiller_fs.Posix.{Posix, Outcome, done, failed, Dirent}

abbrev Disk : Type 0
Disk = List Text

abbrev has : Text → Disk → Bool
has name [] = false
has name (x ∷ d) = text_eq x name || has name d

abbrev without : Text → Disk → Disk
without name [] = []
without name (x ∷ d) = let rest = without name d in if text_eq x name then rest else x ∷ rest

-- `ENOENT` and `EEXIST`
abbrev pub enoent : ℕ
enoent = 2

abbrev eexist : ℕ
eexist = 17

abbrev found {ℓ} : {A : Type ℓ} → Text → A → Disk → Outcome A × Disk
found name a d = if has name d then (done a, d) else (failed enoent, d)

abbrev fresh {ℓ} : {A : Type ℓ} → Text → A → Disk → Outcome A × Disk
fresh name a d = if has name d then (failed eexist, d) else (done a, name ∷ d)

abbrev gone {ℓ} : {A : Type ℓ} → Text → A → Disk → Outcome A × Disk
gone name a d = if has name d then (done a, without name d) else (failed enoent, d)

abbrev entries : Disk → List Dirent
entries [] = []
entries (x ∷ d) = record { d_name = x; d_ino = length d + 1; d_type = 8 } ∷ entries d

-- `open` creates the file where the flags are those of `O_CREAT | O_EXCL | O_WRONLY`.
abbrev create_new : ℕ
create_new = 193

-- An instance in which each call does something, and each can fail where a path is missing.
abbrev pub disk : Posix
disk = record {
  World = Disk;
  Stat = ℕ;
  StatVfs = ℕ;
  Times = Unit {0};
  TimeBuf = Unit {0};
  lstat = λ p d. found p (length p) d;
  access = λ p mask d. found p tt d;
  readlink = λ p size d. found p p d;
  opendir = λ p d. (done (entries d), d);
  open_file = λ p flags mode d. if flags == create_new then fresh p 3 d else found p 3 d;
  umask = λ mask d. d;
  chdir = λ p d. (done tt, d);
  fchdir = λ fd d. (done tt, d);
  close = λ fd d. (done tt, d);
  mkfifo = λ p mode d. fresh p tt d;
  mknod = λ p mode rdev d. fresh p tt d;
  mkdir = λ p mode d. fresh p tt d;
  lchown = λ p uid gid d. found p tt d;
  unlink = λ p d. gone p tt d;
  rmdir = λ p d. gone p tt d;
  symlink = λ from to d. fresh to tt d;
  rename = λ from to d. if has from d then (done tt, to ∷ without from d) else (failed enoent, d);
  link = λ from to d. if has from d then (done tt, to ∷ d) else (failed enoent, d);
  chmod = λ p mode d. found p tt d;
  truncate = λ p size d. found p tt d;
  utime = λ p buf d. found p tt d;
  utimensat = λ p ts d. found p tt d;
  statvfs = λ p d. (done 4096, d);
  pread = λ fd size offset d. (done [], d);
  pwrite = λ fd buf offset d. (done (length buf), d);
  lsetxattr = λ p name value flags d. found p tt d;
  lgetxattr = λ p name size d. found p [] d;
  llistxattr = λ p size d. found p [] d;
  lremovexattr = λ p name d. found p tt d;
  uid = λ d. 1000;
  gid = λ d. 1000;
  s_isreg = λ mode. mode == 1;
  s_isfifo = λ mode. mode == 2;
  o_create_new = create_new;
  o_wronly = 1;
}
