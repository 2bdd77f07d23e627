-- ===== src/Handlers/Sequences.antt =====
-- Sequences of the calls that FUSE makes through the table of src/distillerfs.c.
use distiller_fs.Prelude.{
  ℕ, suc, ◌+◌, ◌-◌, ◌%◌, ◌^◌, ◌≡◌, refl, sym, subst, arith, Text, List, [], ◌∷◌, length, not, pos,
  Run, pure, ◌>>◌, ◌⊎◌, inl, inr,
}
use distiller_fs.Ops.{
  FuseOp, op_getattr, op_access, op_readlink, op_unlink, op_rmdir, op_chmod, op_chown, op_truncate,
  op_utime, op_utimens, op_open, op_statfs, op_setxattr, op_getxattr, op_listxattr, op_removexattr,
}
use distiller_fs.Khash.{Khash, KhashLaws}
use distiller_fs.Posix.{Posix, Outcome, done, failed}
use distiller_fs.Logger.{relative}
use distiller_fs.Logger.Ready.{Ready}
use distiller_fs.Handlers.{
  S, Reply, mknod, mkdir, read, release, fsync, path_handler, getattr, access, readlink, unlink,
  rmdir, chmod, chown, truncate, utime, utimens, open_handler, statfs, setxattr, getxattr,
  listxattr, removexattr,
}
use distiller_fs.Handlers.Calls.{set, state_of, sys-Ready}
use distiller_fs.Handlers.Reference.{asked, reference, written, strings_lost, lost_by}
use distiller_fs.Handlers.Kept.{Kept, roomier, one, single, single_losing, when}
use distiller_fs.Handlers.Paths.{path_handler-Ends}
use distiller_fs.Handlers.Creation.{mkdir-Ends, mknod-Ends}
use distiller_fs.Handlers.Direct.{direct-Ends, sized-Ends, read-run, release-Ends, fsync-Ends}
use distiller_fs.Handlers.Pairs.Rename.{rename-Ends}
use distiller_fs.Handlers.Pairs.Links.{link-Ends, symlink-Ends}
use distiller_fs.Handlers.Pairs.Files.{readdir-run}
use distiller_fs.Handlers.Pairs.Write.{write-run, write-failed}
use distiller_fs.Handlers.Pairs.{readdir, symlink, rename, link, write}
use distiller_fs.Handlers.Operations.{
  Build, FuseOperations, logged_fs_init, init_fuse_oper, through, perform, Request, call_init,
  call_getattr, call_access, call_readlink, call_readdir, call_mknod, call_mkdir, call_symlink,
  call_unlink, call_rmdir, call_rename, call_link, call_chmod, call_chown, call_truncate,
  call_utime, call_utimens, call_open, call_read, call_write, call_statfs, call_release, call_fsync,
  call_setxattr, call_getxattr, call_listxattr, call_removexattr,
}

open_cases : (o : Outcome ℕ) → ((fd : ℕ) × (o ≡ done fd)) ⊎ ((e : ℕ) × (o ≡ failed e))
open_cases (done fd) = inl (fd, refl)
open_cases (failed e) = inr (e, refl)

module _ (kh : Khash) (laws : KhashLaws kh) (px : Posix) (B : Type 0) where
  module _ (build : Build) (savefd : ℕ) where
    abbrev ops : FuseOperations kh px B
    ops = init_fuse_oper kh px B build savefd

    after_init :
        {temps : List ℕ} (n : ℕ) (s : S kh px)
        → Ready kh temps (suc (suc n)) s
        → (w : px.World) (e : ℕ) → Ready kh temps n (set s s.heap s.table s.locked w e)
    after_init {temps} n s r w e = sys-Ready kh temps n s w e (roomier kh laws (roomier kh laws r))

    on_path :
        {temps : List ℕ} {A : Type 0} (m : Run (S kh px) (Reply A)) (op : FuseOp)
        (sys_call : Text → px.World → Outcome A × px.World) (path : Text) (n : ℕ) (s : S kh px)
        → Ready kh temps (suc (suc n)) s
        → m ≡ path_handler kh px op sys_call path
        → let r = sys_call (relative path) s.world in
          Kept kh laws px B (m >> pure tt) temps n s 0 (r.1, asked op (state_of r.0) path ∷ [])
    on_path {temps} m op sys_call path n s r is =
        let r' = sys_call (relative path) s.world in
        let es = asked op (state_of r'.0) path ∷ [] in
        subst (λ k. Kept kh laws px B (k >> pure tt) temps n s 0 (r'.1, es)) (sym is)
          (single kh laws px B (path_handler kh px op sys_call path) n s es
            (path_handler-Ends kh laws px op sys_call path (suc n) s r))

    -- A `write`, from the outcome of its `open` on.
    write-Kept :
        {temps : List ℕ} (path buf : Text) (offset n : ℕ) (s : S kh px)
        → Ready kh temps (suc (suc n)) s
        → let o = px.open_file (relative path) px.o_wronly 0 s.world in
          Kept kh laws px B
            (write kh px path buf offset >> pure tt)
            temps
            n
            s
            (strings_lost px o.0)
            (written px path buf offset o.0 o.1)
    write-Kept {temps} path buf offset n s r =
        let o = px.open_file (relative path) px.o_wronly 0 s.world in
        let m = write kh px path buf offset in
        let goal = λ (x : Outcome ℕ).
          Kept kh laws px B (m >> pure tt) temps n s (strings_lost px x)
            (written px path buf offset x o.1) in
        elim (open_cases o.0) [
          | inl (fd, there) ↦ subst goal (sym there) (
              single kh laws px B m n s _
                (write-run kh laws px path buf offset (suc n) s r fd there))
          | inr (e, refused) ↦ subst goal (sym refused) (
              single_losing kh laws px B m n s _ 1 (omega arith)
                (write-failed kh laws px path buf offset (suc n) s r e refused).0)
        ]

    -- On a state that is ready for two events and `n` more, each call runs without a fault. It leaves the
    -- file system of the reference, the log with the events of the reference added, and a state that is
    -- ready for `n` events; the strings that are borrowed then are as many as before and those that the
    -- reference counts as lost.
    pub perform-Kept :
        {temps : List ℕ} (req : Request kh px B) (n : ℕ) (s : S kh px)
        → Ready kh temps (suc (suc n)) s
        → Kept kh laws px B
            (perform kh px B ops req)
            temps
            n
            s
            (lost_by kh px B build savefd req s.world)
            (reference kh px B build savefd req s.world)
    unfolding perform init_fuse_oper getattr access readlink unlink rmdir chmod chown truncate utime
        utimens open_handler statfs setxattr getxattr listxattr removexattr logged_fs_init through
    perform-Kept {temps} call_init n s r = record {
      to = _;
      run = refl;
      left = temps;
      number = omega arith;
      ready = after_init n s r _ _;
      world_is = refl;
      shows = λ q. refl;
      same_filters = refl;
    }
    perform-Kept (call_getattr path) n s r =
        on_path (getattr kh px path) op_getattr px.lstat path n s r refl
    perform-Kept (call_access path mask) n s r =
        on_path (access kh px path mask) op_access (λ q. px.access q mask) path n s r refl
    perform-Kept (call_readlink path size) n s r =
        on_path (readlink kh px path size) op_readlink
          (λ q. px.readlink q ((size + 2 ^ 64 - 1) % 2 ^ 64)) path n s r refl
    perform-Kept (call_unlink path) n s r =
        on_path (unlink kh px path) op_unlink px.unlink path n s r refl
    perform-Kept (call_rmdir path) n s r =
        on_path (rmdir kh px path) op_rmdir px.rmdir path n s r refl
    perform-Kept (call_chmod path mode) n s r =
        on_path (chmod kh px path mode) op_chmod (λ q. px.chmod q mode) path n s r refl
    perform-Kept (call_chown path uid gid) n s r =
        on_path (chown kh px path uid gid) op_chown (λ q. px.lchown q uid gid) path n s r refl
    perform-Kept (call_truncate path size) n s r =
        on_path (truncate kh px path size) op_truncate (λ q. px.truncate q size) path n s r refl
    perform-Kept (call_open path flags) n s r =
        on_path (open_handler kh px path flags) op_open (λ q. px.open_file q flags 0) path n s r
          refl
    perform-Kept (call_statfs path) n s r =
        on_path (statfs kh px path) op_statfs px.statvfs path n s r refl
    perform-Kept (call_readdir filler buf path) n s r =
        single kh laws px B (readdir kh px filler buf path) n s _
          ((readdir-run kh laws px filler buf path (suc n) s r))
    perform-Kept (call_mknod path mode rdev) n s r =
        single kh laws px B (mknod kh px path mode rdev) n s _
          ((mknod-Ends kh laws px path mode rdev (suc n) s r))
    perform-Kept (call_mkdir path mode) n s r =
        single kh laws px B (mkdir kh px path mode) n s _
          ((mkdir-Ends kh laws px path mode (suc n) s r))
    perform-Kept (call_read path fh size offset) n s r =
        single kh laws px B (read kh px path fh size offset) n s _
          ((read-run kh laws px path fh size offset (suc n) s r))
    perform-Kept (call_write path buf offset) n s r = write-Kept path buf offset n s r
    perform-Kept (call_release path fh) n s r =
        single kh laws px B (release kh px path fh) n s _
          ((release-Ends kh laws px path fh (suc n) s r))
    perform-Kept (call_fsync path) n s r =
        single kh laws px B (fsync kh px path) n s _ ((fsync-Ends kh laws px path (suc n) s r))
    perform-Kept (call_symlink from to) n s r =
        one kh laws px B (symlink kh px from to) n s _ (symlink-Ends kh laws px from to n s r)
    perform-Kept (call_rename from to) n s r =
        one kh laws px B (rename kh px from to) n s _ (rename-Ends kh laws px from to n s r)
    perform-Kept (call_link from to) n s r =
        one kh laws px B (link kh px from to) n s _ (link-Ends kh laws px from to n s r)
    perform-Kept (call_utime path buf) n s r =
        when kh laws px B build.version_25 (utime kh px) (λ f. f path buf) n s
          (roomier kh laws (roomier kh laws r))
          (on_path (utime kh px path buf) op_utime (λ q. px.utime q buf) path n s r refl)
    perform-Kept (call_utimens path ts) n s r =
        when kh laws px B (not build.version_25) (utimens kh px) (λ f. f path ts) n s
          (roomier kh laws (roomier kh laws r))
          (on_path (utimens kh px path ts) op_utimens (λ q. px.utimensat q ts) path n s r refl)
    perform-Kept (call_setxattr path name value flags) n s r =
        when kh laws px B build.have_setxattr (setxattr kh px) (λ f. f path name value flags) n s
          (roomier kh laws (roomier kh laws r))
          (single kh laws px B (setxattr kh px path name value flags) n s _ (
            (direct-Ends kh laws px op_setxattr path (λ _. pos 0)
              (px.lsetxattr path name value flags) (suc n) s r)))
    perform-Kept (call_getxattr path name size) n s r =
        when kh laws px B build.have_setxattr (getxattr kh px) (λ f. f path name size) n s
          (roomier kh laws (roomier kh laws r))
          (single kh laws px B (getxattr kh px path name size) n s _ (
            (sized-Ends kh laws px op_getxattr path length (px.lgetxattr path name size) (suc n) s
              r)))
    perform-Kept (call_listxattr path size) n s r =
        when kh laws px B build.have_setxattr (listxattr kh px) (λ f. f path size) n s
          (roomier kh laws (roomier kh laws r))
          (single kh laws px B (listxattr kh px path size) n s _ (
            (sized-Ends kh laws px op_listxattr path length (px.llistxattr path size) (suc n) s r)))
    perform-Kept (call_removexattr path name) n s r =
        when kh laws px B build.have_setxattr (removexattr kh px) (λ f. f path name) n s
          (roomier kh laws (roomier kh laws r))
          (single kh laws px B (removexattr kh px path name) n s _ (
            (direct-Ends kh laws px op_removexattr path (λ _. pos 0) (px.lremovexattr path name)
              (suc n) s r)))
