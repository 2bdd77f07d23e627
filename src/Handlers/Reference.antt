-- ===== src/Handlers/Reference.antt =====
-- A reference for the calls that FUSE makes through the table of src/distillerfs.c: the file system
-- that a call leaves, the events that it offers to the log, and the strings that it loses, without
-- memory, hash or mutex.
use distiller_fs.Prelude.{
  length, ℕ, ◌+◌, ◌-◌, ◌%◌, ◌^◌, ◌≡◌, refl, Text, List, [], ◌∷◌, ◌++◌, Bool, not, ◌&&◌, Option,
  if◌then◌else◌,
}
use distiller_fs.Ops.{
  FuseOp, flag, log_unsuccess, op_getattr, op_access, op_readlink, op_readdir, op_mknod, op_mkdir,
  op_symlink, op_unlink, op_rmdir, op_rename, op_link, op_chmod, op_chown, op_truncate, op_utime,
  op_utimens, op_open, op_read, op_write, op_statfs, op_release, op_fsync, op_setxattr, op_getxattr,
  op_listxattr, op_removexattr,
}
use distiller_fs.Khash.{Khash}
use distiller_fs.Posix.{Posix, Outcome, done, failed}
use distiller_fs.Filter.{FilterDesc}
use distiller_fs.Logger.{relative, should_log}
use distiller_fs.Logger.Invariant.{Entry}
use distiller_fs.Logger.Store.{chosen, note}
use distiller_fs.Handlers.Calls.{state_of, sized_state}
use distiller_fs.Handlers.Creation.{final_world, node_call}
use distiller_fs.Handlers.Operations.{
  Build, Request, call_init, call_getattr, call_access, call_readlink, call_readdir, call_mknod,
  call_mkdir, call_symlink, call_unlink, call_rmdir, call_rename, call_link, call_chmod, call_chown,
  call_truncate, call_utime, call_utimens, call_open, call_read, call_write, call_statfs,
  call_release, call_fsync, call_setxattr, call_getxattr, call_listxattr, call_removexattr,
}

-- An event on a path: one that the filter on the operation is asked about, with its state, or one
-- that is logged whatever that filter says.
pub data Event : Type 0 where
  asked : FuseOp → ℕ → Text → Event
  always : FuseOp → Text → Event

-- The filters of a run.
pub record Filters : Type 0 where
  pub paths : FilterDesc
  pub ops : FuseOp → ℕ

-- The log after one event, and after a list of them in their order.
abbrev pub add_event : Filters → Event → (Text → Option Entry) → Text → Option Entry
add_event f (asked op st path) = note (should_log f.ops op st && chosen f.paths path) path (flag op)
add_event f (always op path) = note (chosen f.paths path) path (flag op)

abbrev pub replay : Filters → List Event → (Text → Option Entry) → Text → Option Entry
replay f [] log = log
replay f (e ∷ es) log = replay f es (add_event f e log)

pub replay-append :
    (f : Filters) (es fs : List Event) (log : Text → Option Entry)
    → replay f (es ++ fs) log ≡ replay f fs (replay f es log)
replay-append f [] fs log = refl
replay-append f (e ∷ es) fs log = replay-append f es fs (add_event f e log)

module _ (px : Posix) where
  -- One event on a path, under the filter state of an outcome.
  abbrev single_event : {A : Type 0} → FuseOp → Text → Outcome A × px.World → px.World × List Event
  single_event op path r = (r.1, asked op (state_of r.0) path ∷ [])

  -- The same, with a length that goes into an `int`.
  abbrev sized_event : FuseOp → Text → Outcome Text × px.World → px.World × List Event
  sized_event op path r = (r.1, asked op (sized_state length r.0) path ∷ [])

  -- The same, with a new file that goes to the caller where the call succeeded.
  abbrev new_file : FuseOp → Text → Outcome (Unit {0}) × px.World → px.World × List Event
  new_file op path r = (final_world px (relative path) r.0 r.1, asked op (state_of r.0) path ∷ [])

  abbrev two_events : {A : Type 0} → FuseOp → Outcome A → Text → Text → List Event
  two_events op o first second = asked op (state_of o) first ∷ asked op (state_of o) second ∷ []

  -- A `write`, from the outcome of its `open` on.
  abbrev pub written : Text → Text → ℕ → Outcome ℕ → px.World → px.World × List Event
  written path buf offset (failed m) w = (w, asked op_write log_unsuccess path ∷ [])
  written path buf offset (done fd) w =
      let r = px.pwrite fd buf offset w in
      ((px.close fd r.1).1, asked op_write (sized_state (λ n. n) r.0) path ∷ [])

  -- The strings that it loses: where `open` is refused, that of the path.
  abbrev pub strings_lost : Outcome ℕ → ℕ
  strings_lost (failed m) = 1
  strings_lost (done fd) = 0

  -- A call that the build leaves out does nothing.
  abbrev built : Bool → px.World → px.World × List Event → px.World × List Event
  built b w r = if b then r else (w, [])

module _ (kh : Khash) (px : Posix) (B : Type 0) (build : Build) (savefd : ℕ) where
  abbrev pub reference : Request kh px B → px.World → px.World × List Event
  reference call_init w = ((px.close savefd (px.fchdir savefd w).1).1, [])
  reference (call_getattr path) w = single_event px op_getattr path (px.lstat (relative path) w)
  reference (call_access path mask) w =
      single_event px op_access path (px.access (relative path) mask w)
  reference (call_readlink path size) w =
      single_event px op_readlink path
        (px.readlink (relative path) ((size + 2 ^ 64 - 1) % 2 ^ 64) w)
  reference (call_readdir filler buf path) w =
      single_event px op_readdir path (px.opendir (relative path) w)
  reference (call_mknod path mode rdev) w =
      new_file px op_mknod path (node_call px mode rdev (relative path) w)
  reference (call_mkdir path mode) w = new_file px op_mkdir path (px.mkdir (relative path) mode w)
  reference (call_symlink from to) w =
      let r = px.symlink from (relative to) w in
      (final_world px (relative to) r.0 r.1, two_events px op_symlink r.0 to from)
  reference (call_unlink path) w = single_event px op_unlink path (px.unlink (relative path) w)
  reference (call_rmdir path) w = single_event px op_rmdir path (px.rmdir (relative path) w)
  reference (call_rename from to) w =
      let r = px.rename (relative from) (relative to) w in
      (r.1, two_events px op_rename r.0 from to)
  reference (call_link from to) w =
      let r = px.link (relative from) (relative to) w in
      (final_world px (relative to) r.0 r.1, two_events px op_link r.0 from to)
  reference (call_chmod path mode) w =
      single_event px op_chmod path (px.chmod (relative path) mode w)
  reference (call_chown path uid gid) w =
      single_event px op_chown path (px.lchown (relative path) uid gid w)
  reference (call_truncate path size) w =
      single_event px op_truncate path (px.truncate (relative path) size w)
  reference (call_utime path buf) w =
      built px build.version_25 w (single_event px op_utime path (px.utime (relative path) buf w))
  reference (call_utimens path ts) w =
      built px (not build.version_25) w
        (single_event px op_utimens path (px.utimensat (relative path) ts w))
  reference (call_open path flags) w =
      single_event px op_open path (px.open_file (relative path) flags 0 w)
  reference (call_read path fh size offset) w =
      sized_event px op_read path (px.pread (fh % 2 ^ 32) size offset w)
  reference (call_write path buf offset) w =
      let o = px.open_file (relative path) px.o_wronly 0 w in written px path buf offset o.0 o.1
  reference (call_statfs path) w = single_event px op_statfs path (px.statvfs (relative path) w)
  reference (call_release path fh) w = ((px.close (fh % 2 ^ 32) w).1, always op_release path ∷ [])
  reference (call_fsync path) w = (w, always op_fsync path ∷ [])
  reference (call_setxattr path name value flags) w =
      built px build.have_setxattr w
        (single_event px op_setxattr path (px.lsetxattr path name value flags w))
  reference (call_getxattr path name size) w =
      built px build.have_setxattr w
        (sized_event px op_getxattr path (px.lgetxattr path name size w))
  reference (call_listxattr path size) w =
      built px build.have_setxattr w (sized_event px op_listxattr path (px.llistxattr path size w))
  reference (call_removexattr path name) w =
      built px build.have_setxattr w
        (single_event px op_removexattr path (px.lremovexattr path name w))

  -- The calls of a list, one after another.
  abbrev pub trace : List (Request kh px B) → px.World → px.World × List Event
  trace [] w = (w, [])
  trace (req ∷ reqs) w =
      let r = reference req w in let rest = trace reqs r.0 in (rest.0, r.1 ++ rest.1)

  -- The strings that a call loses, and those that the calls of a list lose.
  abbrev pub lost_by : Request kh px B → px.World → ℕ
  lost_by (call_write path buf offset) w =
      strings_lost px (px.open_file (relative path) px.o_wronly 0 w).0
  lost_by req w = 0

  abbrev pub lost_by_all : List (Request kh px B) → px.World → ℕ
  lost_by_all [] w = 0
  lost_by_all (req ∷ reqs) w = lost_by req w + lost_by_all reqs (reference req w).0
