-- ===== src/Handlers/Creation.antt =====
-- `loggedFS_mkdir` and `loggedFS_mknod`: on success the file goes to the caller's user and group
-- before the string is given back, and what that call returns is not looked at.
use distiller_fs.Prelude.{
  List, ℕ, suc, Text, some, ◌≡◌, refl, ap, ◌∙◌, [], ◌∷◌, ◌&&◌, pos, arith, gets, ◌>>=◌, ◌>>◌,
  bind_some, if◌then◌else◌, Bool-cases, inl, inr,
}
use distiller_fs.Ops.{FuseOp, flag, op_mkdir, op_mknod}
use distiller_fs.Khash.{Khash, KhashLaws}
use distiller_fs.Memory
use distiller_fs.Memory.{Heap, text}
use distiller_fs.Posix.{Posix, Outcome, done, failed}
use distiller_fs.Logger.{free, relative, should_log, get_relative_path}
use distiller_fs.Logger.Store.{chosen, note}
use distiller_fs.Logger.Invariant.{view}
use distiller_fs.Logger.Ready.{Ready}
use distiller_fs.Handlers.{
  S, errno_after, sys_at, report, finish_create, close_new, make_node, mkdir, mknod,
}
use distiller_fs.Handlers.Calls.{
  set, state_of, answer, Ends, Ends-log, step, step_, get_relative_path-borrowed, sys_at-done,
  sys-Ready, free-done, free-Ready,
}
use distiller_fs.Handlers.Paths.{
  logged, report-Ends, view-borrowed, view-released, outcome, called, called-Ready, borrow_call,
}

module _ (px : Posix) where
  -- `lchown` to the caller.
  abbrev pub own : Text → px.World → Outcome (Unit {0}) × px.World
  own name w = px.lchown name (px.uid w) (px.gid w) w

  -- The file system and the error number that a handler leaves behind.
  abbrev pub final_world : Text → Outcome (Unit {0}) → px.World → px.World
  final_world name (failed _) w = w
  final_world name (done _) w = (own name w).1

  abbrev pub final_errno : Text → Outcome (Unit {0}) → px.World → ℕ → ℕ
  final_errno name (failed _) w e = e
  final_errno name (done _) w e = errno_after (own name w).0 e

  -- The calls of `mknod` as one call: a regular file is opened and closed, a FIFO and any other
  -- node have calls of their own.
  close_after : Outcome ℕ × px.World → Outcome (Unit {0}) × px.World
  close_after (failed e, w) = (failed e, w)
  close_after (done fd, w) = px.close fd w

  unfoldable pub node_call : ℕ → ℕ → Text → px.World → Outcome (Unit {0}) × px.World
  unfolding close_after
  node_call mode rdev name w =
      if px.s_isreg mode
      then close_after (px.open_file name px.o_create_new mode w)
      else if px.s_isfifo mode
      then px.mkfifo name mode w
      else px.mknod name mode rdev w

module _ (kh : Khash) (laws : KhashLaws kh) (px : Posix) where
  module _ {temps : List ℕ} (op : FuseOp) (path name : Text) (p n : ℕ) (s : S kh px) where
    released-log :
        (st : ℕ)
        → Ready kh (p ∷ temps) (suc n) s
        → note
            (should_log s.op_flags op st && chosen s.filter path)
            path
            (flag op)
            (view kh (Memory.released p s.heap) s.table)
          ≡ logged kh laws px s op st path
    released-log st r =
        ap (note (should_log s.op_flags op st && chosen s.filter path) path (flag op))
          (view-released kh laws px s temps (suc n) p r)

    pub finish_create-Ends :
        (o : Outcome (Unit {0})) (e : ℕ)
        → Ready kh (p ∷ temps) (suc n) s
        → s.heap.block p ≡ some (text name)
        → s.errno ≡ errno_after o e
        → Ends kh
            (finish_create kh px op path p o)
            s
            temps
            n
            (answer (λ _. pos 0) o)
            (final_world px name o s.world)
            (final_errno px name o s.world s.errno)
            (logged kh laws px s op (state_of o) path)
    unfolding finish_create report
    finish_create-Ends (failed m) e r here known = Ends-log kh _ (released-log _ r) (
        step_ kh (free p) s (free-done kh temps (suc n) s p r) (
          report-Ends kh laws px op path temps n (λ _. pos 0) (failed m) _ e
            (free-Ready kh temps (suc n) s p r) known))
    finish_create-Ends (done a) e r here known =
        let give = λ (w : px.World). λ (q : Text). px.lchown q (px.uid w) (px.gid w) in
        let t : S kh px =
          set s s.heap s.table s.locked (own px name s.world).1
            (errno_after (own px name s.world).0 s.errno) in
        let ready = sys-Ready kh (p ∷ temps) (suc n) s t.world t.errno r in
        Ends-log kh _ (released-log _ r) (
          step kh (gets (λ u. u.world))
            (λ w. sys_at p (give w) >> (free p >> report kh px op path (λ _. pos 0) (done tt))) s _
            _ _ _ _ refl
            (step_ kh (sys_at p (give s.world)) s (sys_at-done kh [] 0 s p name (give s.world) here)
              (step_ kh (free p) t (free-done kh temps (suc n) t p ready) (
                report-Ends kh laws px op path temps n (λ _. pos 0) (done tt) _ t.errno
                  (free-Ready kh temps (suc n) t p ready) refl))))

  module _ {temps : List ℕ} (op : FuseOp) (call : Text → px.World → Outcome (Unit {0}) × px.World)
      (path : Text) (n : ℕ) (s : S kh px) where
    -- The string, the call, and what `mkdir` and `mknod` do then.
    created :
        Ready kh temps (suc n) s
        → let name = relative path in
          let o = outcome kh laws px call path s in
          let t = called kh laws px call path s in
          Ends kh
            (get_relative_path path >>= λ p. sys_at p call >>= finish_create kh px op path p)
            s
            temps
            n
            (answer (λ _. pos 0) o)
            (final_world px name o t.world)
            (final_errno px name o t.world t.errno)
            (logged kh laws px s op (state_of o) path)
    created r =
        let o = outcome kh laws px call path s in
        let t = called kh laws px call path s in
        Ends-log kh _
          (ap (note (should_log s.op_flags op (state_of o) && chosen s.filter path) path (flag op))
            (view-borrowed kh laws px s temps (suc n) path r))
          (borrow_call kh laws px call path s (finish_create kh px op path) (
            finish_create-Ends op path (relative path) s.heap.next n t o s.errno
              (called-Ready kh laws px call path s (suc n) r) (ground arith) refl))

  -- On a ready state, `mkdir` returns 0 or the negated error number of the `mkdir` call on the
  -- relative path, gives a new directory to the caller whatever `lchown` answers, logs one event
  -- under the filter state of the outcome, and gives back the string that it borrowed.
  pub mkdir-Ends :
      {temps : List ℕ} (path : Text) (mode n : ℕ) (s : S kh px)
      → Ready kh temps (suc n) s
      → let call = λ (q : Text). px.mkdir q mode in
        let name = relative path in
        let o = outcome kh laws px call path s in
        let t = called kh laws px call path s in
        Ends kh
          (mkdir kh px path mode)
          s
          temps
          n
          (answer (λ _. pos 0) o)
          (final_world px name o t.world)
          (final_errno px name o t.world t.errno)
          (logged kh laws px s op_mkdir (state_of o) path)
  unfolding mkdir
  mkdir-Ends path mode n s r = created op_mkdir (λ q. px.mkdir q mode) path n s r

  close_new-run :
      (r : Outcome ℕ × px.World) (s : S kh px)
      → close_new kh px r.0 (record s { world = r.1; errno = errno_after r.0 s.errno })
        ≡ some (
          (close_after px r).0,
          record s {
            world = (close_after px r).1;
            errno = errno_after (close_after px r).0 s.errno;
          },
        )
  unfolding close_new close_after
  close_new-run (failed e, w) s = refl
  close_new-run (done fd, w) s = refl

  make_node-run :
      (p mode rdev : ℕ) (name : Text) (s : S kh px)
      → s.heap.block p ≡ some (text name)
      → let r = node_call px mode rdev name s.world in
        make_node kh px p mode rdev s
        ≡ some (r.0, set s s.heap s.table s.locked r.1 (errno_after r.0 s.errno))
  unfolding make_node node_call
  make_node-run p mode rdev name s here = elim (Bool-cases (px.s_isreg mode)) [
    | inl regular ↦
        let open_new = λ (q : Text). px.open_file q px.o_create_new mode in
        rw regular (
          bind_some (sys_at p open_new) (close_new kh px) s
            (sys_at-done kh [] 0 s p name open_new here)
          ∙ close_new-run (open_new name s.world) s)
    | inr other ↦ rw other (elim (Bool-cases (px.s_isfifo mode)) [
      | inl fifo ↦ rw fifo (sys_at-done kh [] 0 s p name (λ q. px.mkfifo q mode) here)
      | inr node ↦ rw node (sys_at-done kh [] 0 s p name (λ q. px.mknod q mode rdev) here)
    ])
  ]

  -- On a ready state, `mknod` returns 0 or the negated error number of the calls that the kind of
  -- node takes, gives a new node to the caller whatever `lchown` answers, logs one event under the
  -- filter state of the outcome, and gives back the string that it borrowed.
  pub mknod-Ends :
      {temps : List ℕ} (path : Text) (mode rdev n : ℕ) (s : S kh px)
      → Ready kh temps (suc n) s
      → let call = node_call px mode rdev in
        let name = relative path in
        let o = outcome kh laws px call path s in
        let t = called kh laws px call path s in
        Ends kh
          (mknod kh px path mode rdev)
          s
          temps
          n
          (answer (λ _. pos 0) o)
          (final_world px name o t.world)
          (final_errno px name o t.world t.errno)
          (logged kh laws px s op_mknod (state_of o) path)
  unfolding mknod
  mknod-Ends {temps} path mode rdev n s r =
      let call = node_call px mode rdev in
      let p = s.heap.next in
      let o = outcome kh laws px call path s in
      let t = called kh laws px call path s in
      let s1 : S kh px = set s t.heap s.table s.locked s.world s.errno in
      Ends-log kh _
        (ap
          (note (should_log s.op_flags op_mknod (state_of o) && chosen s.filter path) path
            (flag op_mknod))
          (view-borrowed kh laws px s temps (suc n) path r))
        (step kh (get_relative_path path)
          (λ q. make_node kh px q mode rdev >>= finish_create kh px op_mknod path q) s _ _ _ _ _
          (get_relative_path-borrowed kh [] 0 s path)
          (step kh (make_node kh px p mode rdev) (finish_create kh px op_mknod path p) s1 _ _ _ _ _
            (make_node-run p mode rdev (relative path) s1 (ground arith))
            (finish_create-Ends op_mknod path (relative path) p n t o s.errno
              (called-Ready kh laws px call path s (suc n) r) (ground arith) refl)))
