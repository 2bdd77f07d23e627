-- ===== src/Handlers/Direct.antt =====
-- The handlers that borrow no string: `read` and the extended attributes report one call, and
-- `release` and `fsync` log whatever the filter on the operation says.
use distiller_fs.Prelude.{
  ap, ◌%◌, ◌^◌, List, ℕ, suc, Text, Option, some, refl, false, ℤ, pos, pure, gets, ◌>>=◌, ◌>>◌,
  length,
}
use distiller_fs.Ops.{FuseOp, flag, op_read, op_release, op_fsync}
use distiller_fs.Khash.{Khash, KhashLaws}
use distiller_fs.Posix.{Posix, Outcome}
use distiller_fs.Logger.{store_in_hash}
use distiller_fs.Logger.Invariant.{Entry, view}
use distiller_fs.Logger.Store.{chosen, note}
use distiller_fs.Logger.Ready.{Ready, Ready-Stored, Stored-Ready}
use distiller_fs.Handlers.{
  S, errno_after, int_of, narrowed, to_int, sys, report, read, release, fsync,
}
use distiller_fs.Handlers.Calls.{
  set, state_of, sized_state, sized_state_lem, errno_after-narrowed, answer, IsInt, int_of-IsInt,
  Ends, Ends-log, step, step_, sys-Ready, pure-Ends,
}
use distiller_fs.Handlers.Paths.{logged, report-Ends}

module _ (kh : Khash) (laws : KhashLaws kh) (px : Posix) where
  -- One call, its log and its value: the bodies of `setxattr` and `removexattr`.
  pub direct-Ends :
      {temps : List ℕ} {A : Type 0} (op : FuseOp) (path : Text) (value : A → ℤ)
      (call : px.World → Outcome A × px.World) (n : ℕ) (s : S kh px)
      → Ready kh temps (suc n) s
      → let o = call s.world in
        Ends kh
          (sys call >>= report kh px op path value)
          s
          temps
          n
          (answer value o.0)
          o.1
          (errno_after o.0 s.errno)
          (logged kh laws px s op (state_of o.0) path)
  direct-Ends {temps} op path value call n s r =
      let o = call s.world in
      step kh (sys call) (report kh px op path value) s _ _ _ _ _ refl (
        report-Ends kh laws px op path temps n value o.0 _ s.errno
          (sys-Ready kh temps (suc n) s o.1 (errno_after o.0 s.errno) r) refl)

  -- The same with a size that goes into an `int`: the bodies of `read`, `getxattr` and `listxattr`.
  pub sized-Ends :
      {temps : List ℕ} {A : Type 0} (op : FuseOp) (path : Text) (size : A → ℕ)
      (call : px.World → Outcome A × px.World) (n : ℕ) (s : S kh px)
      → Ready kh temps (suc n) s
      → let o = call s.world in
        let e = errno_after o.0 s.errno in
        Ends kh
          (sys call >>= λ got. to_int size got >>= report kh px op path (λ a. int_of (size a)))
          s
          temps
          n
          (answer (λ a. int_of (size a)) (narrowed size e o.0))
          o.1
          e
          (logged kh laws px s op (sized_state size o.0) path)
  sized-Ends {temps} {A} op path size call n s r =
      let o = call s.world in
      let e = errno_after o.0 s.errno in
      let value : A → ℤ = λ a. int_of (size a) in
      let t : S kh px = set s s.heap s.table s.locked o.1 e in
      Ends-log kh _ (ap (λ st. logged kh laws px s op st path) (sized_state_lem size e o.0)) (
        step kh (sys call) (λ got. to_int size got >>= report kh px op path value) s _ _ _ _ _ refl
          (step kh (to_int size o.0) (report kh px op path value) t _ _ _ _ _ refl (
            report-Ends kh laws px op path temps n value (narrowed size e o.0) _ e
              (sys-Ready kh temps (suc n) s o.1 e r)
              (errno_after-narrowed size e s.errno o.0 refl))))

  pub read-run :
      {temps : List ℕ} (path : Text) (fh size offset n : ℕ) (s : S kh px)
      → Ready kh temps (suc n) s
      → let o = px.pread (fh % 2 ^ 32) size offset s.world in
        let e = errno_after o.0 s.errno in
        Ends kh
          (read kh px path fh size offset)
          s
          temps
          n
          (answer (λ bytes. int_of (length bytes)) (narrowed length e o.0))
          o.1
          e
          (logged kh laws px s op_read (sized_state length o.0) path)
  unfolding read
  read-run path fh size offset n s r =
      sized-Ends op_read path length (px.pread (fh % 2 ^ 32) size offset) n s r

  -- On a ready state, `read` returns the number of bytes that `pread` gave, narrowed to an `int`, or the
  -- negated error number where `pread` failed or that `int` is -1, and logs one event on the path as it
  -- was given under the filter state of this outcome. An `int` differs from its size by a multiple of
  -- `2 ^ 32`, and not at all below `2 ^ 31`.
  pub read-Ends :
      {temps : List ℕ} (path : Text) (fh size offset n : ℕ) (s : S kh px)
      → Ready kh temps (suc n) s
      → let o = px.pread (fh % 2 ^ 32) size offset s.world in
        let e = errno_after o.0 s.errno in
        ((k : ℕ) → IsInt k (int_of k))
        × Ends kh
            (read kh px path fh size offset)
            s
            temps
            n
            (answer (λ bytes. int_of (length bytes)) (narrowed length e o.0))
            o.1
            e
            (logged kh laws px s op_read (sized_state length o.0) path)
  read-Ends path fh size offset n s r = (int_of-IsInt, read-run path fh size offset n s r)

  -- The log after an event that no filter on operations can hide.
  abbrev pub always_logged : S kh px → FuseOp → Text → Text → Option Entry
  always_logged s op path = note (chosen s.filter path) path (flag op) (view kh s.heap s.table)

  -- On a ready state, `release` closes the file and returns 0 whatever `close` answers, and logs one
  -- event whatever the filter on the operation selects, if the filter on paths chooses the path.
  pub release-Ends :
      {temps : List ℕ} (path : Text) (fh n : ℕ) (s : S kh px)
      → Ready kh temps (suc n) s
      → let o = px.close (fh % 2 ^ 32) s.world in
        Ends kh
          (release kh px path fh)
          s
          temps
          n
          (pos 0)
          o.1
          (errno_after o.0 s.errno)
          (always_logged s op_release path)
  unfolding release
  release-Ends {temps} path fh n s r =
      let o = px.close (fh % 2 ^ 32) s.world in
      let c = Ready-Stored kh laws temps n path (flag op_release) s r in
      let t : S kh px = set s c.heap c.table false s.world s.errno in
      let ready = Stored-Ready kh laws temps n path (flag op_release) s r c in
      step kh (gets (λ u. u.filter))
        (λ f.
          store_in_hash kh f (some path) (flag op_release)
          >> (sys (px.close (fh % 2 ^ 32)) >> pure (pos 0)))
        s _ _ _ _ _ refl
        (step_ kh (store_in_hash kh s.filter (some path) (flag op_release)) s c.run (
          step_ kh (sys (px.close (fh % 2 ^ 32))) t refl (
            pure-Ends kh s c.heap c.table o.1 (errno_after o.0 s.errno)
              (sys-Ready kh temps n t o.1 (errno_after o.0 s.errno) ready) c.shows (pos 0))))

  -- On a ready state, `fsync` makes no system call and returns 0, and logs one event whatever the
  -- filter on the operation selects, if the filter on paths chooses the path.
  pub fsync-Ends :
      {temps : List ℕ} (path : Text) (n : ℕ) (s : S kh px)
      → Ready kh temps (suc n) s
      → Ends kh (fsync kh px path) s temps n (pos 0) s.world s.errno (always_logged s op_fsync path)
  unfolding fsync
  fsync-Ends {temps} path n s r =
      let c = Ready-Stored kh laws temps n path (flag op_fsync) s r in
      step kh (gets (λ u. u.filter))
        (λ f. store_in_hash kh f (some path) (flag op_fsync) >> pure (pos 0)) s _ _ _ _ _ refl
        (step_ kh (store_in_hash kh s.filter (some path) (flag op_fsync)) s c.run (
          pure-Ends kh s c.heap c.table s.world s.errno
            (Stored-Ready kh laws temps n path (flag op_fsync) s r c) c.shows (pos 0)))
