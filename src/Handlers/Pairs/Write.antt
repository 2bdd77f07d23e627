-- ===== src/Handlers/Pairs/Write.antt =====
-- `loggedFS_write`, which opens the file anew: what it does when that succeeds, and the string that
-- it loses when it fails.
use distiller_fs.Prelude.{
  List, ℕ, suc, Text, some, none, ◌≡◌, refl, ap, ◌∙◌, ◌∷◌, false, negate, pure, gets, ◌>>=◌, ◌>>◌,
}
use distiller_fs.Ops.{op_write, log_success, log_unsuccess}
use distiller_fs.Khash.{Khash, KhashLaws}
use distiller_fs.Memory
use distiller_fs.Memory.{text}
use distiller_fs.Posix.{Posix, Outcome, done, failed}
use distiller_fs.Logger.{free, log_op}
use distiller_fs.Logger.Accounts.{Sound, borrowed-apart}
use distiller_fs.Logger.Frames.{view-free}
use distiller_fs.Logger.Ready.{log_op-Noted, Ready}
use distiller_fs.Handlers.{S, int_of, narrowed, to_int, errno_after, sys}
use distiller_fs.Handlers.Calls.{
  IsInt, int_of-IsInt, set, state_of, sized_state, sized_state_lem, errno_after-narrowed, answer,
  Ends, Ends-at, Ends-log, step, step_, pure-Ends, fail-Ends, sys-Ready, free-done, free-Ready,
}
use distiller_fs.Handlers.Paths.{logged, view-borrowed, outcome, called, called-Ready, borrow_call}
use distiller_fs.Handlers.Pairs.{write, write_outcome, pwrite_outcome}
use distiller_fs.Handlers.Pairs.Files.{relog_one, refused}

module _ (kh : Khash) (laws : KhashLaws kh) (px : Posix) where
  module _ {temps : List ℕ} (path : Text) (fd p n : ℕ) (s : S kh px)
      (r : Ready kh (p ∷ temps) (suc n) s) where
    -- The log, `close`, and the string given back.
    closing :
        {A : Type 0} (st : ℕ) (a : A)
        → let c = px.close fd s.world in
          Ends kh
            (log_op kh op_write st path >> (sys (px.close fd) >> (free p >> pure a)))
            s
            temps
            n
            a
            c.1
            (errno_after c.0 s.errno)
            (logged kh laws px s op_write st path)
    closing st a =
        let c = log_op-Noted kh laws (p ∷ temps) n op_write st path s r in
        let w = px.close fd s.world in
        let e = errno_after w.0 s.errno in
        let s1 : S kh px = set s c.heap c.table false s.world s.errno in
        let s2 : S kh px = set s c.heap c.table false w.1 e in
        let r2 = sys-Ready kh (p ∷ temps) n s1 w.1 e c.ready in
        step_ kh (log_op kh op_write st path) s c.run (
          step_ kh (sys (px.close fd)) s1 refl (
            step_ kh (free p) s2 (free-done kh temps n s2 p r2) (
              pure-Ends kh s2 (Memory.released p c.heap) c.table w.1 e
                (free-Ready kh temps n s2 p r2)
                (λ q. view-free kh temps c.heap c.table p q c.ready.sound ∙ c.shows q) a)))

    pwrite_outcome-Ends :
        (o : Outcome ℕ) (e : ℕ)
        → s.errno ≡ errno_after o e
        → let c = px.close fd s.world in
          Ends kh
            (pwrite_outcome kh px path p fd o)
            s
            temps
            n
            (answer int_of o)
            c.1
            (errno_after c.0 s.errno)
            (logged kh laws px s op_write (state_of o) path)
    unfolding pwrite_outcome
    pwrite_outcome-Ends (done res) e known = closing log_success (int_of res, some res)
    pwrite_outcome-Ends (failed m) e known =
        step kh (gets (λ u. u.errno))
          (λ errno.
            log_op kh op_write log_unsuccess path
            >> (sys (px.close fd) >> (free p >> pure (refused ℕ errno))))
          s _ _ _ _ _ (ap (λ (x : ℕ). some (x, s)) known) (closing log_unsuccess (negate m, none))

  module _ {temps : List ℕ} (path buf : Text) (offset n : ℕ) (s : S kh px)
      (r : Ready kh temps (suc n) s) where
    abbrev opening : Text → px.World → Outcome ℕ × px.World
    opening name = px.open_file name px.o_wronly 0

    -- The state after the file is opened, and what `pwrite` gives on the file.
    abbrev pub opened : S kh px
    opened = called kh laws px opening path s

    abbrev pub written : ℕ → Outcome ℕ × px.World
    written fd = px.pwrite fd buf offset opened.world

    pub write-run :
        (fd : ℕ)
        → outcome kh laws px opening path s ≡ done fd
        → let o = written fd in
          let e = errno_after o.0 opened.errno in
          let c = px.close fd o.1 in
          Ends kh
            (write kh px path buf offset)
            s
            temps
            n
            (answer int_of (narrowed (λ k. k) e o.0))
            c.1
            (errno_after c.0 e)
            (logged kh laws px s op_write (sized_state (λ k. k) o.0) path)
    unfolding write write_outcome
    write-run fd here =
        let o = written fd in
        let e = errno_after o.0 opened.errno in
        let p = s.heap.next in
        let t : S kh px = set opened opened.heap opened.table opened.locked o.1 e in
        let t_ready =
          sys-Ready kh (p ∷ temps) (suc n) opened o.1 e
            (called-Ready kh laws px opening path s (suc n) r) in
        let res = narrowed (λ k. k) e o.0 in
        Ends-log kh _
          (ap (relog_one kh laws px s op_write (state_of res) path)
              (view-borrowed kh laws px s temps (suc n) path r)
            ∙ ap (λ st. logged kh laws px s op_write st path) (sized_state_lem (λ k. k) e o.0))
          (borrow_call kh laws px opening path s (write_outcome kh px path buf offset) (
            Ends-at kh _ (write_outcome kh px path buf offset p (done fd)) _ _
              (ap (write_outcome kh px path buf offset p) here) refl
              (step kh (sys (px.pwrite fd buf offset))
                (λ k. to_int (λ m. m) k >>= pwrite_outcome kh px path p fd) opened _ _ _ _ _ refl
                (step kh (to_int (λ m. m) o.0) (pwrite_outcome kh px path p fd) t _ _ _ _ _ refl (
                  pwrite_outcome-Ends path fd p n t t_ready res e
                    (errno_after-narrowed (λ k. k) e opened.errno o.0 refl))))))

    -- On a ready state, where `open` gives a descriptor for the relative path, `write` returns what
    -- `pwrite` on it wrote, narrowed to an `int`, or the negated error number where `pwrite` failed or that
    -- `int` is -1. It closes the descriptor, logs one event under the filter state of this outcome, and
    -- gives back the string that it borrowed. An `int` differs from its size by a multiple of `2 ^ 32`,
    -- and not at all below `2 ^ 31`.
    pub write-done :
        (fd : ℕ)
        → outcome kh laws px opening path s ≡ done fd
        → let o = written fd in
          let e = errno_after o.0 opened.errno in
          let c = px.close fd o.1 in
          ((k : ℕ) → IsInt k (int_of k))
          × Ends kh
              (write kh px path buf offset)
              s
              temps
              n
              (answer int_of (narrowed (λ k. k) e o.0))
              c.1
              (errno_after c.0 e)
              (logged kh laws px s op_write (sized_state (λ k. k) o.0) path)
    write-done fd here = (int_of-IsInt, write-run fd here)

    failed_end :
        (m : ℕ)
        → outcome kh laws px opening path s ≡ failed m
        → Ends kh
            (write kh px path buf offset)
            s
            (s.heap.next ∷ temps)
            n
            (negate m, none)
            opened.world
            m
            (logged kh laws px s op_write log_unsuccess path)
    unfolding write write_outcome
    failed_end m here =
        let c =
          log_op-Noted kh laws (s.heap.next ∷ temps) n op_write log_unsuccess path opened
            (called-Ready kh laws px opening path s (suc n) r) in
        Ends-log kh _
          (ap (relog_one kh laws px s op_write log_unsuccess path)
            (view-borrowed kh laws px s temps (suc n) path r))
          (borrow_call kh laws px opening path s (write_outcome kh px path buf offset) (
            Ends-at kh _ (write_outcome kh px path buf offset s.heap.next (failed m)) m opened.errno
              (ap (write_outcome kh px path buf offset s.heap.next) here)
              (ap (λ x. errno_after x s.errno) here)
              (step_ kh (log_op kh op_write log_unsuccess path) opened c.run (
                fail-Ends kh opened c.heap c.table opened.world opened.errno c.ready c.shows m
                  (ap (λ x. errno_after x s.errno) here)))))

    -- On a ready state, where `open` refuses the relative path, `write` returns the negated error
    -- number and logs one unsuccessful event, and the string of the path stays borrowed.
    pub write-failed :
        (m : ℕ)
        → outcome kh laws px opening path s ≡ failed m
        → (x : Ends kh
            (write kh px path buf offset)
            s
            (s.heap.next ∷ temps)
            n
            (negate m, none)
            opened.world
            m
            (logged kh laws px s op_write log_unsuccess path))
          × ¬ Sound kh temps x.heap x.table
    write-failed m here =
        let x = failed_end m here in (x, borrowed-apart kh x.heap x.table s.heap.next x.ready.sound)
