-- ===== src/Handlers/Paths.antt =====
-- The handlers on one path: what they return, what they log, and that they give back what they
-- borrow.
use mathlib.Core.Path.{fun_ext}
use distiller_fs.Prelude.{
  ℕ, suc, Text, Option, some, none, ◌≡◌, refl, ap, ◌∙◌, List, [], ◌∷◌, false, ◌&&◌, ℤ, pos, negate,
  arith, Run, pure, ◌>>=◌, ◌>>◌, bind_some,
}
use distiller_fs.Ops.{FuseOp, flag, log_success, log_unsuccess}
use distiller_fs.Khash.{Khash, KhashLaws}
use distiller_fs.Memory
use distiller_fs.Memory.{Heap, text}
use distiller_fs.Posix.{Posix, Outcome, done, failed}
use distiller_fs.Logger.{free, relative, get_relative_path, should_log, log_op}
use distiller_fs.Logger.Invariant.{Entry, view}
use distiller_fs.Logger.Frames.{view-alloc, view-free}
use distiller_fs.Logger.Store.{chosen, note}
use distiller_fs.Logger.Ready.{Ready, log_op-Noted}
use distiller_fs.Handlers.{S, errno_after, sys_at, fail, report, path_handler}
use distiller_fs.Handlers.Calls.{
  set, state_of, answer, Ends, Ends-log, step, borrowed, get_relative_path-borrowed, borrowed-Ready,
  sys_at-done, sys-Ready, free-done, free-Ready,
}

module _ (kh : Khash) (laws : KhashLaws kh) (px : Posix) where
  -- The log after an operation on `path` whose call ended in this filter state.
  abbrev pub logged : S kh px → FuseOp → ℕ → Text → Text → Option Entry
  logged s op st path =
      note (should_log s.op_flags op st && chosen s.filter path) path (flag op)
        (view kh s.heap s.table)

  module _ {A : Type 0} (op : FuseOp) (path : Text) (temps : List ℕ) (n : ℕ) where
    -- The log and the result after a call that left its error number behind.
    pub report-Ends :
        (value : A → ℤ) (o : Outcome A) (s : S kh px) (e : ℕ)
        → Ready kh temps (suc n) s
        → s.errno ≡ errno_after o e
        → Ends kh
            (report kh px op path value o)
            s
            temps
            n
            (answer value o)
            s.world
            s.errno
            (logged s op (state_of o) path)
    unfolding report
    report-Ends value (done a) s e r known =
        let c = log_op-Noted kh laws temps n op log_success path s r in
        record {
          heap = c.heap;
          table = c.table;
          run = bind_some (log_op kh op log_success path) (λ _. pure (value a, some a)) s c.run;
          ready = c.ready;
          shows = c.shows;
        }
    report-Ends value (failed m) s e r known =
        let c = log_op-Noted kh laws temps n op log_unsuccess path s r in
        record {
          heap = c.heap;
          table = c.table;
          run =
              bind_some (log_op kh op log_unsuccess path) (λ _. fail) s c.run
              ∙ ap (λ x. some ((negate x, none), set s c.heap c.table false s.world s.errno)) known;
          ready = c.ready;
          shows = c.shows;
        }

  -- Borrowing a string and giving it back leaves the log as it was.
  pub view-borrowed :
      (s : S kh px) (temps : List ℕ) (n : ℕ) (path : Text)
      → Ready kh temps n s
      → view kh (borrowed kh temps n s path) s.table ≡ view kh s.heap s.table
  view-borrowed s temps n path r =
      fun_ext (λ q. view-alloc kh temps s.heap s.table (text (relative path)) refl q r.sound)

  pub view-released :
      (s : S kh px) (temps : List ℕ) (n : ℕ) (p : ℕ)
      → Ready kh (p ∷ temps) n s
      → view kh (Memory.released p s.heap) s.table ≡ view kh s.heap s.table
  view-released s temps n p r = fun_ext (λ q. view-free kh temps s.heap s.table p q r.sound)

  module _ {A : Type 0} (call : Text → px.World → Outcome A × px.World) (path : Text)
      (s : S kh px) where
    -- The outcome of a call on the relative path, and the state that it leaves.
    abbrev pub outcome : Outcome A
    outcome = (call (relative path) s.world).0

    abbrev pub called : S kh px
    called =
        set s (borrowed kh [] 0 s path) s.table s.locked (call (relative path) s.world).1
          (errno_after outcome s.errno)

    pub called-Ready :
        {temps : List ℕ} (n : ℕ) → Ready kh temps n s → Ready kh (s.heap.next ∷ temps) n called
    called-Ready {temps} n r =
        sys-Ready kh (s.heap.next ∷ temps) n _ called.world called.errno
          (borrowed-Ready kh temps n s path r)

    -- The beginning of a handler: the string, and the call on it.
    pub borrow_call :
        {B : Type 0} (f : ℕ → Outcome A → Run (S kh px) B) {temps : List ℕ} {n : ℕ} {b : B}
        {w : px.World} {e : ℕ} {log : Text → Option Entry}
        → Ends kh (f s.heap.next outcome) called temps n b w e log
        → Ends kh (get_relative_path path >>= λ p. sys_at p call >>= f p) s temps n b w e log
    borrow_call f rest =
        step kh _ (λ p. sys_at p call >>= f p) s _ _ _ _ _
          (get_relative_path-borrowed kh [] 0 s path)
          (step kh _ (f s.heap.next) _ _ _ _ _ _
            (sys_at-done kh [] 0 _ s.heap.next (relative path) call (ground arith)) rest)

  -- On a ready state, a handler that gives its string back directly after its call returns 0 or the
  -- negated error number of that one call on the relative path, leaves the file system and the error
  -- number as the call does, logs one event under the filter state of the outcome, and gives back the
  -- string that it borrowed.
  pub path_handler-Ends :
      {temps : List ℕ} {A : Type 0} (op : FuseOp) (call : Text → px.World → Outcome A × px.World)
      (path : Text) (n : ℕ) (s : S kh px)
      → Ready kh temps (suc n) s
      → let o = outcome call path s in
        Ends kh
          (path_handler kh px op call path)
          s
          temps
          n
          (answer (λ _. pos 0) o)
          (called call path s).world
          (errno_after o s.errno)
          (logged s op (state_of o) path)
  unfolding path_handler
  path_handler-Ends {temps} {A} op call path n s r =
      let p = s.heap.next in
      let o = outcome call path s in
      let t = called call path s in
      let ready = called-Ready call path s (suc n) r in
      let same = view-released t temps (suc n) p ready ∙ view-borrowed s temps (suc n) path r in
      Ends-log kh (logged s op (state_of o) path)
        (ap (note (should_log s.op_flags op (state_of o) && chosen s.filter path) path (flag op))
          same)
        (borrow_call call path s (λ q res. do free q; report kh px op path (λ _. pos 0) res)
          (step kh (free p) (λ _. report kh px op path (λ _. pos 0) o) t _ _ _ _ _
            (free-done kh temps (suc n) t p ready)
            (report-Ends op path temps n (λ _. pos 0) o _ s.errno
              (free-Ready kh temps (suc n) t p ready) refl)))
