-- ===== src/Handlers/Pairs/Events.antt =====
-- Two events of one operation, and two strings borrowed at once.
use mathlib.Core.Path.{fun_ext}
use distiller_fs.Prelude.{
  ℕ, suc, ◌+◌, Text, Option, some, ◌≡◌, ap, ◌∙◌, List, [], ◌∷◌, false, ◌&&◌, arith, Run, ◌>>=◌,
  bind_some,
}
use distiller_fs.Ops.{FuseOp, flag}
use distiller_fs.Khash.{Khash, KhashLaws}
use distiller_fs.Memory
use distiller_fs.Memory.{Heap, text}
use distiller_fs.Posix.{Posix, Outcome}
use distiller_fs.Logger.{load, relative, should_log, log_op, get_relative_path}
use distiller_fs.Logger.Invariant.{Entry, view}
use distiller_fs.Logger.Frames.{Sound-swap}
use distiller_fs.Logger.Store.{chosen, note}
use distiller_fs.Logger.Ready.{Ready, log_op-Noted}
use distiller_fs.Handlers.{S, errno_after, sys_at}
use distiller_fs.Handlers.Calls.{
  set, Ends, step, borrowed, get_relative_path-borrowed, borrowed-Ready, sys_at-done, sys-Ready,
}
use distiller_fs.Handlers.Paths.{logged, view-borrowed}
use distiller_fs.Handlers.Pairs.{log_two, sys_at_two}

module _ (kh : Khash) (laws : KhashLaws kh) (px : Posix) where
  -- The log after an operation on two paths.
  abbrev pub logged_two : S kh px → FuseOp → ℕ → Text → Text → Text → Option Entry
  logged_two s op st first second =
      note (should_log s.op_flags op st && chosen s.filter second) second (flag op)
        (logged kh laws px s op st first)

  -- It depends on the state by the filters and the log before.
  abbrev pub relog :
      S kh px → FuseOp → ℕ → Text → Text → (Text → Option Entry) → Text → Option Entry
  relog s op st first second log =
      note (should_log s.op_flags op st && chosen s.filter second) second (flag op)
        (note (should_log s.op_flags op st && chosen s.filter first) first (flag op) log)

  pub log_two-Ends :
      (op : FuseOp) (st : ℕ) (first second : Text) (temps : List ℕ) (n : ℕ) (s : S kh px)
      → Ready kh temps (suc (suc n)) s
      → Ends kh
          (log_two kh px op st first second)
          s
          temps
          n
          tt
          s.world
          s.errno
          (logged_two s op st first second)
  unfolding log_two
  log_two-Ends op st first second temps n s r =
      let c = log_op-Noted kh laws temps (suc n) op st first s r in
      let s1 : S kh px = set s c.heap c.table false s.world s.errno in
      let d = log_op-Noted kh laws temps n op st second s1 c.ready in
      record {
        heap = d.heap;
        table = d.table;
        run = bind_some (log_op kh op st first) (λ _. log_op kh op st second) s c.run ∙ d.run;
        ready = d.ready;
        shows = λ q.
            d.shows q
            ∙ ap
                (λ l.
                  note (should_log s.op_flags op st && chosen s.filter second) second (flag op) l q)
                (fun_ext c.shows);
      }

  -- The strings of `from` and `to`.
  module _ {temps : List ℕ} (from to : Text) (n : ℕ) (s : S kh px) (r : Ready kh temps n s) where
    abbrev pub from_at : ℕ
    from_at = s.heap.next

    abbrev pub to_at : ℕ
    to_at = s.heap.next + 1

    abbrev pub first_borrowed : S kh px
    first_borrowed = set s (borrowed kh temps n s from) s.table s.locked s.world s.errno

    abbrev pub two_borrowed : S kh px
    two_borrowed =
        set s (borrowed kh (from_at ∷ temps) n first_borrowed to) s.table s.locked s.world s.errno

    pub two_borrowed-Ready : Ready kh (from_at ∷ to_at ∷ temps) n two_borrowed
    two_borrowed-Ready =
        let b =
          borrowed-Ready kh (from_at ∷ temps) n first_borrowed to
            (borrowed-Ready kh temps n s from r) in
        record {
          sound = Sound-swap kh temps two_borrowed.heap s.table to_at from_at b.sound;
          unlocked = b.unlocked;
          assigned = b.assigned;
          roomy = b.roomy;
          fits = b.fits;
        }

    pub view-two_borrowed : view kh two_borrowed.heap s.table ≡ view kh s.heap s.table
    view-two_borrowed =
        view-borrowed kh laws px first_borrowed (from_at ∷ temps) n to
          (borrowed-Ready kh temps n s from r)
        ∙ view-borrowed kh laws px s temps n from r

  pub sys_at_two-done :
      (p q : ℕ) (a b : Text) (call : Text → Text → px.World → Outcome (Unit {0}) × px.World)
      (s : S kh px)
      → s.heap.block p ≡ some (text a)
      → s.heap.block q ≡ some (text b)
      → let r = call a b s.world in
        sys_at_two kh px p q call s
        ≡ some (r.0, set s s.heap s.table s.locked r.1 (errno_after r.0 s.errno))
  unfolding sys_at_two Memory.load_text
  sys_at_two-done p q a b call s ep eq =
      bind_some (load (Memory.load_text p)) (λ name. sys_at q (call name)) s {a = a} {t = s}
        (ground arith)
      ∙ sys_at-done kh [] 0 s q b (call a) eq

  module _ {temps : List ℕ} (call : Text → Text → px.World → Outcome (Unit {0}) × px.World)
      (from to : Text) (n : ℕ) (s : S kh px) (r : Ready kh temps n s) where
    -- After a call on two relative paths.
    abbrev pub called_two : S kh px
    called_two =
        let o = call (relative from) (relative to) s.world in
        set s (two_borrowed from to n s r).heap s.table s.locked o.1 (errno_after o.0 s.errno)

    pub called_two-Ready :
        Ready kh (from_at from to n s r ∷ to_at from to n s r ∷ temps) n called_two
    called_two-Ready =
        sys-Ready kh _ n (two_borrowed from to n s r) called_two.world called_two.errno
          (two_borrowed-Ready from to n s r)

    -- The beginning of a handler on two paths: both strings, and the call on them.
    pub borrow_two_call :
        {B : Type 0} (f : ℕ → ℕ → Outcome (Unit {0}) → Run (S kh px) B) {temps' : List ℕ} {m : ℕ}
        {b : B} {w : px.World} {e : ℕ} {log : Text → Option Entry}
        → Ends kh
            (f s.heap.next (s.heap.next + 1) (call (relative from) (relative to) s.world).0)
            called_two
            temps'
            m
            b
            w
            e
            log
        → Ends kh
            (get_relative_path from >>= λ p.
              get_relative_path to >>= λ q. sys_at_two kh px p q call >>= f p q)
            s
            temps'
            m
            b
            w
            e
            log
    borrow_two_call f rest =
        let p = s.heap.next in
        let q = s.heap.next + 1 in
        let s1 = first_borrowed from to n s r in
        step kh (get_relative_path from)
          (λ a. get_relative_path to >>= λ b. sys_at_two kh px a b call >>= f a b) s _ _ _ _ _
          (get_relative_path-borrowed kh [] 0 s from)
          (step kh (get_relative_path to) (λ b. sys_at_two kh px p b call >>= f p b) s1 _ _ _ _ _
            (get_relative_path-borrowed kh [] 0 s1 to)
            (step kh (sys_at_two kh px p q call) (f p q) (two_borrowed from to n s r) _ _ _ _ _
              (sys_at_two-done p q (relative from) (relative to) call (two_borrowed from to n s r)
                (ground arith) (ground arith))
              rest))
