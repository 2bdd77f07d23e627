-- ===== src/Handlers/Pairs/Rename.antt =====
-- `loggedFS_rename`: two events, and both strings given back before the log.
use distiller_fs.Prelude.{List, ℕ, suc, ◌+◌, Text, some, ◌≡◌, refl, ap, ◌∙◌, ◌∷◌, pos, ◌>>◌}
use distiller_fs.Ops.{op_rename, log_success, log_unsuccess}
use distiller_fs.Khash.{Khash, KhashLaws}
use distiller_fs.Memory
use distiller_fs.Memory.{Heap, text}
use distiller_fs.Posix.{Posix, Outcome, done, failed}
use distiller_fs.Logger.{free, relative}
use distiller_fs.Logger.Ready.{Ready}
use distiller_fs.Handlers.{S, errno_after}
use distiller_fs.Handlers.Calls.{
  set, state_of, answer, Ends, Ends-log, step_, pure-Ends, fail-Ends, free-done, free-Ready,
}
use distiller_fs.Handlers.Paths.{view-released}
use distiller_fs.Handlers.Pairs.{log_two, rename, rename_outcome}
use distiller_fs.Handlers.Pairs.Events.{
  relog, logged_two, log_two-Ends, view-two_borrowed, called_two, called_two-Ready, borrow_two_call,
}

module _ (kh : Khash) (laws : KhashLaws kh) (px : Posix) where
  rename_outcome-Ends :
      {temps : List ℕ} (from to : Text) (n : ℕ) (o : Outcome (Unit {0})) (e : ℕ) (s : S kh px)
      → Ready kh temps (suc (suc n)) s
      → s.errno ≡ errno_after o e
      → Ends kh
          (rename_outcome kh px from to o)
          s
          temps
          n
          (answer (λ _. pos 0) o)
          s.world
          s.errno
          (logged_two kh laws px s op_rename (state_of o) from to)
  unfolding rename_outcome
  rename_outcome-Ends {temps} from to n (failed m) e s r known =
      let c = log_two-Ends kh laws px op_rename log_unsuccess from to temps n s r in
      step_ kh (log_two kh px op_rename log_unsuccess from to) s c.run
        (fail-Ends kh s c.heap c.table s.world s.errno c.ready c.shows m known)
  rename_outcome-Ends {temps} from to n (done a) e s r known =
      let c = log_two-Ends kh laws px op_rename log_success from to temps n s r in
      step_ kh (log_two kh px op_rename log_success from to) s c.run
        (pure-Ends kh s c.heap c.table s.world s.errno c.ready c.shows (pos 0, some a))

  -- On a state ready for two events, `rename` returns 0 or the negated error number of the one call
  -- on both relative paths, logs an event on `from` and then one on `to` under the filter state of
  -- the outcome, and gives back the strings that it borrowed.
  pub rename-Ends :
      {temps : List ℕ} (from to : Text) (n : ℕ) (s : S kh px)
      → Ready kh temps (suc (suc n)) s
      → let o = px.rename (relative from) (relative to) s.world in
        Ends kh
          (rename kh px from to)
          s
          temps
          n
          (answer (λ _. pos 0) o.0)
          o.1
          (errno_after o.0 s.errno)
          (logged_two kh laws px s op_rename (state_of o.0) from to)
  unfolding rename
  rename-Ends {temps} from to n s r =
      let k = suc (suc n) in
      let p = s.heap.next in
      let q = s.heap.next + 1 in
      let o = (px.rename (relative from) (relative to) s.world).0 in
      let s3 = called_two kh laws px px.rename from to k s r in
      let r3 = called_two-Ready kh laws px px.rename from to k s r in
      let s4 : S kh px = set s3 (Memory.released p s3.heap) s.table s.locked s3.world s3.errno in
      let r4 = free-Ready kh (q ∷ temps) k s3 p r3 in
      Ends-log kh _
        (ap (relog kh laws px s op_rename (state_of o) from to) (
          view-released kh laws px s4 temps k q r4
          ∙ view-released kh laws px s3 (q ∷ temps) k p r3
          ∙ view-two_borrowed kh laws px from to k s r))
        (borrow_two_call kh laws px px.rename from to k s r
          (λ a b res. free a >> (free b >> rename_outcome kh px from to res))
          (step_ kh (free p) s3 (free-done kh (q ∷ temps) k s3 p r3) (
            step_ kh (free q) s4 (free-done kh temps k s4 q r4)
              (rename_outcome-Ends from to n o s.errno _ (free-Ready kh temps k s4 q r4) refl))))
