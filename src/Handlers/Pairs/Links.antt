-- ===== src/Handlers/Pairs/Links.antt =====
-- `loggedFS_link` and `loggedFS_symlink`: two events each, an owner for the new link, and the
-- strings given back on every path.
use distiller_fs.Prelude.{
  List, ℕ, suc, ◌+◌, Text, some, none, ◌≡◌, refl, ap, ◌∙◌, [], ◌∷◌, false, arith, pos, negate, pure,
  gets, ◌>>=◌, ◌>>◌,
}
use distiller_fs.Ops.{FuseOp, op_link, op_symlink, log_success, log_unsuccess}
use distiller_fs.Khash.{Khash, KhashLaws}
use distiller_fs.Memory
use distiller_fs.Memory.{Heap, text}
use distiller_fs.Posix.{Posix, Outcome, done, failed}
use distiller_fs.Logger.{free, relative}
use distiller_fs.Logger.Invariant.{view}
use distiller_fs.Logger.Frames.{view-free}
use distiller_fs.Logger.Ready.{Ready}
use distiller_fs.Handlers.{S, Reply, errno_after, sys_at, fail}
use distiller_fs.Handlers.Calls.{
  set, state_of, answer, Ends, Ends-log, step, step_, pure-Ends, fail-Ends, sys_at-done, sys-Ready,
  free-done, free-Ready,
}
use distiller_fs.Handlers.Paths.{
  view-borrowed, view-released, outcome, called, called-Ready, borrow_call,
}
use distiller_fs.Handlers.Creation.{own, final_world, final_errno}
use distiller_fs.Handlers.Pairs.{log_two, link, link_outcome, symlink, symlink_outcome}
use distiller_fs.Handlers.Pairs.Events.{
  relog, logged_two, log_two-Ends, view-two_borrowed, called_two, called_two-Ready, borrow_two_call,
}

module _ (kh : Khash) (laws : KhashLaws kh) (px : Posix) where
  -- The end of `link` and `symlink` on the borrowed string `to`: an owner for the new link where
  -- the call succeeded, two events, and the string given back last.
  module _ {temps : List ℕ} (op : FuseOp) (first second name : Text) (p n : ℕ) (s : S kh px)
      (r : Ready kh (p ∷ temps) (suc (suc n)) s) (here : s.heap.block p ≡ some (text name)) where
    relog-released :
        (st : ℕ)
        → relog kh laws px s op st first second (view kh (Memory.released p s.heap) s.table)
          ≡ logged_two kh laws px s op st first second
    relog-released st =
        ap (relog kh laws px s op st first second)
          (view-released kh laws px s temps (suc (suc n)) p r)

    failed_end :
        (m : ℕ)
        → s.errno ≡ m
        → Ends kh
            (free p >> (log_two kh px op log_unsuccess first second >> fail {A = Unit {0}}))
            s
            temps
            n
            (negate m, none)
            s.world
            s.errno
            (logged_two kh laws px s op log_unsuccess first second)
    failed_end m known =
        let s1 : S kh px = set s (Memory.released p s.heap) s.table s.locked s.world s.errno in
        let r1 = free-Ready kh temps (suc (suc n)) s p r in
        let c = log_two-Ends kh laws px op log_unsuccess first second temps n s1 r1 in
        Ends-log kh _ (relog-released log_unsuccess) (
          step_ kh (free p) s (free-done kh temps (suc (suc n)) s p r) (
            step_ kh (log_two kh px op log_unsuccess first second) s1 c.run
              (fail-Ends kh s c.heap c.table s.world s.errno c.ready c.shows m known)))

    abbrev give : px.World → Text → px.World → Outcome (Unit {0}) × px.World
    give w q = px.lchown q (px.uid w) (px.gid w)

    done_end :
        Ends kh {A = Reply (Unit {0})}
          (gets (λ u. u.world) >>= λ w.
            sys_at p (give w)
            >> (log_two kh px op log_success first second >> (free p >> pure (pos 0, some tt))))
          s
          temps
          n
          (pos 0, some tt)
          (own px name s.world).1
          (errno_after (own px name s.world).0 s.errno)
          (logged_two kh laws px s op log_success first second)
    done_end =
        let s1 : S kh px =
          set s s.heap s.table s.locked (own px name s.world).1
            (errno_after (own px name s.world).0 s.errno) in
        let r1 = sys-Ready kh (p ∷ temps) (suc (suc n)) s s1.world s1.errno r in
        let c = log_two-Ends kh laws px op log_success first second (p ∷ temps) n s1 r1 in
        let s2 : S kh px = set s c.heap c.table false s1.world s1.errno in
        step kh (gets (λ u. u.world))
          (λ w.
            sys_at p (give w)
            >> (log_two kh px op log_success first second >> (free p >> pure (pos 0, some tt))))
          s _ _ _ _ _ refl
          (step_ kh (sys_at p (give s.world)) s (sys_at-done kh [] 0 s p name (give s.world) here) (
            step_ kh (log_two kh px op log_success first second) s1 c.run (
              step_ kh (free p) s2 (free-done kh temps n s2 p c.ready) (
                pure-Ends kh s2 (Memory.released p c.heap) c.table s1.world s1.errno
                  (free-Ready kh temps n s2 p c.ready)
                  (λ q. view-free kh temps c.heap c.table p q c.ready.sound ∙ c.shows q)
                  (pos 0, some tt)))))

  link_outcome-Ends :
      {temps : List ℕ} (from to name : Text) (p n : ℕ) (o : Outcome (Unit {0})) (e : ℕ)
      (s : S kh px)
      → Ready kh (p ∷ temps) (suc (suc n)) s
      → s.heap.block p ≡ some (text name)
      → s.errno ≡ errno_after o e
      → Ends kh
          (link_outcome kh px from to p o)
          s
          temps
          n
          (answer (λ _. pos 0) o)
          (final_world px name o s.world)
          (final_errno px name o s.world s.errno)
          (logged_two kh laws px s op_link (state_of o) from to)
  unfolding link_outcome
  link_outcome-Ends from to name p n (failed m) e s r here known =
      failed_end op_link from to name p n s r here m known
  link_outcome-Ends from to name p n (done a) e s r here known =
      done_end op_link from to name p n s r here

  symlink_outcome-Ends :
      {temps : List ℕ} (from to name : Text) (p n : ℕ) (o : Outcome (Unit {0})) (e : ℕ)
      (s : S kh px)
      → Ready kh (p ∷ temps) (suc (suc n)) s
      → s.heap.block p ≡ some (text name)
      → s.errno ≡ errno_after o e
      → Ends kh
          (symlink_outcome kh px from to p o)
          s
          temps
          n
          (answer (λ _. pos 0) o)
          (final_world px name o s.world)
          (final_errno px name o s.world s.errno)
          (logged_two kh laws px s op_symlink (state_of o) to from)
  unfolding symlink_outcome
  symlink_outcome-Ends from to name p n (failed m) e s r here known =
      failed_end op_symlink to from name p n s r here m known
  symlink_outcome-Ends from to name p n (done a) e s r here known =
      done_end op_symlink to from name p n s r here

  -- On a state ready for two events, `symlink` returns 0 or the negated error number of the call,
  -- which takes the text of the link as it is and the relative path of the link, gives a new link to
  -- the caller whatever `lchown` answers, logs an event on the link and then one on its text under
  -- the filter state of the outcome, and gives back the strings that it borrowed.
  pub symlink-Ends :
      {temps : List ℕ} (from to : Text) (n : ℕ) (s : S kh px)
      → Ready kh temps (suc (suc n)) s
      → let call = px.symlink from in
        let name = relative to in
        let o = outcome kh laws px call to s in
        let t = called kh laws px call to s in
        Ends kh
          (symlink kh px from to)
          s
          temps
          n
          (answer (λ _. pos 0) o)
          (final_world px name o t.world)
          (final_errno px name o t.world t.errno)
          (logged_two kh laws px s op_symlink (state_of o) to from)
  unfolding symlink
  symlink-Ends {temps} from to n s r =
      let call = px.symlink from in
      let o = outcome kh laws px call to s in
      let t = called kh laws px call to s in
      Ends-log kh _
        (ap (relog kh laws px s op_symlink (state_of o) to from)
          (view-borrowed kh laws px s temps (suc (suc n)) to r))
        (borrow_call kh laws px call to s (symlink_outcome kh px from to) (
          symlink_outcome-Ends from to (relative to) s.heap.next n o s.errno t
            (called-Ready kh laws px call to s (suc (suc n)) r) (ground arith) refl))

  -- On a state ready for two events, `link` returns 0 or the negated error number of the call on both
  -- relative paths, gives a new link to the caller whatever `lchown` answers, logs an event on `from`
  -- and then one on `to` under the filter state of the outcome, and gives back the strings that it
  -- borrowed.
  pub link-Ends :
      {temps : List ℕ} (from to : Text) (n : ℕ) (s : S kh px) (r : Ready kh temps (suc (suc n)) s)
      → let name = relative to in
        let o = (px.link (relative from) name s.world).0 in
        let t = called_two kh laws px px.link from to (suc (suc n)) s r in
        Ends kh
          (link kh px from to)
          s
          temps
          n
          (answer (λ _. pos 0) o)
          (final_world px name o t.world)
          (final_errno px name o t.world t.errno)
          (logged_two kh laws px s op_link (state_of o) from to)
  unfolding link
  link-Ends {temps} from to n s r =
      let k = suc (suc n) in
      let p = s.heap.next in
      let q = s.heap.next + 1 in
      let o = (px.link (relative from) (relative to) s.world).0 in
      let s3 = called_two kh laws px px.link from to k s r in
      let r3 = called_two-Ready kh laws px px.link from to k s r in
      let s4 : S kh px = set s3 (Memory.released p s3.heap) s.table s.locked s3.world s3.errno in
      Ends-log kh _
        (ap (relog kh laws px s op_link (state_of o) from to) (
          view-released kh laws px s3 (q ∷ temps) k p r3
          ∙ view-two_borrowed kh laws px from to k s r))
        (borrow_two_call kh laws px px.link from to k s r
          (λ a b res. free a >> link_outcome kh px from to b res)
          (step_ kh (free p) s3 (free-done kh (q ∷ temps) k s3 p r3) (
            link_outcome-Ends from to (relative to) q n o s.errno s4
              (free-Ready kh (q ∷ temps) k s3 p r3) (ground arith) refl)))
