-- ===== src/Handlers/Runs.antt =====
-- Whole runs: the calls of a list through the table of src/distillerfs.c, each after the one before.
use mathlib.Core.Path.{fun_ext}
use distiller_fs.Prelude.{
  ℕ, suc, ◌+◌, ◌*◌, ◌≡◌, refl, sym, ap, ◌∙◌, subst, arith, List, [], ◌∷◌, length, Run, pure, ◌>>◌,
  bind_some,
}
use distiller_fs.Khash.{Khash, KhashLaws}
use distiller_fs.Posix.{Posix}
use distiller_fs.Logger.Invariant.{view}
use distiller_fs.Logger.Ready.{Ready}
use distiller_fs.Handlers.{S}
use distiller_fs.Handlers.Operations.{Build, FuseOperations, Request, init_fuse_oper, perform}
use distiller_fs.Handlers.Reference.{replay, replay-append, reference, trace, lost_by_all}
use distiller_fs.Handlers.Kept.{Kept, filters}
use distiller_fs.Handlers.Sequences.{perform-Kept}

module _ (kh : Khash) (px : Posix) (B : Type 0) where
  -- The calls of a list, in its order.
  unfoldable pub perform_all :
      FuseOperations kh px B → List (Request kh px B) → Run (S kh px) (Unit {0})
  perform_all ops [] = pure tt
  perform_all ops (req ∷ reqs) = perform kh px B ops req >> perform_all ops reqs

module _ (kh : Khash) (laws : KhashLaws kh) (px : Posix) (B : Type 0) (build : Build)
    (savefd : ℕ) where
  abbrev ops : FuseOperations kh px B
  ops = init_fuse_oper kh px B build savefd

  -- From a ready state, with room for two events of each call and `n` more, a list of calls runs to its
  -- end without a fault. The file system is then the one that the reference leaves, and the log is the
  -- one before with the events of the reference added in their order; the state is ready for `n`
  -- events, with the filters as they were; and the strings that are borrowed then are as many as before
  -- and those that the reference counts as lost.
  pub perform_all-Kept :
      (reqs : List (Request kh px B)) (temps : List ℕ) (n : ℕ) (s : S kh px)
      → Ready kh temps (2 * length reqs + n) s
      → Kept kh laws px B
          (perform_all kh px B ops reqs)
          temps
          n
          s
          (lost_by_all kh px B build savefd reqs s.world)
          (trace kh px B build savefd reqs s.world)
  unfolding perform_all
  perform_all-Kept [] temps n s r = record {
    to = s;
    run = refl;
    left = temps;
    number = omega arith;
    ready = subst (λ (k : ℕ). Ready kh temps k s) (omega arith) r;
    world_is = refl;
    shows = λ q. refl;
    same_filters = refl;
  }
  perform_all-Kept (req ∷ reqs) temps n s r =
      let here : 2 * length (req ∷ reqs) + n ≡ suc (suc (2 * length reqs + n)) = omega arith in
      let k =
        perform-Kept kh laws px B build savefd req (2 * length reqs + n) s
          (subst (λ (k : ℕ). Ready kh temps k s) here r) in
      let w = (reference kh px B build savefd req s.world).0 in
      let es = (reference kh px B build savefd req s.world).1 in
      let rest = perform_all-Kept reqs k.left n k.to k.ready in
      let same = ap (trace kh px B build savefd reqs) k.world_is in
      let same_lost = ap (lost_by_all kh px B build savefd reqs) k.world_is in
      record {
        to = rest.to;
        run =
            bind_some (perform kh px B ops req) (λ _. perform_all kh px B ops reqs) s k.run
            ∙ rest.run;
        left = rest.left;
        number = omega (arith, rest.number, k.number, same_lost);
        ready = rest.ready;
        world_is = rest.world_is ∙ ap (λ e. e.0) same;
        shows = λ q.
            rest.shows q
            ∙ ap
                (λ f.
                  replay f (trace kh px B build savefd reqs k.to.world).1
                    (view kh k.to.heap k.to.table) q)
                k.same_filters
            ∙ ap (λ e. replay (filters kh laws px B s) e.1 (view kh k.to.heap k.to.table) q) same
            ∙ ap (λ l. replay (filters kh laws px B s) (trace kh px B build savefd reqs w).1 l q)
                (fun_ext k.shows)
            ∙ sym (
                ap (λ l. l q)
                  (replay-append (filters kh laws px B s) es (trace kh px B build savefd reqs w).1
                    (view kh s.heap s.table)));
        same_filters = rest.same_filters ∙ k.same_filters;
      }
