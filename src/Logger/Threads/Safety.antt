-- ===== src/Logger/Threads/Safety.antt =====
-- The invariant of the threads, and that each step keeps it.
use mathlib.Core.Path.{fun_ext}
use distiller_fs.Prelude.{
  ℕ, ◌≤◌, ◌<◌, ◌≡◌, sym, ap, ◌∙◌, subst, arith, inl, inr, List, [], ◌∷◌, All, Option,
}
use distiller_fs.Khash.{Khash, KhashLaws}
use distiller_fs.Logger.{State}
use distiller_fs.Logger.Invariant.{view}
use distiller_fs.Logger.Accounts.{Sound}
use distiller_fs.Logger.Store.{Assigned}
use distiller_fs.Logger.Ready.{Roomy}
use distiller_fs.Logger.Threads.{Call, Phase, Step, here, there}
use distiller_fs.Logger.Threads.Order.{Log, owes, all_owe}
use distiller_fs.Logger.Threads.Effects.{Effect, Move-Effect}
use distiller_fs.Logger.Threads.Measures.{
  inside, holders, left, work, taken, with_event, owes-add, Found, Found-outside, All-outside,
}

room_left :
    (a : Option Call) (m n : ℕ) (log : Log)
    → with_event a m ≤ n
    → Roomy n log
    → Roomy (with_event a m) log
room_left a m n log le r q = omega (arith, le, r q)

module _ (kh : Khash) (laws : KhashLaws kh) {W : Type 0} (temps : List ℕ) where
  -- The invariant: a sound log with room for what is left; the mutex is taken exactly while one thread
  -- is inside, never two; and what a thread found is still so.
  pub record Safe (s : State kh.Table W) (ps : List Phase) : Type 0 where
    pub sound : Sound kh temps s.heap s.table
    pub assigned : Assigned s.filter
    pub mutex : holders ps ≡ taken s.locked
    pub found : All (Found kh s.table) ps
    pub roomy : Roomy (left ps) (view kh s.heap s.table)
    pub fits : kh.Fits (left ps) s.table

  -- The effect of a step of one thread, beside another thread.
  beside :
      (p : Phase) (s t : State kh.Table W) (ps qs : List Phase)
      → holders (p ∷ ps) ≤ 1
      → Found kh s.table p
      → Effect kh laws temps s ps t qs
      → Effect kh laws temps s (p ∷ ps) t (p ∷ qs)
  beside p s t ps qs one f x = record {
    event = x.event;
    shows = x.shows;
    owed = λ log.
        ap (all_owe s.filter qs) (owes-add s.filter p x.event log) ∙ x.owed (owes s.filter p log);
    mutex = omega (arith, x.mutex);
    fewer = ground (arith, x.fewer);
    sound = x.sound;
    fits = x.fits;
    roomy = x.roomy;
    same_filter = x.same_filter;
    by = elim x.by [ inl same ↦ inl same | inr inside ↦ inr (omega (arith, inside)) ];
    found = (
      elim x.by [
        | inl same ↦ subst (λ u. Found kh u p) (sym same) f
        | inr inside ↦ Found-outside kh s.table t.table p (omega (arith, inside, one)) f
      ],
      x.found,
    );
    less = omega (arith, x.less);
  }

  -- The effect of a step of the first thread, with the others behind it.
  before :
      (p q : Phase) (s t : State kh.Table W) (ps : List Phase)
      → holders (p ∷ ps) ≤ 1
      → All (Found kh s.table) ps
      → Effect kh laws temps s (p ∷ []) t (q ∷ [])
      → Effect kh laws temps s (p ∷ ps) t (q ∷ ps)
  before p q s t ps one fs x = record {
    event = x.event;
    shows = x.shows;
    owed = λ log. ap (all_owe s.filter ps) (x.owed log);
    mutex = omega (arith, x.mutex);
    fewer = ground (arith, x.fewer);
    sound = x.sound;
    fits = x.fits;
    roomy = x.roomy;
    same_filter = x.same_filter;
    by = elim x.by [ inl same ↦ inl same | inr inside ↦ inr (omega (arith, inside)) ];
    found = (
      x.found.0,
      elim x.by [
        | inl same ↦ subst (λ u. All (Found kh u) ps) (sym same) fs
        | inr inside ↦ All-outside kh s.table t.table ps (omega (arith, inside, one)) fs
      ],
    );
    less = omega (arith, x.less);
  }

  Step-Effect :
      (s t : State kh.Table W) (ps qs : List Phase)
      → Sound kh temps s.heap s.table
      → holders ps ≤ 1
      → All (Found kh s.table) ps
      → kh.Fits (left ps) s.table
      → Roomy (left ps) (view kh s.heap s.table)
      → Step kh s ps t qs
      → Effect kh laws temps s ps t qs
  Step-Effect s t ps qs v one fs fits room (here {p} {p'} {ps = rest} m) =
      before p p' s t rest one fs.1 (
        Move-Effect kh laws temps s t p p' v fs.0
          (laws.fits-le (left (p ∷ [])) (left (p ∷ rest)) s.table (omega arith) fits)
          (λ q. omega (arith, room q)) m)
  Step-Effect s t ps qs v one fs fits room (there {p} {ps = rest} {ps' = rest'} m) =
      beside p s t rest rest' one fs.0 (
        Step-Effect s t rest rest' v (omega (arith, one)) fs.1
          (laws.fits-le (left rest) (left (p ∷ rest)) s.table (omega arith) fits)
          (λ q. omega (arith, room q)) m)

  -- Each step keeps the invariant, and leaves the log that there will be at the end as it was.
  pub Step-Safe :
      (s t : State kh.Table W) (ps qs : List Phase)
      → Safe s ps
      → Step kh s ps t qs
      → Safe t qs
        × (all_owe t.filter qs (view kh t.heap t.table)
            ≡ all_owe s.filter ps (view kh s.heap s.table))
        × (work qs < work ps)
  Step-Safe s t ps qs v m =
      let one : holders ps ≤ 1 = ground (arith, v.mutex) in
      let x = Step-Effect s t ps qs v.sound one v.found v.fits v.roomy m in
      (
        record {
          sound = x.sound;
          assigned = subst Assigned (sym x.same_filter) v.assigned;
          mutex = omega (arith, x.mutex, v.mutex);
          found = x.found;
          roomy =
              x.roomy (left qs)
                (room_left x.event (left qs) (left ps) (view kh s.heap s.table) x.fewer v.roomy);
          fits = x.fits (left qs) (laws.fits-le _ _ s.table x.fewer v.fits);
        },
        ap (λ f. all_owe f qs (view kh t.heap t.table)) x.same_filter
            ∙ ap (all_owe s.filter qs) (fun_ext x.shows)
            ∙ x.owed (view kh s.heap s.table),
        x.less,
      )
