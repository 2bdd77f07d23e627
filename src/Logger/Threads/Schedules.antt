-- ===== src/Logger/Threads/Schedules.antt =====
-- Schedules of the threads: what every one of them keeps, where it leads, and that none gets stuck.
use distiller_fs.Prelude.{
  ℕ, ◌≡◌, refl, sym, ap, ◌∙◌, arith, inl, inr, Text, List, [], ◌∷◌, All, false, Bool-cases,
}
use distiller_fs.Khash.{Khash, KhashLaws}
use distiller_fs.Filter.{FilterDesc}
use distiller_fs.Logger.{State}
use distiller_fs.Logger.Invariant.{view}
use distiller_fs.Logger.Accounts.{Sound}
use distiller_fs.Logger.Threads.{Phase, idle, Steps, stay, step}
use distiller_fs.Logger.Threads.Order.{Log, owes, all_owe}
use distiller_fs.Logger.Threads.Measures.{inside, holders}
use distiller_fs.Logger.Threads.Safety.{Safe, Step-Safe}

-- Nothing is left to do.
abbrev pub AllDone : List Phase → Type 0
AllDone ps = All (λ p. p ≡ idle []) ps

done-owes : (f : FilterDesc) (ps : List Phase) (log : Log) → AllDone ps → all_owe f ps log ≡ log
done-owes f [] log d = refl
done-owes f (p ∷ ps) log (d, ds) = ap (λ q. all_owe f ps (owes f q log)) d ∙ done-owes f ps log ds

done-holders : (ps : List Phase) → AllDone ps → holders ps ≡ 0
done-holders [] d = refl
done-holders (p ∷ ps) (d, ds) = omega (arith, ap inside d, done-holders ps ds)

module _ (kh : Khash) (laws : KhashLaws kh) {W : Type 0} (temps : List ℕ) where
  -- The end of a schedule.
  pub record Finished (s : State kh.Table W) (ps : List Phase) (t : State kh.Table W) : Type 0 where
    pub unlocked : t.locked ≡ false
    pub sound : Sound kh temps t.heap t.table
    pub shows :
        (q : Text) → view kh t.heap t.table q ≡ all_owe s.filter ps (view kh s.heap s.table) q

  pub Steps-Safe :
      (s : State kh.Table W) (ps : List Phase) (t : State kh.Table W) (qs : List Phase)
      → Safe kh laws temps s ps
      → Steps kh s ps t qs
      → Safe kh laws temps t qs
        × (all_owe t.filter qs (view kh t.heap t.table)
            ≡ all_owe s.filter ps (view kh s.heap s.table))
  Steps-Safe s ps t qs v stay = (v, refl)
  Steps-Safe s ps u rs v (step {t} {qs = qs} first last) =
      let (w, e) = Steps-Safe s ps t qs v first in
      let (x, f, _) = Step-Safe kh laws temps t u qs rs w last in (x, f ∙ e)

  -- From a safe state, whatever the schedule by which the threads come to their end: the mutex is free,
  -- the memory is sound, and the log shows the calls of one thread after those of another, as if no two
  -- had run at once.
  pub Steps-Finished :
      (s t : State kh.Table W) (ps qs : List Phase)
      → Safe kh laws temps s ps
      → Steps kh s ps t qs
      → AllDone qs
      → Finished s ps t
  Steps-Finished s t ps qs v run d =
      let (w, e) = Steps-Safe s ps t qs v run in
      record {
        unlocked = elim (Bool-cases t.locked) [
          | inl stuck ↦ absurd (ground (arith, w.mutex, stuck, done-holders qs d))
          | inr free ↦ free
        ];
        sound = w.sound;
        shows = λ q. ap (λ l. l q) (sym (done-owes t.filter qs (view kh t.heap t.table) d) ∙ e);
      }
