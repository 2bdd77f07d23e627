-- ===== src/Logger/Threads/Effects.antt =====
-- What one step of the threads does: to the mutex, to the log, to the hash, and to the work that is
-- left.
use distiller_fs.Prelude.{
  ℕ, suc, ◌+◌, ◌≤◌, ◌<◌, ◌≡◌, refl, sym, ap, ◌∙◌, subst, arith, ◌⊎◌, inl, inr, Text, List, [], ◌∷◌,
  All, Option, none, some, Bool, true, false,
}
use distiller_fs.Khash.{Khash, KhashLaws}
use distiller_fs.Hash.{hash_find}
use distiller_fs.Logger.{State, record_event}
use distiller_fs.Logger.Invariant.{view}
use distiller_fs.Logger.View.{tally}
use distiller_fs.Logger.Accounts.{Sound}
use distiller_fs.Logger.Events.{Recorded, record_event-Recorded}
use distiller_fs.Logger.Store.{passes-chosen}
use distiller_fs.Logger.Ready.{Roomy, note-Roomy}
use distiller_fs.Logger.Threads.{
  Call, Phase, looked, leaving, Move, refuse, ask, acquire, look, count_it, release,
}
use distiller_fs.Logger.Threads.Order.{Log, owes, all_owe}
use distiller_fs.Logger.Threads.Measures.{
  holders, left, work, inside, taken, add, with_event, Found, lock-inv, unlock-inv,
}

tally-Roomy :
    (path : Text) (flag n : ℕ) (log : Log) → Roomy (suc n) log → Roomy n (tally path flag log)
tally-Roomy path flag n log r = note-Roomy true path flag n log r

module _ (kh : Khash) (laws : KhashLaws kh) {W : Type 0} (temps : List ℕ) where
  same_end : {a b : ℕ × State kh.Table W} → some a ≡ some b → a.1 ≡ b.1
  same_end {a} e =
      ap (λ (r : Option (ℕ × State kh.Table W)). elim r [ none ↦ a.1 | some c ↦ c.1 ]) e

  -- From the state `s` and the threads `ps` to `t` and `qs`: at most one event is added to the log, and
  -- is then no longer owed.
  pub record Effect (s : State kh.Table W) (ps : List Phase) (t : State kh.Table W)
      (qs : List Phase) : Type 0 where
    pub event : Option Call
    pub shows : (q : Text) → view kh t.heap t.table q ≡ add event (view kh s.heap s.table) q
    pub owed : (log : Log) → all_owe s.filter qs (add event log) ≡ all_owe s.filter ps log
    pub mutex : holders qs + taken s.locked ≡ holders ps + taken t.locked
    pub fewer : with_event event (left qs) ≤ left ps
    pub sound : Sound kh temps t.heap t.table
    pub fits : (n : ℕ) → kh.Fits (with_event event n) s.table → kh.Fits n t.table
    pub roomy :
        (n : ℕ)
        → Roomy (with_event event n) (view kh s.heap s.table)
        → Roomy n (view kh t.heap t.table)
    pub same_filter : t.filter ≡ s.filter
    -- only a thread inside changes the table
    pub by : (t.table ≡ s.table) ⊎ (1 ≤ holders ps)
    pub found : All (Found kh t.table) qs
    pub less : work qs < work ps

  module _ (s : State kh.Table W) (v : Sound kh temps s.heap s.table) where
    -- A step that leaves the log alone.
    quiet :
        (p q : Phase) (b : Bool)
        → ((log : Log) → owes s.filter q log ≡ owes s.filter p log)
        → inside q + taken s.locked ≡ inside p + taken b
        → left (q ∷ []) ≤ left (p ∷ [])
        → Found kh s.table q
        → work (q ∷ []) < work (p ∷ [])
        → Effect s (p ∷ []) (record s { locked = b }) (q ∷ [])
    quiet p q b same mutex fewer found less = record {
      event = none;
      shows = λ r. refl;
      owed = same;
      mutex = omega (arith, mutex);
      fewer = omega (arith, fewer);
      sound = v;
      fits = λ n f. f;
      roomy = λ n r. r;
      same_filter = refl;
      by = inl refl;
      found = (found, tt);
      less = less;
    }

    counted :
        (path : Text) (flag : ℕ) (calls : List Call)
        → (c : Recorded kh laws path flag temps s)
        → Effect s
            (looked path flag (hash_find kh s.table path) calls ∷ [])
            (record s { heap = c.heap; table = c.table })
            (leaving calls ∷ [])
    counted path flag calls c = record {
      event = some (path, flag);
      shows = c.shows;
      owed = λ log. refl;
      mutex = omega arith;
      fewer = omega arith;
      sound = c.sound;
      fits = c.fits;
      roomy = λ n r q. rw (c.shows q) (tally-Roomy path flag n (view kh s.heap s.table) r q);
      same_filter = refl;
      by = inr (omega arith);
      found = (tt, tt);
      less = omega arith;
    }

  -- One step of a thread, from a state with no event too many for the counts and the hash.
  pub Move-Effect :
      (s t : State kh.Table W) (p q : Phase)
      → Sound kh temps s.heap s.table
      → Found kh s.table p
      → kh.Fits (left (p ∷ [])) s.table
      → Roomy (left (p ∷ [])) (view kh s.heap s.table)
      → Move kh s p t q
      → Effect s (p ∷ []) t (q ∷ [])
  Move-Effect s t p q v f fits room (refuse {path} {flag} {calls} stops) =
      quiet s v p q s.locked (λ log. rw (passes-chosen s.filter path false stops) refl)
        (omega arith) (omega arith) tt (omega arith)
  Move-Effect s t p q v f fits room (ask {path} {flag} {calls} goes) =
      quiet s v p q s.locked (λ log. rw (passes-chosen s.filter path true goes) refl) (omega arith)
        (omega arith) tt (omega arith)
  Move-Effect s t p q v f fits room (acquire {path} {flag} {calls} e) =
      let (was, is) = lock-inv s t e in
      subst (λ u. Effect s (p ∷ []) u (q ∷ [])) is
        (quiet s v p q true (λ log. refl) (ground (arith, was)) (omega arith) tt (omega arith))
  Move-Effect s t p q v f fits room (look {path} {flag} {calls}) =
      quiet s v p q s.locked (λ log. refl) (omega arith) (omega arith) refl (omega arith)
  Move-Effect s t p q v f fits room (release {calls} e) =
      let (was, is) = unlock-inv s t e in
      subst (λ u. Effect s (p ∷ []) u (q ∷ [])) is
        (quiet s v p q false (λ log. refl) (ground (arith, was)) (omega arith) tt (omega arith))
  Move-Effect s t p q v f fits room (count_it {path} {flag} {found} {n} {calls} e) =
      let c =
        record_event-Recorded kh laws path flag temps s v
          (laws.fits-le 1 _ s.table (omega arith) fits) (omega (arith, room path)) in
      let run = subst (λ x. record_event kh path flag x s ≡ some (n, t)) f e in
      let is : record s { heap = c.heap; table = c.table } ≡ t = same_end (sym c.run ∙ run) in
      subst (λ u. Effect s (p ∷ []) u (q ∷ [])) is
        (subst
          (λ x.
            Effect s (looked path flag x calls ∷ []) (record s { heap = c.heap; table = c.table })
              (q ∷ []))
          (sym f) (counted s v path flag calls c))
