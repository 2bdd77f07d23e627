-- ===== src/Logger/Threads/Progress.antt =====
-- No schedule of the threads gets stuck before its end: someone can always go on.
use distiller_fs.Prelude.{
  Text, zero, map, ℕ, suc, ◌+◌, ◌≤◌, ◌≡◌, refl, ap, ◌∙◌, arith, ◌⊎◌, inl, inr, List, [], ◌∷◌, All,
  some, true, false, Bool-cases,
}
use distiller_fs.Khash.{Khash, KhashLaws}
use distiller_fs.Hash.{hash_find}
use distiller_fs.Logger.{State, lock, unlock, record_event}
use distiller_fs.Logger.Invariant.{view}
use distiller_fs.Logger.Accounts.{Sound}
use distiller_fs.Logger.Events.{record_event-Recorded}
use distiller_fs.Logger.Store.{passes-Assigned, Assigned, chosen}
use distiller_fs.Logger.Ready.{Roomy, Ready}
use distiller_fs.Logger.Threads.{
  Call, Steps, stay, step, Phase, idle, waiting, holding, looked, leaving, Move, refuse, ask,
  acquire, look, count_it, release, Step, here, there,
}
use distiller_fs.Logger.Threads.Measures.{inside, holders, left, work, taken, Found}
use distiller_fs.Logger.Threads.Safety.{Safe, Step-Safe}
use distiller_fs.Logger.Threads.Schedules.{AllDone}

module _ (kh : Khash) (laws : KhashLaws kh) {W : Type 0} (temps : List ℕ)
    (s : State kh.Table W) where
  -- A step of some thread.
  abbrev pub CanMove : Phase → Type 0
  CanMove p = (t : State kh.Table W) × (q : Phase) × Move kh s p t q

  abbrev pub CanStep : List Phase → Type 0
  CanStep ps = (t : State kh.Table W) × (qs : List Phase) × Step kh s ps t qs

  first-CanStep : (p : Phase) (ps : List Phase) → CanMove p → CanStep (p ∷ ps)
  first-CanStep p ps (t, q, m) = (t, q ∷ ps, here m)

  later-CanStep : (p : Phase) (ps : List Phase) → CanStep ps → CanStep (p ∷ ps)
  later-CanStep p ps (t, qs, m) = (t, p ∷ qs, there m)

  lock-free : s.locked ≡ false → lock s ≡ some (tt, record s { locked = true })
  lock-free free = ground (arith, free)

  unlock-taken : s.locked ≡ true → unlock s ≡ some (tt, record s { locked = false })
  unlock-taken is_taken = ground (arith, is_taken)

  asking-CanMove :
      (path : Text) (flag : ℕ) (calls : List Call)
      → Assigned s.filter
      → CanMove (idle ((path, flag) ∷ calls))
  asking-CanMove path flag calls a =
      let verdict = passes-Assigned s.filter path a in
      elim (Bool-cases (chosen s.filter path)) [
        | inl goes ↦ (s, waiting path flag calls, ask (verdict ∙ ap some goes))
        | inr stops ↦ (s, idle calls, refuse (verdict ∙ ap some stops))
      ]

  -- While the mutex is free, a thread that is not inside goes on, unless it has nothing to do.
  outside-CanMove :
      (p : Phase) → s.locked ≡ false → Assigned s.filter → inside p ≡ 0 → (p ≡ idle []) ⊎ CanMove p
  outside-CanMove (idle []) free a e = inl refl
  outside-CanMove (idle ((path, flag) ∷ calls)) free a e = inr (asking-CanMove path flag calls a)
  outside-CanMove (waiting path flag calls) free a e =
      inr (record s { locked = true }, holding path flag calls, acquire (lock-free free))
  outside-CanMove (holding path flag calls) free a e = absurd (omega (arith, e))
  outside-CanMove (looked path flag found calls) free a e = absurd (omega (arith, e))
  outside-CanMove (leaving calls) free a e = absurd (omega (arith, e))

  free-CanStep :
      (ps : List Phase)
      → s.locked ≡ false
      → Assigned s.filter
      → holders ps ≡ 0
      → AllDone ps ⊎ CanStep ps
  free-CanStep [] free a e = inl tt
  free-CanStep (p ∷ ps) free a e = elim (outside-CanMove p free a (omega (arith, e))) [
    | inr m ↦ inr (first-CanStep p ps m)
    | inl done ↦ elim (free-CanStep ps free a (omega (arith, e))) [
      | inl rest ↦ inl (done, rest)
      | inr m ↦ inr (later-CanStep p ps m)
    ]
  ]

  -- The thread inside goes on while the mutex is taken.
  inside-CanMove :
      (p : Phase)
      → s.locked ≡ true
      → Sound kh temps s.heap s.table
      → Found kh s.table p
      → kh.Fits (left (p ∷ [])) s.table
      → Roomy (left (p ∷ [])) (view kh s.heap s.table)
      → (inside p ≡ 0) ⊎ CanMove p
  inside-CanMove (idle calls) is_taken v f fits room = inl refl
  inside-CanMove (waiting path flag calls) is_taken v f fits room = inl refl
  inside-CanMove (holding path flag calls) is_taken v f fits room =
      inr (s, looked path flag (hash_find kh s.table path) calls, look)
  inside-CanMove (looked path flag found calls) is_taken v f fits room =
      let c =
        record_event-Recorded kh laws path flag temps s v
          (laws.fits-le 1 _ s.table (omega arith) fits) (omega (arith, room path)) in
      inr (
        record s { heap = c.heap; table = c.table },
        leaving calls,
        count_it (ap (λ (x : ℕ). record_event kh path flag x s) f ∙ c.run),
      )
  inside-CanMove (leaving calls) is_taken v f fits room =
      inr (record s { locked = false }, idle calls, release (unlock-taken is_taken))

  inside-Goes :
      (p : Phase)
      → inside p ≡ 1
      → s.locked ≡ true
      → Sound kh temps s.heap s.table
      → Found kh s.table p
      → kh.Fits (left (p ∷ [])) s.table
      → Roomy (left (p ∷ [])) (view kh s.heap s.table)
      → (p ≡ idle []) ⊎ CanMove p
  inside-Goes p one is_taken v f fits room = elim (inside-CanMove p is_taken v f fits room) [
    | inl outside ↦ absurd (omega (arith, one, outside))
    | inr m ↦ inr m
  ]

  taken-CanStep :
      (ps : List Phase)
      → s.locked ≡ true
      → Sound kh temps s.heap s.table
      → All (Found kh s.table) ps
      → kh.Fits (left ps) s.table
      → Roomy (left ps) (view kh s.heap s.table)
      → 1 ≤ holders ps
      → CanStep ps
  taken-CanStep [] is_taken v fs fits room one = absurd (omega (arith, one))
  taken-CanStep (p ∷ ps) is_taken v fs fits room one =
      let fits_first = laws.fits-le (left (p ∷ [])) (left (p ∷ ps)) s.table (omega arith) fits in
      elim (inside-CanMove p is_taken v fs.0 fits_first (λ q. omega (arith, room q))) [
        | inr m ↦ first-CanStep p ps m
        | inl outside ↦ later-CanStep p ps (
            taken-CanStep ps is_taken v fs.1
              (laws.fits-le (left ps) (left (p ∷ ps)) s.table (omega arith) fits)
              (λ q. omega (arith, room q)) (omega (arith, one, outside)))
      ]

  -- A thread has made all its calls, or waits while the mutex is taken, or can make a step.
  abbrev pub Goes : Phase → Type 0
  Goes (waiting path flag calls) =
      (s.locked ≡ true)
      ⊎ ((t : State kh.Table W) × (q : Phase) × Move kh s (waiting path flag calls) t q)
  Goes p = (p ≡ idle []) ⊎ ((t : State kh.Table W) × (q : Phase) × Move kh s p t q)

  thread-Goes :
      (p : Phase)
      → Assigned s.filter
      → inside p ≤ taken s.locked
      → Sound kh temps s.heap s.table
      → Found kh s.table p
      → kh.Fits (left (p ∷ [])) s.table
      → Roomy (left (p ∷ [])) (view kh s.heap s.table)
      → Goes p
  thread-Goes (idle []) a le v f fits room = inl refl
  thread-Goes (idle ((path, flag) ∷ calls)) a le v f fits room =
      inr (asking-CanMove path flag calls a)
  thread-Goes (waiting path flag calls) a le v f fits room = elim (Bool-cases s.locked) [
    | inl is_taken ↦ inl is_taken
    | inr free ↦ inr (record s { locked = true }, holding path flag calls, acquire (lock-free free))
  ]
  thread-Goes (holding path flag calls) a le v f fits room =
      inside-Goes (holding path flag calls) refl (ground (arith, le)) v f fits room
  thread-Goes (looked path flag found calls) a le v f fits room =
      inside-Goes (looked path flag found calls) refl (ground (arith, le)) v f fits room
  thread-Goes (leaving calls) a le v f fits room =
      inside-Goes (leaving calls) refl (ground (arith, le)) v f fits room

  threads-Goes :
      (ps : List Phase)
      → Assigned s.filter
      → holders ps ≤ taken s.locked
      → Sound kh temps s.heap s.table
      → All (Found kh s.table) ps
      → kh.Fits (left ps) s.table
      → Roomy (left ps) (view kh s.heap s.table)
      → All Goes ps
  threads-Goes [] a le v fs fits room = tt
  threads-Goes (p ∷ ps) a le v fs fits room = (
    thread-Goes p a (omega (arith, le)) v fs.0
        (laws.fits-le (left (p ∷ [])) (left (p ∷ ps)) s.table (omega arith) fits)
        (λ q. omega (arith, room q)),
    threads-Goes ps a (omega (arith, le)) v fs.1
        (laws.fits-le (left ps) (left (p ∷ ps)) s.table (omega arith) fits)
        (λ q. omega (arith, room q)),
  )

  some_step : (ps : List Phase) → Safe kh laws temps s ps → AllDone ps ⊎ CanStep ps
  some_step ps v = elim (Bool-cases s.locked) [
    | inl is_taken ↦
        let one : 1 ≤ holders ps = ground (arith, v.mutex, is_taken) in
        inr (taken-CanStep ps is_taken v.sound v.found v.fits v.roomy one)
    | inr free ↦
        let none_inside : holders ps ≡ 0 = ground (arith, v.mutex, free) in
        free-CanStep ps free v.assigned none_inside
  ]

-- The number of steps of a schedule.
abbrev pub steps :
    {kh : Khash} {W : Type 0} {s : State kh.Table W} {ps : List Phase} {t : State kh.Table W}
    {qs : List Phase}
    → Steps kh s ps t qs
    → ℕ
steps stay = 0
steps (step before m) = suc (steps before)

module _ (kh : Khash) (laws : KhashLaws kh) {W : Type 0} (temps : List ℕ) where
  -- What holds behind any schedule: its length is bounded by the work, every thread has made all its
  -- calls or can make a step unless it waits for the mutex that another one has, and one of them can
  -- where not all are done.
  pub record GoesOn (s : State kh.Table W) (ps : List Phase) (n : ℕ) (t : State kh.Table W)
      (qs : List Phase) : Type 0 where
    pub bounded : n + work qs ≤ work ps
    pub safe : Safe kh laws temps t qs
    pub threads : All (Goes kh laws temps t) qs
    pub onward : AllDone qs ⊎ CanStep kh laws temps t qs

  schedule :
      (s : State kh.Table W) (ps : List Phase) (t : State kh.Table W) (qs : List Phase)
      → Safe kh laws temps s ps
      → (x : Steps kh s ps t qs) → Safe kh laws temps t qs × (steps x + work qs ≤ work ps)
  schedule s ps t qs v stay = (v, omega arith)
  schedule s ps u rs v (step {t = t} {qs = qs} x m) =
      let (w, le) = schedule s ps t qs v x in
      let (w', _, less) = Step-Safe kh laws temps t u qs rs w m in (w', omega (arith, le, less))

  -- From a safe state, every schedule, however it chose its steps so far, has at most `work ps` of them,
  -- so that none is without end; and wherever it is, each thread has made all its calls, or waits for
  -- the mutex while it is taken, or can make a step, which does not fault; one of them can, unless all
  -- are done.
  pub Safe-CanStep :
      (s : State kh.Table W) (ps : List Phase) (t : State kh.Table W) (qs : List Phase)
      → Safe kh laws temps s ps
      → (x : Steps kh s ps t qs) → GoesOn s ps (steps x) t qs
  Safe-CanStep s ps t qs v x =
      let (w, le) = schedule s ps t qs v x in
      record {
        bounded = le;
        safe = w;
        threads =
            threads-Goes kh laws temps t qs w.assigned (omega (arith, w.mutex)) w.sound w.found
              w.fits w.roomy;
        onward = some_step kh laws temps t qs w;
      }

idle_holders : (calls : List (List Call)) → holders (map idle calls) ≡ 0
idle_holders [] = refl
idle_holders (c ∷ calls) = omega (arith, idle_holders calls)

idle_Found :
    (kh : Khash) (t : kh.Table) (calls : List (List Call)) → All (Found kh t) (map idle calls)
idle_Found kh t [] = tt
idle_Found kh t (c ∷ calls) = (tt, idle_Found kh t calls)

module _ (kh : Khash) (laws : KhashLaws kh) {W : Type 0} (temps : List ℕ) where
  -- A schedule that goes on to the end.
  pub go_on :
      (n : ℕ) (s : State kh.Table W) (ps : List Phase) (t : State kh.Table W) (qs : List Phase)
      → Steps kh s ps t qs
      → Safe kh laws temps t qs
      → work qs ≤ n
      → (u : State kh.Table W) × (rs : List Phase) × Steps kh s ps u rs × AllDone rs
  go_on zero s ps t qs before v few = elim (some_step kh laws temps t qs v) [
    | inl done ↦ (t, qs, before, done)
    | inr (u, rs, m) ↦
        let (_, _, less) = Step-Safe kh laws temps t u qs rs v m in
        absurd (omega (arith, few, less))
  ]
  go_on (suc n) s ps t qs before v few = elim (some_step kh laws temps t qs v) [
    | inl done ↦ (t, qs, before, done)
    | inr (u, rs, m) ↦
        let (w, _, less) = Step-Safe kh laws temps t u qs rs v m in
        go_on n s ps u rs (step before m) w (omega (arith, few, less))
  ]

  -- Threads that have not begun, from a state between two operations.
  pub Ready-Safe :
      (s : State kh.Table W) (calls : List (List Call))
      → Ready kh temps (left (map idle calls)) s
      → Safe kh laws temps s (map idle calls)
  Ready-Safe s calls r = record {
    sound = r.sound;
    assigned = r.assigned;
    mutex = ground (arith, r.unlocked, idle_holders calls);
    found = idle_Found kh s.table calls;
    roomy = r.roomy;
    fits = r.fits;
  }
