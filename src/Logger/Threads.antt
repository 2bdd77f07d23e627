-- ===== src/Logger/Threads.antt =====
-- Threads that call `Store_In_Hash` at the same time, step by step: the tests of the filter, the wait
-- for `prmutex`, `Hash_Find`, what follows it, and the release. FUSE runs handlers in several threads.
pub mod Order
pub mod Measures
pub mod Effects
pub mod Safety
pub mod Schedules
pub mod Progress
use distiller_fs.Prelude.{
  ℕ, Text, List, ◌∷◌, ◌≡◌, Option, none, some, Bool, true, false, not, if◌then◌else◌,
}
use distiller_fs.Khash.{Khash}
use distiller_fs.Hash.{hash_find}
use distiller_fs.Filter.{FilterDesc, is_included, is_excluded}
use distiller_fs.Logger.{passes, State, lock, unlock, record_event}

-- The arguments of a call: the path and the flag.
abbrev pub Call : Type 0
Call = Text × ℕ

-- Where a thread is, with the calls that it has not begun.
pub data Phase : Type 0 where
  idle : List Call → Phase
  -- before `pthread_mutex_lock`
  waiting : Text → ℕ → List Call → Phase
  -- before `Hash_Find`
  holding : Text → ℕ → List Call → Phase
  -- behind it, with its result
  looked : Text → ℕ → ℕ → List Call → Phase
  -- before `pthread_mutex_unlock`
  leaving : List Call → Phase

module _ (kh : Khash) {W : Type 0} where
  -- One step of one thread. A thread that waits cannot go on while the mutex is taken.
  pub data Move (s : State kh.Table W) : Phase → State kh.Table W → Phase → Type 0 where
    refuse :
        {path : Text} {flag : ℕ} {calls : List Call}
        → passes s.filter path ≡ some false
        → Move s (idle ((path, flag) ∷ calls)) s (idle calls)
    ask :
        {path : Text} {flag : ℕ} {calls : List Call}
        → passes s.filter path ≡ some true
        → Move s (idle ((path, flag) ∷ calls)) s (waiting path flag calls)
    acquire :
        {path : Text} {flag : ℕ} {calls : List Call} {t : State kh.Table W}
        → lock s ≡ some (tt, t)
        → Move s (waiting path flag calls) t (holding path flag calls)
    look :
        {path : Text} {flag : ℕ} {calls : List Call}
        → Move s (holding path flag calls) s (looked path flag (hash_find kh s.table path) calls)
    count_it :
        {path : Text} {flag found n : ℕ} {calls : List Call} {t : State kh.Table W}
        → record_event kh path flag found s ≡ some (n, t)
        → Move s (looked path flag found calls) t (leaving calls)
    release :
        {calls : List Call} {t : State kh.Table W}
        → unlock s ≡ some (tt, t)
        → Move s (leaving calls) t (idle calls)

  -- One step of any thread of a list, and any number of them in any order.
  pub data Step (s : State kh.Table W) : List Phase → State kh.Table W → List Phase → Type 0 where
    here :
        {p p' : Phase} {t : State kh.Table W} {ps : List Phase}
        → Move s p t p'
        → Step s (p ∷ ps) t (p' ∷ ps)
    there :
        {p : Phase} {t : State kh.Table W} {ps ps' : List Phase}
        → Step s ps t ps'
        → Step s (p ∷ ps) t (p ∷ ps')

  pub data Steps (s : State kh.Table W) (ps : List Phase)
      : State kh.Table W → List Phase → Type 0 where
    stay : Steps s ps s ps
    step :
        {t u : State kh.Table W} {qs rs : List Phase}
        → Steps s ps t qs
        → Step t qs u rs
        → Steps s ps u rs
