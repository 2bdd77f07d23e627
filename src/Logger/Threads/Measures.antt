-- ===== src/Logger/Threads/Measures.antt =====
-- What is counted of threads: those inside the mutex, the calls and the steps that are left; and what
-- a thread knows of the hash.
use distiller_fs.Prelude.{
  ℕ, suc, ◌+◌, ◌*◌, ◌≡◌, refl, arith, inl, inr, List, [], ◌∷◌, length, All, Option, none, some,
  Bool, true, false, Bool-cases, if◌then◌else◌,
}
use distiller_fs.Khash.{Khash}
use distiller_fs.Hash.{hash_find}
use distiller_fs.Filter.{FilterDesc}
use distiller_fs.Logger.{State, lock, unlock}
use distiller_fs.Logger.View.{tally}
use distiller_fs.Logger.Threads.{Call, Phase, idle, waiting, holding, looked, leaving}
use distiller_fs.Logger.Threads.Order.{Log, owes, owes-tally}

-- Whether a thread is between the lock and the unlock, and how many are.
abbrev pub inside : Phase → ℕ
inside (idle calls) = 0
inside (waiting path flag calls) = 0
inside (holding path flag calls) = 1
inside (looked path flag found calls) = 1
inside (leaving calls) = 1

abbrev pub holders : List Phase → ℕ
holders [] = 0
holders (p ∷ ps) = inside p + holders ps

-- The calls that can still reach the hash, and a bound for the steps that are left.
abbrev left_of : Phase → ℕ
left_of (idle calls) = length calls
left_of (waiting path flag calls) = suc (length calls)
left_of (holding path flag calls) = suc (length calls)
left_of (looked path flag found calls) = suc (length calls)
left_of (leaving calls) = length calls

abbrev pub left : List Phase → ℕ
left [] = 0
left (p ∷ ps) = left_of p + left ps

abbrev work_of : Phase → ℕ
work_of (idle calls) = 5 * length calls
work_of (waiting path flag calls) = 5 * length calls + 4
work_of (holding path flag calls) = 5 * length calls + 3
work_of (looked path flag found calls) = 5 * length calls + 2
work_of (leaving calls) = 5 * length calls + 1

abbrev pub work : List Phase → ℕ
work [] = 0
work (p ∷ ps) = work_of p + work ps

abbrev pub taken : Bool → ℕ
taken b = if b then 1 else 0

-- An event that a step adds to the log, if it does.
abbrev pub add : Option Call → Log → Log
add none log = log
add (some (path, flag)) log = tally path flag log

-- What was to be done before it, where so much is to be done after it.
abbrev pub with_event : Option Call → ℕ → ℕ
with_event none n = n
with_event (some _) n = suc n

pub owes-add :
    (d : FilterDesc) (p : Phase) (a : Option Call) (log : Log)
    → owes d p (add a log) ≡ add a (owes d p log)
owes-add d p none log = refl
owes-add d p (some (path, flag)) log = owes-tally d p path flag log

module _ {T W : Type 0} where
  pub lock-inv :
      (s t : State T W)
      → lock s ≡ some (tt, t)
      → (s.locked ≡ false) × (record s { locked = true } ≡ t)
  lock-inv s t e = elim (Bool-cases s.locked) [
    | inl taken ↦ absurd (ground (arith, e, taken))
    | inr free ↦ (free, ground (arith, e, free))
  ]

  pub unlock-inv :
      (s t : State T W)
      → unlock s ≡ some (tt, t)
      → (s.locked ≡ true) × (record s { locked = false } ≡ t)
  unlock-inv s t e = elim (Bool-cases s.locked) [
    | inl taken ↦ (taken, ground (arith, e, taken))
    | inr free ↦ absurd (ground (arith, e, free))
  ]

module _ (kh : Khash) where
  -- What a thread found is what it would find now.
  abbrev pub Found : kh.Table → Phase → Type 0
  Found t (looked path flag found calls) = found ≡ hash_find kh t path
  Found t p = Unit {0}

  pub Found-outside : (t u : kh.Table) (p : Phase) → inside p ≡ 0 → Found t p → Found u p
  Found-outside t u (idle calls) e f = tt
  Found-outside t u (waiting path flag calls) e f = tt
  Found-outside t u (holding path flag calls) e f = tt
  Found-outside t u (looked path flag found calls) e f = absurd (omega (arith, e))
  Found-outside t u (leaving calls) e f = tt

  pub All-outside :
      (t u : kh.Table) (ps : List Phase) → holders ps ≡ 0 → All (Found t) ps → All (Found u) ps
  All-outside t u [] e f = tt
  All-outside t u (p ∷ ps) e (f, fs) =
      (Found-outside t u p (omega (arith, e)) f, All-outside t u ps (omega (arith, e)) fs)
