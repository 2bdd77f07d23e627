-- ===== src/Handlers/Calls.antt =====
-- What one step of a handler does to a ready state: borrowing a string, a system call on it, giving
-- it back, and the log. `Ends` states how a run ends, and `step` puts the steps in sequence.
use distiller_fs.Prelude.{
  ◌*◌, ◌/◌, ◌+◌, ◌<◌, ◌≤◌, ltb, pos, ◌⊎◌, ◌%◌, ◌^◌, ◌-◌, ◌==◌, Bool-cases, inl, inr, ℕ, Text,
  Option, some, none, ◌≡◌, refl, ap, subst, sym, ◌∙◌, List, ◌∷◌, Bool, false, ℤ, negate, arith, Run,
  pure, ◌>>=◌, bind_some,
}
use distiller_fs.Ops.{log_success, log_unsuccess}
use distiller_fs.Khash.{Khash}
use distiller_fs.Memory
use distiller_fs.Memory.{Heap, text}
use distiller_fs.Posix.{Outcome, done, failed}
use distiller_fs.Logger.{State, load, free, relative, get_relative_path}
use distiller_fs.Logger.Invariant.{Entry, view}
use distiller_fs.Logger.Accounts.{alloc-Sound, free-Sound}
use distiller_fs.Logger.Frames.{view-alloc, view-free}
use distiller_fs.Logger.Ready.{Ready}
use distiller_fs.Handlers.{Reply, int_of, narrowed, errno_after, sys, sys_at, fail}

-- The state with another memory and log, mutex, file system and error number.
abbrev pub set : {T W : Type 0} → State T W → Heap → T → Bool → W → ℕ → State T W
set s h t l w e = record s { heap = h; table = t; locked = l; world = w; errno = e }

-- The filter state that an outcome belongs to, and the handler's result.
abbrev pub state_of {ℓ} : {A : Type ℓ} → Outcome A → ℕ
state_of (done _) = log_success
state_of (failed _) = log_unsuccess

-- The `int` that a size becomes is the size up to a multiple of `2 ^ 32`, from `- 2 ^ 31` on and below
-- `2 ^ 31`.
abbrev pub IsInt : ℕ → ℤ → Type 0
IsInt n z =
    ((k : ℕ) × (r : ℕ) × (z ≡ pos r) × (n ≡ k * 2 ^ 32 + r) × (r < 2 ^ 31))
    ⊎ ((k : ℕ) × (m : ℕ) × (z ≡ negate m) × (n + m ≡ k * 2 ^ 32) × (1 ≤ m) × (m ≤ 2 ^ 31))

pub int_of-IsInt : (n : ℕ) → IsInt n (int_of n)
int_of-IsInt n = elim (Bool-cases (ltb (n % 2 ^ 32) (2 ^ 31))) [
  | inl small ↦ inl (n / 2 ^ 32, n % 2 ^ 32, rw small refl, omega arith, ground (arith, small))
  | inr large ↦
      let high : 2 ^ 31 ≤ n % 2 ^ 32 = ground (arith, large) in
      inr (
        n / 2 ^ 32 + 1,
        2 ^ 32 - n % 2 ^ 32,
        rw large refl,
        omega (arith, high),
        omega (arith, high),
        omega (arith, high),
      )
]

-- The filter state of a size that goes into an `int`.
abbrev pub sized_state : {A : Type 0} → (A → ℕ) → Outcome A → ℕ
sized_state size o = state_of (narrowed size 0 o)

pub sized_state_lem :
    {A : Type 0} (size : A → ℕ) (e : ℕ) (o : Outcome A)
    → state_of (narrowed size e o) ≡ sized_state size o
sized_state_lem size e (failed m) = refl
sized_state_lem size e (done a) = elim (Bool-cases (size a % 2 ^ 32 == 2 ^ 32 - 1)) [
  | inl same ↦ rw same refl
  | inr other ↦ rw other refl
]

-- The error number is that of a failure, also of one that a size is taken for.
pub errno_after-narrowed :
    {A : Type 0} (size : A → ℕ) (e old : ℕ) (o : Outcome A)
    → e ≡ errno_after o old
    → e ≡ errno_after (narrowed size e o) e
errno_after-narrowed size e old (failed m) known = known
errno_after-narrowed size e old (done a) known = elim (Bool-cases (size a % 2 ^ 32 == 2 ^ 32 - 1)) [
  | inl same ↦ rw same refl
  | inr other ↦ rw other refl
]

abbrev pub answer : {A : Type 0} → (A → ℤ) → Outcome A → Reply A
answer value (done a) = (value a, some a)
answer value (failed e) = (negate e, none)

module _ (kh : Khash) {W : Type 0} where
  -- The run ends without a fault, in this value, file system and error number, with this log, and
  -- ready for `n` more events with the strings `temps` borrowed.
  pub record Ends {A : Type 0} (m : Run (State kh.Table W) A) (s : State kh.Table W)
      (temps : List ℕ) (n : ℕ) (a : A) (w : W) (e : ℕ) (log : Text → Option Entry) : Type 0 where
    pub heap : Heap
    pub table : kh.Table
    pub run : m s ≡ some (a, set s heap table false w e)
    pub ready : Ready kh temps n (set s heap table false w e)
    pub shows : (q : Text) → view kh heap table q ≡ log q

  pub step :
      {A B : Type 0} (m : Run (State kh.Table W) A) (f : A → Run (State kh.Table W) B)
      (s : State kh.Table W) (h : Heap) (t : kh.Table) (l : Bool) (w : W) (e : ℕ) {a : A} {b : B}
      {temps : List ℕ} {n : ℕ} {w' : W} {e' : ℕ} {log : Text → Option Entry}
      → m s ≡ some (a, set s h t l w e)
      → Ends (f a) (set s h t l w e) temps n b w' e' log
      → Ends (m >>= f) s temps n b w' e' log
  step m f s h t l w e run rest = record {
    heap = rest.heap;
    table = rest.table;
    run = bind_some m f s run ∙ rest.run;
    ready = rest.ready;
    shows = rest.shows;
  }

  -- A step whose value is not looked at.
  pub step_ :
      {A B : Type 0} (m : Run (State kh.Table W) A) (s : State kh.Table W)
      {k : Run (State kh.Table W) B} {h : Heap} {t : kh.Table} {l : Bool} {w : W} {e : ℕ} {a : A}
      {b : B} {temps : List ℕ} {n : ℕ} {w' : W} {e' : ℕ} {log : Text → Option Entry}
      → m s ≡ some (a, set s h t l w e)
      → Ends k (set s h t l w e) temps n b w' e' log
      → Ends (m >>= λ _. k) s temps n b w' e' log
  step_ m s {k} run rest = step m (λ _. k) s _ _ _ _ _ run rest

  -- The ends of a handler, after the log.
  module _ {temps : List ℕ} {n : ℕ} {log : Text → Option Entry} (s : State kh.Table W) (h : Heap)
      (t : kh.Table) (w : W) (e : ℕ) (r : Ready kh temps n (set s h t false w e))
      (shows : (q : Text) → view kh h t q ≡ log q) where
    pub pure-Ends : {A : Type 0} (a : A) → Ends (pure a) (set s h t false w e) temps n a w e log
    pure-Ends a = record { heap = h; table = t; run = refl; ready = r; shows = shows }

    pub fail-Ends :
        {A : Type 0} (m : ℕ)
        → e ≡ m
        → Ends (fail {A = A}) (set s h t false w e) temps n (negate m, none) w e log
    fail-Ends m known = record {
      heap = h;
      table = t;
      run = ap (λ x. some ((negate x, none), set s h t false w e)) known;
      ready = r;
      shows = shows;
    }

  module _ (temps : List ℕ) (n : ℕ) (s : State kh.Table W) where
    -- After `getRelativePath`.
    abbrev pub borrowed : Text → Heap
    borrowed path = (Memory.alloc (text (relative path)) s.heap).1

    pub get_relative_path-borrowed :
        (path : Text)
        → get_relative_path path s
          ≡ some (s.heap.next, set s (borrowed path) s.table s.locked s.world s.errno)
    unfolding get_relative_path
    get_relative_path-borrowed path = refl

    -- The new string is borrowed, and a call finds the relative path in it.
    pub borrowed-Ready :
        (path : Text)
        → Ready kh temps n s
        → Ready kh (s.heap.next ∷ temps) n (set s (borrowed path) s.table s.locked s.world s.errno)
    borrowed-Ready path r = record {
      sound = alloc-Sound kh temps s.heap s.table (text (relative path)) refl r.sound;
      unlocked = r.unlocked;
      assigned = r.assigned;
      roomy = λ q.
          rw (view-alloc kh temps s.heap s.table (text (relative path)) refl q r.sound) (r.roomy q);
      fits = r.fits;
    }

    pub sys_at-done :
        {A : Type 0} (p : ℕ) (name : Text) (call : Text → W → Outcome A × W)
        → s.heap.block p ≡ some (text name)
        → let r = call name s.world in
          sys_at p call s ≡ some (r.0, set s s.heap s.table s.locked r.1 (errno_after r.0 s.errno))
    unfolding Memory.load_text
    sys_at-done p name call e =
        bind_some (load (Memory.load_text p)) (λ t. sys (call t)) s (ground arith)

    -- A system call leaves the log alone.
    pub sys-Ready :
        (w : W) (e : ℕ) → Ready kh temps n s → Ready kh temps n (set s s.heap s.table s.locked w e)
    sys-Ready w e r = record {
      sound = r.sound;
      unlocked = r.unlocked;
      assigned = r.assigned;
      roomy = r.roomy;
      fits = r.fits;
    }

    pub free-done :
        (p : ℕ)
        → Ready kh (p ∷ temps) n s
        → free p s ≡ some (tt, set s (Memory.released p s.heap) s.table s.locked s.world s.errno)
    free-done p r = ground (arith, (free-Sound kh temps s.heap s.table p r.sound).0)

    pub free-Ready :
        (p : ℕ)
        → Ready kh (p ∷ temps) n s
        → Ready kh temps n (set s (Memory.released p s.heap) s.table s.locked s.world s.errno)
    free-Ready p r = record {
      sound = (free-Sound kh temps s.heap s.table p r.sound).1;
      unlocked = r.unlocked;
      assigned = r.assigned;
      roomy = λ q. rw (view-free kh temps s.heap s.table p q r.sound) (r.roomy q);
      fits = r.fits;
    }

  pub Ends-log :
      {A : Type 0} {m : Run (State kh.Table W) A} {s : State kh.Table W} {temps : List ℕ} {n : ℕ}
      {a : A} {w : W} {e : ℕ} {log : Text → Option Entry} (log' : Text → Option Entry)
      → log ≡ log'
      → Ends m s temps n a w e log
      → Ends m s temps n a w e log'
  Ends-log log' same r = record {
    heap = r.heap;
    table = r.table;
    run = r.run;
    ready = r.ready;
    shows = λ q. r.shows q ∙ ap (λ l. l q) same;
  }

  -- The same end, for an equal run and error number.
  pub Ends-at :
      {A : Type 0} {s : State kh.Table W} {temps : List ℕ} {n : ℕ} {a : A} {w : W}
      {log : Text → Option Entry} (m m' : Run (State kh.Table W) A) (e e' : ℕ)
      → m ≡ m'
      → e' ≡ e
      → Ends m' s temps n a w e' log
      → Ends m s temps n a w e log
  Ends-at {s} {temps} {n} {a} {w} {log} m m' e e' same known r =
      subst (λ u. Ends u s temps n a w e log) (sym same)
        (subst (λ x. Ends m' s temps n a w x log) known r)
