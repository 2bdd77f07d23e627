-- ===== src/Logger/Ready.antt =====
-- The state between two operations, and the logging of one operation from it.
use distiller_fs.Prelude.{
  ℕ, suc, ◌+◌, ◌≤◌, Text, Option, some, ◌≡◌, refl, ap, List, arith, Bool, true, false, ◌&&◌,
  Bool-cases, bind_some, pure, inl, inr,
}
use distiller_fs.Ops.{FuseOp, flag}
use distiller_fs.Khash.{Khash, KhashLaws}
use distiller_fs.Memory.{Heap}
use distiller_fs.Logger.{State, int_max, store_in_hash, should_log, log_op}
use distiller_fs.Logger.Invariant.{Entry, view, bump}
use distiller_fs.Logger.Accounts.{Sound}
use distiller_fs.Logger.Events.{count_of, after}
use distiller_fs.Logger.Store.{Assigned, chosen, note, after_self, Stored, store_in_hash-Stored}

-- Every count can be raised `n` times.
abbrev pub Roomy : ℕ → (Text → Option Entry) → Type 0
Roomy n log = (q : Text) → count_of (log q) + n ≤ int_max

pub note-Roomy :
    (b : Bool) (path : Text) (flag n : ℕ) (log : Text → Option Entry)
    → Roomy (suc n) log
    → Roomy n (note b path flag log)
unfolding bump
note-Roomy b path flag n log h q = ground (arith, h q, h path)

-- The log is sound, with the borrowed strings `temps`; the mutex is free; the filter's arrays were
-- assigned in full; and `n` more events cannot overflow a count or fill the hash.
pub record Ready (kh : Khash) {W : Type 0} (temps : List ℕ) (n : ℕ) (s : State kh.Table W)
    : Type 0 where
  pub sound : Sound kh temps s.heap s.table
  pub unlocked : s.locked ≡ false
  pub assigned : Assigned s.filter
  pub roomy : Roomy n (view kh s.heap s.table)
  pub fits : kh.Fits n s.table

-- What is ready for an event can log one.
pub Ready-Stored :
    (kh : Khash) (laws : KhashLaws kh) {W : Type 0} (temps : List ℕ) (n : ℕ) (path : Text)
    (flag : ℕ) (s : State kh.Table W)
    → Ready kh temps (suc n) s
    → Stored kh laws path flag temps s
Ready-Stored kh laws temps n path flag s r =
    store_in_hash-Stored kh laws path flag temps s r.assigned r.sound
      (laws.fits-le 1 (suc n) s.table (omega arith) r.fits) r.unlocked (omega (arith, r.roomy path))

-- After `Store_In_Hash` there is room for one event less.
pub Stored-Ready :
    (kh : Khash) (laws : KhashLaws kh) {W : Type 0} (temps : List ℕ) (n : ℕ) (path : Text)
    (flag : ℕ) (s : State kh.Table W)
    → Ready kh temps (suc n) s
    → (c : Stored kh laws path flag temps s) → Ready kh temps n (after s c.heap c.table)
Stored-Ready kh laws temps n path flag s r c = record {
  sound = c.sound;
  unlocked = refl;
  assigned = r.assigned;
  roomy = λ q.
      rw (c.shows q)
        (note-Roomy (chosen s.filter path) path flag n (view kh s.heap s.table) r.roomy q);
  fits = c.fits n r.fits;
}

module _ (kh : Khash) (laws : KhashLaws kh) {W : Type 0} (temps : List ℕ) (n : ℕ) (op : FuseOp)
    (st : ℕ) (path : Text) where
  -- Whether the operation is counted: its filter selects this state, and the path is chosen.
  abbrev pub counts : State kh.Table W → Bool
  counts s = should_log s.op_flags op st && chosen s.filter path

  pub record Noted (s : State kh.Table W) : Type 0 where
    pub heap : Heap
    pub table : kh.Table
    pub run : log_op kh op st path s ≡ some (tt, after s heap table)
    pub ready : Ready kh temps n (after s heap table)
    pub shows :
        (q : Text)
        → view kh heap table q ≡ note (counts s) path (flag op) (view kh s.heap s.table) q

  Noted-Stored :
      (s : State kh.Table W)
      → Ready kh temps (suc n) s
      → should_log s.op_flags op st ≡ true
      → Stored kh laws path (flag op) temps s
      → Noted s
  unfolding log_op
  Noted-Stored s r logs c = record {
    heap = c.heap;
    table = c.table;
    run =
        rw logs
          (bind_some (store_in_hash kh s.filter (some path) (flag op)) (λ _. pure tt) s c.run);
    ready = Stored-Ready kh laws temps n path (flag op) s r c;
    shows = λ q. rw logs (c.shows q);
  }

  pub log_op-Noted : (s : State kh.Table W) → Ready kh temps (suc n) s → Noted s
  unfolding log_op
  log_op-Noted s r = elim (Bool-cases (should_log s.op_flags op st)) [
    | inl logs ↦ Noted-Stored s r logs (Ready-Stored kh laws temps n path (flag op) s r)
    | inr skips ↦ record {
      heap = s.heap;
      table = s.table;
      run = rw skips (ap (λ t. some (tt, t)) (after_self s r.unlocked));
      ready = record {
        sound = r.sound;
        unlocked = refl;
        assigned = r.assigned;
        roomy = λ q. omega (arith, r.roomy q);
        fits = laws.fits-le n (suc n) s.table (omega arith) r.fits;
      };
      shows = λ q. rw skips;
    }
  ]
