-- ===== src/Handlers/Kept.antt =====
-- What a call of FUSE through the table of src/distillerfs.c keeps: a ready state, and the log and the
-- file system of the reference.
use distiller_fs.Prelude.{
  ℕ, suc, ◌+◌, length, ◌≡◌, refl, arith, Text, List, [], Bool, true, false, some, Run, pure,
  bind_some, ◌>>◌, if◌then◌else◌,
}
use distiller_fs.Khash.{Khash, KhashLaws}
use distiller_fs.Posix.{Posix}
use distiller_fs.Logger.{State}
use distiller_fs.Logger.Invariant.{view}
use distiller_fs.Logger.Ready.{Ready}
use distiller_fs.Handlers.{S}
use distiller_fs.Handlers.Calls.{Ends}
use distiller_fs.Handlers.Operations.{given, through}
use distiller_fs.Handlers.Reference.{Event, Filters, replay}

module _ (kh : Khash) (laws : KhashLaws kh) {W : Type 0} where
  pub roomier :
      {temps : List ℕ} {n : ℕ} {s : State kh.Table W}
      → Ready kh temps (suc n) s
      → Ready kh temps n s
  roomier {n = n} {s = s} r = record {
    sound = r.sound;
    unlocked = r.unlocked;
    assigned = r.assigned;
    roomy = λ q. omega (arith, r.roomy q);
    fits = laws.fits-le n (suc n) s.table (omega arith) r.fits;
  }

module _ (kh : Khash) (laws : KhashLaws kh) (px : Posix) (B : Type 0) where
  abbrev pub filters : S kh px → Filters
  filters s = record { paths = s.filter; ops = s.op_flags }

  -- The run ends without a fault, ready for `n` more events and with `k` more strings borrowed; it leaves
  -- the file system and adds the events of the effect; and the filters stay.
  pub record Kept (m : Run (S kh px) (Unit {0})) (temps : List ℕ) (n : ℕ) (s : S kh px) (k : ℕ)
      (effect : px.World × List Event) : Type 0 where
    pub to : S kh px
    pub run : m s ≡ some (tt, to)
    pub left : List ℕ
    pub ready : Ready kh left n to
    pub number : length left ≡ k + length temps
    pub world_is : to.world ≡ effect.0
    pub shows :
        (q : Text)
        → view kh to.heap to.table q ≡ replay (filters s) effect.1 (view kh s.heap s.table) q
    pub same_filters : filters to ≡ filters s

  module _ {A : Type 0} (m : Run (S kh px) A) {temps : List ℕ} (n : ℕ) (s : S kh px) {a : A}
      {w : px.World} {e : ℕ} (es : List Event) where
    pub one :
        Ends kh m s temps n a w e (replay (filters s) es (view kh s.heap s.table))
        → Kept (m >> pure tt) temps n s 0 (w, es)
    one x = record {
      to = _;
      run = bind_some m (λ _. pure tt) s x.run;
      left = temps;
      number = omega arith;
      ready = x.ready;
      world_is = refl;
      shows = x.shows;
      same_filters = refl;
    }

    -- One that logs a single event, from a state ready for two, and may lose strings.
    pub single_losing :
        {left : List ℕ} (k : ℕ)
        → length left ≡ k + length temps
        → Ends kh m s left (suc n) a w e (replay (filters s) es (view kh s.heap s.table))
        → Kept (m >> pure tt) temps n s k (w, es)
    single_losing k number x = record {
      to = _;
      run = bind_some m (λ _. pure tt) s x.run;
      left = _;
      number = number;
      ready = roomier kh laws x.ready;
      world_is = refl;
      shows = x.shows;
      same_filters = refl;
    }

    pub single :
        Ends kh m s temps (suc n) a w e (replay (filters s) es (view kh s.heap s.table))
        → Kept (m >> pure tt) temps n s 0 (w, es)
    single = single_losing 0 (omega arith)

  skipped :
      {temps : List ℕ} (n : ℕ) (s : S kh px)
      → Ready kh temps n s
      → Kept (pure tt) temps n s 0 (s.world, [])
  skipped {temps} n s r = record {
    to = s;
    run = refl;
    left = temps;
    number = omega arith;
    ready = r;
    world_is = refl;
    shows = λ q. refl;
    same_filters = refl;
  }

  pub when :
      {temps : List ℕ} {A F : Type 0} (b : Bool) (f : F) (call : F → Run (S kh px) A) (n : ℕ)
      (s : S kh px) {effect : px.World × List Event}
      → Ready kh temps n s
      → Kept (through kh px B (some f) call) temps n s 0 effect
      → Kept
          (through kh px B (given kh px B b f) call)
          temps
          n
          s
          0
          (if b then effect else (s.world, []))
  unfolding through
  when true f call n s r k = k
  when false f call n s r k = skipped n s r
