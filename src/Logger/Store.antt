-- ===== src/Logger/Store.antt =====
-- `Store_In_Hash` and the logging of one operation: the filter decides, and what it lets through
-- is counted once.
use distiller_fs.Prelude.{
  refl, ℕ, suc, ◌<◌, Text, Option, none, some, ◌≡◌, ◌↔◌, ap, ◌∙◌, ◌⊎◌, inl, inr, List, [], map,
  arith, Bool, true, false, if◌then◌else◌, Bool-cases,
}
use distiller_fs.Ops.{flag}
use distiller_fs.Khash.{Khash, KhashLaws}
use distiller_fs.Memory.{Heap}
use distiller_fs.Filter.{FilterDesc, is_included, is_excluded}
use distiller_fs.Filter.Prefix.{Accepts, AnyPrefix, filter_iff, filter_total}
use distiller_fs.Logger.{passes, State, int_max, store_in_hash, count_event}
use distiller_fs.Logger.Invariant.{Entry, view, bump}
use distiller_fs.Logger.View.{tally}
use distiller_fs.Logger.Accounts.{Sound}
use distiller_fs.Logger.Events.{count_event-Counted, count_of, after}

-- The configured strings of a filter whose arrays were assigned in full.
pub record Assigned (f : FilterDesc) : Type 0 where
  pub includes : List Text
  pub excludes : List Text
  pub include_path : f.include_path ≡ map some includes
  pub exclude_path : f.exclude_path ≡ map some excludes

-- The verdict of the filter on a path.
abbrev both : Option Bool → Option Bool → Bool
both (some true) (some false) = true
both (some true) (some true) = false
both (some true) none = false
both (some false) exc = false
both none exc = false

pub after_self : {T W : Type 0} (s : State T W) → s.locked ≡ false → s ≡ after s s.heap s.table
after_self s free = λ i. record s { locked = free i }

-- What the two functions answer on a path.
pub record Verdicts (f : FilterDesc) (a : Assigned f) (path : Text) : Type 0 where
  pub include : Bool
  pub exclude : Bool
  pub run_include : is_included path f.include_path ≡ some include
  pub run_exclude : is_excluded path f.exclude_path ≡ some exclude
  pub include_iff : (include ≡ true) ↔ ((a.includes ≡ []) ⊎ AnyPrefix a.includes path)
  pub exclude_iff : (exclude ≡ true) ↔ AnyPrefix a.excludes path

pub Verdicts-Assigned : (f : FilterDesc) (a : Assigned f) (path : Text) → Verdicts f a path
Verdicts-Assigned f a path =
    let (i, ei) = (filter_total path a.includes).0 in
    let (x, ex) = (filter_total path a.excludes).1 in
    let inc = (filter_iff path a.includes).0 in
    let exc = (filter_iff path a.excludes).1 in
    record {
      include = i;
      exclude = x;
      run_include = rw a.include_path ei;
      run_exclude = rw a.exclude_path ex;
      include_iff = (λ e. inc.0 (ei ∙ ap some e), λ p. cc (ei, inc.1 p));
      exclude_iff = (λ e. exc.0 (ex ∙ ap some e), λ p. cc (ex, exc.1 p));
    }

unfoldable pub chosen : FilterDesc → Text → Bool
chosen f path = both (is_included path f.include_path) (is_excluded path f.exclude_path)

-- The two tests of `Store_In_Hash` come to that.
pub passes-chosen :
    (f : FilterDesc) (path : Text) (b : Bool) → passes f path ≡ some b → chosen f path ≡ b
unfolding passes chosen
passes-chosen f path b e = grind (arith, e)

pub passes-Assigned :
    (f : FilterDesc) (path : Text) → Assigned f → passes f path ≡ some (chosen f path)
unfolding passes chosen
passes-Assigned f path a =
    let v = Verdicts-Assigned f a path in ground (arith, v.run_include, v.run_exclude)

-- For a filter whose arrays were assigned in full, a path is chosen exactly when some include prefix
-- fits it, or none is configured, and no exclude prefix fits it.
pub chosen_iff :
    (f : FilterDesc) (a : Assigned f) (path : Text)
    → (chosen f path ≡ true) ↔ Accepts a.includes a.excludes path
unfolding chosen
chosen_iff f a path =
    let v = Verdicts-Assigned f a path in
    ground (arith, v.run_include, v.run_exclude, v.include_iff, v.exclude_iff)

-- The count that `Store_In_Hash` returns.
abbrev pub returned : Bool → ℕ → Option Entry → ℕ
returned true flag e = (bump flag e).count
returned false flag e = 0

-- The log after an event that is counted or not.
abbrev pub note : Bool → Text → ℕ → (Text → Option Entry) → Text → Option Entry
note true path flag log q = tally path flag log q
note false path flag log q = log q

module _ (kh : Khash) (laws : KhashLaws kh) {W : Type 0} (path : Text) (flag : ℕ)
    (temps : List ℕ) where
  pub record Stored (s : State kh.Table W) : Type 0 where
    pub heap : Heap
    pub table : kh.Table
    pub run :
        store_in_hash kh s.filter (some path) flag s
        ≡ some
            (returned (chosen s.filter path) flag (view kh s.heap s.table path), after s heap table)
    pub sound : Sound kh temps heap table
    pub fits : (n : ℕ) → kh.Fits (suc n) s.table → kh.Fits n table
    pub shows :
        (q : Text)
        → view kh heap table q ≡ note (chosen s.filter path) path flag (view kh s.heap s.table) q

  -- The filter first, then the part under the mutex.
  store-chosen :
      (s : State kh.Table W)
      → Assigned s.filter
      → store_in_hash kh s.filter (some path) flag s
        ≡ (if chosen s.filter path then count_event kh path flag s else some (0, s))
  unfolding store_in_hash
  store-chosen s a =
      rw (store_in_hash, passes-Assigned s.filter path a)
        (elim (Bool-cases (chosen s.filter path)) [ inl e ↦ rw e refl | inr e ↦ rw e refl ])

  -- From a sound log with the mutex free, a filter whose arrays were assigned in full, and room
  -- in the hash for one more key and for one more count of the path, `Store_In_Hash` does not fault and frees the mutex. It returns the
  -- new count of the path where the filter chooses it and 0 otherwise, keeps the memory of the log
  -- sound, and the log then shows what it showed before with that event, and no other, added.
  pub store_in_hash-Stored :
      (s : State kh.Table W)
      → Assigned s.filter
      → Sound kh temps s.heap s.table
      → kh.Fits 1 s.table
      → s.locked ≡ false
      → count_of (view kh s.heap s.table path) < int_max
      → Stored s
  store_in_hash-Stored s a v f free room = elim (Bool-cases (chosen s.filter path)) [
    | inl passes ↦
        let c = count_event-Counted kh laws path flag temps s v f free room in
        record {
          heap = c.heap;
          table = c.table;
          run = rw (store-chosen s a, passes) c.run;
          sound = c.sound;
          fits = c.fits;
          shows = λ q. rw passes (c.shows q);
        }
    | inr stops ↦ record {
      heap = s.heap;
      table = s.table;
      run = rw (store-chosen s a, stops) (ap (λ t. some (0, t)) (after_self s free));
      sound = v;
      fits = λ n. laws.fits-le n (suc n) s.table (omega arith);
      shows = λ q. rw stops;
    }
  ]
