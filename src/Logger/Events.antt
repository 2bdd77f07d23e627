-- ===== src/Logger/Events.antt =====
-- `Store_In_Hash` against its specification: a log that maps a path to a count and a mask.
use distiller_fs.Prelude.{
  true, pure, ◌>>◌, bind_some, ℕ, suc, ◌<◌, Text, Option, none, some, ◌≡◌, ◌≢◌, inl, inr, List,
  arith, false, ◌==◌, Bool-cases,
}
use distiller_fs.Khash.{Khash, KhashLaws}
use distiller_fs.Hash.{hash_find}
use distiller_fs.Hash.Laws.{add-Fits}
use distiller_fs.Memory
use distiller_fs.Memory.{LfsCount, Heap, item}
use distiller_fs.Logger.{State, int_max, record_event, count_event, increment, unlock}
use distiller_fs.Logger.Invariant.{Entry, Holds, view, bump, added, bumped}
use distiller_fs.Logger.View.{tally, view-held, view-absent, view-added, view-bumped}
use distiller_fs.Logger.Accounts.{Sound}
use distiller_fs.Logger.Growth.{added-Sound, bumped-Sound}

abbrev pub count_of : Option Entry → ℕ
count_of none = 0
count_of (some e) = e.count

-- The state with another log, the mutex free.
abbrev pub after : {T W : Type 0} → State T W → Heap → T → State T W
after s h t = record s { heap = h; table = t; locked = false }

module _ (kh : Khash) (laws : KhashLaws kh) {W : Type 0} (path : Text) (flag : ℕ)
    (temps : List ℕ) where
  -- What the part behind `Hash_Find` does, whoever holds the mutex.
  pub record Recorded (s : State kh.Table W) : Type 0 where
    pub heap : Heap
    pub table : kh.Table
    pub run :
        record_event kh path flag (hash_find kh s.table path) s
        ≡ some (
          (bump flag (view kh s.heap s.table path)).count,
          record s { heap = heap; table = table },
        )
    pub sound : Sound kh temps heap table
    -- at most one key is new
    pub fits : (n : ℕ) → kh.Fits (suc n) s.table → kh.Fits n table
    pub shows : (q : Text) → view kh heap table q ≡ tally path flag (view kh s.heap s.table) q

  record_event-new :
      (s : State kh.Table W)
      → hash_find kh s.table path ≡ 0
      → let t = added kh path flag s in
        record_event kh path flag (hash_find kh s.table path) s
        ≡ some (
          (bump flag (view kh s.heap s.table path)).count,
          record s { heap = t.heap; table = t.table },
        )
  unfolding record_event bump Memory.store_item Memory.load_item
  record_event-new s absent = rw (absent, view-absent kh s.heap s.table path absent) (ground arith)

  record_event-known :
      (s : State kh.Table W) (x : Holds s.heap (hash_find kh s.table path) path)
      → hash_find kh s.table path ≢ 0
      → x.it.count < int_max
      → let t = bumped kh path flag (hash_find kh s.table path) x.it s in
        record_event kh path flag (hash_find kh s.table path) s
        ≡ some (
          (bump flag (view kh s.heap s.table path)).count,
          record s { heap = t.heap; table = t.table },
        )
  unfolding record_event bump increment Memory.store_item Memory.load_item
  record_event-known s x here room =
      rw (view-held kh s.heap s.table path here x) (ground (arith, x.counter))

  pub record_event-Recorded :
      (s : State kh.Table W)
      → Sound kh temps s.heap s.table
      → kh.Fits 1 s.table
      → count_of (view kh s.heap s.table path) < int_max
      → Recorded s
  record_event-Recorded s v f room = elim (Bool-cases (hash_find kh s.table path == 0)) [
    | inl new ↦
        let absent : hash_find kh s.table path ≡ 0 = ground arith in
        let t = added kh path flag s in
        record {
          heap = t.heap;
          table = t.table;
          run = record_event-new s absent;
          sound = added-Sound kh laws path flag temps s v f absent;
          fits = λ n. add-Fits kh laws n s.table path s.heap.next;
          shows = λ q. view-added kh laws path flag s q v.valid f absent;
        }
    | inr old ↦
        let here : hash_find kh s.table path ≢ 0 = ground arith in
        let x = v.valid.held path here in
        let t = bumped kh path flag (hash_find kh s.table path) x.it s in
        record {
          heap = t.heap;
          table = t.table;
          run =
              record_event-known s x here
                (ground (arith, room, view-held kh s.heap s.table path here x));
          sound = bumped-Sound kh laws path flag temps s v x;
          fits = λ n. laws.fits-le n (suc n) s.table (omega arith);
          shows = λ q. view-bumped kh laws path flag s q v.valid here x;
        }
  ]

  -- What `count_event` does.
  pub record Counted (s : State kh.Table W) : Type 0 where
    pub heap : Heap
    pub table : kh.Table
    pub run :
        count_event kh path flag s
        ≡ some ((bump flag (view kh s.heap s.table path)).count, after s heap table)
    pub sound : Sound kh temps heap table
    pub fits : (n : ℕ) → kh.Fits (suc n) s.table → kh.Fits n table
    pub shows : (q : Text) → view kh heap table q ≡ tally path flag (view kh s.heap s.table) q

  pub count_event-Counted :
      (s : State kh.Table W)
      → Sound kh temps s.heap s.table
      → kh.Fits 1 s.table
      → s.locked ≡ false
      → count_of (view kh s.heap s.table path) < int_max
      → Counted s
  unfolding count_event
  count_event-Counted s v f free room =
      let held : State kh.Table W = record s { locked = true } in
      let c = record_event-Recorded held v f room in
      record {
        heap = c.heap;
        table = c.table;
        run =
            rw (count_event, free)
              (bind_some (record_event kh path flag (hash_find kh s.table path))
                (λ n. unlock >> pure n) held c.run);
        sound = c.sound;
        fits = c.fits;
        shows = c.shows;
      }
