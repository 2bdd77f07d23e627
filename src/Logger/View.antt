-- ===== src/Logger/View.antt =====
-- What `add_item` and `bump_item` do to what the log shows: one more event under one key.
use distiller_fs.Prelude.{
  ℕ, Text, Option, none, some, ◌≡◌, refl, ◌≢◌, inl, inr, arith, ◌==◌, if◌then◌else◌, text_eq,
  text_eq_iff, Bool-cases,
}
use distiller_fs.Khash.{Khash, KhashLaws}
use distiller_fs.Hash.{hash_find}
use distiller_fs.Hash.Laws.{find-add_self, find-add_ne}
use distiller_fs.Memory.{Heap}
use distiller_fs.Logger.{State}
use distiller_fs.Logger.Invariant.{
  Entry, Holds, live-lt-next, entry_of, IsValid, view, bump, added, bumped,
}

module _ (kh : Khash) (h : Heap) (t : kh.Table) (q : Text) where
  -- A key is shown exactly by its counter.
  pub view-held :
      hash_find kh t q ≢ 0
      → (x : Holds h (hash_find kh t q) q)
      → view kh h t q ≡ some (record { count = x.it.count; flags = x.it.flags })
  unfolding view entry_of
  view-held ne x = ground arith

  pub view-absent : hash_find kh t q ≡ 0 → view kh h t q ≡ none
  unfolding view entry_of
  view-absent e = ground arith

-- The log with one more event under `path`.
abbrev pub tally : Text → ℕ → (Text → Option Entry) → Text → Option Entry
tally path flag log q = if text_eq path q then some (bump flag (log path)) else log q

module _ (kh : Khash) (laws : KhashLaws kh) {W : Type 0} (path : Text) (flag : ℕ) where
  pub view-added :
      (s : State kh.Table W) (q : Text)
      → IsValid kh s.heap s.table
      → kh.Fits 1 s.table
      → hash_find kh s.table path ≡ 0
      → view kh (added kh path flag s).heap (added kh path flag s).table q
        ≡ tally path flag (view kh s.heap s.table) q
  unfolding view bump entry_of
  view-added s q v f absent = elim (Bool-cases (text_eq path q)) [
    | inl e ↦ rw (← (text_eq_iff path q).0 e) (
        ground (
          arith,
          find-add_self kh laws s.table path s.heap.next f,
          v.started,
          absent,
          (text_eq_iff path path).1 refl,
        ))
    | inr e ↦
        let kept =
          find-add_ne kh laws s.table path q s.heap.next f (ground (arith, text_eq_iff path q)) in
        elim (Bool-cases (hash_find kh s.table q == 0)) [
          | inl z ↦ ground (arith, kept)
          | inr z ↦
              let x = v.held q (ground arith) in
              ground (
                arith,
                kept,
                x.counter,
                live-lt-next s.heap (hash_find kh s.table q) v.fresh x.counter,
              )
        ]
  ]

  pub view-bumped :
      (s : State kh.Table W) (q : Text)
      → IsValid kh s.heap s.table
      → hash_find kh s.table path ≢ 0
      → (x : Holds s.heap (hash_find kh s.table path) path)
      → view kh
          (bumped kh path flag (hash_find kh s.table path) x.it s).heap
          (bumped kh path flag (hash_find kh s.table path) x.it s).table
          q
        ≡ tally path flag (view kh s.heap s.table) q
  unfolding view bump entry_of
  view-bumped s q v here x = elim (Bool-cases (text_eq path q)) [
    | inl e ↦
        rw (← (text_eq_iff path q).0 e) (ground (arith, x.counter, (text_eq_iff path path).1 refl))
    | inr e ↦ elim (Bool-cases (hash_find kh s.table q == 0)) [
      | inl z ↦ ground arith
      | inr z ↦
          let y = v.held q (ground arith) in
          ground (arith, y.counter, x.counter, x.name, y.name, text_eq_iff path q)
    ]
  ]
