-- ===== src/Logger/Frames.antt =====
-- A block that is set aside or given back changes nothing that the log shows.
use distiller_fs.Prelude.{true, ℕ, ◌≡◌, sym, Text, List, ◌∷◌, arith, ◌==◌, Bool-cases, inl, inr}
use distiller_fs.Khash.{Khash}
use distiller_fs.Hash.{hash_find}
use distiller_fs.Memory
use distiller_fs.Memory.{Block, plain, Heap, text}
use distiller_fs.Logger.Invariant.{view}
use distiller_fs.Logger.View.{view-held, view-absent}
use distiller_fs.Logger.Accounts.{In, Sound, alloc-Sound, free-Sound}

module _ (kh : Khash) (temps : List ℕ) (h : Heap) (t : kh.Table) where
  pub view-alloc :
      (s : Block) (simple : plain s ≡ true) (q : Text)
      → Sound kh temps h t
      → view kh (Memory.alloc s h).1 t q ≡ view kh h t q
  view-alloc s simple q v = elim (Bool-cases (hash_find kh t q == 0)) [
    | inl z ↦ ground (arith, view-absent kh h t q, view-absent kh (Memory.alloc s h).1 t q)
    | inr nz ↦
        let x = v.valid.held q (ground arith) in
        let y = (alloc-Sound kh temps h t s simple v).valid.held q (ground arith) in
        ground (
          arith,
          x.counter,
          y.counter,
          v.valid.fresh h.next,
          view-held kh h t q (ground arith) x,
          view-held kh (Memory.alloc s h).1 t q (ground arith) y,
        )
  ]

  pub view-free :
      (p : ℕ) (q : Text)
      → Sound kh (p ∷ temps) h t
      → view kh (Memory.released p h) t q ≡ view kh h t q
  view-free p q v = elim (Bool-cases (hash_find kh t q == 0)) [
    | inl z ↦ ground (arith, view-absent kh h t q, view-absent kh (Memory.released p h) t q)
    | inr nz ↦
        let x = v.valid.held q (ground arith) in
        let y = (free-Sound kh temps h t p v).1.valid.held q (ground arith) in
        ground (
          arith,
          x.counter,
          y.counter,
          view-held kh h t q (ground arith) x,
          view-held kh (Memory.released p h) t q (ground arith) y,
        )
  ]

-- The order of the borrowed strings does not matter.
In-swap : (a b c : ℕ) (temps : List ℕ) → In a (b ∷ c ∷ temps) → In a (c ∷ b ∷ temps)
In-swap a b c temps (inl e) = inr (inl e)
In-swap a b c temps (inr (inl e)) = inl e
In-swap a b c temps (inr (inr m)) = inr (inr m)

pub Sound-swap :
    (kh : Khash) (temps : List ℕ) (h : Heap) (t : kh.Table) (b c : ℕ)
    → Sound kh (b ∷ c ∷ temps) h t
    → Sound kh (c ∷ b ∷ temps) h t
Sound-swap kh temps h t b c v = record {
  valid = v.valid;
  distinct = (
    λ m. elim m [ inl e ↦ v.distinct.0 (inl (sym e)) | inr k ↦ v.distinct.1.0 k ],
    (λ m. v.distinct.0 (inr m), v.distinct.1.1),
  );
  strings = λ a m. v.strings a (In-swap a c b temps m);
  apart = λ a q m. v.apart a q (In-swap a c b temps m);
  owned = λ a x e. elim (v.owned a x e) [ inl m ↦ inl (In-swap a b c temps m) | inr o ↦ inr o ];
}
