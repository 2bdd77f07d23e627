-- ===== src/Print/Contents.antt =====
-- What the lines of `Print_Hash` say of a log, whatever the order of the slots.
use mathlib.Core.Path.{fun_ext}
use distiller_fs.Prelude.{
  ℕ, suc, ◌<◌, ◌≡◌, ◌≢◌, ap, subst, arith, Text, Option, some, List, [], ◌∷◌, All, Elem,
}
use distiller_fs.Khash.{Khash, KhashLaws}
use distiller_fs.Memory.{Heap}
use distiller_fs.Logger.Invariant.{Entry, IsValid, view}
use distiller_fs.Print.Masks.{Mask}
use distiller_fs.Print.{Line, Printed}
use distiller_fs.Print.Lines.{line_of, Ordered, Listing}

-- No two lines have one key.
abbrev pub Once : List Line → Type 0
Once [] = Unit
Once (l ∷ ls) = All (λ other. other.key ≢ l.key) ls × Once ls

-- The lines are those of a log: each shows its key with the count and the mask of its entry, and each
-- key of the log has one line.
pub record Tells (log : Text → Option Entry) (lines : List Line) : Type 0 where
  pub sound :
      All
        (λ l. (e : Entry) × (log l.key ≡ some e) × (l ≡ line_of l.key e) × Mask e.flags l.mask)
        lines
  pub complete : (q : Text) (e : Entry) → log q ≡ some e → Elem (line_of q e) lines
  pub once : Once lines

module _ (kh : Khash) (laws : KhashLaws kh) (h : Heap) (t : kh.Table) (v : IsValid kh h t) where
  -- Lines that stand from a later slot on have other keys.
  Ordered-apart :
      (q : Text) (i : ℕ) (ls : List Line)
      → kh.kh_get t q < i
      → Ordered kh laws h t v i ls
      → All (λ other. other.key ≢ q) ls
  Ordered-apart q i [] low o = tt
  Ordered-apart q i (l ∷ ls) low (at, rest) = (
    λ same. omega (arith, low, at, ap (kh.kh_get t) same),
    Ordered-apart q (suc (kh.kh_get t l.key)) ls (omega (arith, low, at)) rest,
  )

  Ordered-Once : (i : ℕ) (ls : List Line) → Ordered kh laws h t v i ls → Once ls
  Ordered-Once i [] o = tt
  Ordered-Once i (l ∷ ls) (at, rest) = (
    Ordered-apart l.key (suc (kh.kh_get t l.key)) ls (omega arith) rest,
    Ordered-Once (suc (kh.kh_get t l.key)) ls rest,
  )

  pub Listing-Tells :
      (r : Option (Printed × Heap)) (x : Listing kh laws h t v r) (log : Text → Option Entry)
      → ((q : Text) → view kh h t q ≡ log q)
      → Tells log x.lines
  Listing-Tells r x log shows =
      subst (λ l. Tells l x.lines) (fun_ext shows)
        (record { sound = x.sound; complete = x.complete; once = Ordered-Once 0 x.lines x.ordered })
