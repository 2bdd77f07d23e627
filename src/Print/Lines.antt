-- ===== src/Print/Lines.antt =====
-- What `Print_Hash` writes of a sound log: each key of the log once, with its count and its mask.
use distiller_fs.Prelude.{
  count, length, ℕ, zero, suc, ◌+◌, ◌≤◌, ◌<◌, ◌≡◌, ◌≢◌, refl, sym, ap, ◌∙◌, subst, Text, Option,
  some, List, [], ◌∷◌, All, Elem, Bool-cases, true, inl, inr, arith, bind_some, Run, ◌==◌, ◌>>=◌,
  pure,
}
use distiller_fs.Khash.{Khash, KhashLaws}
use distiller_fs.Hash.{hash_find}
use distiller_fs.Memory
use distiller_fs.Memory.{Heap}
use distiller_fs.Logger.Invariant.{Entry, Holds, IsValid, view}
use distiller_fs.Logger.View.{view-held}
use distiller_fs.Print.Masks.{Mask, mask_of-Mask}
use distiller_fs.Print.{Line, Printed, printed, mask_of, print_item, print_from, print_hash}

-- The line of a key.
abbrev pub line_of : Text → Entry → Line
line_of q e = record { mask = mask_of e.flags; count = e.count; key = q }

module _ (kh : Khash) (laws : KhashLaws kh) (h : Heap) (t : kh.Table) (v : IsValid kh h t) where
  -- A slot that exists holds its key's counter.
  pub value-slot :
      (i : ℕ)
      → i < kh.kh_end t
      → kh.kh_exist t i ≡ true
      → hash_find kh t (kh.kh_key t i) ≡ kh.kh_value t i
  unfolding hash_find
  value-slot i below here = ground (arith, laws.get-key t i v.made below here)

  pub slot-Filled :
      (i : ℕ) → i < kh.kh_end t → kh.kh_exist t i ≡ true → hash_find kh t (kh.kh_key t i) ≢ 0
  slot-Filled i below here =
      v.filled (kh.kh_key t i) (omega (arith, laws.get-key t i v.made below here))

  pub slot-held :
      (i : ℕ) → i < kh.kh_end t → kh.kh_exist t i ≡ true → Holds h (kh.kh_value t i) (kh.kh_key t i)
  slot-held i below here =
      subst (λ p. Holds h p (kh.kh_key t i)) (value-slot i below here)
        (v.held (kh.kh_key t i) (slot-Filled i below here))

  -- The line of a slot.
  record Written (i : ℕ) : Type 0 where
    entry : Entry
    shown : view kh h t (kh.kh_key t i) ≡ some entry
    run : print_item kh t i h ≡ some (line_of (kh.kh_key t i) entry, h)

  written : (i : ℕ) → i < kh.kh_end t → kh.kh_exist t i ≡ true → Written i
  unfolding print_item Memory.load_item
  written i below here =
      let q = kh.kh_key t i in
      let ne = slot-Filled i below here in
      let x = v.held q ne in
      record {
        entry = record { count = x.it.count; flags = x.it.flags };
        shown = view-held kh h t q ne x;
        run = ground (arith, x.counter, value-slot i below here);
      }

  -- A line shows its key as the log does.
  abbrev pub Shows : Line → Type 0
  Shows l = (e : Entry) × (view kh h t l.key ≡ some e) × (l ≡ line_of l.key e) × Mask e.flags l.mask

  -- The lines stand in the order of their keys' slots, from a slot on, no two in one slot.
  abbrev pub Ordered : ℕ → List Line → Type 0
  Ordered i [] = Unit
  Ordered i (l ∷ ls) = (i ≤ kh.kh_get t l.key) × Ordered (suc (kh.kh_get t l.key)) ls

  Ordered-mono : (i : ℕ) (ls : List Line) → Ordered (suc i) ls → Ordered i ls
  Ordered-mono i [] o = tt
  Ordered-mono i (l ∷ ls) (below, o) = (omega (arith, below), o)

  -- The lines of the slots from `i` up to `j`.
  pub record Lines (m : Run Heap (List Line)) (i j : ℕ) : Type 0 where
    pub lines : List Line
    pub run : m h ≡ some (lines, h)
    pub sound : All Shows lines
    pub ordered : Ordered i lines
    pub complete :
        (q : Text) (e : Entry)
        → view kh h t q ≡ some e
        → i ≤ kh.kh_get t q
        → kh.kh_get t q < j
        → Elem (line_of q e) lines
    pub number : count (kh.kh_exist t) i + length lines ≡ count (kh.kh_exist t) j

  shown_present : (q : Text) (e : Entry) → view kh h t q ≡ some e → kh.kh_get t q ≢ kh.kh_end t
  unfolding view hash_find
  shown_present q e shown absent = ground (arith, shown, absent)

  same_line : (q q' : Text) (e e' : Entry) → q ≡ q' → some e ≡ some e' → line_of q' e' ≡ line_of q e
  same_line q q' e e' key entry = cc (key, entry)

  print_from-Lines : (n i : ℕ) → i + n ≡ kh.kh_end t → Lines (print_from kh t i n) i (kh.kh_end t)
  unfolding print_from count
  print_from-Lines zero i e = record {
    lines = [];
    run = refl;
    sound = tt;
    ordered = tt;
    complete = λ q e' shown low high. absurd (omega (arith, e, low, high));
    number =
        let at : i ≡ kh.kh_end t = omega (arith, e) in omega (arith, ap (count (kh.kh_exist t)) at);
  }
  print_from-Lines (suc n) i e =
      let rest = print_from-Lines n (suc i) (omega (arith, e)) in
      elim (Bool-cases (kh.kh_exist t i)) [
        | inl here ↦
            let w = written i (omega (arith, e)) here in
            let q = kh.kh_key t i in
            let at : kh.kh_get t q ≡ i = laws.get-key t i v.made (omega (arith, e)) here in
            record {
              lines = line_of q w.entry ∷ rest.lines;
              run =
                  rw (print_from, here)
                    (bind_some (print_item kh t i)
                        (λ line. print_from kh t (suc i) n >>= λ lines. pure (line ∷ lines)) h w.run
                      ∙ bind_some (print_from kh t (suc i) n)
                          (λ lines. pure (line_of q w.entry ∷ lines)) h rest.run);
              sound = ((w.entry, w.shown, refl, mask_of-Mask w.entry.flags), rest.sound);
              ordered = (omega (arith, at), rw at rest.ordered);
              complete = λ q' e' shown low high. elim (Bool-cases (kh.kh_get t q' == i)) [
                | inl same ↦
                    let i_at : i ≡ kh.kh_get t q' = ground (arith, same) in
                    let key =
                      ap (kh.kh_key t) i_at
                      ∙ laws.key-get t q' v.made (shown_present q' e' shown) in
                    let entry = sym w.shown ∙ (ap (view kh h t) key ∙ shown) in
                    inl (same_line q q' w.entry e' key entry)
                | inr other ↦ inr (rest.complete q' e' shown (ground (arith, other, low)) high)
              ];
              number = ground (arith, rest.number, here);
            }
        | inr gap ↦ record {
          lines = rest.lines;
          run = rw (print_from, gap) rest.run;
          sound = rest.sound;
          ordered = Ordered-mono i rest.lines rest.ordered;
          complete = λ q' e' shown low high.
              rest.complete q' e' shown
                (ground (arith, low, gap, laws.exist-get t q' v.made, shown_present q' e' shown))
                high;
          number = ground (arith, rest.number, gap);
        }
      ]

  pub record Listing (r : Option (Printed × Heap)) : Type 0 where
    pub lines : List Line
    pub result : r ≡ some (printed lines, h)
    pub sound : All Shows lines
    pub ordered : Ordered 0 lines
    pub complete : (q : Text) (e : Entry) → view kh h t q ≡ some e → Elem (line_of q e) lines
    pub number : length lines ≡ kh.kh_size t

  -- `Print_Hash` of a valid log does not fault and leaves the memory alone. Each line shows its key
  -- as the log does, with the count and the mask of its entry; each key of the log has its line; and
  -- the lines stand in the order of their slots, so that no key has two, and are as many as `kh_size`
  -- says.
  pub print_hash-Listing : Listing (print_hash kh (some t) h)
  unfolding print_hash count
  print_hash-Listing =
      let x = print_from-Lines (kh.kh_end t) 0 (omega arith) in
      record {
        lines = x.lines;
        result =
            bind_some (print_from kh t 0 (kh.kh_end t)) (λ lines. pure (printed lines)) h x.run;
        sound = x.sound;
        ordered = x.ordered;
        complete = λ q e shown.
            x.complete q e shown (omega arith)
              (laws.get-lt-end t q v.made (shown_present q e shown));
        number = omega (arith, x.number, laws.size-count t v.made);
      }
