-- ===== src/Hash/Map.antt =====
-- The functions of src/utils.c together, as those of a finite map from strings to addresses.
use distiller_fs.Prelude.{
  ℕ, suc, ◌≡◌, ◌≢◌, refl, ◌∙◌, ap, Text, arith, text_eq, text_eq_iff, Bool-cases, inl, inr,
  if◌then◌else◌,
}
use distiller_fs.Khash.{Khash, KhashLaws}
use distiller_fs.Hash.{hash_add, hash_soft_add, hash_find, hash_delete}
use distiller_fs.Hash.Laws.{find-add_self, find-add_ne, add-Fits}

module _ (kh : Khash) (laws : KhashLaws kh) where
  -- What a key shows after a change at another key or at itself.
  abbrev pub changed : (Text → ℕ) → Text → ℕ → Text → ℕ
  changed map q v j = if text_eq j q then v else map j

  -- The functions on a table, by what `Hash_Find` gives for every key. `Hash_SoftAdd` too puts a value
  -- in the place of the one that was there.
  pub record Updates (h : kh.Table) (q : Text) (v : ℕ) : Type 0 where
    pub find_add :
        (j : Text) → hash_find kh (hash_add kh h q v).0 j ≡ changed (hash_find kh h) q v j
    pub find_soft_add :
        (j : Text) → hash_find kh (hash_soft_add kh h q v).0 j ≡ changed (hash_find kh h) q v j
    pub find_delete :
        (j : Text) → hash_find kh (hash_delete kh h q) j ≡ changed (hash_find kh h) q 0 j
    -- the iterator that is returned is that of the key
    pub returned : (hash_add kh h q v).1 ≡ kh.kh_get (hash_add kh h q v).0 q
    pub soft_returned : (hash_soft_add kh h q v).1 ≡ kh.kh_get (hash_soft_add kh h q v).0 q
    -- a deletion takes no room, an addition that of one key
    pub add_fits : (n : ℕ) → kh.Fits (suc n) h → kh.Fits n (hash_add kh h q v).0
    pub soft_add_fits : (n : ℕ) → kh.Fits (suc n) h → kh.Fits n (hash_soft_add kh h q v).0
    pub delete_fits : (n : ℕ) → kh.Fits n h → kh.Fits n (hash_delete kh h q)

  find-delete_self :
      (h : kh.Table) (q : Text) → kh.Fits 0 h → hash_find kh (hash_delete kh h q) q ≡ 0
  unfolding hash_find hash_delete
  find-delete_self h q f = ground (arith, laws.get-del h q f)

  find-delete_ne :
      (h : kh.Table) (q j : Text)
      → kh.Fits 0 h
      → j ≢ q
      → hash_find kh (hash_delete kh h q) j ≡ hash_find kh h j
  unfolding hash_find hash_delete
  find-delete_ne h q j f ne = ground (arith, laws.absent-del h q j f ne, laws.value-del h q j f ne)

  find-delete :
      (h : kh.Table) (q : Text)
      → kh.Fits 0 h
      → (j : Text) → hash_find kh (hash_delete kh h q) j ≡ changed (hash_find kh h) q 0 j
  find-delete h q f j = elim (Bool-cases (text_eq j q)) [
    | inl same ↦ let key = (text_eq_iff j q).0 same in rw (same, key) (find-delete_self h q f)
    | inr other ↦ rw other (find-delete_ne h q j f (ground (arith, text_eq_iff j q)))
  ]

  find-add :
      (h : kh.Table) (q : Text) (v : ℕ)
      → kh.Fits 1 h
      → (j : Text) → hash_find kh (hash_add kh h q v).0 j ≡ changed (hash_find kh h) q v j
  find-add h q v f j = elim (Bool-cases (text_eq j q)) [
    | inl same ↦
        let key = (text_eq_iff j q).0 same in rw (same, key) (find-add_self kh laws h q v f)
    | inr other ↦ rw other (find-add_ne kh laws h q j v f (ground (arith, text_eq_iff j q)))
  ]

  soft-same : (h : kh.Table) (q : Text) (v : ℕ) → hash_soft_add kh h q v ≡ hash_add kh h q v
  unfolding hash_add hash_soft_add
  soft-same h q v = refl

  add-returned :
      (h : kh.Table) (q : Text) (v : ℕ)
      → kh.Fits 1 h
      → (hash_add kh h q v).1 ≡ kh.kh_get (hash_add kh h q v).0 q
  unfolding hash_add
  add-returned h q v f =
      ground (arith, laws.get-set_value (kh.kh_put h q).0 (kh.kh_put h q).1 v q, laws.get-put h q f)

  delete-Fits : (h : kh.Table) (q : Text) (n : ℕ) → kh.Fits n h → kh.Fits n (hash_delete kh h q)
  unfolding hash_delete
  delete-Fits h q n f = laws.fits-del n h q f

  -- On a table with room for one more key, `Hash_Find` gives for each key: after `Hash_Add` or
  -- `Hash_SoftAdd` of a key the value that was added for that key, after `Hash_Delete` of a key `NULL`
  -- for it, and for any other key what it gave before. The additions return the iterator of their key;
  -- each takes the room of one key, and a deletion none.
  pub hash_ops-Updates : (h : kh.Table) (q : Text) (v : ℕ) → kh.Fits 1 h → Updates h q v
  hash_ops-Updates h q v f = record {
    find_add = find-add h q v f;
    find_soft_add = λ j. ap (λ r. hash_find kh r.0 j) (soft-same h q v) ∙ find-add h q v f j;
    find_delete = find-delete h q (laws.fits-le 0 1 h (omega arith) f);
    returned = add-returned h q v f;
    soft_returned = rw (soft-same h q v) (add-returned h q v f);
    add_fits = λ n. add-Fits kh laws n h q v;
    soft_add_fits = λ n g. rw (soft-same h q v) (add-Fits kh laws n h q v g);
    delete_fits = λ n. delete-Fits h q n;
  }
