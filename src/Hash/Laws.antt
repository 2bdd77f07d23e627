-- ===== src/Hash/Laws.antt =====
-- The hash as a finite map: what `hash_find` returns after `hash_new` and `hash_add`, from the
-- documented behaviour of khash.
use distiller_fs.Prelude.{
  ℕ, suc, ◌≤◌, ◌≡◌, sym, subst, ◌∙◌, ap, ◌≢◌, Text, arith, Bool-cases, inl, inr, text_eq,
  text_eq_iff,
}
use distiller_fs.Khash.{Khash, KhashLaws}
use distiller_fs.Hash.{hash_new, hash_add, hash_find}

-- Every key in the table has a value that is not `NULL`.
abbrev pub Filled : (kh : Khash) → kh.Table → Type 0
Filled kh t = (q : Text) → kh.kh_get t q ≢ kh.kh_end t → hash_find kh t q ≢ 0

module _ (kh : Khash) (laws : KhashLaws kh) where
  pub find-new : (n : ℕ) (q : Text) → hash_find kh (hash_new kh n) q ≡ 0
  unfolding hash_find hash_new
  find-new n q = ground (arith, laws.get-init q)

  -- The slot that `kh_put` returns is not that of another key.
  slots_differ :
      (t : kh.Table) (q j : Text)
      → kh.Fits 0 t
      → j ≢ q
      → kh.kh_get t q ≢ kh.kh_end t
      → kh.kh_get t j ≢ kh.kh_end t
      → kh.kh_get t q ≢ kh.kh_get t j
  slots_differ t q j made ne hq hj e =
      ne (sym (laws.key-get t j made hj) ∙ (ap (kh.kh_key t) (sym e) ∙ laws.key-get t q made hq))

  pub find-add_self :
      (h : kh.Table) (q : Text) (v : ℕ) → kh.Fits 1 h → hash_find kh (hash_add kh h q v).0 q ≡ v
  unfolding hash_find hash_add
  find-add_self h q v f =
      let t = (kh.kh_put h q).0 in
      let i = (kh.kh_put h q).1 in
      ground (
        arith,
        laws.get-set_value t i v q,
        laws.end-set_value t i v,
        laws.get-put h q f,
        laws.put-ne-end h q f,
        laws.exist-get t q (laws.fits-put 0 h q f),
        laws.value-set_value t i v,
      )

  pub find-add_ne :
      (h : kh.Table) (q j : Text) (v : ℕ)
      → kh.Fits 1 h
      → j ≢ q
      → hash_find kh (hash_add kh h q v).0 j ≡ hash_find kh h j
  unfolding hash_find hash_add
  find-add_ne h q j v f ne =
      let t = (kh.kh_put h q).0 in
      let i = (kh.kh_put h q).1 in
      ground (
        arith,
        laws.get-set_value t i v j,
        laws.end-set_value t i v,
        laws.get-put h q f,
        laws.put-ne-end h q f,
        laws.absent-put h q j f ne,
        laws.value-put h q j f ne,
        slots_differ t q j (laws.fits-put 0 h q f) ne,
        laws.value-set_value_ne t i (kh.kh_get t j) v,
      )

  pub add-Fits :
      (n : ℕ) (h : kh.Table) (q : Text) (v : ℕ)
      → kh.Fits (suc n) h
      → kh.Fits n (hash_add kh h q v).0
  unfolding hash_add
  add-Fits n h q v f = laws.fits-set_value n _ _ v (laws.fits-put n h q f)

  pub new-Fits : (n k : ℕ) → n ≤ kh.capacity → kh.Fits n (hash_new kh k)
  unfolding hash_new
  new-Fits n k h = laws.fits-init n h

  pub new-Filled : (n : ℕ) → Filled kh (hash_new kh n)
  unfolding hash_new
  new-Filled n q here e = here (laws.get-init q)

  pub add-Filled :
      (h : kh.Table) (q : Text) (v : ℕ)
      → kh.Fits 1 h
      → v ≢ 0
      → Filled kh h
      → Filled kh (hash_add kh h q v).0
  unfolding hash_add
  add-Filled h q v f nonzero filled j here = elim (Bool-cases (text_eq j q)) [
    | inl same ↦
        let key = (text_eq_iff j q).0 same in
        λ e. nonzero (
          sym (find-add_self h q v f) ∙ subst (λ k. hash_find kh (hash_add kh h q v).0 k ≡ 0) key e)
    | inr other ↦
        let ne : j ≢ q = ground (arith, text_eq_iff j q) in
        let t = (kh.kh_put h q).0 in
        let i = (kh.kh_put h q).1 in
        let present : kh.kh_get h j ≢ kh.kh_end h = ground (
          arith,
          here,
          laws.get-set_value t i v j,
          laws.end-set_value t i v,
          laws.absent-put h q j f ne,
        ) in
        λ e. filled j present (sym (find-add_ne h q j v f ne) ∙ e)
  ]
