-- ===== src/Khash/Removal.antt =====
-- `kh_del` of src/khash.h at the bucket that a lookup gives.
use distiller_fs.Prelude.{
  ◌^◌, ℕ, ◌+◌, ◌≤◌, ◌<◌, ◌≡◌, ◌≢◌, ◌↔◌, refl, sym, ap, ◌∙◌, subst, arith, inl, inr, Text, some,
}
use distiller_fs.Khash.Table.{KhText, kh_get, kh_del}
use distiller_fs.Khash.Shape.{Shape, kh_get_iff}
use distiller_fs.Khash.Growth.{Growable}
use distiller_fs.Khash.Delete.{Deleted, kh_del-Deleted}
use distiller_fs.Khash.Room.{bucket_of, get, Room, Hit, get-cases, get-Hit}

-- At the end of the buckets nothing happens.
kh_del-end : (h : KhText) → kh_del h h.n_buckets ≡ h
unfolding kh_del
kh_del-end h = ground arith

Hit-kh_get : (h : KhText) (q : Text) → Growable h → Hit h q → kh_get h q ≡ some (get h q)
Hit-kh_get h q (inl b) x = absurd (omega (arith, x.low, b.no_buckets))
Hit-kh_get h q (inr (m, low, s)) x = (kh_get_iff m h s q (get h q) x.low).1 (x.live, x.key_is)

-- What the other lookups see of a table `u` that was `h`.
pub record Removed (h u : KhText) (q : Text) (n : ℕ) : Type 0 where
  pub room : Room n u
  pub gone : get u q ≡ u.n_buckets
  pub absent : (j : Text) → j ≢ q → (get u j ≡ u.n_buckets) ↔ (get h j ≡ h.n_buckets)
  pub kept : (j : Text) → j ≢ q → get h j ≢ h.n_buckets → u.vals (get u j) ≡ h.vals (get h j)

module _ (h : KhText) (q : Text) (n m : ℕ) (low : m < 31) (s : Shape m h)
    (few : h.size + n ≤ 2 ^ 29) (x : Hit h q) where
  abbrev d : Deleted m h s (get h q) x.low x.live
  d = kh_del-Deleted m h s (get h q) x.low x.live

  abbrev u : KhText
  u = kh_del h (get h q)

  u-Growable : Growable u
  u-Growable = inr (m, low, d.shape)

  -- A key that is still found is found in its bucket.
  still :
      (j : Text) → j ≢ q → (i : ℕ) → i < h.n_buckets → (kh_get u j ≡ some i) ↔ (kh_get h j ≡ some i)
  still j ne = d.others j (λ e. ne (e ∙ x.key_is))

  get_back : (j : Text) → j ≢ q → Hit u j → get h j ≡ get u j
  unfolding bucket_of
  get_back j ne y = ap (bucket_of h) (
      (still j ne (get u j) (omega (arith, y.low, d.same_buckets))).0 (Hit-kh_get u j u-Growable y))

  get_again : (j : Text) → j ≢ q → Hit h j → get u j ≡ get h j
  unfolding bucket_of
  get_again j ne y =
      ap (bucket_of u) ((still j ne (get h j) y.low).1 (Hit-kh_get h j (inr (m, low, s)) y))

  Hit-Removed : Removed h u q n
  unfolding bucket_of
  Hit-Removed = record {
    room = (u-Growable, omega (arith, few, d.smaller));
    gone = ap (get u) (sym x.key_is) ∙ (ap (bucket_of u) d.this ∙ sym d.same_buckets);
    absent = λ j ne. (
      λ e. elim (get-cases h j (inr (m, low, s))) [
        | inl absent ↦ absent
        | inr y ↦ absurd (omega (arith, e, get_again j ne y, y.low, d.same_buckets))
      ],
      λ e. elim (get-cases u j u-Growable) [
        | inl absent ↦ absent
        | inr y ↦ absurd (omega (arith, e, get_back j ne y, y.low, d.same_buckets))
      ],
    );
    kept = λ j ne here.
        let y = get-Hit h j (inr (m, low, s)) here in
        ap (λ v. v (get u j)) d.same_vals ∙ ap h.vals (get_again j ne y);
  }

same-Removed : (h : KhText) (q : Text) (n : ℕ) → Room n h → get h q ≡ h.n_buckets → Removed h h q n
same-Removed h q n r absent = record {
  room = r;
  gone = absent;
  absent = λ j ne. (λ e. e, λ e. e);
  kept = λ j ne here. refl;
}

pub kh_del-Removed : (h : KhText) (q : Text) (n : ℕ) → Room n h → Removed h (kh_del h (get h q)) q n
kh_del-Removed h q n (g, few) = elim (get-cases h q g) [
  | inl absent ↦
      let same : kh_del h (get h q) ≡ h = ap (kh_del h) absent ∙ kh_del-end h in
      subst (λ u. Removed h u q n) (sym same) (same-Removed h q n (g, few) absent)
  | inr x ↦ elim g [
    | inl b ↦ absurd (omega (arith, x.low, b.no_buckets))
    | inr (m, low, s) ↦ Hit-Removed h q n m low s few x
  ]
]
