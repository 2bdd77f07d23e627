-- ===== src/Khash/Put.antt =====
-- `kh_put` of src/khash.h on a table with room.
use distiller_fs.Prelude.{
  ℕ, ◌+◌, ◌^◌, ◌<◌, ◌≡◌, ◌≢◌, ◌↔◌, refl, sym, ap, ◌∙◌, subst, arith, inl, inr, true, false,
  Bool-cases, ◌==◌, leb, if◌then◌else◌, Text, Option, some,
}
use distiller_fs.Khash.Flags.{is_either, is_either-or}
use distiller_fs.Khash.Table.{KhText, Put, occupy, make_room, kh_put, kh_get}
use distiller_fs.Khash.Shape.{Shape, IsLive, kh_get_iff}
use distiller_fs.Khash.Insert.{IsHeld, taken, taken-cases, taken-lt, find_bucket-taken}
use distiller_fs.Khash.Occupy.{
  occupy-Shape, is_either-occupy, keys-occupy, key-absent, occupy-vals, occupy-ret, occupy-size,
}

-- A table in which a bucket was taken for a key.
pub record Puts (m : ℕ) (h : KhText) (key : Text) (r : Option Put) : Type 0 where
  pub put : Put
  pub result : r ≡ some put
  pub shape : Shape m put.table
  pub low : put.x < 2 ^ m
  pub live : IsLive put.table put.x
  pub has_key : put.table.keys put.x ≡ key
  pub same_vals : put.table.vals ≡ h.vals
  pub others :
      (i : ℕ)
      → i ≢ put.x
      → (is_either put.table.flags i ≡ is_either h.flags i) × (put.table.keys i ≡ h.keys i)
  pub size_is : put.table.size ≡ (if put.ret == 0 then h.size else h.size + 1)
  -- 0 where the key was there already, and then nothing changes
  pub present : put.ret ≡ 0 → (put.table ≡ h)
  pub free : put.ret ≢ 0 → is_either h.flags put.x ≡ true
  pub new : put.ret ≢ 0 → (i : ℕ) → i < 2 ^ m → IsLive h i → h.keys i ≢ key

module _ (m : ℕ) (h : KhText) (s : Shape m h) (key : Text) where
  abbrev x : ℕ
  x = taken m h s key

  abbrev done : Put
  done = let r = occupy h key x in record { table = r.0; x = x; ret = r.1 }

  held-same : IsHeld m h s key x → occupy h key x ≡ (h, 0)
  unfolding occupy
  held-same held = ground (arith, held.live, is_either-or h.flags x)

  with_room : h.n_occupied < h.upper_bound → kh_put h key ≡ some done
  unfolding kh_put make_room
  with_room room =
      let no_resize : leb h.upper_bound h.n_occupied ≡ false = ground (arith, room) in
      rw (kh_put, make_room, no_resize, find_bucket-taken m h s key) refl

  -- On a table that need not grow.
  pub kh_put-Puts : h.n_occupied < h.upper_bound → Puts m h key (kh_put h key)
  kh_put-Puts room = elim (taken-cases m h s key) [
    | inl held ↦
        let same : (done.table ≡ h) × (done.ret ≡ 0) =
          let e = held-same held in (ap (λ r. r.0) e, ap (λ r. r.1) e) in
        record {
          put = done;
          result = with_room room;
          shape = subst (Shape m) (sym same.0) s;
          low = taken-lt m h s key;
          live = ap (λ t. is_either t.flags x) same.0 ∙ held.live;
          has_key = ap (λ t. t.keys x) same.0 ∙ held.has_key;
          same_vals = ap (λ t. t.vals) same.0;
          others = λ i other. (ap (λ t. is_either t.flags i) same.0, ap (λ t. t.keys i) same.0);
          size_is = ground (arith, ap (λ t. t.size) same.0, same.1);
          present = λ e. same.0;
          free = λ ne. absurd (ne same.1);
          new = λ ne. absurd (ne same.1);
        }
    | inr f ↦ record {
      put = done;
      result = with_room room;
      shape = occupy-Shape m h s key x f room;
      low = taken-lt m h s key;
      live = ground (arith, is_either-occupy m h s key x f x);
      has_key = ground (arith, keys-occupy m h s key x f x);
      same_vals = occupy-vals m h s key x f;
      others = λ i other. (
        ground (arith, is_either-occupy m h s key x f i, other),
        ground (arith, keys-occupy m h s key x f i, other),
      );
      size_is = ground (arith, occupy-ret m h s key x f, occupy-size m h s key x f);
      present = λ e. absurd (occupy-ret m h s key x f e);
      free = λ ne. f.free;
      new = λ ne. key-absent m h s key x f;
    }
  ]

-- What the lookups see of it.
pub record Found (h : KhText) (key : Text) (put : Put) : Type 0 where
  pub this : kh_get put.table key ≡ some put.x
  pub others :
      (q : Text)
      → q ≢ key
      → (i : ℕ) → i < h.n_buckets
      → (kh_get put.table q ≡ some i) ↔ (kh_get h q ≡ some i)

module _ (m : ℕ) (h : KhText) (s : Shape m h) (key : Text) (p : Puts m h key (kh_put h key)) where
  same_bucket :
      (q : Text)
      → q ≢ key
      → (i : ℕ) → i < 2 ^ m
      → (IsLive p.put.table i × (p.put.table.keys i ≡ q)) ↔ (IsLive h i × (h.keys i ≡ q))
  same_bucket q ne i low = elim (Bool-cases (i == p.put.x)) [
    | inl same ↦
        let at : i ≡ p.put.x = ground (arith, same) in
        let here : p.put.table.keys i ≡ key = ap p.put.table.keys at ∙ p.has_key in
        (
          λ found. absurd (ne (sym found.1 ∙ here)),
          λ found. elim (Bool-cases (p.put.ret == 0)) [
            | inl old ↦
                let unchanged = p.present (ground (arith, old)) in
                absurd (ne (sym found.1 ∙ (sym (ap (λ t. t.keys i) unchanged) ∙ here)))
            | inr fresh ↦
                let free = p.free (ground (arith, fresh)) in
                absurd (cc (free, found.0, ap (is_either h.flags) at))
          ],
        )
    | inr other ↦ let (flag, k) = p.others i (ground (arith, other)) in ground (arith, flag, k)
  ]

  same-n_buckets : p.put.table.n_buckets ≡ h.n_buckets
  same-n_buckets = p.shape.buckets ∙ sym s.buckets

  -- The key is then found in its bucket, and any other key where it was found before.
  pub kh_put-Found : Found h key p.put
  kh_put-Found = record {
    this =
        (kh_get_iff m p.put.table p.shape key p.put.x (omega (arith, p.low, p.shape.buckets))).1
          (p.live, p.has_key);
    others = λ q ne i low.
        let new = kh_get_iff m p.put.table p.shape q i (omega (arith, low, same-n_buckets)) in
        let old = kh_get_iff m h s q i low in
        let mid = same_bucket q ne i (omega (arith, low, s.buckets)) in
        (λ e. old.1 (mid.0 (new.0 e)), λ e. new.1 (mid.1 (old.0 e)));
  }
