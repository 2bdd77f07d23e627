-- ===== src/Khash/Insertion.antt =====
-- `kh_put` of src/khash.h as a whole: the growth of the table, then the bucket of the key.
use distiller_fs.Prelude.{
  ◌^◌, ℕ, ◌+◌, ◌<◌, ◌≡◌, ◌≢◌, ◌↔◌, refl, sym, ap, ◌∙◌, arith, inl, inr, Bool-cases, ◌==◌,
  if◌then◌else◌, Text, Option, some,
}
use distiller_fs.Khash.Flags.{is_either}
use distiller_fs.Khash.Table.{KhText, Put, make_room, kh_put, kh_get, kh_init}
use distiller_fs.Khash.Shape.{Shape, IsLive}
use distiller_fs.Khash.Resize.{Contains}
use distiller_fs.Khash.Put.{Puts, kh_put-Puts, kh_put-Found}
use distiller_fs.Khash.Growth.{Growable, Blank, make_room-Roomy, make_room-as_is, Shape-Counted}

-- What `kh_put` gives.
pub record Inserted (h : KhText) (key : Text) (r : Option Put) : Type 0 where
  pub put : Put
  pub result : r ≡ some put
  pub m : ℕ
  pub shape : Shape m put.table
  pub low : put.x < put.table.n_buckets
  pub live : IsLive put.table put.x
  pub found : kh_get put.table key ≡ some put.x
  pub others : (q : Text) (v : ℕ) → q ≢ key → Contains put.table q v ↔ Contains h q v
  -- the value that the key had is in the bucket, and the code is then 0
  pub kept : (v : ℕ) → Contains h key v → (put.table.vals put.x ≡ v) × (put.ret ≡ 0)
  pub new : put.ret ≡ 0 → (v : ℕ) × Contains h key v
  -- as long as it held less than `2 ^ 29` keys, the table can grow again
  pub small : h.size < 2 ^ 29 → m < 31
  pub size_is : put.table.size ≡ (if put.ret == 0 then h.size else h.size + 1)

-- The growth comes first, and is not asked for twice.
put-after_growth :
    (h h' : KhText) (key : Text)
    → make_room h ≡ some h'
    → h'.n_occupied < h'.upper_bound
    → kh_put h key ≡ kh_put h' key
unfolding kh_put
put-after_growth h h' key grown room =
    let again = make_room-as_is h' room in rw (kh_put, grown, again) refl

module _ (m : ℕ) (h : KhText) (s : Shape m h) (key : Text) (p : Puts m h key (kh_put h key)) where
  n_buckets-same : p.put.table.n_buckets ≡ h.n_buckets
  n_buckets-same = p.shape.buckets ∙ sym s.buckets

  -- A bucket with another key is another bucket.
  other_bucket : (i : ℕ) → p.put.table.keys i ≢ key → i ≢ p.put.x
  other_bucket i ne e = ne (ap p.put.table.keys e ∙ p.has_key)

  old_apart : (q : Text) (v : ℕ) → q ≢ key → (c : Contains h q v) → c.i ≢ p.put.x
  old_apart q v ne c e = elim (Bool-cases (p.put.ret == 0)) [
    | inl old ↦
        let same = p.present (ground (arith, old)) in
        ne (sym c.key_is ∙ (sym (ap (λ t. t.keys c.i) same) ∙ (ap p.put.table.keys e ∙ p.has_key)))
    | inr fresh ↦ cc (p.free (ground (arith, fresh)), c.live, ap (is_either h.flags) e)
  ]

  put-others : (q : Text) (v : ℕ) → q ≢ key → Contains p.put.table q v ↔ Contains h q v
  put-others q v ne = (
    λ c.
        let apart = other_bucket c.i (λ e. ne (sym c.key_is ∙ e)) in
        let (flag, k) = p.others c.i apart in
        record {
          i = c.i;
          low = omega (arith, c.low, n_buckets-same);
          live = sym flag ∙ c.live;
          key_is = sym k ∙ c.key_is;
          val_is = sym (ap (λ u. u c.i) p.same_vals) ∙ c.val_is;
        },
    λ c.
        let apart = old_apart q v ne c in
        let (flag, k) = p.others c.i apart in
        record {
          i = c.i;
          low = omega (arith, c.low, n_buckets-same);
          live = flag ∙ c.live;
          key_is = k ∙ c.key_is;
          val_is = ap (λ u. u c.i) p.same_vals ∙ c.val_is;
        },
  )

  -- Where the code is 0, the key was there.
  abbrev was_here : p.put.ret ≡ 0 → Contains h key (h.vals p.put.x)
  was_here old =
      let same = p.present old in
      record {
        i = p.put.x;
        low = omega (arith, p.low, s.buckets);
        live = sym (ap (λ t. is_either t.flags p.put.x) same) ∙ p.live;
        key_is = sym (ap (λ t. t.keys p.put.x) same) ∙ p.has_key;
        val_is = refl;
      }

  put-kept : (v : ℕ) → Contains h key v → (p.put.table.vals p.put.x ≡ v) × (p.put.ret ≡ 0)
  put-kept v c = elim (Bool-cases (p.put.ret == 0)) [
    | inr fresh ↦
        absurd (p.new (ground (arith, fresh)) c.i (omega (arith, c.low, s.buckets)) c.live c.key_is)
    | inl old ↦
        let code : p.put.ret ≡ 0 = ground (arith, old) in
        let c' = was_here code in
        let same : c.i ≡ c'.i =
          (Shape-Counted m h s).once c.i c'.i c.low c'.low c.live c'.live
            (c.key_is ∙ sym c'.key_is) in
        (ap (λ u. u p.put.x) p.same_vals ∙ (ap h.vals (sym same) ∙ c.val_is), code)
  ]

  put-Inserted : (h.size < 2 ^ 29 → m < 31) → Inserted h key (kh_put h key)
  put-Inserted small = record {
    put = p.put;
    result = p.result;
    m = m;
    shape = p.shape;
    low = omega (arith, p.low, p.shape.buckets);
    live = p.live;
    found = (kh_put-Found m h s key p).this;
    others = put-others;
    kept = put-kept;
    new = λ old. (h.vals p.put.x, was_here old);
    small = small;
    size_is = p.size_is;
  }

-- On a table without buckets, or one of at most `2 ^ 30` buckets that keeps the invariant, `kh_put`
-- returns: the new table keeps the invariant, the key is found in the bucket that is returned, with the
-- value that it had if it was there, which is when the code is 0; every other key keeps its value or
-- its absence; the size grows by one exactly where the key is new; and a table of less than `2 ^ 29`
-- keys leaves one that can grow again.
pub kh_put-Inserted : (h : KhText) (key : Text) → Growable h → Inserted h key (kh_put h key)
kh_put-Inserted h key g =
    let r = make_room-Roomy h g in
    let p =
      put-Inserted r.m r.table r.shape key (kh_put-Puts r.m r.table r.shape key r.room)
        (λ few. r.small (omega (arith, few, r.same_size))) in
    record {
      put = p.put;
      result = put-after_growth h r.table key r.result r.room ∙ p.result;
      m = p.m;
      shape = p.shape;
      low = p.low;
      live = p.live;
      found = p.found;
      others = λ q v ne. (
        λ c. (r.contents q v).0 ((p.others q v ne).0 c),
        λ c. (p.others q v ne).1 ((r.contents q v).1 c),
      );
      kept = λ v c. p.kept v ((r.contents key v).1 c);
      new = λ old. let (v, c) = p.new old in (v, (r.contents key v).0 c);
      small = λ few. p.small (omega (arith, few, r.same_size));
      size_is = ground (arith, p.size_is, r.same_size);
    }

pub Blank-kh_init : Blank kh_init
unfolding kh_init
Blank-kh_init = record { no_buckets = refl; no_size = refl; none_occupied = refl; no_bound = refl }
