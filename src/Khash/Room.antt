-- ===== src/Khash/Room.antt =====
-- The calls of src/khash.h as functions that always answer, and what a lookup finds.
use distiller_fs.Prelude.{
  ℕ, ◌+◌, ◌^◌, ◌≤◌, ◌<◌, ◌≡◌, ◌≢◌, ◌↔◌, refl, sym, ap, ◌∙◌, arith, ◌⊎◌, inl, inr, Bool-cases, Text,
  Option, none, some, true, false,
}
use distiller_fs.Khash.Flags.{is_either}
use distiller_fs.Khash.Table.{KhText, Put, kh_get, kh_put, put_at}
use distiller_fs.Khash.Lookup.{try_at, try_at-lt}
use distiller_fs.Khash.Shape.{Shape, IsLive, key_trail, stop-key, kh_get_lem, kh_get_iff}
use distiller_fs.Khash.Resize.{Contains}
use distiller_fs.Khash.Growth.{Growable, Blank}

-- The iterator of a lookup, and the table and the iterator of a `kh_put`. Where the fuel runs out,
-- which the loops of a table that the calls made never do, they find no bucket.
unfoldable pub bucket_of : KhText → Option ℕ → ℕ
bucket_of h none = h.n_buckets
bucket_of h (some i) = i

unfoldable pub put_of : KhText → Option Put → KhText × ℕ
put_of h none = (h, h.n_buckets)
put_of h (some put) = (put.table, put.x)

abbrev pub get : KhText → Text → ℕ
get h q = bucket_of h (kh_get h q)

abbrev pub put : KhText → Text → KhText × ℕ
put h q = put_of h (kh_put h q)

-- `kh_value(h, i) = v`
abbrev pub set_value : KhText → ℕ → ℕ → KhText
set_value h i v = record h { vals = put_at h.vals i v }

-- A table that the calls made, with room for so many more keys.
abbrev pub Room : ℕ → KhText → Type 0
Room n h = Growable h × (h.size + n ≤ 2 ^ 29)

-- A lookup finds the bucket in which its key is live, or none.
pub record Hit (h : KhText) (q : Text) : Type 0 where
  pub low : get h q < h.n_buckets
  pub live : IsLive h (get h q)
  pub key_is : h.keys (get h q) ≡ q

Blank-get : (h : KhText) (q : Text) → Blank h → get h q ≡ h.n_buckets
unfolding kh_get bucket_of
Blank-get h q b = ground (arith, b.no_buckets)

module _ (m : ℕ) (h : KhText) (s : Shape m h) (q : Text) where
  abbrev stop : ℕ
  stop = try_at m q (key_trail m h s q).j

  get-free : is_either h.flags stop ≡ true → get h q ≡ h.n_buckets
  unfolding bucket_of
  get-free free =
      let e : kh_get h q ≡ some h.n_buckets = kh_get_lem m h s q ∙ rw free refl in
      ap (bucket_of h) e

  get-live : is_either h.flags stop ≡ false → stop ≡ get h q
  unfolding bucket_of
  get-live live =
      let e : kh_get h q ≡ some stop = kh_get_lem m h s q ∙ rw live refl in sym (ap (bucket_of h) e)

  Shape-get : (get h q ≡ h.n_buckets) ⊎ Hit h q
  Shape-get = elim (Bool-cases (is_either h.flags stop)) [
    | inl free ↦ inl (get-free free)
    | inr live ↦
        let at = get-live live in
        inr (record {
          low = omega (arith, at, s.buckets, try_at-lt m s.m_le q (key_trail m h s q).j);
          live = ap (is_either h.flags) (sym at) ∙ live;
          key_is = ap h.keys (sym at) ∙ stop-key m h s q stop (key_trail m h s q).stop live;
        })
  ]

pub get-cases : (h : KhText) (q : Text) → Growable h → (get h q ≡ h.n_buckets) ⊎ Hit h q
get-cases h q (inl b) = inl (Blank-get h q b)
get-cases h q (inr (m, low, s)) = Shape-get m h s q

pub get-Hit : (h : KhText) (q : Text) → Growable h → get h q ≢ h.n_buckets → Hit h q
get-Hit h q g ne = elim (get-cases h q g) [ inl absent ↦ absurd (ne absent) | inr hit ↦ hit ]

-- A live bucket is the one that the lookup of its key finds.
pub get-keys :
    (h : KhText) (i : ℕ) → Growable h → i < h.n_buckets → IsLive h i → get h (h.keys i) ≡ i
unfolding bucket_of
get-keys h i (inl b) low live = absurd (omega (arith, low, b.no_buckets))
get-keys h i (inr (m, fits, s)) low live =
    ap (bucket_of h) ((kh_get_iff m h s (h.keys i) i low).1 (live, refl))

pub Hit-Contains : (h : KhText) (q : Text) → Hit h q → Contains h q (h.vals (get h q))
Hit-Contains h q x = record {
  i = get h q;
  low = x.low;
  live = x.live;
  key_is = x.key_is;
  val_is = refl;
}

pub get-Contains :
    (h : KhText) (q : Text) (v : ℕ)
    → Growable h
    → Contains h q v
    → (get h q < h.n_buckets) × (h.vals (get h q) ≡ v)
get-Contains h q v g c =
    let at : get h q ≡ c.i = ap (get h) (sym c.key_is) ∙ get-keys h c.i g c.low c.live in
    (omega (arith, at, c.low), ap h.vals at ∙ c.val_is)

-- A key whose lookup finds no bucket is nowhere, and the other way round.
pub absent_iff :
    (h : KhText) (q : Text) → Growable h → (get h q ≡ h.n_buckets) ↔ ((v : ℕ) → ¬ Contains h q v)
absent_iff h q g = (
  λ absent v c. omega (arith, absent, (get-Contains h q v g c).0),
  λ nowhere. elim (get-cases h q g) [
    | inl absent ↦ absent
    | inr hit ↦ absurd (nowhere _ (Hit-Contains h q hit))
  ],
)
