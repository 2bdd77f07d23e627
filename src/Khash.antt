-- ===== src/Khash.antt =====
-- The interface of khash.h at `KHASH_MAP_INIT_STR(text, void*)`: the calls that src/utils.c and
-- src/distillerfs.c make. khash is another project's library, so its table is a parameter. Keys
-- stand for the strings that the key pointers show, and a `void *` value is an address.
pub mod Flags
pub mod Table
pub mod Probe
pub mod Lookup
pub mod Insert
pub mod Occupy
pub mod Put
pub mod Delete
pub mod Rehash
pub mod Resize
pub mod Growth
pub mod Insertion
pub mod Shape
pub mod Positions
pub mod Room
pub mod Removal
pub mod Instance
use distiller_fs.Prelude.{count, ℕ, suc, ◌<◌, ◌≤◌, ◌≡◌, ◌≢◌, ◌↔◌, Bool, true, Text, ◌==◌}

pub record Khash : Type 1 where
  pub Table : Type 0
  pub kh_init : Table
  pub kh_destroy : Table → Table
  pub kh_get : Table → Text → ℕ
  pub kh_put : Table → Text → Table × ℕ
  pub kh_del : Table → ℕ → Table
  pub kh_value : Table → ℕ → ℕ
  -- the assignment `kh_value(h, k) = v`
  pub kh_set_value : Table → ℕ → ℕ → Table
  pub kh_key : Table → ℕ → Text
  pub kh_exist : Table → ℕ → Bool
  pub kh_end : Table → ℕ
  pub kh_size : Table → ℕ
  -- A table that these calls made, with room for so many more keys, and the room of an empty one.
  pub Fits : ℕ → Table → Type 0
  pub capacity : ℕ

-- The documented behaviour of these calls: an iterator below `kh_end` that exists stands for one
-- key, `kh_get` returns it or `kh_end`, and `kh_put`, where a key still fits, makes room for it and
-- keeps the others; `kh_del` at a key takes it out and keeps the others; and `kh_size` counts the iterators that exist.
pub record KhashLaws (kh : Khash) : Type 0 where
  pub fits-init : (n : ℕ) → n ≤ kh.capacity → kh.Fits n kh.kh_init
  pub fits-le : (m n : ℕ) (t : kh.Table) → m ≤ n → kh.Fits n t → kh.Fits m t
  pub fits-put : (n : ℕ) (t : kh.Table) (q : Text) → kh.Fits (suc n) t → kh.Fits n (kh.kh_put t q).0
  pub fits-set_value :
      (n : ℕ) (t : kh.Table) (i v : ℕ) → kh.Fits n t → kh.Fits n (kh.kh_set_value t i v)
  pub get-init : (q : Text) → kh.kh_get kh.kh_init q ≡ kh.kh_end kh.kh_init
  pub get-lt-end :
      (t : kh.Table) (q : Text)
      → kh.Fits 0 t
      → kh.kh_get t q ≢ kh.kh_end t
      → kh.kh_get t q < kh.kh_end t
  pub exist-get :
      (t : kh.Table) (q : Text)
      → kh.Fits 0 t
      → kh.kh_get t q ≢ kh.kh_end t
      → kh.kh_exist t (kh.kh_get t q) ≡ true
  pub key-get :
      (t : kh.Table) (q : Text)
      → kh.Fits 0 t
      → kh.kh_get t q ≢ kh.kh_end t
      → kh.kh_key t (kh.kh_get t q) ≡ q
  pub get-key :
      (t : kh.Table) (i : ℕ)
      → kh.Fits 0 t
      → i < kh.kh_end t
      → kh.kh_exist t i ≡ true
      → kh.kh_get t (kh.kh_key t i) ≡ i
  pub get-put :
      (t : kh.Table) (q : Text) → kh.Fits 1 t → kh.kh_get (kh.kh_put t q).0 q ≡ (kh.kh_put t q).1
  pub put-ne-end :
      (t : kh.Table) (q : Text) → kh.Fits 1 t → (kh.kh_put t q).1 ≢ kh.kh_end (kh.kh_put t q).0
  pub absent-put :
      (t : kh.Table) (q j : Text)
      → kh.Fits 1 t
      → j ≢ q
      → (kh.kh_get (kh.kh_put t q).0 j ≡ kh.kh_end (kh.kh_put t q).0)
        ↔ (kh.kh_get t j ≡ kh.kh_end t)
  pub value-put :
      (t : kh.Table) (q j : Text)
      → kh.Fits 1 t
      → j ≢ q
      → kh.kh_get t j ≢ kh.kh_end t
      → kh.kh_value (kh.kh_put t q).0 (kh.kh_get (kh.kh_put t q).0 j)
        ≡ kh.kh_value t (kh.kh_get t j)
  pub fits-del :
      (n : ℕ) (t : kh.Table) (q : Text) → kh.Fits n t → kh.Fits n (kh.kh_del t (kh.kh_get t q))
  pub get-del :
      (t : kh.Table) (q : Text)
      → kh.Fits 0 t
      → let u = kh.kh_del t (kh.kh_get t q) in kh.kh_get u q ≡ kh.kh_end u
  pub absent-del :
      (t : kh.Table) (q j : Text)
      → kh.Fits 0 t
      → j ≢ q
      → let u = kh.kh_del t (kh.kh_get t q) in
        (kh.kh_get u j ≡ kh.kh_end u) ↔ (kh.kh_get t j ≡ kh.kh_end t)
  pub value-del :
      (t : kh.Table) (q j : Text)
      → kh.Fits 0 t
      → j ≢ q
      → kh.kh_get t j ≢ kh.kh_end t
      → let u = kh.kh_del t (kh.kh_get t q) in
        kh.kh_value u (kh.kh_get u j) ≡ kh.kh_value t (kh.kh_get t j)
  pub get-set_value :
      (t : kh.Table) (i v : ℕ) (q : Text) → kh.kh_get (kh.kh_set_value t i v) q ≡ kh.kh_get t q
  pub end-set_value : (t : kh.Table) (i v : ℕ) → kh.kh_end (kh.kh_set_value t i v) ≡ kh.kh_end t
  pub value-set_value :
      (t : kh.Table) (i v : ℕ) → kh.kh_exist t i ≡ true → kh.kh_value (kh.kh_set_value t i v) i ≡ v
  pub size-count : (t : kh.Table) → kh.Fits 0 t → kh.kh_size t ≡ count (kh.kh_exist t) (kh.kh_end t)
  pub value-set_value_ne :
      (t : kh.Table) (i j v : ℕ) → i ≢ j → kh.kh_value (kh.kh_set_value t i v) j ≡ kh.kh_value t j
