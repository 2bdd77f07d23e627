-- ===== src/Hash.antt =====
-- src/utils.c: the string-keyed hash that the logger uses, over khash. `0` is `NULL`.
pub mod Laws
pub mod Map
use distiller_fs.Prelude.{ℕ, ◌<◌, ◌≡◌, Text, ◌==◌, if◌then◌else◌}
use distiller_fs.Khash.{Khash}

module _ (kh : Khash) where
  open kh use {Table, kh_init, kh_destroy, kh_get, kh_put, kh_del, kh_value, kh_set_value, kh_end}

  -- The size is not used.
  unfoldable pub hash_new : ℕ → Table
  hash_new initial_size = kh_init

  unfoldable pub hash_free : Table → Table
  hash_free h = kh_destroy h

  -- Returns the iterator too.
  unfoldable pub hash_add : Table → Text → ℕ → Table × ℕ
  hash_add h key value = let (h', k) = kh_put h key in (kh_set_value h' k value, k)

  unfoldable pub hash_soft_add : Table → Text → ℕ → Table × ℕ
  hash_soft_add h key value = let (h', k) = kh_put h key in (kh_set_value h' k value, k)

  unfoldable pub hash_find : Table → Text → ℕ
  hash_find h key = let k = kh_get h key in if k == kh_end h then 0 else kh_value h k

  unfoldable pub hash_delete : Table → Text → Table
  hash_delete h key = kh_del h (kh_get h key)
