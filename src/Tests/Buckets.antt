-- ===== src/Tests/Buckets.antt =====
-- The table of src/khash.h: a run, and the theorems at concrete inputs.
use distiller_fs.Prelude.{
  ℕ, Text, List, [], ◌∷◌, Option, none, ◌*◌, ◌+◌, ◌<◌, ◌≡◌, ◌↔◌, refl, arith, codes, inl, some,
}
use distiller_fs.Khash.Table.{
  make_room, find_bucket, put_loop, choose, occupy, rehash, kick_out, settle, find_empty, goes_on,
  advance, hash_string, hash_loop, char_value, KhText, kh_init, kh_get, kh_put, kh_resize, upper_of,
  roundup32,
}
use distiller_fs.Khash.Flags.{
  is_empty, is_del, is_either, set_isempty_false, set_isboth_false, set_isdel_true, all_empty,
}
use distiller_fs.Khash.Shape.{IsLive, kh_get_iff, upper_of-lt}
use distiller_fs.Khash.Resize.{Resized, kh_resize-Resized}
use distiller_fs.Khash.Growth.{Shape-Counted}
use distiller_fs.Khash.Delete.{Deleted, kh_del-Deleted}
use distiller_fs.Khash.Insertion.{Inserted, kh_put-Inserted, Blank-kh_init}

-- The table with one path.
abbrev with_tmp : Inserted kh_init (codes "/tmp") (kh_put kh_init (codes "/tmp"))
with_tmp = kh_put-Inserted kh_init (codes "/tmp") (inl Blank-kh_init)

abbrev tmp_table : KhText
tmp_table = with_tmp.put.table

kh_put-Inserted_example : Inserted kh_init (codes "/tmp") (kh_put kh_init (codes "/tmp"))
kh_put-Inserted_example = kh_put-Inserted kh_init (codes "/tmp") (inl Blank-kh_init)

kh_get_iff_example :
    (kh_get tmp_table (codes "/tmp") ≡ some with_tmp.put.x)
    ↔ (IsLive tmp_table with_tmp.put.x × (tmp_table.keys with_tmp.put.x ≡ codes "/tmp"))
kh_get_iff_example =
    kh_get_iff with_tmp.m tmp_table with_tmp.shape (codes "/tmp") with_tmp.put.x with_tmp.low

kh_del-Deleted_example :
    Deleted with_tmp.m tmp_table with_tmp.shape with_tmp.put.x with_tmp.low with_tmp.live
kh_del-Deleted_example =
    kh_del-Deleted with_tmp.m tmp_table with_tmp.shape with_tmp.put.x with_tmp.low with_tmp.live

small_size : tmp_table.size < upper_of 8
unfolding upper_of kh_init
small_size = ground (arith, with_tmp.size_is)

kh_resize-Resized_example : Resized 3 tmp_table (kh_resize tmp_table 5)
unfolding roundup32
kh_resize-Resized_example =
    kh_resize-Resized tmp_table (Shape-Counted with_tmp.m tmp_table with_tmp.shape) 3 (omega arith)
      (omega arith) small_size (upper_of-lt 8 (omega arith)) 5 refl

-- Five paths in turn: the table grows from 4 to 8 buckets at the fourth.
abbrev put_all : List Text → KhText → Option KhText
put_all [] h = some h
put_all (key ∷ keys) h = elim (kh_put h key) [ none ↦ none | some put ↦ put_all keys put.table ]

abbrev five_paths : Option ℕ
five_paths =
    elim (put_all (codes "/a" ∷ codes "/b" ∷ codes "/c" ∷ codes "/d" ∷ codes "/e" ∷ []) kh_init) [
      | none ↦ none
      | some h ↦ some (h.size * 100 + h.n_buckets)
    ]

five_paths_run : five_paths ≡ some 508
unfolding kh_put kh_init make_room find_bucket put_loop choose occupy kh_resize rehash kick_out
    settle find_empty goes_on advance hash_string hash_loop char_value roundup32 upper_of is_empty
    is_del is_either set_isempty_false set_isboth_false set_isdel_true all_empty
five_paths_run = refl
