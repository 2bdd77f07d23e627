-- ===== src/Ops/Flags.antt =====
-- Facts about the operation table that the log and the configuration rely on.
use distiller_fs.Prelude.{◌<◌, ◌≡◌, refl, ap, some, get_elem?, arith}
use distiller_fs.Ops.{
  FuseOp, ord, all_ops, qn_flags, op_getattr, op_access, op_readlink, op_readdir, op_mknod,
  op_mkdir, op_symlink, op_unlink, op_rmdir, op_rename, op_link, op_chmod, op_chown, op_truncate,
  op_utime, op_utimens, op_open, op_read, op_write, op_statfs, op_release, op_fsync, op_setxattr,
  op_getxattr, op_listxattr, op_removexattr,
}

-- The operation that stands at an index of the tables stands at its own number.
pub get_elem?-ord : (op : FuseOp) → get_elem? all_ops (ord op) ≡ some op
get_elem?-ord op_getattr = refl
get_elem?-ord op_access = refl
get_elem?-ord op_readlink = refl
get_elem?-ord op_readdir = refl
get_elem?-ord op_mknod = refl
get_elem?-ord op_mkdir = refl
get_elem?-ord op_symlink = refl
get_elem?-ord op_unlink = refl
get_elem?-ord op_rmdir = refl
get_elem?-ord op_rename = refl
get_elem?-ord op_link = refl
get_elem?-ord op_chmod = refl
get_elem?-ord op_chown = refl
get_elem?-ord op_truncate = refl
get_elem?-ord op_utime = refl
get_elem?-ord op_utimens = refl
get_elem?-ord op_open = refl
get_elem?-ord op_read = refl
get_elem?-ord op_write = refl
get_elem?-ord op_statfs = refl
get_elem?-ord op_release = refl
get_elem?-ord op_fsync = refl
get_elem?-ord op_setxattr = refl
get_elem?-ord op_getxattr = refl
get_elem?-ord op_listxattr = refl
get_elem?-ord op_removexattr = refl

pub ord-injective : (a b : FuseOp) → ord a ≡ ord b → a ≡ b
ord-injective a b h = cc (get_elem?-ord a, get_elem?-ord b, ap (get_elem? all_ops) h)

-- Every number fits the mask: `1 << OP_X` stays below `1 << QN_FLAGS`.
pub ord-lt-qn_flags : (op : FuseOp) → ord op < qn_flags
ord-lt-qn_flags op_getattr = omega arith
ord-lt-qn_flags op_access = omega arith
ord-lt-qn_flags op_readlink = omega arith
ord-lt-qn_flags op_readdir = omega arith
ord-lt-qn_flags op_mknod = omega arith
ord-lt-qn_flags op_mkdir = omega arith
ord-lt-qn_flags op_symlink = omega arith
ord-lt-qn_flags op_unlink = omega arith
ord-lt-qn_flags op_rmdir = omega arith
ord-lt-qn_flags op_rename = omega arith
ord-lt-qn_flags op_link = omega arith
ord-lt-qn_flags op_chmod = omega arith
ord-lt-qn_flags op_chown = omega arith
ord-lt-qn_flags op_truncate = omega arith
ord-lt-qn_flags op_utime = omega arith
ord-lt-qn_flags op_utimens = omega arith
ord-lt-qn_flags op_open = omega arith
ord-lt-qn_flags op_read = omega arith
ord-lt-qn_flags op_write = omega arith
ord-lt-qn_flags op_statfs = omega arith
ord-lt-qn_flags op_release = omega arith
ord-lt-qn_flags op_fsync = omega arith
ord-lt-qn_flags op_setxattr = omega arith
ord-lt-qn_flags op_getxattr = omega arith
ord-lt-qn_flags op_listxattr = omega arith
ord-lt-qn_flags op_removexattr = omega arith
