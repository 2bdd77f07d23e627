-- ===== src/Ops.antt =====
-- The table of FUSE operations of src/distillerfs.c: their numbers, mask bits, names in the
-- configuration, letters in the log, and the two states that a filter selects.
pub mod Flags
use distiller_fs.Prelude.{ℕ, ◌^◌, Text, codes, List, [], ◌∷◌}

-- `enum FUSE_OPS`
pub data FuseOp : Type 0 where
  op_getattr op_access op_readlink op_readdir op_mknod op_mkdir op_symlink op_unlink op_rmdir :
      FuseOp
  op_rename op_link op_chmod op_chown op_truncate op_utime op_utimens op_open op_read : FuseOp
  op_write op_statfs op_release op_fsync op_setxattr op_getxattr op_listxattr op_removexattr :
      FuseOp

-- The value of an enumerator.
abbrev pub ord : FuseOp → ℕ
ord op_getattr = 0
ord op_access = 1
ord op_readlink = 2
ord op_readdir = 3
ord op_mknod = 4
ord op_mkdir = 5
ord op_symlink = 6
ord op_unlink = 7
ord op_rmdir = 8
ord op_rename = 9
ord op_link = 10
ord op_chmod = 11
ord op_chown = 12
ord op_truncate = 13
ord op_utime = 14
ord op_utimens = 15
ord op_open = 16
ord op_read = 17
ord op_write = 18
ord op_statfs = 19
ord op_release = 20
ord op_fsync = 21
ord op_setxattr = 22
ord op_getxattr = 23
ord op_listxattr = 24
ord op_removexattr = 25

-- `FLAG_X`, which is `1 << OP_X`.
abbrev pub flag : FuseOp → ℕ
flag op = 2 ^ ord op

-- `op_names[op]`
unfoldable pub op_name : FuseOp → Text
op_name op_getattr = codes "getattr"
op_name op_access = codes "access"
op_name op_readlink = codes "readlink"
op_name op_readdir = codes "readdir"
op_name op_mknod = codes "mknod"
op_name op_mkdir = codes "mkdir"
op_name op_symlink = codes "symlink"
op_name op_unlink = codes "unlink"
op_name op_rmdir = codes "rmdir"
op_name op_rename = codes "rename"
op_name op_link = codes "link"
op_name op_chmod = codes "chmod"
op_name op_chown = codes "chown"
op_name op_truncate = codes "truncate"
op_name op_utime = codes "utime"
op_name op_utimens = codes "utimens"
op_name op_open = codes "open"
op_name op_read = codes "read"
op_name op_write = codes "write"
op_name op_statfs = codes "statfs"
op_name op_release = codes "release"
op_name op_fsync = codes "fsync"
op_name op_setxattr = codes "setxattr"
op_name op_getxattr = codes "getxattr"
op_name op_listxattr = codes "listxattr"
op_name op_removexattr = codes "removexattr"

-- `symbols[op]`
unfoldable pub symbol : FuseOp → ℕ
symbol op_getattr = b'G'
symbol op_access = b'A'
symbol op_readlink = b'r'
symbol op_readdir = b'd'
symbol op_mknod = b'K'
symbol op_mkdir = b'M'
symbol op_symlink = b'S'
symbol op_unlink = b'u'
symbol op_rmdir = b'D'
symbol op_rename = b'N'
symbol op_link = b'L'
symbol op_chmod = b'm'
symbol op_chown = b'o'
symbol op_truncate = b'T'
symbol op_utime = b'n'
symbol op_utimens = b's'
symbol op_open = b'O'
symbol op_read = b'R'
symbol op_write = b'W'
symbol op_statfs = b't'
symbol op_release = b'e'
symbol op_fsync = b'F'
symbol op_setxattr = b'X'
symbol op_getxattr = b'x'
symbol op_listxattr = b'l'
symbol op_removexattr = b'v'

-- The range of the loops `for (int i = 0; i < QN_FLAGS; i++)`: the array indices in their order.
abbrev pub all_ops : List FuseOp
all_ops =
    op_getattr ∷ op_access ∷ op_readlink ∷ op_readdir ∷ op_mknod ∷ op_mkdir ∷ op_symlink ∷ op_unlink
    ∷ op_rmdir ∷ op_rename ∷ op_link ∷ op_chmod ∷ op_chown ∷ op_truncate ∷ op_utime ∷ op_utimens
    ∷ op_open ∷ op_read ∷ op_write ∷ op_statfs ∷ op_release ∷ op_fsync ∷ op_setxattr ∷ op_getxattr
    ∷ op_listxattr ∷ op_removexattr ∷ []

-- `QN_FLAGS`
abbrev pub qn_flags : ℕ
qn_flags = 26

-- `LOG_SUCCESS` and `LOG_UNSUCCESS`
abbrev pub log_success : ℕ
log_success = 1

abbrev pub log_unsuccess : ℕ
log_unsuccess = 2
