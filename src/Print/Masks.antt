-- ===== src/Print/Masks.antt =====
-- The masks and the legend that src/distillerfs.c prints, against the row of letters that `main` prints
-- above the log.
use distiller_fs.Prelude.{
  none, ℕ, zero, suc, ◌≡◌, ◌≢◌, refl, ap, ◌∙◌, sym, arith, Text, codes, List, [], ◌∷◌, length, map,
  some, get_elem?, bit, bit_and-two_pow, two_pow_pos,
}
use distiller_fs.Ops.{
  FuseOp, ord, symbol, all_ops, qn_flags, log_success, log_unsuccess, op_getattr, op_access,
  op_readlink, op_readdir, op_mknod, op_mkdir, op_symlink, op_unlink, op_rmdir, op_rename, op_link,
  op_chmod, op_chown, op_truncate, op_utime, op_utimens, op_open, op_read, op_write, op_statfs,
  op_release, op_fsync, op_setxattr, op_getxattr, op_listxattr, op_removexattr,
}
use distiller_fs.Ops.Flags.{get_elem?-ord}
use distiller_fs.Print.{mask_char, mask_of}

-- `fprintf(hash_log, "#GArdKMSuDNLmoTnsORWteFXxlv\n")`, behind the `#`.
abbrev pub letters : Text
letters = codes "GArdKMSuDNLmoTnsORWteFXxlv"

symbol-letters : (op : FuseOp) → get_elem? letters (ord op) ≡ some (symbol op)
unfolding symbol
symbol-letters op_getattr = refl
symbol-letters op_access = refl
symbol-letters op_readlink = refl
symbol-letters op_readdir = refl
symbol-letters op_mknod = refl
symbol-letters op_mkdir = refl
symbol-letters op_symlink = refl
symbol-letters op_unlink = refl
symbol-letters op_rmdir = refl
symbol-letters op_rename = refl
symbol-letters op_link = refl
symbol-letters op_chmod = refl
symbol-letters op_chown = refl
symbol-letters op_truncate = refl
symbol-letters op_utime = refl
symbol-letters op_utimens = refl
symbol-letters op_open = refl
symbol-letters op_read = refl
symbol-letters op_write = refl
symbol-letters op_statfs = refl
symbol-letters op_release = refl
symbol-letters op_fsync = refl
symbol-letters op_setxattr = refl
symbol-letters op_getxattr = refl
symbol-letters op_listxattr = refl
symbol-letters op_removexattr = refl

get_elem?-map :
    {A B : Type 0} (f : A → B) (xs : List A) (i : ℕ) {x : A}
    → get_elem? xs i ≡ some x
    → get_elem? (map f xs) i ≡ some (f x)
get_elem?-map f [] i e = absurd (cc e)
get_elem?-map f (y ∷ xs) zero e = ap (λ o. elim o [ none ↦ none | some z ↦ some (f z) ]) e
get_elem?-map f (y ∷ xs) (suc i) e = get_elem?-map f xs i e

-- A row of one character for each operation.
pub char_at : (f : FuseOp → ℕ) (op : FuseOp) → get_elem? (map f all_ops) (ord op) ≡ some (f op)
char_at f op = get_elem?-map f all_ops (ord op) (get_elem?-ord op)

-- The row of a mask: a column for each operation, with the letter of its column where the operation's
-- bit is set, and a dot where it is not.
pub record Mask (flags : ℕ) (mask : Text) : Type 0 where
  pub columns : length mask ≡ qn_flags
  pub seen :
      (op : FuseOp) → bit flags (ord op) ≡ 1 → get_elem? mask (ord op) ≡ get_elem? letters (ord op)
  pub unseen : (op : FuseOp) → bit flags (ord op) ≡ 0 → get_elem? mask (ord op) ≡ some b'.'

mask_char-seen : (flags : ℕ) (op : FuseOp) → bit flags (ord op) ≡ 1 → mask_char flags op ≡ symbol op
unfolding mask_char
mask_char-seen flags op e =
    let set = rw e at (bit_and-two_pow flags (ord op)) in ground (arith, set, two_pow_pos (ord op))

mask_char-unseen : (flags : ℕ) (op : FuseOp) → bit flags (ord op) ≡ 0 → mask_char flags op ≡ b'.'
unfolding mask_char
mask_char-unseen flags op e =
    let clear = rw e at (bit_and-two_pow flags (ord op)) in ground (arith, clear)

pub mask_of-Mask : (flags : ℕ) → Mask flags (mask_of flags)
unfolding mask_of
mask_of-Mask flags = record {
  columns = refl;
  seen = λ op e.
      char_at (mask_char flags) op ∙ ap some (mask_char-seen flags op e) ∙ sym (symbol-letters op);
  unseen = λ op e. char_at (mask_char flags) op ∙ ap some (mask_char-unseen flags op e);
}

-- The row of a legend: `a` for an operation of which failures are logged alone, `s` for successes
-- alone, and a dot for any other.
pub record Legend (op_flags : FuseOp → ℕ) (row : Text) : Type 0 where
  pub columns : length row ≡ qn_flags
  pub failures : (op : FuseOp) → op_flags op ≡ log_unsuccess → get_elem? row (ord op) ≡ some b'a'
  pub successes : (op : FuseOp) → op_flags op ≡ log_success → get_elem? row (ord op) ≡ some b's'
  pub others :
      (op : FuseOp)
      → op_flags op ≢ log_unsuccess
      → op_flags op ≢ log_success
      → get_elem? row (ord op) ≡ some b'.'
