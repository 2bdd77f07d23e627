-- ===== src/Toml/Tree.antt =====
-- The calls of src/toml.c with which `parse_config` reads a table that was parsed: the loops over
-- the keys, and the strings behind their quotes. Tables and arrays live at addresses, as the
-- pointers between them do. Allocation succeeds. A null pointer, an error and a datum that is not
-- `ok` are `none`.
use distiller_fs.Prelude.{
  ℕ, ◌+◌, ◌-◌, Text, text_eq, length, get_elem?, take, drop, List, [], ◌∷◌, ◌++◌, Option, none,
  some, Bool, true, false, not, ◌&&◌, ◌||◌, ◌==◌, leb, if◌then◌else◌,
}
use distiller_fs.Toml.{Toml}

pub record TomlKeyval : Type 0 where
  pub key : Text
  pub val : Text

pub record TomlArritem : Type 0 where
  pub valtype : ℕ
  pub val : Option Text
  pub arr : Option ℕ
  pub tab : Option ℕ

-- `nitem` is the length of `item`; so are `nkval`, `narr` and `ntab` below.
pub record TomlArray : Type 0 where
  pub key : Text
  pub kind : ℕ
  pub type : ℕ
  pub item : List TomlArritem

pub record TomlTable : Type 0 where
  pub key : Text
  pub implicit : Bool
  pub readonly : Bool
  pub kval : List TomlKeyval
  pub arr : List ℕ
  pub tab : List ℕ

-- What lives at the addresses.
pub record Nodes : Type 0 where
  pub tables : ℕ → TomlTable
  pub arrays : ℕ → TomlArray

unfoldable pub raw_in : Text → List TomlKeyval → Option Text
raw_in key [] = none
raw_in key (kv ∷ kval) =
    let rest = raw_in key kval in if text_eq key kv.key then some kv.val else rest

unfoldable pub toml_raw_in : TomlTable → Text → Option Text
unfolding raw_in
toml_raw_in tab key = raw_in key tab.kval

-- The loops of `toml_array_in` and `toml_table_in`: the first address whose node has the key.
unfoldable pub node_in : (ℕ → Text) → Text → List ℕ → Option ℕ
node_in key_of key [] = none
node_in key_of key (p ∷ ps) =
    let rest = node_in key_of key ps in if text_eq key (key_of p) then some p else rest

unfoldable pub toml_array_in : Nodes → TomlTable → Text → Option ℕ
unfolding node_in
toml_array_in s tab key = node_in (λ p. (s.arrays p).key) key tab.arr

unfoldable pub toml_table_in : Nodes → TomlTable → Text → Option ℕ
unfolding node_in
toml_table_in s tab key = node_in (λ p. (s.tables p).key) key tab.tab

unfoldable pub toml_raw_at : TomlArray → ℕ → Option Text
toml_raw_at arr idx = elim (get_elem? arr.item idx) [ none ↦ none | some item ↦ item.val ]

unfoldable pub toml_array_nelem : TomlArray → ℕ
toml_array_nelem arr = length arr.item

-- `dst`, what is written of it, and `max`, the bytes it has.
pub record Buffer : Type 0 where
  pub dst : Text
  pub max : ℕ

-- `if (off >= max - 10)` the buffer grows.
unfoldable pub grow : Buffer → Buffer
grow b = if leb b.max (length b.dst + 10) then record b { max = b.max + 50 } else b

-- The control characters that have to be escaped, on a signed char.
unfoldable pub is_control : ℕ → Bool
is_control ch = leb ch 0x08 || (leb 0x0a ch && leb ch 0x1f) || (ch == 0x7f)

unfoldable pub lit_loop : Bool → Text → Buffer → Option Buffer
unfolding grow is_control
lit_loop multiline [] b = some (record (grow b) { dst = (grow b).dst ++ (0 ∷ []) })
lit_loop multiline (ch ∷ rest) b =
    let next = lit_loop multiline rest (record (grow b) { dst = (grow b).dst ++ (ch ∷ []) }) in
    if is_control ch && not (multiline && ((ch == 0x0d) || (ch == 0x0a))) then none else next

unfoldable pub norm_lit_str : Text → Bool → Option Buffer
unfolding lit_loop
norm_lit_str src multiline = lit_loop multiline src (record { dst = []; max = 0 })

-- `src[i]`, with the NUL at the end.
unfoldable pub char_at : Text → ℕ → ℕ
char_at src i = elim (get_elem? src i) [ none ↦ 0 | some c ↦ c ]

-- The string in a buffer, up to the NUL that was written last.
abbrev pub string_of : Option Buffer → Option Text
string_of none = none
string_of (some b) = some (take (length b.dst - 1) b.dst)

-- The text between two indices.
abbrev pub between : Text → ℕ → ℕ → Text
between src sp sq = take (sq - sp) (drop sp src)

module _ (norm_basic_str : Text → Bool → Option Buffer) where
  -- Behind the quotes: the last step of `toml_rtos`.
  unfoldable pub norm_str : ℕ → Text → Bool → Option Text
  unfolding norm_lit_str
  norm_str qchar src multiline =
      if qchar == 0x27
      then string_of (norm_lit_str src multiline)
      else string_of (norm_basic_str src multiline)

  -- The first character of a string in triple quotes: a line end directly after them is skipped.
  unfoldable pub skip_newline : Text → ℕ → ℕ
  unfolding char_at
  skip_newline src sp =
      if char_at src sp == 0x0a
      then sp + 1
      else if (char_at src sp == 0x0d) && (char_at src (sp + 1) == 0x0a)
      then sp + 2
      else sp

  unfoldable pub toml_rtos : Option Text → Option Text
  unfolding norm_str skip_newline
  toml_rtos none = none
  toml_rtos (some src) =
      let qchar = char_at src 0 in
      let srclen = length src in
      if not ((qchar == 0x27) || (qchar == 0x22))
      then none
      else if (qchar == char_at src 1) && (qchar == char_at src 2)
      then (let sq = srclen - 3 in
          if leb 6 srclen
            && (char_at src sq == qchar)
            && (char_at src (sq + 1) == qchar)
            && (char_at src (sq + 2) == qchar)
          then norm_str qchar (between src (skip_newline src 3) sq) true
          else none)
      else if leb 2 srclen && (char_at src (srclen - 1) == qchar)
      then norm_str qchar (between src 1 (srclen - 1)) false
      else none

  unfoldable pub toml_string_at : TomlArray → ℕ → Option Text
  unfolding toml_rtos
  toml_string_at arr idx = toml_rtos (toml_raw_at arr idx)

  unfoldable pub toml_string_in : TomlTable → Text → Option Text
  unfolding toml_rtos
  toml_string_in tab key = toml_rtos (toml_raw_in tab key)

  -- The interface at these tables, with a parser that gives the nodes and the address of the root.
  abbrev pub tree_toml : (Text → Option (Nodes × ℕ)) → Toml
  tree_toml toml_parse_file = record {
    Table = Nodes × ℕ;
    Array = Nodes × ℕ;
    toml_parse_file = toml_parse_file;
    toml_table_in = λ t key. elim (toml_table_in t.0 (t.0.tables t.1) key) [
      | none ↦ none
      | some p ↦ some (t.0, p)
    ];
    toml_array_in = λ t key. elim (toml_array_in t.0 (t.0.tables t.1) key) [
      | none ↦ none
      | some p ↦ some (t.0, p)
    ];
    toml_array_nelem = λ a. toml_array_nelem (a.0.arrays a.1);
    toml_string_at = λ a i. toml_string_at (a.0.arrays a.1) i;
    toml_string_in = λ t key. toml_string_in (t.0.tables t.1) key;
  }
