-- ===== src/Config.antt =====
-- `parse_config` of src/distillerfs.c: the configuration file fills the filter on paths and the
-- filters on operations. `none` is a fault: the code hands a null table to the parser's functions.
pub mod Words
pub mod Operations
pub mod File
pub mod Literal
use distiller_fs.Prelude.{
  ℕ, zero, suc, ◌+◌, Text, codes, text_eq, List, [], ◌∷◌, Option, none, some, bit_or, ◌==◌,
  if◌then◌else◌,
}
use distiller_fs.Ops.{FuseOp, ord, op_name, all_ops, log_success, log_unsuccess}
use distiller_fs.Filter.{FilterDesc}
use distiller_fs.Toml.{Toml}

-- The value of an operation's entry; `none` is a word that is none of the four. The word `all`
-- takes `LOG_UNSUCCESS | LOG_UNSUCCESS`.
unfoldable pub filter_value : Text → Option ℕ
filter_value word =
    if text_eq word (codes "success")
    then some log_success
    else if text_eq word (codes "unsuccess")
    then some log_unsuccess
    else if text_eq word (codes "all")
    then some (bit_or log_unsuccess log_unsuccess)
    else if text_eq word (codes "never")
    then some 0
    else none

-- `op_flags[i] = value`
abbrev pub assign : (FuseOp → ℕ) → FuseOp → ℕ → FuseOp → ℕ
assign op_flags op value op' = if ord op' == ord op then value else op_flags op'

-- What `parse_config` writes and returns.
pub record Parsed : Type 0 where
  pub rc : ℕ
  pub filter : FilterDesc
  pub op_flags : FuseOp → ℕ

module _ (tm : Toml) where
  open tm use {
    Table, Array, toml_parse_file, toml_table_in, toml_array_in, toml_array_nelem, toml_string_at,
    toml_string_in,
  }

  -- The elements from an index on. One that is no string leaves its slot unassigned.
  unfoldable pub read_paths : Array → ℕ → ℕ → List (Option Text)
  read_paths path_array i zero = []
  read_paths path_array i (suc n) = toml_string_at path_array i ∷ read_paths path_array (suc i) n

  -- The paths of a section: those that the filter has, where the section or its array is missing.
  unfoldable pub section_paths : Table → Text → List (Option Text) → List (Option Text)
  unfolding read_paths
  section_paths conf name old = elim (toml_table_in conf name) [
    | none ↦ old
    | some table ↦ elim (toml_array_in table (codes "paths")) [
      | none ↦ old
      | some path_array ↦ read_paths path_array 0 (toml_array_nelem path_array)
    ]
  ]

  -- The loop over the operations, up to the first wrong word.
  unfoldable pub read_ops : Table → List FuseOp → (FuseOp → ℕ) → ℕ × (FuseOp → ℕ)
  unfolding filter_value
  read_ops filter [] op_flags = (0, op_flags)
  read_ops filter (op ∷ ops) op_flags = elim (toml_string_in filter (op_name op)) [
    | none ↦ read_ops filter ops op_flags
    | some word ↦ elim (filter_value word) [
      | none ↦ (3, op_flags)
      | some value ↦ read_ops filter ops (assign op_flags op value)
    ]
  ]

  -- The text of the file is `none` where it cannot be opened.
  unfoldable pub parse_config : Option Text → FilterDesc → (FuseOp → ℕ) → Option Parsed
  unfolding section_paths read_ops
  parse_config none g_filter op_flags =
      some (record { rc = 0; filter = g_filter; op_flags = op_flags })
  parse_config (some file) g_filter op_flags = elim (toml_parse_file file) [
    | none ↦ none
    | some conf ↦
        let f : FilterDesc = record {
          exclude_path = section_paths conf (codes "exclude") g_filter.exclude_path;
          include_path = section_paths conf (codes "include_only") g_filter.include_path;
        } in
        elim (toml_table_in conf (codes "filter")) [
          | none ↦ none
          | some filter ↦
              let r = read_ops filter all_ops op_flags in
              some (record { rc = r.0; filter = f; op_flags = r.1 })
        ]
  ]
