-- ===== src/Config/Literal.antt =====
-- `parse_config` over the tables of src/toml.c, where the paths stand in single quotes.
use distiller_fs.Prelude.{
  ℕ, suc, ◌+◌, ◌≡◌, ◌≢◌, refl, ap, ◌∙◌, arith, Text, codes, length, get_elem?, All, List, [], ◌∷◌,
  map, Option, none, some, Bool,
}
use distiller_fs.Config.{read_paths, section_paths}
use distiller_fs.Toml.{Toml}
use distiller_fs.Toml.Tree.{
  Buffer, Nodes, TomlArritem, TomlArray, tree_toml, toml_raw_at, toml_array_nelem, toml_string_at,
  toml_array_in, toml_table_in,
}
use distiller_fs.Toml.Strings.{IsPlain, quoted, toml_rtos-quoted}

-- An element of an array that is a string in single quotes.
abbrev pub literal : Text → TomlArritem
literal s = record { valtype = 0x73; val = some (quoted s); arr = none; tab = none }

-- A path that can stand in single quotes.
abbrev pub IsLiteral : Text → Type 0
IsLiteral s = All IsPlain s × All (λ ch. ch ≢ 0x27) s

length-map : (paths : List Text) → length (map literal paths) ≡ length paths
length-map [] = refl
length-map (p ∷ paths) = omega (arith, length-map paths)

module _ (norm_basic_str : Text → Bool → Option Buffer) (parse : Text → Option (Nodes × ℕ))
    (s : Nodes) where
  abbrev tm : Toml
  tm = tree_toml norm_basic_str parse

  string_at-literal :
      (a : TomlArray) (i : ℕ) (p : Text)
      → get_elem? a.item i ≡ some (literal p)
      → IsLiteral p
      → toml_string_at norm_basic_str a i ≡ some p
  unfolding toml_string_at toml_raw_at
  string_at-literal a i p at (plain, no_quote) =
      rw (toml_string_at, toml_raw_at, at) (toml_rtos-quoted norm_basic_str p plain no_quote)

  read_paths-literal :
      (a i : ℕ) (paths : List Text)
      → ((k : ℕ) → get_elem? (s.arrays a).item (i + k) ≡ get_elem? (map literal paths) k)
      → All IsLiteral paths
      → read_paths tm (s, a) i (length paths) ≡ map (λ p. some p) paths
  unfolding read_paths
  read_paths-literal a i [] items ok = refl
  read_paths-literal a i (p ∷ paths) items (ok, oks) =
      let first : toml_string_at norm_basic_str (s.arrays a) i ≡ some p =
        string_at-literal (s.arrays a) i p
          (ap (get_elem? (s.arrays a).item) (omega arith) ∙ items 0) ok in
      let rest =
        read_paths-literal a (suc i) paths
          (λ k. ap (get_elem? (s.arrays a).item) (omega arith) ∙ items (suc k)) oks in
      rw (first, rest) refl

  -- Where the tables of a parsed file have a section with an array of the key `paths`, whose elements are
  -- texts without control characters and single quotes, written in single quotes, the section gives
  -- exactly those texts, in their order, as assigned paths.
  pub section_paths-literal :
      (conf section a : ℕ) (name : Text) (paths : List Text) (old : List (Option Text))
      → toml_table_in s (s.tables conf) name ≡ some section
      → toml_array_in s (s.tables section) (codes "paths") ≡ some a
      → (s.arrays a).item ≡ map literal paths
      → All IsLiteral paths
      → section_paths tm (s, conf) name old ≡ map (λ p. some p) paths
  unfolding section_paths toml_array_nelem
  section_paths-literal conf section a name paths old is_section is_array items ok =
      let count : length (s.arrays a).item ≡ length paths = ap length items ∙ length-map paths in
      rw (section_paths, is_section, is_array, toml_array_nelem, count)
        (read_paths-literal a 0 paths
          (λ k.
            ap (get_elem? (s.arrays a).item) (omega arith)
            ∙ ap (λ (l : List TomlArritem). get_elem? l k) items)
          ok)
