-- ===== src/Tests/Parsing.antt =====
-- The theorems on the reading of a parsed file at concrete inputs.
use distiller_fs.Prelude.{
  ◌≡◌, refl, arith, Text, codes, All, List, [], ◌∷◌, ◌++◌, map, Option, none, some, Bool, true,
  false, if◌then◌else◌, ◌==◌,
}
use distiller_fs.Config.{section_paths}
use distiller_fs.Config.Literal.{literal, IsLiteral, section_paths-literal}
use distiller_fs.Toml.Tree.{
  Buffer, Nodes, tree_toml, toml_rtos, norm_lit_str, is_control, node_in, toml_array_in,
  toml_table_in,
}
use distiller_fs.Toml.Strings.{
  Copied, quoted, norm_lit_str-Copied, toml_rtos-quoted, toml_rtos-control,
}
use distiller_fs.Toml.Keys.{Answers, lookups-Answers}

-- No string in double quotes is read here.
abbrev no_basic_str : Text → Bool → Option Buffer
no_basic_str src multiline = none

abbrev two_paths : List Text
two_paths = codes "/tmp" ∷ codes "/a b" ∷ []

-- A root with a section `exclude`, and its array `paths`.
abbrev nodes : Nodes
nodes = record {
  tables = λ p.
      if p == 0
      then record {
        key = [];
        implicit = false;
        readonly = false;
        kval = [];
        arr = [];
        tab = 1 ∷ [];
      }
      else record {
        key = codes "exclude";
        implicit = false;
        readonly = false;
        kval = [];
        arr = 0 ∷ [];
        tab = [];
      };
  arrays =
      λ p. record { key = codes "paths"; kind = 0x76; type = 0x73; item = map literal two_paths };
}

plain_paths : All IsLiteral two_paths
unfolding is_control
plain_paths = (
  (
    (refl, (refl, (refl, (refl, tt)))),
    (omega arith, (omega arith, (omega arith, (omega arith, tt)))),
  ),
  (
    (
      (refl, (refl, (refl, (refl, tt)))),
      (omega arith, (omega arith, (omega arith, (omega arith, tt)))),
    ),
    tt,
  ),
)

section_paths-literal_example :
    section_paths (tree_toml no_basic_str (λ file. some (nodes, 0))) (nodes, 0) (codes "exclude") []
    ≡ map (λ p. some p) two_paths
unfolding toml_table_in toml_array_in node_in
section_paths-literal_example =
    section_paths-literal no_basic_str (λ file. some (nodes, 0)) nodes 0 1 0 (codes "exclude")
      two_paths [] refl refl refl plain_paths

toml_rtos-quoted_example :
    toml_rtos no_basic_str (some (quoted (codes "/tmp"))) ≡ some (codes "/tmp")
toml_rtos-quoted_example =
    toml_rtos-quoted no_basic_str (codes "/tmp") plain_paths.0.0 plain_paths.0.1

toml_rtos-control_example :
    toml_rtos no_basic_str (some (quoted (codes "a" ++ (0x0a ∷ codes "b")))) ≡ none
unfolding is_control
toml_rtos-control_example =
    toml_rtos-control no_basic_str (codes "a") (codes "b") 0x0a refl
      (omega arith, (omega arith, (omega arith, tt)))

norm_lit_str-Copied_example : Copied (codes "/tmp") (norm_lit_str (codes "/tmp") true)
norm_lit_str-Copied_example = norm_lit_str-Copied true (codes "/tmp") plain_paths.0.0

lookups-Answers_example :
    Answers
      (λ p. (nodes.tables p).key)
      (codes "exclude")
      (1 ∷ [])
      (toml_table_in nodes (nodes.tables 0) (codes "exclude"))
    × Answers
        (λ p. (nodes.arrays p).key)
        (codes "exclude")
        []
        (toml_array_in nodes (nodes.tables 0) (codes "exclude"))
lookups-Answers_example = lookups-Answers nodes (nodes.tables 0) (codes "exclude")
