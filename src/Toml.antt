-- ===== src/Toml.antt =====
-- The interface of toml.h that `parse_config` calls. tomlc99 is another project's library, so its
-- tables and arrays are parameters. A datum that is not `ok` is `none`; so is a null pointer.
pub mod Tree
pub mod Strings
pub mod Keys
use distiller_fs.Prelude.{ℕ, Text, Option}

pub record Toml : Type 1 where
  pub Table : Type 0
  pub Array : Type 0
  -- on the text of a file
  pub toml_parse_file : Text → Option Table
  pub toml_table_in : Table → Text → Option Table
  pub toml_array_in : Table → Text → Option Array
  pub toml_array_nelem : Array → ℕ
  pub toml_string_at : Array → ℕ → Option Text
  pub toml_string_in : Table → Text → Option Text
