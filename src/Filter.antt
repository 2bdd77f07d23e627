-- ===== src/Filter.antt =====
-- The path filter of src/distillerfs.c: `filter_desc_t`, `is_excluded` and `is_included`.
pub mod Prefix
use distiller_fs.Prelude.{
  Text, List, [], ◌∷◌, Bool, true, false, ◌&&◌, Option, none, some, ◌==◌, if◌then◌else◌,
}

-- The two arrays of `char *`, with their counts as the lengths. `none` is an element that was
-- never assigned: `malloc` leaves it undefined, and to read through it is a fault.
pub record FilterDesc : Type 0 where
  pub exclude_path : List (Option Text)
  pub include_path : List (Option Text)

-- `strncmp(path, p, strlen(p)) == 0`, the prefix first.
pub starts_with : Text → Text → Bool
starts_with [] path = true
starts_with (x ∷ p) [] = false
starts_with (x ∷ p) (y ∷ path) = (x == y) && starts_with p path

-- The loop that both functions have: it returns at the first prefix that fits.
pub find_prefix : Text → List (Option Text) → Option Bool
find_prefix path [] = some false
find_prefix path (none ∷ ps) = none
find_prefix path (some p ∷ ps) = if starts_with p path then some true else find_prefix path ps

unfoldable pub is_excluded : Text → List (Option Text) → Option Bool
unfolding find_prefix starts_with
is_excluded path exc_path = find_prefix path exc_path

unfoldable pub is_included : Text → List (Option Text) → Option Bool
unfolding find_prefix starts_with
is_included path [] = some true
is_included path (p ∷ inc_path) = find_prefix path (p ∷ inc_path)
