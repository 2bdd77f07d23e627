-- ===== src/Filter/Prefix.antt =====
-- What `is_excluded` and `is_included` decide: whether some configured string is a prefix.
use distiller_fs.Prelude.{
  Text, List, [], ◌∷◌, ◌++◌, map, Bool, true, false, some, ◌≡◌, refl, ◌⊎◌, inl, inr, ◌↔◌, arith,
  Bool-cases,
}
use distiller_fs.Filter.{starts_with, find_prefix, is_excluded, is_included}

abbrev pub IsPrefix : Text → Text → Type 0
IsPrefix p path = (rest : Text) × (path ≡ p ++ rest)

-- Some string of the list is a prefix of the path.
abbrev pub AnyPrefix : List Text → Text → Type 0
AnyPrefix [] path = ⊥
AnyPrefix (p ∷ ps) path = IsPrefix p path ⊎ AnyPrefix ps path

starts_with-IsPrefix : (p path : Text) → starts_with p path ≡ true → IsPrefix p path
unfolding starts_with
starts_with-IsPrefix [] path h = (path, refl)
starts_with-IsPrefix (x ∷ p) [] h = cc
starts_with-IsPrefix (x ∷ p) (y ∷ path) h =
    let (rest, e) = starts_with-IsPrefix p path (ground arith) in (rest, ground (arith, e))

IsPrefix-starts_with : (p path : Text) → IsPrefix p path → starts_with p path ≡ true
unfolding starts_with
IsPrefix-starts_with [] path h = refl
IsPrefix-starts_with (x ∷ p) [] (rest, e) = cc e
IsPrefix-starts_with (x ∷ p) (y ∷ path) (rest, e) =
    let tails : path ≡ p ++ rest = cc e in ground (arith, IsPrefix-starts_with p path (rest, tails))

find_prefix-AnyPrefix :
    (path : Text) (ps : List Text) → find_prefix path (map some ps) ≡ some true → AnyPrefix ps path
unfolding find_prefix
find_prefix-AnyPrefix path [] h = cc
find_prefix-AnyPrefix path (p ∷ ps) h = elim (Bool-cases (starts_with p path)) [
  | inl e ↦ inl (starts_with-IsPrefix p path e)
  | inr e ↦ inr (find_prefix-AnyPrefix path ps (ground arith))
]

AnyPrefix-find_prefix :
    (path : Text) (ps : List Text) → AnyPrefix ps path → find_prefix path (map some ps) ≡ some true
unfolding find_prefix
AnyPrefix-find_prefix path [] h = absurd h
AnyPrefix-find_prefix path (p ∷ ps) (inl h) = rw (IsPrefix-starts_with p path h)
AnyPrefix-find_prefix path (p ∷ ps) (inr h) = ground (arith, AnyPrefix-find_prefix path ps h)

-- The loop returns, whatever the path, if every element was assigned.
pub find_prefix_total :
    (path : Text) (ps : List Text) → (b : Bool) × (find_prefix path (map some ps) ≡ some b)
unfolding find_prefix
find_prefix_total path [] = (false, refl)
find_prefix_total path (p ∷ ps) = elim (Bool-cases (starts_with p path)) [
  | inl e ↦ (true, rw e)
  | inr e ↦ let (b, rest) = find_prefix_total path ps in (b, rw e rest)
]

-- What the filter means: some include prefix fits, or none is configured, and no exclude prefix
-- fits.
abbrev pub Accepts : List Text → List Text → Text → Type 0
Accepts includes excludes path =
    ((includes ≡ []) ⊎ AnyPrefix includes path) × ¬ AnyPrefix excludes path

-- For arrays of assigned strings, `is_included` answers true exactly when the array is empty or
-- holds a prefix of the path, and `is_excluded` exactly when the array holds a prefix of it.
pub filter_iff :
    (path : Text) (ps : List Text)
    → ((is_included path (map some ps) ≡ some true) ↔ ((ps ≡ []) ⊎ AnyPrefix ps path))
      × ((is_excluded path (map some ps) ≡ some true) ↔ AnyPrefix ps path)
unfolding is_included is_excluded
filter_iff path [] = ((λ _. inl refl, λ _. refl), (λ h. cc, λ h. absurd h))
filter_iff path (p ∷ ps) =
    let there = find_prefix-AnyPrefix path (p ∷ ps) in
    let back = AnyPrefix-find_prefix path (p ∷ ps) in
    ((λ h. inr (there h), λ h. elim h [ inl e ↦ absurd (cc e) | inr a ↦ back a ]), (there, back))

-- Both functions return on arrays of assigned strings.
pub filter_total :
    (path : Text) (ps : List Text)
    → ((b : Bool) × (is_included path (map some ps) ≡ some b))
      × ((b : Bool) × (is_excluded path (map some ps) ≡ some b))
unfolding is_included is_excluded
filter_total path [] = ((true, refl), (false, refl))
filter_total path (p ∷ ps) = let total = find_prefix_total path (p ∷ ps) in (total, total)
