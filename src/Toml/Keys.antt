-- ===== src/Toml/Keys.antt =====
-- The loops of src/toml.c over the keys of a table.
use distiller_fs.Prelude.{
  ℕ, ◌≡◌, ◌≢◌, ◌↔◌, refl, sym, ap, ◌∙◌, subst, arith, Text, text_eq, text_eq_iff, All, List, [],
  ◌∷◌, ◌++◌, Option, none, some, true, false, Bool-cases, ◌⊎◌, inl, inr,
}
use distiller_fs.Toml.Tree.{Nodes, TomlTable, node_in, toml_array_in, toml_table_in}

-- The first address of a list whose node has the key.
pub record FirstWith (key_of : ℕ → Text) (key : Text) (ps : List ℕ) (p : ℕ) : Type 0 where
  pub before : List ℕ
  pub after : List ℕ
  pub split : ps ≡ before ++ (p ∷ after)
  pub others : All (λ q. key_of q ≢ key) before
  pub has_key : key_of p ≡ key

-- What a loop over the keys answers.
pub record Answers (key_of : ℕ → Text) (key : Text) (ps : List ℕ) (r : Option ℕ) : Type 0 where
  pub found : (p : ℕ) → (r ≡ some p) ↔ FirstWith key_of key ps p
  pub missing : (r ≡ none) ↔ All (λ q. key_of q ≢ key) ps

some-injective : {a b : ℕ} → some a ≡ some b → a ≡ b
some-injective e = ground (arith, e)

module _ (key_of : ℕ → Text) (key : Text) where
  pub node_in-found :
      (before after : List ℕ) (p : ℕ)
      → All (λ q. key_of q ≢ key) before
      → key_of p ≡ key
      → node_in key_of key (before ++ (p ∷ after)) ≡ some p
  unfolding node_in
  node_in-found [] after p others has_key =
      let same : text_eq key (key_of p) ≡ true = (text_eq_iff key (key_of p)).1 (sym has_key) in
      rw (node_in, same) refl
  node_in-found (q ∷ before) after p (other, others) has_key =
      let differs : text_eq key (key_of q) ≡ false = elim (Bool-cases (text_eq key (key_of q))) [
        | inl same ↦ absurd (other (sym ((text_eq_iff key (key_of q)).0 same)))
        | inr apart ↦ apart
      ] in
      rw (node_in, differs) (node_in-found before after p others has_key)

  node_in-missing : (ps : List ℕ) → All (λ q. key_of q ≢ key) ps → node_in key_of key ps ≡ none
  unfolding node_in
  node_in-missing [] others = refl
  node_in-missing (q ∷ ps) (other, others) =
      let differs : text_eq key (key_of q) ≡ false = elim (Bool-cases (text_eq key (key_of q))) [
        | inl same ↦ absurd (other (sym ((text_eq_iff key (key_of q)).0 same)))
        | inr apart ↦ apart
      ] in
      rw (node_in, differs) (node_in-missing ps others)

  first_or_none :
      (ps : List ℕ) → ((p : ℕ) × FirstWith key_of key ps p) ⊎ All (λ q. key_of q ≢ key) ps
  first_or_none [] = inr tt
  first_or_none (q ∷ ps) = elim (Bool-cases (text_eq key (key_of q))) [
    | inl same ↦ inl (
      q,
      record {
        before = [];
        after = ps;
        split = refl;
        others = tt;
        has_key = sym ((text_eq_iff key (key_of q)).0 same);
      },
    )
    | inr apart ↦
        let differs : key_of q ≢ key = ground (arith, apart, text_eq_iff key (key_of q)) in
        elim (first_or_none ps) [
          | inl (p, f) ↦ inl (
            p,
            record {
              before = q ∷ f.before;
              after = f.after;
              split = ap (λ (l : List ℕ). q ∷ l) f.split;
              others = (differs, f.others);
              has_key = f.has_key;
            },
          )
          | inr others ↦ inr (differs, others)
        ]
  ]

  FirstWith-node_in :
      (ps : List ℕ) (p : ℕ) → FirstWith key_of key ps p → node_in key_of key ps ≡ some p
  FirstWith-node_in ps p f =
      ap (node_in key_of key) f.split ∙ node_in-found f.before f.after p f.others f.has_key

  pub node_in-Answers : (ps : List ℕ) → Answers key_of key ps (node_in key_of key ps)
  node_in-Answers ps = elim (first_or_none ps) [
    | inl (p, f) ↦
        let is = FirstWith-node_in ps p f in
        record {
          found = λ q. (
            λ e. subst (FirstWith key_of key ps) (some-injective (sym is ∙ e)) f,
            FirstWith-node_in ps q,
          );
          missing = (λ e. absurd (ground (arith, is, e)), λ others. node_in-missing ps others);
        }
    | inr others ↦
        let is = node_in-missing ps others in
        record {
          found = λ q. (λ e. absurd (ground (arith, is, e)), FirstWith-node_in ps q);
          missing = (λ e. others, λ o. is);
        }
  ]

-- `toml_table_in` and `toml_array_in` give the first table, or array, of the list that has the key,
-- and null exactly where none has it.
pub lookups-Answers :
    (s : Nodes) (tab : TomlTable) (key : Text)
    → Answers (λ p. (s.tables p).key) key tab.tab (toml_table_in s tab key)
      × Answers (λ p. (s.arrays p).key) key tab.arr (toml_array_in s tab key)
unfolding toml_table_in toml_array_in
lookups-Answers s tab key = (
  node_in-Answers (λ p. (s.tables p).key) key tab.tab,
  node_in-Answers (λ p. (s.arrays p).key) key tab.arr,
)
