-- ===== src/Config/File.antt =====
-- `parse_config` on a file: its return code, the filters on operations, and the paths.
use distiller_fs.Prelude.{
  length, get_elem?, ◌+◌, ◌<◌, ◌≤◌, sym, subst, Elem, ℕ, zero, suc, ◌≡◌, ◌≢◌, ◌↔◌, refl, ap, ◌∙◌,
  Text, codes, List, [], ◌∷◌, map, Option, none, some, true, false, arith, inl, inr, Option-cases,
}
use distiller_fs.Ops.{FuseOp, op_name, all_ops, log_success, log_unsuccess}
use distiller_fs.Filter.{FilterDesc}
use distiller_fs.Toml.{Toml}
use distiller_fs.Config.{Parsed, read_paths, section_paths, read_ops, parse_config}
use distiller_fs.Config.Operations.{wanted, wanted-none, wanted-some, read_ops-wanted, read_ops_iff}
use distiller_fs.Config.Words.{
  four_words, Means, filter_value-Means, filter_value_iff, All-ops, All-each,
}
use distiller_fs.Logger.{should_log}
use distiller_fs.Logger.Store.{Assigned}

module _ (tm : Toml) where
  -- The paths of a section: those from before, where the section or its array is missing, or one for
  -- each element of the array, in their order.
  pub record PathsOf (conf : tm.Table) (name : Text) (old paths : List (Option Text)) : Type 0 where
    pub no_section : tm.toml_table_in conf name ≡ none → paths ≡ old
    pub no_array :
        (t : tm.Table)
        → tm.toml_table_in conf name ≡ some t
        → tm.toml_array_in t (codes "paths") ≡ none
        → paths ≡ old
    pub elements :
        (t : tm.Table) (a : tm.Array)
        → tm.toml_table_in conf name ≡ some t
        → tm.toml_array_in t (codes "paths") ≡ some a
        → (length paths ≡ tm.toml_array_nelem a)
          × ((i : ℕ) → i < tm.toml_array_nelem a → get_elem? paths i ≡ some (tm.toml_string_at a i))

  -- What `parse_config` makes of a file with a `filter` table.
  pub record Configured (conf filter : tm.Table) (f : FilterDesc) (op_flags : FuseOp → ℕ)
      (r : Option Parsed) : Type 0 where
    pub parsed : Parsed
    pub result : r ≡ some parsed
    pub rc_iff : (parsed.rc ≡ 0) ↔ (
        (op : FuseOp) (word : Text)
        → tm.toml_string_in filter (op_name op) ≡ some word
        → Elem word four_words)
    pub means :
        parsed.rc ≡ 0
        → (op : FuseOp) (word : Text) → tm.toml_string_in filter (op_name op) ≡ some word
        → Means word parsed.op_flags op
    pub stays :
        parsed.rc ≡ 0
        → (op : FuseOp) → tm.toml_string_in filter (op_name op) ≡ none
        → parsed.op_flags op ≡ op_flags op
    pub excludes : PathsOf conf (codes "exclude") f.exclude_path parsed.filter.exclude_path
    pub includes : PathsOf conf (codes "include_only") f.include_path parsed.filter.include_path
    pub exclude_run :
        parsed.filter.exclude_path ≡ section_paths tm conf (codes "exclude") f.exclude_path
    pub include_run :
        parsed.filter.include_path ≡ section_paths tm conf (codes "include_only") f.include_path

  length-read_paths : (a : tm.Array) (i n : ℕ) → length (read_paths tm a i n) ≡ n
  unfolding read_paths
  length-read_paths a i zero = refl
  length-read_paths a i (suc n) = omega (arith, length-read_paths a (suc i) n)

  get_elem?-read_paths :
      (a : tm.Array) (i n k : ℕ)
      → k < n
      → get_elem? (read_paths tm a i n) k ≡ some (tm.toml_string_at a (i + k))
  unfolding read_paths
  get_elem?-read_paths a i zero k below = absurd (omega (arith, below))
  get_elem?-read_paths a i (suc n) zero below =
      let at : i ≡ i + 0 = omega arith in ap (λ (j : ℕ). some (tm.toml_string_at a j)) at
  get_elem?-read_paths a i (suc n) (suc k) below =
      let at : suc i + k ≡ i + suc k = omega arith in
      get_elem?-read_paths a (suc i) n k (omega (arith, below))
      ∙ ap (λ (j : ℕ). some (tm.toml_string_at a j)) at

  section_paths-PathsOf :
      (conf : tm.Table) (name : Text) (old : List (Option Text))
      → PathsOf conf name old (section_paths tm conf name old)
  unfolding section_paths
  section_paths-PathsOf conf name old = record {
    no_section = λ missing. rw (section_paths, missing) refl;
    no_array = λ t table missing. rw (section_paths, table, missing) refl;
    elements = λ t a table array.
        let n = tm.toml_array_nelem a in
        let run : section_paths tm conf name old ≡ read_paths tm a 0 n =
          rw (section_paths, table, array) refl in
        (
          ap length run ∙ length-read_paths a 0 n,
          λ i below.
              let at : 0 + i ≡ i = omega arith in
              ap (λ ps. get_elem? ps i) run
              ∙ get_elem?-read_paths a 0 n i below
              ∙ ap (λ (j : ℕ). some (tm.toml_string_at a j)) at,
        );
  }

  words_iff :
      (filter : tm.Table) (op_flags : FuseOp → ℕ)
      → ((read_ops tm filter all_ops op_flags).0 ≡ 0) ↔ (
          (op : FuseOp) (word : Text)
          → tm.toml_string_in filter (op_name op) ≡ some word
          → Elem word four_words)
  words_iff filter op_flags =
      let each = read_ops_iff tm filter all_ops op_flags in
      (
        λ ok op word here. (filter_value_iff word).0 (λ wrong.
            All-ops (λ o. wanted tm filter o 0 ≢ none) (each.0 ok) op
              (wanted-some tm filter op 0 here ∙ wrong)),
        λ words. each.1 (
            All-each (λ o. wanted tm filter o 0 ≢ none) all_ops
              (λ op wrong. elim (Option-cases (tm.toml_string_in filter (op_name op))) [
                | inl missing ↦ absurd (cc (wanted-none tm filter op 0 missing, wrong))
                | inr (word, here) ↦
                    (filter_value_iff word).1 (words op word here)
                      (sym (wanted-some tm filter op 0 here) ∙ wrong)
              ])),
      )

  -- Where the parser gives a table with a `filter` table in it, `parse_config` does not fault. It
  -- returns 0 exactly when each operation's entry is missing or one of the four words. Then the
  -- successes of an operation with an entry are logged if it is `success`, and its failures if it is
  -- `unsuccess` or `all`; an operation without one has the filter from before. Each of the two lists of
  -- paths has the elements of its section's array in their order, or is the one from before.
  pub parse_config-Configured :
      (file : Text) (f : FilterDesc) (op_flags : FuseOp → ℕ) (conf filter : tm.Table)
      → tm.toml_parse_file file ≡ some conf
      → tm.toml_table_in conf (codes "filter") ≡ some filter
      → Configured conf filter f op_flags (parse_config tm (some file) f op_flags)
  unfolding parse_config
  parse_config-Configured file f op_flags conf filter parses here = record {
    parsed = record {
      rc = (read_ops tm filter all_ops op_flags).0;
      filter = record {
        exclude_path = section_paths tm conf (codes "exclude") f.exclude_path;
        include_path = section_paths tm conf (codes "include_only") f.include_path;
      };
      op_flags = (read_ops tm filter all_ops op_flags).1;
    };
    result = rw (parse_config, parses, here) refl;
    rc_iff = words_iff filter op_flags;
    means = λ ok op word here.
        let v = read_ops-wanted tm filter op_flags ok op in
        filter_value-Means word ((read_ops tm filter all_ops op_flags).1 op)
          (read_ops tm filter all_ops op_flags).1 op
          (sym (wanted-some tm filter op (op_flags op) here) ∙ sym v) refl;
    stays = λ ok op missing.
        let v = read_ops-wanted tm filter op_flags ok op in
        cc (v, wanted-none tm filter op (op_flags op) missing);
    excludes = section_paths-PathsOf conf (codes "exclude") f.exclude_path;
    includes = section_paths-PathsOf conf (codes "include_only") f.include_path;
    exclude_run = refl;
    include_run = refl;
  }

  -- After a parse that returns 0, an operation whose entry is `all` has its failures logged, and its
  -- successes not.
  pub all-should_log :
      (file : Text) (f : FilterDesc) (op_flags : FuseOp → ℕ) (p : Parsed) (conf filter : tm.Table)
      (op : FuseOp)
      → parse_config tm (some file) f op_flags ≡ some p
      → p.rc ≡ 0
      → tm.toml_parse_file file ≡ some conf
      → tm.toml_table_in conf (codes "filter") ≡ some filter
      → tm.toml_string_in filter (op_name op) ≡ some (codes "all")
      → (should_log p.op_flags op log_success ≡ false)
        × (should_log p.op_flags op log_unsuccess ≡ true)
  all-should_log file f op_flags p conf filter op run ok parses here word =
      let c = parse_config-Configured file f op_flags conf filter parses here in
      let same : c.parsed ≡ p = cc (run, c.result) in
      let m = c.means (ap (λ q. q.rc) same ∙ ok) op (codes "all") word in
      subst
        (λ q.
          (should_log q.op_flags op log_success ≡ false)
          × (should_log q.op_flags op log_unsuccess ≡ true))
        same m

  -- Each element of an array is a string.
  abbrev pub AllStrings : tm.Array → Type 0
  AllStrings a = (i : ℕ) → i < tm.toml_array_nelem a → tm.toml_string_at a i ≢ none

  -- A section whose array holds strings alone gives the filter these strings.
  read_paths-Assigned :
      (a : tm.Array)
      → AllStrings a
      → (i n : ℕ) → i + n ≤ tm.toml_array_nelem a
      → (texts : List Text) × (read_paths tm a i n ≡ map some texts)
  unfolding read_paths
  read_paths-Assigned a strings i zero le = ([], refl)
  read_paths-Assigned a strings i (suc n) le =
      let (texts, e) = read_paths-Assigned a strings (suc i) n (omega (arith, le)) in
      elim (Option-cases (tm.toml_string_at a i)) [
        | inl missing ↦ absurd (strings i (omega (arith, le)) missing)
        | inr (x, here) ↦ (x ∷ texts, rw (read_paths, here, e) refl)
      ]

  -- The array `paths` of a section, where there is one, has strings alone.
  abbrev pub StringsIn : tm.Table → Text → Type 0
  StringsIn conf name =
      (t : tm.Table) (a : tm.Array)
      → tm.toml_table_in conf name ≡ some t
      → tm.toml_array_in t (codes "paths") ≡ some a
      → AllStrings a

  -- A section of strings alone, or one that is missing, leaves no path unassigned.
  section_paths-Assigned :
      (conf : tm.Table) (name : Text) (old : List Text)
      → StringsIn conf name
      → (texts : List Text) × (section_paths tm conf name (map some old) ≡ map some texts)
  unfolding section_paths
  section_paths-Assigned conf name old strings = elim (Option-cases (tm.toml_table_in conf name)) [
    | inl missing ↦ (old, rw (section_paths, missing) refl)
    | inr (t, table) ↦ elim (Option-cases (tm.toml_array_in t (codes "paths"))) [
      | inl missing ↦ (old, rw (section_paths, table, missing) refl)
      | inr (a, array) ↦
          let (texts, e) =
            read_paths-Assigned a (strings t a table array) 0 (tm.toml_array_nelem a)
              (omega arith) in
          (texts, rw (section_paths, table, array) e)
    ]
  ]

  -- Where the `paths` arrays of the two sections hold strings alone, a filter whose paths were all
  -- assigned stays so.
  pub Configured-Assigned :
      (conf filter : tm.Table) (f : FilterDesc) (op_flags : FuseOp → ℕ) (r : Option Parsed)
      → StringsIn conf (codes "include_only")
      → StringsIn conf (codes "exclude")
      → (c : Configured conf filter f op_flags r) → Assigned f
      → Assigned c.parsed.filter
  Configured-Assigned conf filter f op_flags r inside outside c a =
      let (inc, i) = section_paths-Assigned conf (codes "include_only") a.includes inside in
      let (exc, e) = section_paths-Assigned conf (codes "exclude") a.excludes outside in
      record {
        includes = inc;
        excludes = exc;
        include_path =
            c.include_run ∙ (ap (section_paths tm conf (codes "include_only")) a.include_path ∙ i);
        exclude_path =
            c.exclude_run ∙ (ap (section_paths tm conf (codes "exclude")) a.exclude_path ∙ e);
      }
