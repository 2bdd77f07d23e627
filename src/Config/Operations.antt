-- ===== src/Config/Operations.antt =====
-- The filters on operations that a configuration gives.
use distiller_fs.Prelude.{
  ◌⊎◌, ℕ, zero, suc, ◌≡◌, ◌≢◌, refl, sym, ap, ◌∙◌, subst, Text, List, [], ◌∷◌, Bool, true, false,
  ◌||◌, Option, none, some, get_elem?, Option-cases, Bool-cases, inl, inr, arith, ◌==◌,
  if◌then◌else◌, ◌↔◌, All,
}
use distiller_fs.Ops.{FuseOp, ord, op_name, all_ops}
use distiller_fs.Ops.Flags.{ord-injective, get_elem?-ord}
use distiller_fs.Toml.{Toml}
use distiller_fs.Config.{filter_value, assign, read_ops}

abbrev is_in : FuseOp → List FuseOp → Bool
is_in op [] = false
is_in op (x ∷ ops) = (ord op == ord x) || is_in op ops

same : (a b : ℕ) → a ≡ b → (a == b) ≡ true
same a b e = ground arith

or_true : (b : Bool) → (b || true) ≡ true
or_true true = refl
or_true false = refl

ord_of : Option FuseOp → ℕ
ord_of none = 0
ord_of (some x) = ord x

is_in-get_elem? :
    (op : FuseOp) (ops : List FuseOp) (i : ℕ) → get_elem? ops i ≡ some op → is_in op ops ≡ true
unfolding ord_of
is_in-get_elem? op (x ∷ ops) zero e = rw (same (ord op) (ord x) (ap ord_of (sym e))) refl
is_in-get_elem? op (x ∷ ops) (suc i) e = rw (is_in-get_elem? op ops i e) (or_true (ord op == ord x))
is_in-get_elem? op [] i e = absurd (cc e)

is_in-all_ops : (op : FuseOp) → is_in op all_ops ≡ true
is_in-all_ops op = is_in-get_elem? op all_ops (ord op) (get_elem?-ord op)

module _ (tm : Toml) (filter : tm.Table) where
  -- What an operation's filter is to be: the meaning of its word, or what it was.
  unfoldable pub wanted : FuseOp → ℕ → Option ℕ
  unfolding filter_value
  wanted op old = elim (tm.toml_string_in filter (op_name op)) [
    | none ↦ some old
    | some word ↦ filter_value word
  ]

  read_ops-skips :
      (x : FuseOp) (ops : List FuseOp) (op_flags : FuseOp → ℕ)
      → tm.toml_string_in filter (op_name x) ≡ none
      → read_ops tm filter (x ∷ ops) op_flags ≡ read_ops tm filter ops op_flags
  unfolding read_ops
  read_ops-skips x ops op_flags e = rw (read_ops, e)

  read_ops-sets :
      (x : FuseOp) (ops : List FuseOp) (op_flags : FuseOp → ℕ) {word : Text} {v : ℕ}
      → tm.toml_string_in filter (op_name x) ≡ some word
      → filter_value word ≡ some v
      → read_ops tm filter (x ∷ ops) op_flags ≡ read_ops tm filter ops (assign op_flags x v)
  unfolding read_ops
  read_ops-sets x ops op_flags e f = rw (read_ops, e, f)

  read_ops-stops :
      (x : FuseOp) (ops : List FuseOp) (op_flags : FuseOp → ℕ) {word : Text}
      → tm.toml_string_in filter (op_name x) ≡ some word
      → filter_value word ≡ none
      → read_ops tm filter (x ∷ ops) op_flags ≡ (3, op_flags)
  unfolding read_ops
  read_ops-stops x ops op_flags e f = rw (read_ops, e, f)

  pub wanted-none :
      (op : FuseOp) (old : ℕ)
      → tm.toml_string_in filter (op_name op) ≡ none
      → wanted op old ≡ some old
  unfolding wanted
  wanted-none op old e = rw (wanted, e)

  pub wanted-some :
      (op : FuseOp) (old : ℕ) {word : Text}
      → tm.toml_string_in filter (op_name op) ≡ some word
      → wanted op old ≡ filter_value word
  unfolding wanted
  wanted-some op old e = rw (wanted, e)

  wanted_here :
      (op x : FuseOp) (word : Text) (v old : ℕ)
      → tm.toml_string_in filter (op_name x) ≡ some word
      → filter_value word ≡ some v
      → op ≡ x
      → wanted op old ≡ some v
  wanted_here op x word v old here right same =
      subst (λ y. wanted y old ≡ some v) (sym same) (wanted-some x old here ∙ right)

  -- Where the loop over `ops` ends with 0, each operation of `ops` has what is wanted, and the
  -- others have what they had.
  abbrev Agrees : List FuseOp → (FuseOp → ℕ) → (FuseOp → ℕ) → FuseOp → Type 0
  Agrees ops op_flags new op =
      some (new op) ≡ (if is_in op ops then wanted op (op_flags op) else some (op_flags op))

  agrees :
      (ops : List FuseOp) (op_flags : FuseOp → ℕ)
      → (read_ops tm filter ops op_flags).0 ≡ 0
      → (op : FuseOp) → Agrees ops op_flags (read_ops tm filter ops op_flags).1 op
  unfolding read_ops
  agrees [] op_flags e op = refl
  agrees (x ∷ ops) op_flags e op = elim (Option-cases (tm.toml_string_in filter (op_name x))) [
    | inl skips ↦
        let run = read_ops-skips x ops op_flags skips in
        let rest = agrees ops op_flags (ap (λ r. r.0) (sym run) ∙ e) op in
        subst (λ r. Agrees (x ∷ ops) op_flags r.1 op) (sym run)
          (ground (arith, rest, ord-injective op x, wanted-none op (op_flags op), skips))
    | inr (word, here) ↦ elim (Option-cases (filter_value word)) [
      | inl wrong ↦
          let run = ap (λ r. r.0) (read_ops-stops x ops op_flags here wrong) in
          absurd (omega (arith, run, e))
      | inr (v, right) ↦
          let run = read_ops-sets x ops op_flags here right in
          let rest = agrees ops (assign op_flags x v) (ap (λ r. r.0) (sym run) ∙ e) op in
          subst (λ r. Agrees (x ∷ ops) op_flags r.1 op) (sym run)
            (elim (Bool-cases (ord op == ord x)) [
              | inl same ↦
                  let eq = ord-injective op x (ground arith) in
                  let old = wanted_here op x word v (op_flags op) here right eq in
                  ground (arith, rest, old, wanted_here op x word v v here right eq)
              | inr other ↦ ground (arith, rest)
            ])
    ]
  ]

  -- Where `parse_config` reads every word, each operation has the filter that its entry means, or
  -- the one that it had.
  pub read_ops-wanted :
      (op_flags : FuseOp → ℕ)
      → (read_ops tm filter all_ops op_flags).0 ≡ 0
      → (op : FuseOp) → some ((read_ops tm filter all_ops op_flags).1 op) ≡ wanted op (op_flags op)
  read_ops-wanted op_flags e op = rw (is_in-all_ops op) at (agrees all_ops op_flags e op)

  -- The loop ends with 0 exactly when every word of an operation in `ops` is one of the four.
  pub read_ops_iff :
      (ops : List FuseOp) (op_flags : FuseOp → ℕ)
      → ((read_ops tm filter ops op_flags).0 ≡ 0) ↔ All (λ op. wanted op 0 ≢ none) ops
  unfolding read_ops
  read_ops_iff [] op_flags = (λ e. tt, λ a. refl)
  read_ops_iff (x ∷ ops) op_flags = elim (Option-cases (tm.toml_string_in filter (op_name x))) [
    | inl skips ↦
        let run = ap (λ r. r.0) (read_ops-skips x ops op_flags skips) in
        let rest = read_ops_iff ops op_flags in
        (λ e. (ground (arith, wanted-none x 0 skips), rest.0 (sym run ∙ e)), λ a. run ∙ rest.1 a.1)
    | inr (word, here) ↦ elim (Option-cases (filter_value word)) [
      | inl wrong ↦
          let run = ap (λ r. r.0) (read_ops-stops x ops op_flags here wrong) in
          let none_wanted = wanted-some x 0 here ∙ wrong in
          (λ e. absurd (omega (arith, run, e)), λ a. absurd (a.0 none_wanted))
      | inr (v, right) ↦
          let run = ap (λ r. r.0) (read_ops-sets x ops op_flags here right) in
          let rest = read_ops_iff ops (assign op_flags x v) in
          let here_wanted = wanted-some x 0 here ∙ right in
          (λ e. (ground (arith, here_wanted), rest.0 (sym run ∙ e)), λ a. run ∙ rest.1 a.1)
    ]
  ]

  -- The loop ends with 0 or 3.
  read_ops-code :
      (ops : List FuseOp) (op_flags : FuseOp → ℕ)
      → ((read_ops tm filter ops op_flags).0 ≡ 0) ⊎ ((read_ops tm filter ops op_flags).0 ≡ 3)
  unfolding read_ops
  read_ops-code [] op_flags = inl refl
  read_ops-code (x ∷ ops) op_flags = elim (Option-cases (tm.toml_string_in filter (op_name x))) [
    | inl skips ↦
        subst (λ r. (r.0 ≡ 0) ⊎ (r.0 ≡ 3)) (sym (read_ops-skips x ops op_flags skips))
          (read_ops-code ops op_flags)
    | inr (word, here) ↦ elim (Option-cases (filter_value word)) [
      | inl wrong ↦ inr (ap (λ r. r.0) (read_ops-stops x ops op_flags here wrong))
      | inr (v, right) ↦
          subst (λ r. (r.0 ≡ 0) ⊎ (r.0 ≡ 3)) (sym (read_ops-sets x ops op_flags here right))
            (read_ops-code ops (assign op_flags x v))
    ]
  ]

  -- A wrong word for any operation ends the loop with 3.
  pub read_ops-wrong :
      (op_flags : FuseOp → ℕ) (op : FuseOp) (word : Text)
      → tm.toml_string_in filter (op_name op) ≡ some word
      → filter_value word ≡ none
      → (read_ops tm filter all_ops op_flags).0 ≡ 3
  read_ops-wrong op_flags op word here wrong = elim (read_ops-code all_ops op_flags) [
    | inl zero_code ↦
        let there = read_ops-wanted op_flags zero_code op in
        absurd (cc (there, wanted-some op (op_flags op) here, wrong))
    | inr three ↦ three
  ]
