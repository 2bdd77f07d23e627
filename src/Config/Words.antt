-- ===== src/Config/Words.antt =====
-- The words that the `[filter]` section of a configuration can have, and what they let through.
use distiller_fs.Prelude.{
  ℕ, ◌≡◌, ◌≢◌, ◌↔◌, refl, sym, ◌∙◌, subst, Text, codes, text_eq, text_eq_iff, List, [], ◌∷◌, All,
  Elem, none, some, ◌||◌, true, Bool-cases, inl, inr, get_elem?, zero, suc,
}
use distiller_fs.Ops.{FuseOp, ord, all_ops, log_success, log_unsuccess}
use distiller_fs.Ops.Flags.{get_elem?-ord}
use distiller_fs.Logger.{should_log}
use distiller_fs.Config.{filter_value}

abbrev pub four_words : List Text
four_words = codes "success" ∷ codes "unsuccess" ∷ codes "all" ∷ codes "never" ∷ []

-- The successes of an operation are logged for `success` alone, its failures for `unsuccess` and for
-- `all`.
abbrev pub Means : Text → (FuseOp → ℕ) → FuseOp → Type 0
Means word op_flags op =
    (should_log op_flags op log_success ≡ text_eq word (codes "success"))
    × (should_log op_flags op log_unsuccess
        ≡ (text_eq word (codes "unsuccess") || text_eq word (codes "all")))

known_word :
    (word known : Text) (v w : ℕ) (op_flags : FuseOp → ℕ) (op : FuseOp)
    → text_eq word known ≡ true
    → filter_value known ≡ some w
    → ((f : FuseOp → ℕ) → f op ≡ w → Means known f op)
    → filter_value word ≡ some v
    → op_flags op ≡ v
    → Means word op_flags op
known_word word known v w op_flags op same value means read is =
    let eq = (text_eq_iff word known).0 same in
    let at : w ≡ v = cc (eq, value, read) in
    subst (λ x. Means x op_flags op) (sym eq) (means op_flags (is ∙ sym at))

-- A word that is read means this.
pub filter_value-Means :
    (word : Text) (v : ℕ) (op_flags : FuseOp → ℕ) (op : FuseOp)
    → filter_value word ≡ some v
    → op_flags op ≡ v
    → Means word op_flags op
unfolding filter_value should_log
filter_value-Means word v op_flags op read is = elim (Bool-cases (text_eq word (codes "success"))) [
  | inl e ↦
      known_word word (codes "success") v 1 op_flags op e refl (λ f at. rw at (refl, refl)) read is
  | inr success ↦ elim (Bool-cases (text_eq word (codes "unsuccess"))) [
    | inl e ↦
        known_word word (codes "unsuccess") v 2 op_flags op e refl (λ f at. rw at (refl, refl)) read
          is
    | inr unsuccess ↦ elim (Bool-cases (text_eq word (codes "all"))) [
      | inl e ↦
          known_word word (codes "all") v 2 op_flags op e refl (λ f at. rw at (refl, refl)) read is
      | inr whole ↦ elim (Bool-cases (text_eq word (codes "never"))) [
        | inl e ↦
            known_word word (codes "never") v 0 op_flags op e refl (λ f at. rw at (refl, refl)) read
              is
        | inr never ↦
            let stop : filter_value word ≡ none =
              rw (filter_value, success, unsuccess, whole, never) in
            absurd (cc (stop, read))
      ]
    ]
  ]
]

-- The words that are read are the four.
pub filter_value_iff : (word : Text) → (filter_value word ≢ none) ↔ Elem word four_words
unfolding filter_value
filter_value_iff word = (
  λ known. elim (Bool-cases (text_eq word (codes "success"))) [
    | inl e ↦ inl ((text_eq_iff word (codes "success")).0 e)
    | inr success ↦ elim (Bool-cases (text_eq word (codes "unsuccess"))) [
      | inl e ↦ inr (inl ((text_eq_iff word (codes "unsuccess")).0 e))
      | inr unsuccess ↦ elim (Bool-cases (text_eq word (codes "all"))) [
        | inl e ↦ inr (inr (inl ((text_eq_iff word (codes "all")).0 e)))
        | inr whole ↦ elim (Bool-cases (text_eq word (codes "never"))) [
          | inl e ↦ inr (inr (inr (inl ((text_eq_iff word (codes "never")).0 e))))
          | inr never ↦ absurd (known (rw (filter_value, success, unsuccess, whole, never)))
        ]
      ]
    ]
  ],
  λ m. elim m [
    | inl e ↦ subst (λ w. filter_value w ≢ none) (sym e) (λ z. cc z)
    | inr (inl e) ↦ subst (λ w. filter_value w ≢ none) (sym e) (λ z. cc z)
    | inr (inr (inl e)) ↦ subst (λ w. filter_value w ≢ none) (sym e) (λ z. cc z)
    | inr (inr (inr (inl e))) ↦ subst (λ w. filter_value w ≢ none) (sym e) (λ z. cc z)
    | inr (inr (inr (inr e))) ↦ absurd e
  ],
)

-- What holds of each element holds of each operation, and the other way round.
All-get_elem? :
    {A : Type 0} (P : A → Type 0) (xs : List A) (i : ℕ) {x : A}
    → All P xs
    → get_elem? xs i ≡ some x
    → P x
All-get_elem? P [] i a e = absurd (cc e)
All-get_elem? P (y ∷ xs) zero {x} a e = subst P (cc e) a.0
All-get_elem? P (y ∷ xs) (suc i) a e = All-get_elem? P xs i a.1 e

pub All-ops : (P : FuseOp → Type 0) → All P all_ops → (op : FuseOp) → P op
All-ops P a op = All-get_elem? P all_ops (ord op) a (get_elem?-ord op)

pub All-each : {A : Type 0} (P : A → Type 0) (xs : List A) → ((x : A) → P x) → All P xs
All-each P [] f = tt
All-each P (x ∷ xs) f = (f x, All-each P xs f)
