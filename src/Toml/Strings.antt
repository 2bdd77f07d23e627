-- ===== src/Toml/Strings.antt =====
-- The strings of src/toml.c in single quotes: what `norm_lit_str` writes into its buffer, and the way
-- from a text to its quoted form and back by `toml_rtos`.
use distiller_fs.Prelude.{
  ℕ, suc, ◌+◌, ◌-◌, ◌≤◌, ◌≡◌, ◌≢◌, refl, sym, ap, ◌∙◌, arith, Text, length, length-append,
  get_elem?-length, take, take-length, All, [], ◌∷◌, ◌++◌, Option, none, some, Bool, true, false,
  ◌&&◌, Bool-cases, inl, inr, ◌==◌, leb,
}
use mathlib.Core.List.{append_assoc, append-nil}
use distiller_fs.Toml.Tree.{
  Buffer, grow, is_control, lit_loop, norm_lit_str, norm_str, toml_rtos, char_at, string_of,
  between,
}

-- A character that a string in single quotes may have on its line.
abbrev pub IsPlain : ℕ → Type 0
IsPlain ch = is_control ch ≡ false

-- What the loop gives: the text is copied, and the buffer has room for it with the NUL.
pub record Copied (src : Text) (r : Option Buffer) : Type 0 where
  pub buffer : Buffer
  pub result : r ≡ some buffer
  pub copy : buffer.dst ≡ src ++ (0 ∷ [])
  pub room : length buffer.dst ≤ buffer.max

-- Room for the slack that the loop keeps.
abbrev HasRoom : Buffer → Type 0
HasRoom b = length b.dst ≤ b.max

grow-dst : (b : Buffer) → (grow b).dst ≡ b.dst
unfolding grow
grow-dst b = ground arith

grow-max : (b : Buffer) → HasRoom b → length b.dst + 10 ≤ (grow b).max
unfolding grow
grow-max b room = ground (arith, room)

abbrev push : Buffer → ℕ → Buffer
push b ch = record (grow b) { dst = (grow b).dst ++ (ch ∷ []) }

push-HasRoom : (b : Buffer) (ch : ℕ) → HasRoom b → HasRoom (push b ch)
push-HasRoom b ch room =
    let len = length-append (grow b).dst (ch ∷ []) in
    omega (arith, grow-max b room, len, ap length (grow-dst b))

lit_loop-Copied :
    (multiline : Bool) (src : Text) (b : Buffer)
    → All IsPlain src
    → HasRoom b
    → Copied (b.dst ++ src) (lit_loop multiline src b)
unfolding lit_loop
lit_loop-Copied multiline [] b plain room = record {
  buffer = push b 0;
  result = refl;
  copy = ap (λ (x : Text). x ++ (0 ∷ [])) (grow-dst b ∙ sym (append-nil b.dst));
  room = push-HasRoom b 0 room;
}
lit_loop-Copied multiline (ch ∷ rest) b (plain, plains) room =
    let next = lit_loop-Copied multiline rest (push b ch) plains (push-HasRoom b ch room) in
    record {
      buffer = next.buffer;
      result = rw (lit_loop, plain) next.result;
      copy =
          next.copy
          ∙ ap (λ (x : Text). x ++ (0 ∷ []))
              (ap (λ (x : Text). x ++ (ch ∷ []) ++ rest) (grow-dst b)
                ∙ append_assoc b.dst (ch ∷ []) rest);
      room = next.room;
    }

-- A text without control characters is copied into a buffer that has room for it and its NUL.
pub norm_lit_str-Copied :
    (multiline : Bool) (src : Text) → All IsPlain src → Copied src (norm_lit_str src multiline)
unfolding norm_lit_str
norm_lit_str-Copied multiline src plain =
    lit_loop-Copied multiline src (record { dst = []; max = 0 }) plain (omega arith)

-- A text in single quotes.
abbrev pub quoted : Text → Text
quoted s = 0x27 ∷ s ++ (0x27 ∷ [])

length-quoted : (s : Text) → length (quoted s) ≡ length s + 2
length-quoted s = omega (arith, length-append s (0x27 ∷ []))

last_quote : (s : Text) → char_at (quoted s) (length (quoted s) - 1) ≡ 0x27
unfolding char_at
last_quote s =
    let at : length (quoted s) - 1 ≡ suc (length s + 0) = omega (arith, length-quoted s) in
    let found = get_elem?-length s (0x27 ∷ []) 0 in
    ap (char_at (quoted s)) at ∙ ground (arith, found)

between-quoted : (s : Text) → between (quoted s) 1 (length (quoted s) - 1) ≡ s
between-quoted s =
    let len : length (quoted s) - 1 - 1 ≡ length s = omega (arith, length-quoted s) in
    ap (λ (n : ℕ). take n (s ++ (0x27 ∷ []))) len ∙ take-length s (0x27 ∷ [])

string_of-Copied : (src : Text) (r : Option Buffer) → Copied src r → string_of r ≡ some src
string_of-Copied src r c =
    let cut = ap (λ (x : Text). take (length x - 1) x) c.copy in
    let len : length (src ++ (0 ∷ [])) - 1 ≡ length src =
      omega (arith, length-append src (0 ∷ [])) in
    ap string_of c.result
    ∙ ap (λ (x : Text). some x)
        (cut ∙ (ap (λ (n : ℕ). take n (src ++ (0 ∷ []))) len ∙ take-length src (0 ∷ [])))

module _ (norm_basic_str : Text → Bool → Option Buffer) where
  -- No character is a quote, so that the second is none unless it is the last.
  not_triple :
      (s : Text)
      → All (λ ch. ch ≢ 0x27) s
      → ((0x27 == char_at (quoted s) 1) && (0x27 == char_at (quoted s) 2)) ≡ false
  unfolding char_at
  not_triple [] no_quote = refl
  not_triple (ch ∷ s) no_quote = ground (arith, no_quote.0)

  rtos_single :
      (src : Text)
      → char_at src 0 ≡ 0x27
      → ((0x27 == char_at src 1) && (0x27 == char_at src 2)) ≡ false
      → 2 ≤ length src
      → char_at src (length src - 1) ≡ 0x27
      → toml_rtos norm_basic_str (some src)
        ≡ string_of (norm_lit_str (between src 1 (length src - 1)) false)
  unfolding toml_rtos norm_str
  rtos_single src first not_three two last_at =
      let long : leb 2 (length src) ≡ true = ground (arith, two) in
      rw (first, not_three, long, last_at) refl

  -- A text without control characters and single quotes comes back from its quoted form.
  pub toml_rtos-quoted :
      (s : Text)
      → All IsPlain s
      → All (λ ch. ch ≢ 0x27) s
      → toml_rtos norm_basic_str (some (quoted s)) ≡ some s
  unfolding toml_rtos norm_str
  toml_rtos-quoted s plain no_quote =
      rtos_single (quoted s) refl (not_triple s no_quote) (omega (arith, length-quoted s))
        (last_quote s)
      ∙ (ap (λ (x : Text). string_of (norm_lit_str x false)) (between-quoted s)
          ∙ string_of-Copied s (norm_lit_str s false) (norm_lit_str-Copied false s plain))

lit_loop-control :
    (pre post : Text) (ch : ℕ) (b : Buffer)
    → is_control ch ≡ true
    → lit_loop false (pre ++ (ch ∷ post)) b ≡ none
unfolding lit_loop
lit_loop-control [] post ch b control = rw (lit_loop, control) refl
lit_loop-control (c ∷ pre) post ch b control =
    let rest = lit_loop-control pre post ch (push b c) control in
    rw (lit_loop, rest)
      (elim (Bool-cases (is_control c)) [ inl same ↦ rw same refl | inr other ↦ rw other refl ])

module _ (norm_basic_str : Text → Bool → Option Buffer) where
  -- A text without single quotes that has a control character other than the tab, put in single quotes,
  -- is refused.
  pub toml_rtos-control :
      (pre post : Text) (ch : ℕ)
      → is_control ch ≡ true
      → All (λ c. c ≢ 0x27) (pre ++ (ch ∷ post))
      → toml_rtos norm_basic_str (some (quoted (pre ++ (ch ∷ post)))) ≡ none
  unfolding norm_lit_str char_at
  toml_rtos-control pre post ch control no_quote =
      let s = pre ++ (ch ∷ post) in
      let refused : norm_lit_str s false ≡ none =
        lit_loop-control pre post ch (record { dst = []; max = 0 }) control in
      rtos_single norm_basic_str (quoted s) refl (not_triple norm_basic_str s no_quote)
        (omega (arith, length-quoted s)) (last_quote s)
      ∙ (ap (λ (x : Text). string_of (norm_lit_str x false)) (between-quoted s)
          ∙ ap string_of refused)
