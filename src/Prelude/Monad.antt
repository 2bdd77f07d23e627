-- ===== src/Prelude/Monad.antt =====
-- Stateful code that may fault: a function of the state into the value and the new state, or
-- `none` where the C program has undefined behaviour.
use mathlib.Core.Path.{◌≡◌, ap}
use mathlib.Core.Option.{Option, none, some}

abbrev pub Run {ℓ} : Type ℓ → Type ℓ → Type ℓ
Run S A = S → Option (A × S)

module _ {ℓ} {S A : Type ℓ} where
  abbrev pub pure : A → Run S A
  pure a s = some (a, s)

  -- A value that may be undefined.
  abbrev pub lift : Option A → Run S A
  lift none s = none
  lift (some a) s = some (a, s)

  abbrev pub gets : (S → A) → Run S A
  gets f s = some (f s, s)

module _ {ℓ} {S A B : Type ℓ} where
  infixl 5 ◌>>=◌ ◌>>◌
  abbrev pub ◌>>=◌ : Run S A → (A → Run S B) → Run S B
  ◌>>=◌ m f s = elim (m s) [ none ↦ none | some (a, t) ↦ f a t ]

  abbrev pub ◌>>◌ : Run S A → Run S B → Run S B
  m >> n = m >>= λ _. n

module _ {ℓ} {S A B : Type ℓ} where
  -- One step of a `do` block that does not fault.
  pub bind_some :
      (m : Run S A) (f : A → Run S B) (s : S) {a : A} {t : S}
      → m s ≡ some (a, t)
      → (m >>= f) s ≡ f a t
  bind_some m f s {a} {t} e =
      ap
        (λ (r : Option (A × S)).
          let y : Option (B × S) = elim r [ none ↦ none | some (b, u) ↦ f b u ] in y)
        e
