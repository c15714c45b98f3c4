-- ===== src/Base/Results.antt =====
-- What a Go function that may fail does: it returns a value, returns an error, or panics.
use mathlib.Core.Bool.{Bool, true, false}
use mathlib.Core.Option.{some}
use mathlib.Core.Path.{◌≡◌, refl, subst}
use ssac.Base.Tests.{if◌then◌else◌}

pub data Outcome {ℓ} (E A : Type ℓ) : Type ℓ where
  ok : A → Outcome E A
  fail : E → Outcome E A
  panic : Outcome E A

module _ {ℓ} {E A B : Type ℓ} where
  -- `v, err := m(); if err != nil { return nil, err }`; a panic goes up too.
  infixl 5 ◌>>=◌
  abbrev pub ◌>>=◌ : Outcome E A → (A → Outcome E B) → Outcome E B
  panic >>= next = panic
  fail why >>= next = fail why
  ok value >>= next = next value

-- What holds of the value, where one is returned.
module _ {ℓ} {E : Type ℓ} where
  unfoldable pub Returns : {A : Type ℓ} → (A → Type ℓ) → Outcome E A → Type ℓ
  Returns P (ok a) = P a
  Returns P (fail e) = Unit
  Returns P panic = Unit

  pub bind-Returns :
      {A B : Type ℓ} (P : A → Type ℓ) (Q : B → Type ℓ) (m : Outcome E A) (f : A → Outcome E B)
      → Returns P m
      → ((a : A) → P a → Returns Q (f a))
      → Returns Q (m >>= f)
  unfolding Returns
  bind-Returns P Q (ok a) f h k = k a h
  bind-Returns P Q (fail e) f h k = tt
  bind-Returns P Q panic f h k = tt

  pub bind-ok :
      {A B : Type ℓ} (m : Outcome E A) (f : A → Outcome E B) (a : A) (r : Outcome E B)
      → m ≡ ok a
      → f a ≡ r
      → (m >>= f) ≡ r
  bind-ok (ok b) f a r h k = cc
  bind-ok (fail e) f a r h k = cc
  bind-ok panic f a r h k = cc

  -- Where the second step may use that the first one returned.
  pub bind_eq-Returns :
      {A B : Type ℓ} (Q : B → Type ℓ) (m : Outcome E A) (f : A → Outcome E B)
      → ((a : A) → m ≡ ok a → Returns Q (f a))
      → Returns Q (m >>= f)
  unfolding Returns
  bind_eq-Returns Q (ok a) f k = k a refl
  bind_eq-Returns Q (fail e) f k = tt
  bind_eq-Returns Q panic f k = tt

  pub if-Returns :
      {A : Type ℓ} (P : A → Type ℓ) (b : Bool) (x y : Outcome E A)
      → Returns P x
      → Returns P y
      → Returns P (if b then x else y)
  if-Returns P true x y h k = h
  if-Returns P false x y h k = k

  pub Returns-ok :
      {A : Type ℓ} (P : A → Type ℓ) (m : Outcome E A) (a : A) → m ≡ ok a → Returns P m → P a
  unfolding Returns
  Returns-ok P m a e h = subst (Returns P) e h

pub ok-Returns {ℓ} :
    (E : Type ℓ) {A : Type ℓ} (P : A → Type ℓ) (a : A) → P a → Returns {E = E} P (ok a)
unfolding Returns
ok-Returns E P a h = h

pub some_inj : {A : Type 0} (a b : A) → some a ≡ some b → a ≡ b
some_inj a b e = cc
