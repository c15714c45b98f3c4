-- ===== src/Generator/Go/Digits.antt =====
-- The rounds that writing a number takes.
use ssac.Base.{ℕ, zero, suc, ◌/◌, ◌%◌, ◌<◌, ◌≡◌, refl, ◌==◌, ◌∷◌, arith, Bool-cases, inl, inr}
use ssac.Text.{Text}
use ssac.Generator.Go.{digits_onto, digit}

-- More rounds than the number itself change nothing: the digits are all there.
digits_onto-enough :
    (f g n : ℕ) (acc : Text) → n < f → n < g → digits_onto 10 f n acc ≡ digits_onto 10 g n acc
unfolding digits_onto
digits_onto-enough zero g n acc h k = absurd (omega arith)
digits_onto-enough (suc f) zero n acc h k = absurd (omega arith)
digits_onto-enough (suc f) (suc g) n acc h k = elim (Bool-cases (n / 10 == 0)) [
  | inl e ↦ rw e refl
  | inr e ↦
      rw e (digits_onto-enough f g (n / 10) (digit (n % 10) ∷ acc) (ground arith) (ground arith))
]
