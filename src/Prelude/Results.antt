-- ===== src/Prelude/Results.antt =====
-- `Result` and the `?` operator as a monad.
pub data Result {ℓ κ} (A : Type ℓ) (E : Type κ) : Type (ℓ ⊔ κ) where
  ok : A → Result A E
  err : E → Result A E

infixl 5 ◌>>=◌
abbrev pub ◌>>=◌ {ε α β} :
    {E : Type ε} {A : Type α} {B : Type β} → Result A E → (A → Result B E) → Result B E
err e >>= next = err e
ok value >>= next = next value

-- The first value is of no use to what follows.
infixl 5 ◌>>◌
abbrev pub ◌>>◌ {ε α β} :
    {E : Type ε} {A : Type α} {B : Type β} → Result A E → Result B E → Result B E
err e >> after = err e
ok value >> after = after
