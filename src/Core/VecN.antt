-- ===== src/Core/VecN.antt =====
-- `VecN` of imap-types/src/core.rs: a list with a least length, and its cases `Vec1` and `Vec2`.
use imap_codec.Prelude.{ℕ, List, [], ◌∷◌, length, ltb, if◌then◌else◌, ok, ◌>>◌}
use imap_codec.Core.Validation.{Checked, fail, not_enough}

pub record VecN {ℓ} (T : Type ℓ) (n : ℕ) : Type ℓ where
  pub inner : List T

module _ {ℓ} {T : Type ℓ} (n : ℕ) where
  unfoldable pub validate : List T → Checked (Unit {0})
  validate value = if ltb (length value) n then fail (not_enough n) else ok tt

  unfoldable pub try_from : List T → Checked (VecN T n)
  try_from inner = validate inner >> ok (record { inner = inner })

abbrev pub Vec1 {ℓ} : Type ℓ → Type ℓ
Vec1 T = VecN T 1

abbrev pub Vec2 {ℓ} : Type ℓ → Type ℓ
Vec2 T = VecN T 2

module _ {ℓ} {T : Type ℓ} where
  unfoldable pub vec1_from : T → Vec1 T
  vec1_from value = record { inner = value ∷ [] }

  unfoldable pub vec2_from : T × T → Vec2 T
  vec2_from (v1, v2) = record { inner = v1 ∷ v2 ∷ [] }
