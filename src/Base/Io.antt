-- ===== src/Base/Io.antt =====
-- Results of Rust code: `std::io::Result`, and calls that may panic.
use mathlib.Core.Path.{◌≡◌, refl}
use mathlib.Core.Logic.{◌⊎◌, inl, inr}

-- The kinds of `std::io::ErrorKind` that the code tells apart.
pub data ErrorKind : Type 0 where
  would_block broken_pipe write_zero other : ErrorKind

pub data IoResult {ℓ} (A : Type ℓ) : Type ℓ where
  ok : A → IoResult A
  err : ErrorKind → IoResult A

-- A call that returns a value, or that panics (`assert!`, `unreachable!`, `expect`).
pub data Outcome {ℓ} (A : Type ℓ) : Type ℓ where
  returns : A → Outcome A
  panics : Outcome A

pub Outcome-cases {ℓ} : {A : Type ℓ} (o : Outcome A) → (o ≡ panics) ⊎ ((a : A) × (o ≡ returns a))
Outcome-cases panics = inl refl
Outcome-cases (returns a) = inr (a, refl)
