-- ===== src/Prelude/Control.antt =====
-- What a run of C code comes to: a value, behaviour that C leaves undefined, or a loop that has not
-- ended within the fuel that it was given.
use mathlib.Core.Logic.{◌⊎◌, inl, inr}
use mathlib.Core.Path.{◌≡◌, refl}

pub data Run {ℓ} (A : Type ℓ) : Type ℓ where
  done : A → Run A
  undefined : Run A
  running : Run A

infixl 5 ◌>>=◌ ◌>>◌
abbrev pub ◌>>=◌ {ℓ κ} : {A : Type ℓ} {B : Type κ} → Run A → (A → Run B) → Run B
done a >>= k = k a
undefined >>= k = undefined
running >>= k = running

abbrev pub ◌>>◌ {ℓ κ} : {A : Type ℓ} {B : Type κ} → Run A → Run B → Run B
m >> n = m >>= λ _. n

-- A run returns a value, or it does not.
pub Run-cases {ℓ} :
    {A : Type ℓ} (r : Run A) → ((a : A) × (r ≡ done a)) ⊎ ((r ≡ undefined) ⊎ (r ≡ running))
Run-cases (done a) = inl (a, refl)
Run-cases undefined = inr (inl refl)
Run-cases running = inr (inr refl)
