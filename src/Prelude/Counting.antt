-- ===== src/Prelude/Counting.antt =====
-- Lists of components that change one at a time: writes by index, weights, and predicates on all.
use Prim.Native.Nat.{ℕ, zero, suc, ◌+◌, ◌≤◌, ◌<◌}
use mathlib.Core.Path.{◌≡◌, refl}
use mathlib.Core.Logic.{◌≢◌}
use mathlib.Core.List.{List, [], ◌∷◌, ◌++◌}
use mathlib.Core.Option.{some}
use native.Mathlib.Decide.{dec_lt}
use native.Mathlib.Omega.{arith}
use remote_file_system.Prelude.Lists.{get_elem?, All}

module _ {ℓ} {A : Type ℓ} where
  -- A write out of bounds changes nothing.
  abbrev pub set : List A → ℕ → A → List A
  set [] i v = []
  set (x ∷ xs) zero v = v ∷ xs
  set (x ∷ xs) (suc i) v = x ∷ set xs i v

  pub All-get {κ} :
      (P : A → Type κ) (xs : List A) (i : ℕ) (a : A) → All P xs → get_elem? xs i ≡ some a → P a
  All-get P [] i a h e = cc
  All-get P (x ∷ xs) zero a h e = rw (← some_injective e) h.0
    where
      some_injective : some x ≡ some a → x ≡ a
      some_injective e = cc
  All-get P (x ∷ xs) (suc i) a h e = All-get P xs i a h.1 e

  pub All-set {κ} :
      (P : A → Type κ) (xs : List A) (i : ℕ) (a : A) → All P xs → P a → All P (set xs i a)
  All-set P [] i a h p = tt
  All-set P (x ∷ xs) zero a h p = (p, h.1)
  All-set P (x ∷ xs) (suc i) a h p = (h.0, All-set P xs i a h.1 p)

  pub All-map {κ μ} :
      (P : A → Type κ) (Q : A → Type μ) (xs : List A) → ((a : A) → P a → Q a) → All P xs → All Q xs
  All-map P Q [] f h = tt
  All-map P Q (x ∷ xs) f h = (f x h.0, All-map P Q xs f h.1)

module _ {ℓ} {A : Type ℓ} (w : A → ℕ) where
  abbrev pub weigh : List A → ℕ
  weigh [] = 0
  weigh (x ∷ xs) = w x + weigh xs

  pub weigh-set :
      (xs : List A) (i : ℕ) (a b : A)
      → get_elem? xs i ≡ some a
      → weigh (set xs i b) + w a ≡ weigh xs + w b
  weigh-set [] i a b e = cc
  weigh-set (x ∷ xs) zero a b e = ground (arith, e)
  weigh-set (x ∷ xs) (suc i) a b e = omega (arith, weigh-set xs i a b e)

  pub weigh-append : (xs : List A) (a : A) → weigh (xs ++ a ∷ []) ≡ weigh xs + w a
  weigh-append [] a = omega arith
  weigh-append (x ∷ xs) a = omega (arith, weigh-append xs a)

  pub weigh-get : (xs : List A) (i : ℕ) (a : A) → get_elem? xs i ≡ some a → w a ≤ weigh xs
  weigh-get [] i a e = cc
  weigh-get (x ∷ xs) zero a e = ground (arith, e)
  weigh-get (x ∷ xs) (suc i) a e = omega (arith, weigh-get xs i a e)

  pub weigh_two :
      (xs : List A) (i j : ℕ) (a b : A)
      → i ≢ j
      → get_elem? xs i ≡ some a
      → get_elem? xs j ≡ some b
      → w a + w b ≤ weigh xs
  weigh_two [] i j a b ne e f = cc
  weigh_two (x ∷ xs) zero zero a b ne e f = absurd (ne refl)
  weigh_two (x ∷ xs) zero (suc j) a b ne e f = ground (arith, e, weigh-get xs j b f)
  weigh_two (x ∷ xs) (suc i) zero a b ne e f = ground (arith, f, weigh-get xs i a e)
  weigh_two (x ∷ xs) (suc i) (suc j) a b ne e f =
      omega (arith, weigh_two xs i j a b (λ s. ne (omega arith)) e f)

  -- a weight comes from a component
  pub weigh_pos :
      (xs : List A) → 0 < weigh xs → (i : ℕ) × (a : A) × (get_elem? xs i ≡ some a) × (0 < w a)
  weigh_pos [] h = absurd (omega arith)
  weigh_pos (x ∷ xs) h = elim (dec_lt 0 (w x)) [
    | yes p ↦ (0, x, refl, p)
    | no p ↦ let (i, a, e, q) = weigh_pos xs (omega arith) in (suc i, a, e, q)
  ]

  pub weigh-zero : (xs : List A) → All (λ a. w a ≡ 0) xs → weigh xs ≡ 0
  weigh-zero [] h = refl
  weigh-zero (x ∷ xs) h = omega (arith, h.0, weigh-zero xs h.1)
