-- ===== src/CString/Digits.antt =====
-- How long the decimal digits of a number are, and `ceil(log10(n))`, by which the serializers of
-- protocol.c size their buffers. The two functions of libm are computed exactly here: in a `double` the result
-- is the same for numbers below 10 ^ 14 and for powers of ten, and may be less for other numbers.
use native.Mathlib.Decide.{dec_lt}
use remote_file_system.Prelude.{
  ℕ, zero, suc, ◌+◌, ◌-◌, ◌*◌, ◌/◌, ◌%◌, ◌≤◌, ◌<◌, ◌≡◌, ◌≢◌, refl, ◌⊎◌, inl, inr, [], ◌∷◌, Bytes,
  ltb, leb, if◌then◌else◌, arith, length, Bool-cases,
}
use remote_file_system.Prelude.Int.{long_max}
use remote_file_system.CString.Decimal.{print_digits, print_ℕ, print_small, print_more}

abbrev pub pow10 : ℕ → ℕ
pow10 zero = 1
pow10 (suc k) = 10 * pow10 k

-- The least `j` from `k` on with `n ≤ 10 ^ j`, where `p` is `10 ^ k`. The fuel bounds the steps.
ceil_log10_from : ℕ → ℕ → ℕ → ℕ → ℕ
ceil_log10_from zero n k p = k
ceil_log10_from (suc fuel) n k p =
    let rest = ceil_log10_from fuel n (suc k) (10 * p) in if leb n p then k else rest

-- `ceil(log10(n))` for `0 < n`
unfoldable pub ceil_log10 : ℕ → ℕ
unfolding ceil_log10_from
ceil_log10 n = ceil_log10_from n n 0 1

-- `k` is `ceil(log10(n))`: the least exponent of a power of ten that is not below `n`.
abbrev pub IsCeilLog10 : ℕ → ℕ → Type 0
IsCeilLog10 n k = (n ≤ pow10 k) × ((k ≡ 0) ⊎ (pow10 (k - 1) < n))

pow10_mono : (a b : ℕ) → a ≤ b → pow10 a ≤ pow10 b
pow10_mono zero zero h = omega arith
pow10_mono zero (suc b) h = omega (arith, pow10_mono zero b (omega arith))
pow10_mono (suc a) zero h = elim h [ ]
pow10_mono (suc a) (suc b) h = omega (arith, pow10_mono a b (omega arith))

lt-pow10 : (n : ℕ) → n < pow10 n
lt-pow10 zero = omega arith
lt-pow10 (suc n) = omega (arith, lt-pow10 n)

ceil_log10_from-IsCeilLog10 :
    (fuel n k : ℕ)
    → n ≤ fuel + k
    → (k ≡ 0) ⊎ (pow10 (k - 1) < n)
    → IsCeilLog10 n (ceil_log10_from fuel n k (pow10 k))
unfolding ceil_log10_from
ceil_log10_from-IsCeilLog10 zero n k h low = (omega (arith, lt-pow10 k), low)
ceil_log10_from-IsCeilLog10 (suc fuel) n k h low =
    ground (arith, ceil_log10_from-IsCeilLog10 fuel n (suc k))

-- `ceil_log10` is the function that it is named for.
pub ceil_log10-IsCeilLog10 : (n : ℕ) → IsCeilLog10 n (ceil_log10 n)
unfolding ceil_log10
ceil_log10-IsCeilLog10 n = ceil_log10_from-IsCeilLog10 n n 0 (omega arith) (inl refl)

-- The number of digits: `10 ^ (length - 1) ≤ n < 10 ^ length`, except that zero has one digit.
digits_bounds :
    (fuel n : ℕ) (out : Bytes)
    → n < fuel
    → (d : ℕ) × (length (print_digits fuel n out) ≡ suc d + length out)
      × (n < pow10 (suc d))
      × ((d ≡ 0) ⊎ (pow10 d ≤ n))
digits_bounds zero n out h = elim h [ ]
digits_bounds (suc fuel) n out h = elim (Bool-cases (ltb n 10)) [
  | inl small ↦ (0, rw (print_small fuel n out small) (omega arith), ground arith, inl refl)
  | inr more ↦
      let (d, len, up, low) = digits_bounds fuel (n / 10) ((b'0' + n % 10) ∷ out) (ground arith) in
      (suc d, rw (print_more fuel n out more) (omega arith), omega arith, inr (ground arith))
]

pub pow10_pos : (a : ℕ) → 0 < pow10 a
pow10_pos a = omega (arith, lt-pow10 a)

pub zero_no_power : (k : ℕ) → 0 ≢ pow10 k
zero_no_power k e = omega (arith, pow10_pos k)

lt_of_pow10_lt : (a b : ℕ) → pow10 a < pow10 b → a < b
lt_of_pow10_lt a b h = elim (dec_lt a b) [
  | yes l ↦ l
  | no n ↦ absurd (omega (arith, pow10_mono b a (omega arith)))
]

le_of_pow10_le : (a b : ℕ) → pow10 a ≤ pow10 b → a ≤ b
le_of_pow10_le a b h =
    let l : a < suc b = lt_of_pow10_lt a (suc b) (omega (arith, pow10_pos b)) in omega arith

print_ℕ_bounds :
    (n : ℕ)
    → (d : ℕ) × (length (print_ℕ n) ≡ suc d) × (n < pow10 (suc d)) × ((d ≡ 0) ⊎ (pow10 d ≤ n))
unfolding print_ℕ
print_ℕ_bounds n =
    let (d, len, up, low) = digits_bounds (n + 1) n [] (omega arith) in (d, omega arith, up, low)

-- A power of ten has one digit more than `ceil(log10(n))` says.
pub length_of_power : (k : ℕ) → length (print_ℕ (pow10 k)) ≡ suc (ceil_log10 (pow10 k))
length_of_power k =
    let n = pow10 k in
    let c = ceil_log10 n in
    let (le, low) = ceil_log10-IsCeilLog10 n in
    let (d, len, up, from) = print_ℕ_bounds n in
    let k_le_c : k ≤ c = le_of_pow10_le k c le in
    let k_lt_d : k < suc d = lt_of_pow10_lt k (suc d) up in
    let c_le_k : c ≤ k = elim low [
      | inl z ↦ omega arith
      | inr l ↦ omega (arith, lt_of_pow10_lt (c - 1) k l)
    ] in
    let d_le_k : d ≤ k = elim from [ inl z ↦ omega arith | inr l ↦ le_of_pow10_le d k l ] in
    omega arith

-- For any other positive number the digits are no more than that.
pub length-le_ceil_log10 :
    (n : ℕ) → 0 < n → n ≢ pow10 (ceil_log10 n) → length (print_ℕ n) ≤ ceil_log10 n
length-le_ceil_log10 n h not_power =
    let c = ceil_log10 n in
    let (le, low) = ceil_log10-IsCeilLog10 n in
    let (d, len, up, from) = print_ℕ_bounds n in
    let d_lt_c : d < c = elim from [
      | inl z ↦ ground (arith, pow10_pos d, lt_of_pow10_lt d c)
      | inr l ↦ lt_of_pow10_lt d c (omega arith)
    ] in
    omega arith

-- What `%ld` prints of a non-negative number has 19 bytes at most.
pub length-print_ℕ_le : (n : ℕ) → n ≤ long_max → length (print_ℕ n) ≤ 19
length-print_ℕ_le n fits =
    let (d, len, up, from) = print_ℕ_bounds n in
    elim from [
      | inl z ↦ omega arith
      | inr l ↦ let lt : d < 19 = lt_of_pow10_lt d 19 (omega arith) in omega arith
    ]
