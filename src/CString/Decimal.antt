-- ===== src/CString/Decimal.antt =====
-- `sprintf` of a `long` by `%ld`, and `strtol` in base ten.
use remote_file_system.Prelude.{
  ℕ, zero, suc, ◌+◌, ◌-◌, ◌*◌, ◌/◌, ◌%◌, ◌≤◌, ◌<◌, ◌≡◌, Bool, true, false, ◌&&◌, ◌||◌, [], ◌∷◌,
  Bytes, ltb, leb, ◌==◌, if◌then◌else◌, arith, Lacks, ◌≢◌, refl, Bool-cases, inl, inr, ltb→lt, ◌∙◌,
  ap, sym,
}
use remote_file_system.Prelude.Int.{ℤ, pos, negsuc, long_max}

-- The digits of `n` before `out`. The fuel bounds the number of digits.
unfoldable pub print_digits : ℕ → ℕ → Bytes → Bytes
print_digits zero n out = out
print_digits (suc fuel) n out =
    let rest = print_digits fuel (n / 10) ((b'0' + n % 10) ∷ out) in
    if ltb n 10 then (b'0' + n) ∷ out else rest

unfoldable pub print_ℕ : ℕ → Bytes
unfolding print_digits
print_ℕ n = print_digits (n + 1) n []

-- `%ld`
unfoldable pub print_long : ℤ → Bytes
unfolding print_ℕ
print_long (pos n) = print_ℕ n
print_long (negsuc n) = b'-' ∷ print_ℕ (n + 1)

-- `isspace`
is_space : ℕ → Bool
is_space c = (c == 32) || (leb 9 c && leb c 13)

is_digit : ℕ → Bool
is_digit c = leb b'0' c && leb c b'9'

-- the value of the digits at the front, behind the value read so far
read_digits : Bytes → ℕ → ℕ
unfolding is_digit
read_digits [] n = n
read_digits (c ∷ s) n = if is_digit c then read_digits s (n * 10 + (c - b'0')) else n

-- a value out of the range of `long` is replaced by the nearest one in it
to_long : Bool → ℕ → ℤ
to_long true n =
    if n == 0 then pos 0 else if ltb long_max n then negsuc long_max else negsuc (n - 1)
to_long false n = if ltb long_max n then pos long_max else pos n

read_sign : Bytes → ℤ
unfolding read_digits to_long
read_sign [] = pos 0
read_sign (c ∷ s) =
    if c == b'-'
    then to_long true (read_digits s 0)
    else if c == b'+'
    then to_long false (read_digits s 0)
    else to_long false (read_digits (c ∷ s) 0)

-- `strtol(s, NULL, 10)`
unfoldable pub strtol : Bytes → ℤ
unfolding is_space read_sign
strtol [] = pos 0
strtol (c ∷ s) = if is_space c then strtol s else read_sign (c ∷ s)

read_last : (n : ℕ) (out : Bytes) → read_digits ((b'0' + n % 10) ∷ out) (n / 10) ≡ read_digits out n
unfolding read_digits
read_last n out = ground arith

read_first : (n : ℕ) (out : Bytes) → n < 10 → read_digits ((b'0' + n) ∷ out) 0 ≡ read_digits out n
unfolding read_digits
read_first n out h = ground arith

module _ (fuel n : ℕ) (out : Bytes) where
  pub print_small : ltb n 10 ≡ true → print_digits (suc fuel) n out ≡ (b'0' + n) ∷ out
  unfolding print_digits
  print_small h = rw h

  pub print_more :
      ltb n 10 ≡ false
      → print_digits (suc fuel) n out ≡ print_digits fuel (n / 10) ((b'0' + n % 10) ∷ out)
  unfolding print_digits
  print_more h = rw h

read-print_digits :
    (fuel n : ℕ) (out : Bytes)
    → n < fuel
    → read_digits (print_digits fuel n out) 0 ≡ read_digits out n
read-print_digits zero n out h = elim h [ ]
read-print_digits (suc fuel) n out h = elim (Bool-cases (ltb n 10)) [
  | inl small ↦ rw (print_small fuel n out small) (read_first n out (ltb→lt n 10 small))
  | inr more ↦
      rw (print_more fuel n out more)
        (read-print_digits fuel (n / 10) ((b'0' + n % 10) ∷ out) (ground arith) ∙ read_last n out)
]

-- what is printed begins with a digit
digit_first :
    (fuel n : ℕ) (out : Bytes)
    → n < fuel
    → (c : ℕ) × (s : Bytes) × (print_digits fuel n out ≡ c ∷ s) × (is_digit c ≡ true)
digit_first zero n out h = elim h [ ]
digit_first (suc fuel) n out h = elim (Bool-cases (ltb n 10)) [
  | inl small ↦ (b'0' + n, out, print_small fuel n out small, unfold is_digit in ground arith)
  | inr more ↦
      let (c, s, e, d) = digit_first fuel (n / 10) ((b'0' + n % 10) ∷ out) (ground arith) in
      (c, s, print_more fuel n out more ∙ e, d)
]

strtol-digits :
    (c : ℕ) (s : Bytes) → is_digit c ≡ true → strtol (c ∷ s) ≡ to_long false (read_digits (c ∷ s) 0)
unfolding strtol is_digit
strtol-digits c s h = ground arith

-- `strtol` reads back what `%ld` prints, for every non-negative `long`.
pub strtol-print_long : (n : ℕ) → n ≤ long_max → strtol (print_long (pos n)) ≡ pos n
unfolding print_long read_digits to_long
strtol-print_long n h =
    let (c, s, e, d) = digit_first (n + 1) n [] (omega arith) in
    let read = read-print_digits (n + 1) n [] (omega arith) in
    rw e (
      strtol-digits c s d
      ∙ ap (to_long false) (ap (λ t. read_digits t 0) (sym e) ∙ read)
      ∙ ground arith)

last_digit : (b n : ℕ) → is_digit b ≡ false → b'0' + n % 10 ≢ b
unfolding is_digit
last_digit b n h = ground arith

print_digits-Lacks :
    (b : ℕ)
    → is_digit b ≡ false
    → (fuel n : ℕ) (out : Bytes) → n < fuel
    → Lacks b out
    → Lacks b (print_digits fuel n out)
print_digits-Lacks b h zero n out lt lacks = elim lt [ ]
print_digits-Lacks b h (suc fuel) n out lt lacks = elim (Bool-cases (ltb n 10)) [
  | inl small ↦ rw (print_small fuel n out small) (unfold is_digit in ground arith)
  | inr more ↦ rw (print_more fuel n out more) (
      print_digits-Lacks b h fuel (n / 10) ((b'0' + n % 10) ∷ out) (ground arith)
        (last_digit b n h, lacks))
]

-- What `%ld` prints of a non-negative number has no comma, and at least one byte.
pub print_ℕ-Lacks-comma : (n : ℕ) → Lacks b',' (print_ℕ n)
unfolding print_ℕ is_digit
print_ℕ-Lacks-comma n = print_digits-Lacks b',' refl (n + 1) n [] (omega arith) tt

pub print_ℕ-Lacks_nul : (n : ℕ) → Lacks 0 (print_ℕ n)
unfolding print_ℕ is_digit
print_ℕ-Lacks_nul n = print_digits-Lacks 0 refl (n + 1) n [] (omega arith) tt

pub print_ℕ-cons : (n : ℕ) → (c : ℕ) × (s : Bytes) × (print_ℕ n ≡ c ∷ s)
unfolding print_ℕ
print_ℕ-cons n = let (c, s, e, d) = digit_first (n + 1) n [] (omega arith) in (c, s, e)
