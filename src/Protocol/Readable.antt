-- ===== src/Protocol/Readable.antt =====
-- The text of a response with a short message can be read by the client: it has no NUL, and fits into
-- the client's buffer.
use remote_file_system.Prelude.{
  ℕ, ◌≢◌, ◌<◌, ◌≤◌, Bool, true, false, ◌++◌, ◌∷◌, Bytes, Lacks, length, length-append, arith,
  All-append,
}
use remote_file_system.Prelude.Int.{pos, long_max}
use remote_file_system.CString.Decimal.{print_long, print_ℕ, print_ℕ-Lacks_nul}
use remote_file_system.CString.Digits.{length-print_ℕ_le}
use remote_file_system.Protocol.Response.{response_text}

nul_free :
    (n : ℕ) (message : Bytes) → Lacks 0 message → Lacks 0 (print_long (pos n) ++ b',' ∷ message)
unfolding print_long
nul_free n message h =
    All-append (λ c. c ≢ 0) (print_ℕ n) (b',' ∷ message) (print_ℕ-Lacks_nul n) (omega arith, h)

-- The text of a response has no NUL if its message has none.
pub response_text-Lacks_nul :
    (status : Bool) (n : ℕ) (message : Bytes)
    → Lacks 0 message
    → Lacks 0 (response_text status (pos n) message)
response_text-Lacks_nul true n message h = (omega arith, (omega arith, nul_free n message h))
response_text-Lacks_nul false n message h = (omega arith, (omega arith, nul_free n message h))

fits_behind :
    (n : ℕ) (message : Bytes)
    → n ≤ long_max
    → length message < 1900
    → length (print_long (pos n) ++ b',' ∷ message) < 1998
unfolding print_long
fits_behind n message fits short =
    omega (arith, length-append (print_ℕ n) (b',' ∷ message), length-print_ℕ_le n fits)

-- The text of a response with a short message fits into the client's buffer.
pub length-response_text_lt :
    (status : Bool) (n : ℕ) (message : Bytes)
    → n ≤ long_max
    → length message < 1900
    → length (response_text status (pos n) message) < 2000
length-response_text_lt true n message fits short = omega (arith, fits_behind n message fits short)
length-response_text_lt false n message fits short = omega (arith, fits_behind n message fits short)
