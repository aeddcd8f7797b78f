-- ===== src/Protocol/Bounds.antt =====
-- Whether the serializers stay inside the buffers that they allocate.
use remote_file_system.Prelude.{
  ℕ, zero, suc, ◌+◌, ◌≤◌, ◌<◌, ◌≡◌, ◌≢◌, refl, ◌∙◌, Bool, true, false, some, ◌∷◌, ◌++◌, Bytes,
  length, length-append, done, undefined, arith, ◌>>=◌,
}
use remote_file_system.Prelude.Int.{pos}
use remote_file_system.CString.{store_text}
use remote_file_system.CString.Decimal.{print_ℕ, print_long}
use remote_file_system.CString.Digits.{
  pow10, ceil_log10, length_of_power, pow10_pos, length-le_ceil_log10,
}
use remote_file_system.Command.{CommandType, write, get, rm, ls, unknown}
use remote_file_system.Command.Names.{name_of}
use remote_file_system.Protocol.Request.{request, request_text, num_digits, serialize_request}
use remote_file_system.Protocol.Response.{response, response_text, print_bool, serialize_response}

-- the digits that the serializer makes room for
abbrev estimate : ℕ → ℕ
estimate zero = 1
estimate (suc n) = ceil_log10 (suc n)

num_digits-estimate : (n : ℕ) → num_digits (pos n) ≡ done (estimate n)
unfolding num_digits
num_digits-estimate zero = refl
num_digits-estimate (suc n) = ground arith

length-print_long : (n : ℕ) → length (print_long (pos n)) ≡ length (print_ℕ n)
unfolding print_long
length-print_long n = refl

zero_digits : length (print_ℕ 0) ≡ 1
unfolding print_ℕ
zero_digits = refl

enough : (n : ℕ) → ((k : ℕ) → n ≢ pow10 k) → length (print_long (pos n)) ≤ estimate n
enough zero h = omega (arith, length-print_long 0, zero_digits)
enough (suc n) h =
    omega (arith, length-print_long (suc n), length-le_ceil_log10 (suc n) (omega arith) (h _))

estimate_of_pos : (n : ℕ) → 0 < n → estimate n ≡ ceil_log10 n
estimate_of_pos zero h = elim h [ ]
estimate_of_pos (suc n) h = refl

too_few : (k : ℕ) → length (print_long (pos (pow10 k))) ≡ suc (estimate (pow10 k))
too_few k =
    omega (
      arith,
      length-print_long (pow10 k),
      length_of_power k,
      estimate_of_pos (pow10 k) (pow10_pos k),
    )

length-request_text :
    (name path : Bytes) (n : ℕ)
    → length (request_text name (pos n) path)
      ≡ length name + length (print_long (pos n)) + length path + 2
length-request_text name path n = omega (
  arith,
  length-append name (b',' ∷ (print_long (pos n) ++ b',' ∷ path)),
  length-append (print_long (pos n)) (b',' ∷ path),
)

-- the size that `serializeRequest` allocates
abbrev request_size : CommandType → Bytes → ℕ → ℕ
request_size t path n = length (name_of t) + length path + estimate n + 3

serialize-store :
    (t : CommandType) (path : Bytes) (n : ℕ)
    → t ≢ unknown
    → serialize_request true (some (request t path (pos n))) ≡ (
        store_text (request_size t path n) (request_text (name_of t) (pos n) path) >>= λ text.
        done (some text))
unfolding serialize_request
serialize-store write path n known = rw (num_digits-estimate n)
serialize-store get path n known = rw (num_digits-estimate n)
serialize-store rm path n known = rw (num_digits-estimate n)
serialize-store ls path n known = rw (num_digits-estimate n)
serialize-store unknown path n known = absurd (known refl)

store-fits : (size : ℕ) (text : Bytes) → length text < size → store_text size text ≡ done text
unfolding store_text
store-fits size text h = ground arith

store-overflow : (size : ℕ) (text : Bytes) → size ≤ length text → store_text size text ≡ undefined
unfolding store_text
store-overflow size text h = ground arith

-- A request with a known command and a length that is no power of ten is written with its NUL inside
-- the buffer that `serializeRequest` allocates.
pub serialize_request-fits :
    (t : CommandType) (path : Bytes) (n : ℕ)
    → t ≢ unknown
    → ((k : ℕ) → n ≢ pow10 k)
    → serialize_request true (some (request t path (pos n)))
      ≡ done (some (request_text (name_of t) (pos n) path))
serialize_request-fits t path n known not_power =
    serialize-store t path n known
    ∙ rw
        (store-fits (request_size t path n) (request_text (name_of t) (pos n) path)
          (omega (arith, length-request_text (name_of t) path n, enough n not_power)))
        refl

-- Where the length of a request with a known command is a power of ten, `serializeRequest` writes the
-- NUL behind the end of its buffer.
pub serialize_request-overflow :
    (t : CommandType) (path : Bytes) (k : ℕ)
    → t ≢ unknown
    → serialize_request true (some (request t path (pos (pow10 k)))) ≡ undefined
serialize_request-overflow t path k known =
    serialize-store t path (pow10 k) known
    ∙ rw
        (store-overflow (request_size t path (pow10 k))
          (request_text (name_of t) (pos (pow10 k)) path)
          (omega (arith, length-request_text (name_of t) path (pow10 k), too_few k)))
        refl

length-print_bool : (b : Bool) → length (print_bool b) ≡ 1
length-print_bool true = refl
length-print_bool false = refl

length-response_text :
    (status : Bool) (message : Bytes) (n : ℕ)
    → length (response_text status (pos n) message)
      ≡ length message + length (print_long (pos n)) + 3
length-response_text status message n = omega (
  arith,
  length-print_bool status,
  length-append (print_bool status) (b',' ∷ (print_long (pos n) ++ b',' ∷ message)),
  length-append (print_long (pos n)) (b',' ∷ message),
)

serialize_response-store :
    (status : Bool) (message : Bytes) (n : ℕ)
    → serialize_response true (some (response status message (pos n))) ≡ (
        store_text (length message + estimate n + 4) (response_text status (pos n) message)
        >>= λ text. done (some text))
unfolding serialize_response
serialize_response-store status message n = rw (num_digits-estimate n)

-- A response with a length that is no power of ten is written with its NUL inside the buffer that
-- `serializeResponse` allocates.
pub serialize_response-fits :
    (status : Bool) (message : Bytes) (n : ℕ)
    → ((k : ℕ) → n ≢ pow10 k)
    → serialize_response true (some (response status message (pos n)))
      ≡ done (some (response_text status (pos n) message))
serialize_response-fits status message n not_power =
    serialize_response-store status message n
    ∙ rw
        (store-fits (length message + estimate n + 4) (response_text status (pos n) message)
          (omega (arith, length-response_text status message n, enough n not_power)))
        refl

-- Where the length of a response is a power of ten, `serializeResponse` writes the NUL behind the end
-- of its buffer.
pub serialize_response-overflow :
    (status : Bool) (message : Bytes) (k : ℕ)
    → serialize_response true (some (response status message (pos (pow10 k)))) ≡ undefined
serialize_response-overflow status message k =
    serialize_response-store status message (pow10 k)
    ∙ rw
        (store-overflow (length message + estimate (pow10 k) + 4)
          (response_text status (pos (pow10 k)) message)
          (omega (arith, length-response_text status message (pow10 k), too_few k)))
        refl
