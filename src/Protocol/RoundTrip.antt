-- ===== src/Protocol/RoundTrip.antt =====
-- What is read back from a serialized request or response.
use remote_file_system.Prelude.{
  ℕ, suc, ◌≤◌, ◌<◌, ◌≡◌, ◌≢◌, ◌>>=◌, ◌+◌, length, bytes_eq, refl, inl, sym, ap, ◌∙◌, Bool, true,
  false, some, List, [], ◌∷◌, ◌++◌, Bytes, codes, is_empty, Lacks, done, arith,
}
use remote_file_system.Prelude.Int.{pos, long_max}
use remote_file_system.CString.Tokens.{tokens, tokens-cons, tokens-one}
use remote_file_system.CString.Decimal.{
  print_ℕ, print_long, strtol, strtol-print_long, print_ℕ-cons, print_ℕ-Lacks-comma,
}
use remote_file_system.Command.{CommandType, write, get, rm, ls, unknown, str_to_command_type}
use remote_file_system.Command.Names.{name_of, str_to_command_type_iff}
use remote_file_system.Protocol.Request.{
  request, request_text, create_request_from_parts, request_of_tokens, deserialize_request,
  serialize_request,
}
use remote_file_system.CString.Digits.{pow10}
use remote_file_system.Protocol.Bounds.{serialize_request-fits, serialize_response-fits}
use remote_file_system.Protocol.Response
use remote_file_system.Protocol.Response.{
  response, ResponseParts, response_text, print_bool, create_response, response_of_tokens,
  deserialize_response, serialize_response,
}
use remote_file_system.CString.{equals}

print_long-pos : (n : ℕ) → print_long (pos n) ≡ print_ℕ n
unfolding print_long
print_long-pos n = refl

-- a number, a comma and the rest
tokens-number :
    (n : ℕ) (rest : Bytes) → tokens b',' (print_ℕ n ++ b',' ∷ rest) ≡ print_ℕ n ∷ tokens b',' rest
tokens-number n rest =
    let (c, s, e) = print_ℕ-cons n in
    rw e (tokens-cons b',' c s rest (rw e at (print_ℕ-Lacks-comma n)))

tokens-name :
    (t : CommandType) (rest : Bytes)
    → t ≢ unknown
    → tokens b',' (name_of t ++ b',' ∷ rest) ≡ name_of t ∷ tokens b',' rest
tokens-name write rest h = tokens-cons b',' b'W' (codes "RITE") rest (omega arith)
tokens-name get rest h = tokens-cons b',' b'G' (codes "ET") rest (omega arith)
tokens-name rm rest h = tokens-cons b',' b'R' (codes "M") rest (omega arith)
tokens-name ls rest h = tokens-cons b',' b'L' (codes "S") rest (omega arith)
tokens-name unknown rest h = absurd (h refl)

tokens-request :
    (t : CommandType) (n : ℕ) (path : Bytes)
    → t ≢ unknown
    → tokens b',' (request_text (name_of t) (pos n) path) ≡ name_of t ∷ print_ℕ n ∷ tokens b',' path
tokens-request t n path h =
    rw (print_long-pos n) (tokens-name t _ h ∙ ap (λ ts. name_of t ∷ ts) (tokens-number n path))

-- Behind the third token nothing is read.
pub request-of-three :
    (a b c : Bytes) (rest : List Bytes)
    → request_of_tokens true (a ∷ b ∷ c ∷ rest)
      ≡ done (create_request_from_parts true (str_to_command_type (some a)) (some c) (strtol b))
unfolding request_of_tokens
request-of-three a b c [] = refl
request-of-three a b c (d ∷ rest) = refl

create-valid :
    (t : CommandType) (path : Bytes) (n : ℕ)
    → t ≢ unknown
    → is_empty path ≡ false
    → create_request_from_parts true t (some path) (pos n) ≡ some (request t path (pos n))
unfolding create_request_from_parts
create-valid t path n h nonempty = ground arith

-- What the server reads of a request that the client wrote: the path only up to its first comma.
pub deserialize-request_text :
    (t : CommandType) (n : ℕ) (path first : Bytes) (rest : List Bytes)
    → t ≢ unknown
    → n ≤ long_max
    → tokens b',' path ≡ first ∷ rest
    → is_empty first ≡ false
    → deserialize_request true (some (request_text (name_of t) (pos n) path))
      ≡ done (some (request t first (pos n)))
unfolding deserialize_request
deserialize-request_text t n path first rest h fits e nonempty =
    ap (request_of_tokens true)
      (tokens-request t n path h ∙ ap (λ ts. name_of t ∷ print_ℕ n ∷ ts) e)
    ∙ request-of-three (name_of t) (print_ℕ n) first rest
    ∙ rw
        (
          (str_to_command_type_iff t (name_of t) h).1 (inl refl),
          ap strtol (sym (print_long-pos n)) ∙ strtol-print_long n fits,
          create-valid t first n h nonempty,
        )
        refl

-- A path without a comma is read back as it is.
pub deserialize-request :
    (t : CommandType) (n : ℕ) (path : Bytes)
    → t ≢ unknown
    → n ≤ long_max
    → is_empty path ≡ false
    → Lacks b',' path
    → deserialize_request true (some (request_text (name_of t) (pos n) path))
      ≡ done (some (request t path (pos n)))
deserialize-request t n [] h fits nonempty lacks = cc
deserialize-request t n (c ∷ p) h fits nonempty lacks =
    deserialize-request_text t n (c ∷ p) (c ∷ p) [] h fits (tokens-one b',' c p lacks) refl

print_bool-cons :
    (b : Bool) (rest : Bytes)
    → tokens b',' (print_bool b ++ b',' ∷ rest) ≡ print_bool b ∷ tokens b',' rest
print_bool-cons true rest = tokens-cons b',' b'1' [] rest (omega arith)
print_bool-cons false rest = tokens-cons b',' b'0' [] rest (omega arith)

-- From the fourth token on nothing is kept.
pub more_tokens :
    (n : ℕ) (rest : List Bytes) (parts : ResponseParts)
    → Response.read_tokens rest (suc (suc (suc n))) parts
      ≡ some (suc (suc (suc n)) + length rest, parts)
unfolding Response.read_tokens
more_tokens n [] parts = ap (λ k. some (k, parts)) (omega arith)
more_tokens n (t ∷ rest) parts = ground (arith, more_tokens (suc n) rest parts)

response-of-three :
    (status : Bool) (b c : Bytes) (rest : List Bytes)
    → response_of_tokens true (print_bool status ∷ b ∷ c ∷ rest)
      ≡ done (create_response true status (some c) (strtol b))
unfolding response_of_tokens Response.read_tokens Response.finish_response Response.read_status
    equals bytes_eq
response-of-three true b c rest = rw (more_tokens 0 rest _) (ground arith)
response-of-three false b c rest = rw (more_tokens 0 rest _) (ground arith)

-- What the client reads of a response that the server wrote: the message only up to its first comma.
pub deserialize-response_text :
    (status : Bool) (n : ℕ) (message first : Bytes) (rest : List Bytes)
    → n ≤ long_max
    → tokens b',' message ≡ first ∷ rest
    → is_empty first ≡ false
    → deserialize_response true (some (response_text status (pos n) message))
      ≡ done (some (response status first (pos n)))
unfolding deserialize_response create_response
deserialize-response_text status n message first rest fits e nonempty =
    rw (print_long-pos n, print_bool-cons status, tokens-number n message, e)
      (response-of-three status (print_ℕ n) first rest
        ∙ rw (sym (print_long-pos n), strtol-print_long n fits, nonempty) refl)

-- A message without a comma is read back as it is.
pub deserialize-response :
    (status : Bool) (n : ℕ) (message : Bytes)
    → n ≤ long_max
    → is_empty message ≡ false
    → Lacks b',' message
    → deserialize_response true (some (response_text status (pos n) message))
      ≡ done (some (response status message (pos n)))
deserialize-response status n [] fits nonempty lacks = cc
deserialize-response status n (c ∷ m) fits nonempty lacks =
    deserialize-response_text status n (c ∷ m) (c ∷ m) [] fits (tokens-one b',' c m lacks) refl

-- The lengths for which the logarithm in a `double` gives the digits that `num_digits` says.
abbrev pub exact_below : ℕ
exact_below = 100000000000000

-- The texts that the `int len` of the serializers can count, with room for a number and a name.
abbrev pub text_max : ℕ
text_max = 2147483600

-- A request with a known command, a non-empty path without a comma that is shorter than `text_max`, and a
-- length that is below 10 ^ 14 but no power of ten is serialized inside its buffer and read back as it was.
pub deserialize-serialize_request :
    (t : CommandType) (n : ℕ) (path : Bytes)
    → t ≢ unknown
    → n < exact_below
    → length path < text_max
    → ((k : ℕ) → n ≢ pow10 k)
    → is_empty path ≡ false
    → Lacks b',' path
    → (serialize_request true (some (request t path (pos n))) >>= deserialize_request true)
      ≡ done (some (request t path (pos n)))
deserialize-serialize_request t n path known exact short not_power nonempty lacks =
    rw (serialize_request-fits t path n known not_power)
      (deserialize-request t n path known (omega (arith, exact)) nonempty lacks)

-- A path with commas is cut: with a known command, a path shorter than `text_max` and a length that is below
-- 10 ^ 14 but no power of ten, what comes back has the first of the parts between commas for its path.
deserialize-serialize_request_comma :
    (t : CommandType) (n : ℕ) (path first : Bytes) (rest : List Bytes)
    → t ≢ unknown
    → n < exact_below
    → length path < text_max
    → ((k : ℕ) → n ≢ pow10 k)
    → tokens b',' path ≡ first ∷ rest
    → is_empty first ≡ false
    → (serialize_request true (some (request t path (pos n))) >>= deserialize_request true)
      ≡ done (some (request t first (pos n)))
deserialize-serialize_request_comma t n path first rest known exact short not_power e nonempty =
    rw (serialize_request-fits t path n known not_power)
      (deserialize-request_text t n path first rest known (omega (arith, exact)) e nonempty)

-- A response whose message is not empty, has no comma and is shorter than `text_max`, with a length that is
-- below 10 ^ 14 but no power of ten, is serialized inside its buffer and read back as it was.
pub deserialize-serialize_response :
    (status : Bool) (n : ℕ) (message : Bytes)
    → n < exact_below
    → length message < text_max
    → ((k : ℕ) → n ≢ pow10 k)
    → is_empty message ≡ false
    → Lacks b',' message
    → (serialize_response true (some (response status message (pos n)))
        >>= deserialize_response true)
      ≡ done (some (response status message (pos n)))
deserialize-serialize_response status n message exact short not_power nonempty lacks =
    rw (serialize_response-fits status message n not_power)
      (deserialize-response status n message (omega (arith, exact)) nonempty lacks)
