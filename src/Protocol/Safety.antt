-- ===== src/Protocol/Safety.antt =====
-- What the two parsers do with an arbitrary text from the network.
use remote_file_system.Protocol.RoundTrip.{more_tokens}
use remote_file_system.Prelude.{
  Option-cases, inl, inr, ◌≡◌, ◌≢◌, refl, Bool, true, false, Option, none, some, List, [], ◌∷◌,
  Bytes, is_empty, Lacks, All, done, arith,
}
use remote_file_system.Prelude.Int.{ℤ, is_negative}
use remote_file_system.CString.Tokens.{tokens, IsToken, tokens-IsToken}
use remote_file_system.Command.{CommandType, write, unknown, str_to_command_type}
use remote_file_system.CString.Decimal.{strtol}
use remote_file_system.Protocol.Request.{
  Request, request_of_tokens, deserialize_request, create_request_from_parts,
}
use remote_file_system.Protocol.Response.{
  Response, response_of_tokens, deserialize_response, create_response,
}
use remote_file_system.Protocol.Response

-- a request that the server acts on
pub record IsRequest (r : Request) : Type 0 where
  pub known : r.command ≢ unknown
  pub path_not_empty : is_empty r.remote_path ≡ false
  pub no_comma : Lacks b',' r.remote_path
  pub length_not_negative : is_negative r.data_len ≡ false

-- a response that the client acts on
pub record IsResponse (r : Response) : Type 0 where
  pub message_not_empty : is_empty r.message ≡ false
  pub no_comma : Lacks b',' r.message
  pub length_not_negative : is_negative r.data_len ≡ false

create-IsRequest :
    (mem : Bool) (t : CommandType) (path : Bytes) (len : ℤ) (r : Request)
    → Lacks b',' path
    → create_request_from_parts mem t (some path) len ≡ some r
    → IsRequest r
unfolding create_request_from_parts
create-IsRequest mem write (c ∷ p) len r h e = ground arith
create-IsRequest mem _ path len r h e = ground arith

-- three tokens or more decide the request, and fewer are refused
of_three :
    (mem : Bool) (a b c : Bytes) (rest : List Bytes)
    → request_of_tokens mem (a ∷ b ∷ c ∷ rest)
      ≡ done (create_request_from_parts mem (str_to_command_type (some a)) (some c) (strtol b))
unfolding request_of_tokens
of_three mem a b c [] = refl
of_three mem a b c (d ∷ rest) = refl

tokens-IsRequest :
    (mem : Bool) (ts : List Bytes) (r : Request)
    → All (IsToken b',') ts
    → request_of_tokens mem ts ≡ done (some r)
    → IsRequest r
tokens-IsRequest mem [] r h e = unfold request_of_tokens in cc
tokens-IsRequest mem (a ∷ []) r h e = unfold request_of_tokens in cc
tokens-IsRequest mem (a ∷ b ∷ []) r h e = unfold request_of_tokens in cc
tokens-IsRequest mem (a ∷ b ∷ c ∷ rest) r (_, (_, ((ne, lacks), _))) e =
    create-IsRequest mem (str_to_command_type (some a)) c (strtol b) r lacks
      (cc (of_three mem a b c rest))

-- Whatever text arrives, a request that is accepted has a known command, a path that is not empty and
-- has no comma, and a length that is not negative.
pub deserialize_request-IsRequest :
    (mem : Bool) (buffer : Bytes) (r : Request)
    → deserialize_request mem (some buffer) ≡ done (some r)
    → IsRequest r
unfolding deserialize_request
deserialize_request-IsRequest true buffer r e =
    tokens-IsRequest true (tokens b',' buffer) r (tokens-IsToken b',' buffer) e
deserialize_request-IsRequest false buffer r e = cc e

tokens-defined :
    (mem : Bool) (ts : List Bytes) → (o : Option Request) × (request_of_tokens mem ts ≡ done o)
tokens-defined mem [] = (none, unfold request_of_tokens in refl)
tokens-defined mem (a ∷ []) = (none, unfold request_of_tokens in refl)
tokens-defined mem (a ∷ b ∷ []) = (none, unfold request_of_tokens in refl)
tokens-defined mem (a ∷ b ∷ c ∷ rest) = (_, of_three mem a b c rest)

-- With memory, whatever text arrives, the parser of requests returns: it reads no variable that was not
-- assigned.
pub deserialize_request-defined :
    (buffer : Option Bytes) → (o : Option Request) × (deserialize_request true buffer ≡ done o)
unfolding deserialize_request
deserialize_request-defined none = (none, refl)
deserialize_request-defined (some buffer) = tokens-defined true (tokens b',' buffer)

module _ (mem : Bool) (a : Bytes) (ts : List Bytes) where
  bad_status : Response.read_status a ≡ none → response_of_tokens mem (a ∷ ts) ≡ done none
  unfolding response_of_tokens Response.finish_response Response.read_tokens
  bad_status h = ground arith

module _ (mem : Bool) (a b c : Bytes) (rest : List Bytes) where
  good_status :
      (s : Bool)
      → Response.read_status a ≡ some s
      → response_of_tokens mem (a ∷ b ∷ c ∷ rest) ≡ done (create_response mem s (some c) (strtol b))
  unfolding response_of_tokens Response.finish_response Response.read_tokens
  good_status s h = ground (
    arith,
    more_tokens 0 rest (record { success = some s; message = some c; data_len = some (strtol b) }),
  )

one_token :
    (mem : Bool) (a : Bytes) (s : Bool)
    → Response.read_status a ≡ some s
    → response_of_tokens mem (a ∷ []) ≡ done none
unfolding response_of_tokens Response.finish_response Response.read_tokens
one_token mem a s h = ground arith

two_tokens :
    (mem : Bool) (a b : Bytes) (s : Bool)
    → Response.read_status a ≡ some s
    → response_of_tokens mem (a ∷ b ∷ []) ≡ done none
unfolding response_of_tokens Response.finish_response Response.read_tokens
two_tokens mem a b s h = ground arith

-- with fewer than three tokens the response is refused
with_status :
    (mem : Bool) (a : Bytes) (ts : List Bytes) (s : Bool)
    → Response.read_status a ≡ some s
    → (o : Option Response) × (response_of_tokens mem (a ∷ ts) ≡ done o)
with_status mem a [] s h = (none, one_token mem a s h)
with_status mem a (b ∷ []) s h = (none, two_tokens mem a b s h)
with_status mem a (b ∷ c ∷ rest) s h = (_, good_status mem a b c rest s h)

create-IsResponse :
    (mem status : Bool) (message : Bytes) (len : ℤ) (r : Response)
    → IsToken b',' message
    → create_response mem status (some message) len ≡ some r
    → IsResponse r
unfolding create_response
create-IsResponse mem status (c ∷ m) len r h e = ground arith
create-IsResponse mem status [] len r h e = cc

with_status-IsResponse :
    (mem : Bool) (a : Bytes) (ts : List Bytes) (s : Bool)
    → Response.read_status a ≡ some s
    → (r : Response) → All (IsToken b',') (a ∷ ts)
    → response_of_tokens mem (a ∷ ts) ≡ done (some r)
    → IsResponse r
with_status-IsResponse mem a [] s h r t e = cc (one_token mem a s h)
with_status-IsResponse mem a (b ∷ []) s h r t e = cc (two_tokens mem a b s h)
with_status-IsResponse mem a (b ∷ c ∷ rest) s h r (_, (_, (token, _))) e =
    create-IsResponse mem s c (strtol b) r token (cc (good_status mem a b c rest s h))

response-defined :
    (mem : Bool) (ts : List Bytes) → (o : Option Response) × (response_of_tokens mem ts ≡ done o)
response-defined mem [] =
    (none, unfold response_of_tokens Response.finish_response Response.read_tokens in refl)
response-defined mem (a ∷ ts) = elim (Option-cases (Response.read_status a)) [
  | inl h ↦ (none, bad_status mem a ts h)
  | inr (s, h) ↦ with_status mem a ts s h
]

-- With memory, whatever text arrives, the parser of responses returns: it reads no variable that was not
-- assigned.
pub deserialize_response-defined :
    (buffer : Option Bytes) → (o : Option Response) × (deserialize_response true buffer ≡ done o)
unfolding deserialize_response
deserialize_response-defined none = (none, refl)
deserialize_response-defined (some buffer) = response-defined true (tokens b',' buffer)

tokens-IsResponse :
    (mem : Bool) (ts : List Bytes) (r : Response)
    → All (IsToken b',') ts
    → response_of_tokens mem ts ≡ done (some r)
    → IsResponse r
tokens-IsResponse mem [] r h e =
    unfold response_of_tokens Response.finish_response Response.read_tokens in cc
tokens-IsResponse mem (a ∷ ts) r h e = elim (Option-cases (Response.read_status a)) [
  | inl bad ↦ cc (bad_status mem a ts bad)
  | inr (s, good) ↦ with_status-IsResponse mem a ts s good r h e
]

-- Whatever text arrives, a response that is accepted has a message that is not empty and has no comma,
-- and a length that is not negative.
pub deserialize_response-IsResponse :
    (mem : Bool) (buffer : Bytes) (r : Response)
    → deserialize_response mem (some buffer) ≡ done (some r)
    → IsResponse r
unfolding deserialize_response
deserialize_response-IsResponse true buffer r e =
    tokens-IsResponse true (tokens b',' buffer) r (tokens-IsToken b',' buffer) e
deserialize_response-IsResponse false buffer r e = cc e
