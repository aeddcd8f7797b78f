-- ===== src/Protocol/Response.antt =====
-- The response half of protocol.c.
use remote_file_system.Prelude.{
  ℕ, suc, ◌+◌, Bool, true, false, Option, none, some, List, [], ◌∷◌, ◌++◌, Bytes, codes, length,
  is_empty, ltb, ◌==◌, if◌then◌else◌, Run, done, undefined, ◌>>=◌,
}
use remote_file_system.Prelude.Int.{ℤ, is_negative}
use remote_file_system.CString.{equals, store_text}
use remote_file_system.CString.Tokens.{tokens}
use remote_file_system.CString.Decimal.{print_long, strtol}
use remote_file_system.Protocol.Request.{num_digits}

pub record Response : Type 0 where
  pub status : Bool
  pub message : Bytes
  pub data_len : ℤ

abbrev pub response : Bool → Bytes → ℤ → Response
response status message data_len = record {
  status = status;
  message = message;
  data_len = data_len;
}

-- A missing or empty message is replaced by the text "NULL".
abbrev pub message_text : Option Bytes → Bytes
message_text none = codes "NULL"
message_text (some message) = if is_empty message then codes "NULL" else message

unfoldable pub create_response : Bool → Bool → Option Bytes → ℤ → Option Response
create_response mem success message size =
    if mem
    then if is_negative size then none else some (response success (message_text message) size)
    else none

-- `%d` of a `bool`
abbrev pub print_bool : Bool → Bytes
print_bool true = codes "1"
print_bool false = codes "0"

-- `sprintf` with "%d,%ld,%s"
abbrev pub response_text : Bool → ℤ → Bytes → Bytes
response_text status data_len message =
    print_bool status ++ b',' ∷ (print_long data_len ++ b',' ∷ message)

unfoldable pub serialize_response : Bool → Option Response → Run (Option Bytes)
serialize_response mem none = done none
serialize_response mem (some res) = num_digits res.data_len >>= λ digits.
    let len = length res.message + digits + 4 in
    if mem
    then (store_text len (response_text res.status res.data_len res.message) >>= λ text.
        done (some text))
    else done none

-- the local variables of `deSerializeResponse`, `none` before they are assigned
pub record ResponseParts : Type 0 where
  pub success : Option Bool
  pub message : Option Bytes
  pub data_len : Option ℤ

-- the test of the first token; `none` where the function returns NULL at once
unfoldable pub read_status : Bytes → Option Bool
read_status token =
    if equals (some token) (some (codes "0"))
    then some false
    else if equals (some token) (some (codes "1"))
    then some true
    else none

-- what the loop does with token number `i`; from the fourth on it only prints a warning
store_token : ℕ → Bytes → ResponseParts → Option ResponseParts
store_token i token parts =
    if i == 0
    then elim (read_status token) [
      | none ↦ none
      | some status ↦ some (record parts { success = some status })
    ]
    else if i == 1
    then some (record parts { data_len = some (strtol token) })
    else if i == 2
    then some (record parts { message = some token })
    else some parts

unfoldable pub read_tokens : List Bytes → ℕ → ResponseParts → Option (ℕ × ResponseParts)
unfolding store_token
read_tokens [] i parts = some (i, parts)
read_tokens (token ∷ rest) i parts = elim (store_token i token parts) [
  | none ↦ none
  | some parts' ↦ read_tokens rest (suc i) parts'
]

-- the call at the end, which reads the three variables
call_create : Bool → ResponseParts → Run (Option Response)
call_create mem parts = elim parts.success [
  | none ↦ undefined
  | some success ↦ elim parts.message [
    | none ↦ undefined
    | some message ↦ elim parts.data_len [
      | none ↦ undefined
      | some data_len ↦ done (create_response mem success (some message) data_len)
    ]
  ]
]

unfoldable pub finish_response : Bool → Option (ℕ × ResponseParts) → Run (Option Response)
unfolding call_create
finish_response mem none = done none
finish_response mem (some (i, parts)) = if ltb i 3 then done none else call_create mem parts

-- the function behind its `strtok` calls, given the tokens that they return
unfoldable pub response_of_tokens : Bool → List Bytes → Run (Option Response)
unfolding read_tokens finish_response
response_of_tokens mem ts =
    finish_response mem
      (read_tokens ts 0 (record { success = none; message = none; data_len = none }))

-- Without memory for the copy of the buffer, `strtok(NULL)` has no text to go on with.
unfoldable pub deserialize_response : Bool → Option Bytes → Run (Option Response)
unfolding read_status
deserialize_response mem none = done none
deserialize_response mem (some buffer) =
    if mem then response_of_tokens mem (tokens b',' buffer) else undefined
