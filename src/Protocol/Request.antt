-- ===== src/Protocol/Request.antt =====
-- The request half of protocol.c. A pointer that may be NULL is an `Option`; `mem` says whether
-- `malloc` has memory to give.
use remote_file_system.Prelude.{
  ℕ, suc, ◌+◌, Bool, ◌||◌, Option, none, some, List, [], ◌∷◌, ◌++◌, Bytes, length, get_elem?,
  is_empty, ltb, leb, ◌==◌, if◌then◌else◌, Run, done, undefined, ◌>>=◌,
}
use remote_file_system.Prelude.Int.{ℤ, pos, negsuc, is_negative}
use remote_file_system.CString.{store_text}
use remote_file_system.CString.Tokens.{tokens}
use remote_file_system.CString.Decimal.{print_long, strtol}
use remote_file_system.CString.Digits.{ceil_log10}
use remote_file_system.FileSystem.{FileSystem}
use remote_file_system.Utils.Transfer.{get_file_size}
use remote_file_system.Command.{
  CommandType, write, Command, enum_value, is_unknown, command_strings, num_commands,
  str_to_command_type,
}

pub record Request : Type 0 where
  pub command : CommandType
  pub remote_path : Bytes
  pub data_len : ℤ

abbrev pub request : CommandType → Bytes → ℤ → Request
request type path len = record { command = type; remote_path = path; data_len = len }

-- the two tests of the command type
abbrev pub is_refused : CommandType → Bool
is_refused type = is_unknown type || ltb num_commands (enum_value type)

-- the length that a WRITE announces; `fopen(NULL)` is undefined
write_length : FileSystem → Option Bytes → Run ℤ
write_length fs none = undefined
write_length fs (some local_path) = done (get_file_size fs local_path)

-- the struct for a WRITE, unless the file could not be measured
write_request : Bytes → ℤ → Option Request
write_request path data_len =
    if is_negative data_len then none else some (request write path data_len)

-- A NULL remote path is handed to `strdup`, and that is undefined.
new_request : FileSystem → Command → Run (Option Request)
unfolding write_length write_request
new_request fs command = elim command.remote_path [
  | none ↦ undefined
  | some path ↦ elim command.c_type [
    | write ↦ write_length fs command.local_path >>= λ data_len. done (write_request path data_len)
    | _ ↦ done (some (request command.c_type path (pos 0)))
  ]
]

unfoldable pub create_request : Bool → FileSystem → Option Command → Run (Option Request)
unfolding new_request
create_request mem fs none = done none
create_request mem fs (some command) =
    if is_refused command.c_type
    then done none
    else if mem
    then new_request fs command
    else done none

unfoldable pub create_request_from_parts : Bool → CommandType → Option Bytes → ℤ → Option Request
create_request_from_parts mem type path data_length = if is_refused type then none else elim path [
  | none ↦ none
  | some p ↦
      if is_empty p || is_negative data_length
      then none
      else if mem
      then some (request type p data_length)
      else none
]

-- The digits that the serializers make room for, as a `double` gives them for lengths below 10 ^ 14 and for
-- powers of ten. The logarithm of a negative number is no `int`.
unfoldable pub num_digits : ℤ → Run ℕ
num_digits (pos n) = if n == 0 then done 1 else done (ceil_log10 n)
num_digits (negsuc n) = undefined

-- `sprintf` with "%s,%ld,%s"
abbrev pub request_text : Bytes → ℤ → Bytes → Bytes
request_text name data_len path = name ++ b',' ∷ (print_long data_len ++ b',' ∷ path)

-- `COMMAND_STRINGS` is read past its end at UNKNOWN. The `int len` is exact for texts shorter than 2 ^ 31.
unfoldable pub serialize_request : Bool → Option Request → Run (Option Bytes)
serialize_request mem none = done none
serialize_request mem (some req) = elim (get_elem? command_strings (enum_value req.command)) [
  | none ↦ undefined
  | some name ↦ num_digits req.data_len >>= λ digits.
      let len = length name + length req.remote_path + digits + 3 in
      if mem
      then (store_text len (request_text name req.data_len req.remote_path) >>= λ text.
          done (some text))
      else done none
]

-- the local variables of `deSerializeRequest`, `none` before they are assigned
pub record RequestParts : Type 0 where
  pub type : Option CommandType
  pub path : Option Bytes
  pub data_len : Option ℤ

-- what the loop does with token number `i`, below 3
store_token : ℕ → Bytes → RequestParts → RequestParts
store_token i token parts =
    if i == 0
    then record parts { type = some (str_to_command_type (some token)) }
    else if i == 1
    then record parts { data_len = some (strtol token) }
    else record parts { path = some token }

-- The loop over the tokens: it breaks at the fourth.
read_tokens : List Bytes → ℕ → RequestParts → ℕ × RequestParts
unfolding store_token
read_tokens [] i parts = (i, parts)
read_tokens (token ∷ rest) i parts =
    let next = read_tokens rest (suc i) (store_token i token parts) in
    if ltb i 3 then next else (i, parts)

-- the call at the end, which reads the three variables
call_create : Bool → RequestParts → Run (Option Request)
call_create mem parts = elim parts.type [
  | none ↦ undefined
  | some type ↦ elim parts.data_len [
    | none ↦ undefined
    | some data_len ↦ done (create_request_from_parts mem type parts.path data_len)
  ]
]

-- `path` is read only if three tokens were seen.
finish_request : Bool → ℕ × RequestParts → Run (Option Request)
unfolding call_create
finish_request mem (i, parts) =
    if leb 3 i
    then elim parts.path [ none ↦ undefined | some p ↦ call_create mem parts ]
    else done none

-- the function behind its `strtok` calls, given the tokens that they return
unfoldable pub request_of_tokens : Bool → List Bytes → Run (Option Request)
unfolding read_tokens finish_request
request_of_tokens mem ts =
    finish_request mem (read_tokens ts 0 (record { type = none; path = none; data_len = none }))

-- Without memory for the copy of the buffer, `strtok(NULL)` has no text to go on with.
unfoldable pub deserialize_request : Bool → Option Bytes → Run (Option Request)
deserialize_request mem none = done none
deserialize_request mem (some buffer) =
    if mem then request_of_tokens mem (tokens b',' buffer) else undefined
