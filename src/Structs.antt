-- ===== src/Structs.antt =====
-- The memory behind the three structs of protocol.c and command.c: a struct is a block that holds the
-- addresses of its texts, and the functions that make a struct are read once more, now with every
-- `malloc`, `strdup` and `free`.
pub mod Blocks
pub mod Responses
pub mod Requests
pub mod Commands
use mathlib.Core.Option
use remote_file_system.Prelude.{
  ℕ, ◌||◌, Bool, true, false, Option, none, some, Bytes, is_empty, ◌==◌, if◌then◌else◌, Run, done,
  undefined, ◌>>=◌,
}
use remote_file_system.Prelude.Int.{ℤ, pos, is_negative}
use remote_file_system.Command.{CommandType, write, get, rm, ls, unknown, Exit, returned, exit_with}
use remote_file_system.LockList.{Ptr, null}
use remote_file_system.Protocol.Request.{Request, request, is_refused}
use remote_file_system.Protocol.Response.{Response, response, message_text}

-- A field that was not assigned yet is `none`.
pub data Block : Type 0 where
  text_block : Bytes → Block
  request_block : CommandType → (remote_path : Ptr) → (data_len : Option ℤ) → Block
  response_block : (status : Option Bool) → (message : Ptr) → (data_len : Option ℤ) → Block
  command_block : CommandType → (server_ip local_path remote_path : Ptr) → Block

abbrev pub Memory : Type 0
Memory = Ptr → Option Block

unfoldable pub put_block : Ptr → Option Block → Memory → Memory
put_block p b m q = if q == p then b else m q

-- `free(NULL)` does nothing; an address without a block is undefined behaviour.
unfoldable pub free : Ptr → Memory → Run Memory
free p m =
    if p == null
    then done m
    else elim (m p) [ none ↦ undefined | some b ↦ done (put_block p none m) ]

-- `strdup`, where `p` is what `malloc` returns for the copy
unfoldable pub strdup : Ptr → Bytes → Memory → Memory
strdup p s m = if p == null then m else put_block p (some (text_block s)) m

-- `p->…`
unfoldable pub load_block : Ptr → Memory → Run Block
load_block p m = if p == null then undefined else elim (m p) [ none ↦ undefined | some b ↦ done b ]

-- the text of a request or of a response, then the struct
unfoldable pub free_both : Ptr → Ptr → Memory → Run Memory
free_both text p m = free text m >>= λ m'. free p m'

unfoldable pub free_request : Ptr → Memory → Run Memory
free_request req m =
    if req == null
    then done m
    else (load_block req m >>= λ b. elim b [
      | request_block c remote_path n ↦ free_both remote_path req m
      | _ ↦ undefined
    ])

unfoldable pub free_response : Ptr → Memory → Run Memory
free_response res m =
    if res == null
    then done m
    else (load_block res m >>= λ b. elim b [
      | response_block s message n ↦ free_both message res m
      | _ ↦ undefined
    ])

-- Of a command the three texts are freed, and the struct is not.
unfoldable pub free_command_struct : Ptr → Memory → Run Memory
free_command_struct cmd m =
    if cmd == null
    then done m
    else (load_block cmd m >>= λ b. elim b [
      | command_block c server_ip local_path remote_path ↦
          free server_ip m >>= λ m1. free local_path m1 >>= λ m2. free remote_path m2
      | _ ↦ undefined
    ])

-- `createResponse`, where `malloc` returns `res` for the struct and `copy` for the message
unfoldable pub allocate_response :
    (res copy : Ptr) → Bool → Option Bytes → ℤ → Memory → Run (Ptr × Memory)
allocate_response res copy success message size m =
    if res == null
    then done (null, m)
    else let m1 =
        put_block res (some (response_block none copy none))
          (strdup copy (message_text message) m) in
      if is_negative size
      then (free_response res m1 >>= λ m2. done (null, m2))
      else done (res, put_block res (some (response_block (some success) copy (some size))) m1)

-- the length in a new request: that of the local file for a WRITE
abbrev pub request_length : CommandType → ℤ → ℤ
request_length write file_size = file_size
request_length get file_size = pos 0
request_length rm file_size = pos 0
request_length ls file_size = pos 0
request_length unknown file_size = pos 0

-- `createRequest` of a command with both paths; `file_size` is what `getFileSize` reports.
unfoldable pub allocate_request :
    (req copy : Ptr) → CommandType → Bytes → (file_size : ℤ) → Memory → Run (Ptr × Memory)
allocate_request req copy type path file_size m =
    if is_refused type
    then done (null, m)
    else if req == null
    then done (null, m)
    else let m1 = put_block req (some (request_block type copy none)) (strdup copy path m) in
      if is_negative (request_length type file_size)
      then (free_request req m1 >>= λ m2. done (null, m2))
      else done (
        req,
        put_block req (some (request_block type copy (some (request_length type file_size)))) m1,
      )

-- `createCommandStruct` of a server's address that is not NULL. `local_path` and `remote_path` are what
-- `formatPath` writes, at the addresses `local` and `remote` that `malloc` returns there.
unfoldable pub allocate_command :
    (cmd ip local remote : Ptr)
    → CommandType
    → (ip_address local_path remote_path : Bytes) → Memory
    → Exit (Ptr × Memory)
allocate_command cmd ip local remote type ip_address local_path remote_path m =
    if cmd == null
    then exit_with 1
    else returned (
      cmd,
      put_block cmd (some (command_block type ip local remote))
          (strdup remote remote_path (strdup local local_path (strdup ip ip_address m))),
    )

-- What a pointer to a struct stands for: nothing, where the struct or its text is missing.
unfoldable pub text_at : Ptr → Memory → Option Bytes
text_at p m = if p == null then none else elim (m p) [ some (text_block s) ↦ some s | _ ↦ none ]

unfoldable pub response_at : Ptr → Memory → Option Response
response_at p m = if p == null then none else elim (m p) [
  | some (response_block (some status) message (some data_len)) ↦
      Option.map (λ s. response status s data_len) (text_at message m)
  | _ ↦ none
]

unfoldable pub request_at : Ptr → Memory → Option Request
request_at p m = if p == null then none else elim (m p) [
  | some (request_block c remote_path (some data_len)) ↦
      Option.map (λ s. request c s data_len) (text_at remote_path m)
  | _ ↦ none
]
