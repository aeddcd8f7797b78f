-- ===== src/Client.antt =====
-- client/client.c: the client, from its command line to the closed socket.
pub mod Session
pub mod Receiving
pub mod Answers
pub mod Main
use remote_file_system.Prelude.{
  ℕ, Bool, true, false, not, List, ◌||◌, ◌++◌, Option, none, some, [], Bytes, codes, is_empty, ltb,
  ◌==◌, if◌then◌else◌, Run, done, undefined, running,
}
use remote_file_system.Prelude.Int.{ℤ, pos, negsuc}
use remote_file_system.ArgParser.{arg_parser}
use remote_file_system.Config.{max_buff_size}
use remote_file_system.CString.{equals, buffer_text}
use remote_file_system.CString.Decimal.{print_long}
use remote_file_system.Command.{
  CommandType, write, get, rm, ls, unknown, Command, Exit, returned, exit_with,
}
use remote_file_system.Protocol.Request.{Request, create_request, serialize_request}
use remote_file_system.Protocol.Response.{Response, deserialize_response}
use remote_file_system.Protocol.Transmit.{with_memory}
use remote_file_system.Utils.Transfer.{send_file_contents, receive_file_contents}
use remote_file_system.World.{World, M, ◌>>=◌, ◌>>◌, pure, lift_run, send, recv, close, print}

-- the exit status -1
abbrev pub failure : {A : Type 0} → Exit A
failure = exit_with 255

-- the contents that follow a WRITE request; `fopen(NULL)` is undefined
abbrev send_local : ℕ → Option Bytes → M Bool
send_local fuel none = λ w. undefined
send_local fuel (some local_path) = send_file_contents fuel local_path

unfoldable pub send_contents : ℕ → Command → M (Exit (Unit {0}))
send_contents fuel command = elim command.c_type [
  | write ↦ send_local fuel command.local_path >>= λ _. pure (returned tt)
  | _ ↦ pure (returned tt)
]

-- the part of `sendRequest` behind the serialization
unfoldable pub send_serialized : ℕ → Command → Option Bytes → M (Exit (Unit {0}))
send_serialized fuel command none = pure failure
send_serialized fuel command (some buffer) = send buffer >>= λ status. elim status [
  | none ↦ close >>= λ _. pure failure
  | some n ↦ send_contents fuel command
]

-- the part behind the construction of the request
unfoldable pub send_created : ℕ → Command → Option Request → M (Exit (Unit {0}))
send_created fuel command none = pure failure
send_created fuel command (some req) = do
  buffer ← with_memory (λ mem. serialize_request mem (some req))
  send_serialized fuel command buffer

unfoldable pub send_request : ℕ → Command → M (Exit (Unit {0}))
send_request fuel command = do
  req ← λ w. lift_run (create_request w.memory w.fs (some command)) w
  send_created fuel command req

-- what `displayServerResponse` prints
unfoldable pub response_report : Response → Bytes
response_report response =
    (if response.status
      then codes "\nSUCCESS\n"
      else if equals (some response.message) (some (codes "NULL"))
          || equals (some response.message) (some (codes ""))
      then codes "\nENCOUNTERED UNKNOWN ERROR(S)\n"
      else codes "\nENCOUNTERED ERROR(S) - " ++ (response.message ++ codes "\n"))
    ++ byte_line response.data_len
  where
    byte_line : ℤ → Bytes
    byte_line n = elim n [
      | pos m ↦ if m == 0 then [] else codes "    BYTES SENT = " ++ print_long (pos m)
      | negsuc m ↦ codes "    BYTES SENT = " ++ print_long (negsuc m)
    ]

unfoldable pub display_server_response : Response → M (Unit {0})
display_server_response response = print (response_report response)

abbrev pub is_positive : ℤ → Bool
is_positive (pos n) = ltb 0 n
is_positive (negsuc n) = false

-- The status of the response is not read. `none` is a NULL path, which is undefined for `fopen`.
unfoldable pub handle_get_response : ℕ → Option Bytes → Response → M (Unit {0})
handle_get_response fuel filepath response =
    if is_positive response.data_len
    then elim filepath [
      | none ↦ λ w. undefined
      | some path ↦ receive_file_contents fuel path response.data_len >>= λ _. pure tt
    ]
    else display_server_response response

-- the switch at the end of `main`
unfoldable pub handle_response : ℕ → Command → Response → M (Unit {0})
handle_response fuel command response = elim command.c_type [
  | write ↦ display_server_response response
  | rm ↦ display_server_response response
  | get ↦ handle_get_response fuel command.local_path response
  | ls ↦ pure tt
  | unknown ↦ pure tt
]

-- the part of `main` behind the response's `recv`
unfoldable pub handle_reply : ℕ → Command → Option Bytes → M (Exit (Unit {0}))
handle_reply fuel command none = close >>= λ _. pure failure
handle_reply fuel command (some received) = do
  buffer ← lift_run (buffer_text max_buff_size received)
  response ← with_memory (λ mem. deserialize_response mem (some buffer))
  elim response [
    | none ↦ close >>= λ _. pure failure
    | some res ↦ handle_response fuel command res >>= λ _. close >>= λ _. pure (returned tt)
  ]

-- `main` from the established connection on
unfoldable pub client_session : ℕ → Command → M (Exit (Unit {0}))
client_session fuel command = do
  sent ← send_request fuel command
  elim sent [
    | exit_with n ↦ pure (exit_with n)
    | returned _ ↦ recv max_buff_size >>= λ received. handle_reply fuel command received
  ]

-- `main` behind `argParser`. What `socket` and, for the address of the server, `connect` answer is given.
unfoldable pub connect_and_run : ℕ → Bool → (Bytes → Bool) → Command → M (Exit (Unit {0}))
connect_and_run fuel socket_made connects command =
    if not socket_made
    then pure failure
    else if connects command.server_ip
    then client_session fuel command
    else (close >>= λ _. pure failure)

-- `main`, given what the parser of the command line returned
unfoldable pub run_parsed : ℕ → Bool → (Bytes → Bool) → Exit (Option Command) → M (Exit (Unit {0}))
run_parsed fuel socket_made connects (exit_with n) = pure (exit_with n)
run_parsed fuel socket_made connects (returned none) = pure failure
run_parsed fuel socket_made connects (returned (some command)) =
    connect_and_run fuel socket_made connects command

-- `main`
unfoldable pub client_main : ℕ → Bool → (Bytes → Bool) → List Bytes → M (Exit (Unit {0}))
client_main fuel socket_made connects argv w =
    (lift_run (arg_parser w.memory argv) >>= λ parsed. run_parsed fuel socket_made connects parsed)
      w
