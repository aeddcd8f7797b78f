-- ===== src/Protocol/Transmit.antt =====
-- `sendResponse` and `buildAndSendResponse` of protocol.c, on the socket of the connection.
use remote_file_system.Prelude.{
  Bool, true, false, Option, none, some, [], ◌∷◌, ◌++◌, Bytes, codes, String, Run, done,
}
use remote_file_system.Prelude.Int.{ℤ}
use remote_file_system.Protocol.Response.{Response, create_response, serialize_response}
use remote_file_system.World.{M, ◌>>=◌, ◌>>◌, pure, lift_run, send}

-- a call that needs memory
abbrev pub with_memory : {A : Type 0} → (Bool → Run A) → M A
with_memory f w = lift_run (f w.memory) w

-- a `char` array that is sent with its NUL
abbrev pub c_array : String → Bytes
c_array s = codes s ++ 0 ∷ []

-- A text is sent by one `send`, whose count is not read. A failure is followed by another `send`.
unfoldable pub send_text : Option Bytes → M Bool
send_text none = do send (c_array "ERROR: unable to serialize response object"); pure false
send_text (some text) = do
  status ← send text
  elim status [
    | some n ↦ pure true
    | none ↦
        send (c_array "ERROR: unable to send serialized response to the client") >>= λ _. pure false
  ]

unfoldable pub send_response : Option Response → M Bool
unfolding send_text
send_response none = do send (c_array "ERROR: tried to send NULL response"); pure false
send_response (some res) = do
  text ← with_memory (λ mem. serialize_response mem (some res))
  send_text text

unfoldable pub build_and_send_response : Bool → ℤ → Option Bytes → M Bool
build_and_send_response status len message = do
  res ← with_memory (λ mem. done (create_response mem status message len))
  send_response res
