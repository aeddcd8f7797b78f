-- ===== src/Client/Session.antt =====
-- `sendRequest` of the client: what a WRITE puts on the wire.
use remote_file_system.Prelude.{
  ℕ, ◌≡◌, ◌≢◌, ◌<◌, ap, ◌∙◌, true, some, List, [], ◌++◌, Bytes, append_assoc, length, Run, done,
  arith,
}
use remote_file_system.Prelude.Int.{pos}
use remote_file_system.CString.Digits.{pow10, zero_no_power}
use remote_file_system.Client.{
  send_contents, send_serialized, send_created, send_request, handle_reply, client_session,
}
use remote_file_system.Command.{CommandType, Command, Exit, returned, write, unknown}
use remote_file_system.Command.Names.{name_of}
use remote_file_system.FileSystem.{left, open_read, end_position}
use remote_file_system.Protocol.Bounds.{serialize_request-fits}
use remote_file_system.Protocol.Request.{
  Request, request, request_text, create_request, serialize_request,
}
use remote_file_system.Socket
use remote_file_system.Socket.{Socket, Accept}
use remote_file_system.World.{World, with_socket, send, recv}
use remote_file_system.Utils.Transfer.{get_file_size, send_file_contents}
use remote_file_system.Utils.Transfer.Sending.{after_sending, send_file_contents-sends}

-- a command of the client, with both its paths
abbrev pub command_for : CommandType → Bytes → Bytes → Bytes → Command
command_for c ip local remote = record {
  c_type = c;
  server_ip = ip;
  local_path = some local;
  remote_path = some remote;
}

abbrev pub write_command : Bytes → Bytes → Bytes → Command
write_command = command_for write

module _ (ip local remote b : Bytes) (w : World) where
  measured : open_read w.fs local ≡ some (left b) → get_file_size w.fs local ≡ pos (length b)
  unfolding get_file_size end_position
  measured e = ground (arith, e)

  created :
      open_read w.fs local ≡ some (left b)
      → w.memory ≡ true
      → create_request w.memory w.fs (some (write_command ip local remote))
        ≡ done (some (request write remote (pos (length b))))
  unfolding create_request
  created e memory = ground (arith, memory, measured e)

module _ (fuel : ℕ) (ip local remote b text : Bytes) (w w1 w2 : World) (req : Request) (k : ℕ) where
  sent_whole :
      create_request w.memory w.fs (some (write_command ip local remote)) ≡ done (some req)
      → serialize_request w.memory (some req) ≡ done (some text)
      → send text w ≡ done (some k, w1)
      → send_file_contents fuel local w1 ≡ done (true, w2)
      → send_request fuel (write_command ip local remote) w ≡ done (returned tt, w2)
  unfolding send_request send_created send_serialized send_contents
  sent_whole c s r f = ground (arith, c, s, r, f)

pub sends_all :
    (text : Bytes) (w : World)
    → w.socket.accepts ≡ []
    → send text w ≡ done (some (length text), after_sending w text [])
unfolding send Socket.send
sends_all text w e = ground (arith, e)

-- `sendRequest` of a WRITE whose local file holds `b`, with memory, a length that is no power of ten,
-- more fuel than bytes and a network that takes all it is given: it returns, and what is sent is the
-- text of the request with the length of the file, the bytes of the file right behind it, and nothing else.
pub send_request-write :
    (fuel : ℕ) (ip local remote b : Bytes) (w : World)
    → open_read w.fs local ≡ some (left b)
    → ((k : ℕ) → length b ≢ pow10 k)
    → length b < fuel
    → w.memory ≡ true
    → w.socket.accepts ≡ []
    → (rest : List Accept) × (send_request fuel (write_command ip local remote) w
        ≡ done (
          returned tt,
          after_sending w (request_text (name_of write) (pos (length b)) remote ++ b) rest,
        ))
send_request-write fuel ip local remote b w e no_power enough memory takes =
    let text = request_text (name_of write) (pos (length b)) remote in
    let (rest, sent, _) =
      send_file_contents-sends fuel local b (after_sending w text []) e tt enough in
    (
      rest,
      sent_whole fuel ip local remote b text w (after_sending w text [])
            (after_sending (after_sending w text []) b rest) (request write remote (pos (length b)))
            (length text) (created ip local remote b w e memory)
            (rw memory (serialize_request-fits write remote (length b) (λ u. cc u) no_power))
            (sends_all text w takes) sent
          ∙ ap
              (λ t.
                done
                  (returned tt, record w { socket = record w.socket { sent = t; accepts = rest } }))
              (append_assoc w.socket.sent text b),
    )

module _ (c : CommandType) (ip local remote : Bytes) (w : World) where
  created_plain :
      c ≢ write
      → c ≢ unknown
      → w.memory ≡ true
      → create_request w.memory w.fs (some (command_for c ip local remote))
        ≡ done (some (request c remote (pos 0)))
  unfolding create_request
  created_plain other known memory = ground (arith, memory, other, known)

  requested :
      (fuel : ℕ) (text : Bytes) (k : ℕ) (w1 : World)
      → c ≢ write
      → create_request w.memory w.fs (some (command_for c ip local remote))
        ≡ done (some (request c remote (pos 0)))
      → serialize_request w.memory (some (request c remote (pos 0))) ≡ done (some text)
      → send text w ≡ done (some k, w1)
      → send_request fuel (command_for c ip local remote) w ≡ done (returned tt, w1)
  unfolding send_request send_created send_serialized send_contents
  requested fuel text k w1 other e s r = ground (arith, e, s, r, other)

  -- `sendRequest` of another command sends the text of the request and nothing else.
  pub send_request-plain :
      (fuel : ℕ)
      → c ≢ write
      → c ≢ unknown
      → w.memory ≡ true
      → w.socket.accepts ≡ []
      → send_request fuel (command_for c ip local remote) w
        ≡ done (returned tt, after_sending w (request_text (name_of c) (pos 0) remote) [])
  send_request-plain fuel other known memory takes =
      let text = request_text (name_of c) (pos 0) remote in
      requested fuel text (length text) (after_sending w text []) other
        (created_plain other known memory)
        (rw memory (serialize_request-fits c remote 0 known zero_no_power)) (sends_all text w takes)

-- `main` of the client where its request is sent and the response arrives
pub client_session_lem :
    (fuel : ℕ) (command : Command) (w w1 : World) (b : Bytes) (s : Socket)
    (result : Run (Exit (Unit {0}) × World))
    → send_request fuel command w ≡ done (returned tt, w1)
    → Socket.recv 2000 w1.socket ≡ (some b, s)
    → handle_reply fuel command (some b) (with_socket w1 s) ≡ result
    → client_session fuel command w ≡ result
unfolding client_session recv
client_session_lem fuel command w w1 b s result q r h = ground (arith, q, r, h)
