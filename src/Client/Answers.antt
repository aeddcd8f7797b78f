-- ===== src/Client/Answers.antt =====
-- `main` of the client from the connection on: a WRITE and an RM, from the request to the report of the
-- server's answer.
use remote_file_system.Prelude.{
  ℕ, ◌≡◌, ◌≢◌, ◌<◌, ◌≤◌, refl, Bool, true, false, some, List, [], ◌∷◌, ◌++◌, Bytes, Lacks, length,
  is_empty, done, arith,
}
use remote_file_system.Prelude.Int.{pos, long_max}
use remote_file_system.CString.{buffer_text}
use remote_file_system.CString.Digits.{pow10}
use remote_file_system.Client.{
  send_request, response_report, display_server_response, handle_response, handle_reply,
  client_session,
}
use remote_file_system.Client.Session.{
  command_for, write_command, send_request-write, send_request-plain, client_session_lem,
}
use remote_file_system.Command.{CommandType, write, rm, returned}
use remote_file_system.Command.Names.{name_of}
use remote_file_system.FileSystem.{left, open_read}
use remote_file_system.Protocol.Arrival.{buffer_text_lem, whole_block}
use remote_file_system.Protocol.Request.{request_text}
use remote_file_system.Protocol.Response.{response, response_text, deserialize_response}
use remote_file_system.Protocol.Readable.{response_text-Lacks_nul, length-response_text_lt}
use remote_file_system.Protocol.RoundTrip.{deserialize-response}
use remote_file_system.Socket.{Arrival, bytes}
use remote_file_system.World.{World, with_socket, close}
use remote_file_system.Utils.Transfer.Sending.{after_sending}

-- the end of the client, once it has printed a report
abbrev pub reported : Bytes → World → World
reported text w = record w {
  socket = record w.socket { closed = true };
  printed = w.printed ++ text;
}

-- A response arrives as one block that the client can read: its length is a `long`, and its message fits
-- into the buffer, is not empty, and has no comma and no NUL. `rest` arrives behind it.
pub record Answers (arrivals : List Arrival) (status : Bool) (n : ℕ) (message : Bytes)
    (rest : List Arrival) : Type 0 where
  pub fits : n ≤ long_max
  pub told : is_empty message ≡ false
  pub no_comma : Lacks b',' message
  pub no_nul : Lacks 0 message
  pub short : length message < 1900
  pub first : arrivals ≡ bytes (response_text status (pos n) message) ∷ rest

-- the commands that only report the answer
abbrev pub only_reports : CommandType → Bool
only_reports write = true
only_reports rm = true
only_reports _ = false

module _ (fuel : ℕ) (c : CommandType) (ip local remote : Bytes) where
  reports :
      (b : Bytes) (w : World) (status : Bool) (n : ℕ) (message : Bytes)
      → only_reports c ≡ true
      → buffer_text 2000 b ≡ done b
      → deserialize_response w.memory (some b) ≡ done (some (response status message (pos n)))
      → handle_reply fuel (command_for c ip local remote) (some b) w
        ≡ done (returned tt, reported (response_report (response status message (pos n))) w)
  unfolding handle_reply handle_response display_server_response close
  reports b w status n message plain t d = ground (arith, t, d, plain)

  -- the client behind its request, for these commands
  answered :
      (w w1 : World) (status : Bool) (n : ℕ) (message : Bytes) (rest : List Arrival)
      → only_reports c ≡ true
      → w1.memory ≡ true
      → send_request fuel (command_for c ip local remote) w ≡ done (returned tt, w1)
      → Answers w1.socket.arrivals status n message rest
      → client_session fuel (command_for c ip local remote) w
        ≡ done (
          returned tt,
          reported
              (response_report (response status message (pos n)))
              (with_socket w1 (record w1.socket { arrivals = rest })),
        )
  answered w w1 status n message rest plain memory sent a =
      let text = response_text status (pos n) message in
      let s = record w1.socket { arrivals = rest } in
      let short = length-response_text_lt status n message a.fits a.short in
      client_session_lem fuel (command_for c ip local remote) w w1 text s _ sent
        (whole_block text w1.socket rest a.first short)
        (reports text (with_socket w1 s) status n message plain
          (buffer_text_lem text (response_text-Lacks_nul status n message a.no_nul) short)
          (rw memory (deserialize-response status n message a.fits a.told a.no_comma)))

-- A WRITE whose local file holds `b`, and whose answer arrives as one block that can be read, with memory,
-- a length that is no power of ten, more fuel than bytes and a network that takes all it is given: the
-- client returns with success. It has sent the text of the request and the bytes of the file right behind
-- it, it has printed the report of the answer, and closed the socket; its files are as they were.
pub client_session-write :
    (fuel : ℕ) (ip local remote b : Bytes) (w : World) (status : Bool) (n : ℕ) (message : Bytes)
    (rest : List Arrival)
    → open_read w.fs local ≡ some (left b)
    → ((k : ℕ) → length b ≢ pow10 k)
    → length b < fuel
    → w.memory ≡ true
    → w.socket.accepts ≡ []
    → Answers w.socket.arrivals status n message rest
    → (w' : World) × (client_session fuel (write_command ip local remote) w
        ≡ done (returned tt, w'))
      × (w'.socket.sent
          ≡ w.socket.sent ++ (request_text (name_of write) (pos (length b)) remote ++ b))
      × (w'.printed ≡ w.printed ++ response_report (response status message (pos n)))
      × (w'.fs ≡ w.fs)
      × (w'.socket.closed ≡ true)
client_session-write fuel ip local remote b w status n message rest e no_power enough memory takes
      a =
    let (accepts, sent) =
      send_request-write fuel ip local remote b w e no_power enough memory takes in
    let w1 = after_sending w (request_text (name_of write) (pos (length b)) remote ++ b) accepts in
    (
      _,
      answered fuel write ip local remote w w1 status n message rest refl memory sent a,
      refl,
      refl,
      refl,
      refl,
    )

-- An RM whose answer arrives as one block that can be read, with memory and a network that takes all it is
-- given: the client returns with success. It has sent the text of the request and nothing else, it has
-- printed the report of the answer, and closed the socket; its files are as they were.
pub client_session-remove :
    (fuel : ℕ) (ip local remote : Bytes) (w : World) (status : Bool) (n : ℕ) (message : Bytes)
    (rest : List Arrival)
    → w.memory ≡ true
    → w.socket.accepts ≡ []
    → Answers w.socket.arrivals status n message rest
    → (w' : World) × (client_session fuel (command_for rm ip local remote) w
        ≡ done (returned tt, w'))
      × (w'.socket.sent ≡ w.socket.sent ++ request_text (name_of rm) (pos 0) remote)
      × (w'.printed ≡ w.printed ++ response_report (response status message (pos n)))
      × (w'.fs ≡ w.fs)
      × (w'.socket.closed ≡ true)
client_session-remove fuel ip local remote w status n message rest memory takes a =
    let text = request_text (name_of rm) (pos 0) remote in
    (
      _,
      answered fuel rm ip local remote w (after_sending w text []) status n message rest refl memory
          (send_request-plain rm ip local remote w fuel (λ u. cc u) (λ u. cc u) memory takes) a,
      refl,
      refl,
      refl,
      refl,
    )
