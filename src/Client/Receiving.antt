-- ===== src/Client/Receiving.antt =====
-- `main` of the client from the connection on: a GET, from the request to the stored file.
use remote_file_system.Prelude.{
  ℕ, ◌≡◌, ◌<◌, ◌≤◌, refl, ap, Bool, true, false, some, List, [], ◌∷◌, ◌++◌, Bytes, codes, Lacks,
  append_assoc, length, is_empty, bytes_eq, done, running, arith, lt→ltb,
}
use remote_file_system.Prelude.Int.{pos, long_max}
use remote_file_system.CString.{buffer_text}
use remote_file_system.CString.Decimal.{print_long}
use remote_file_system.Client.{handle_get_response, handle_response, handle_reply, client_session}
use remote_file_system.Command.{Command, returned, get}
use remote_file_system.Command.Names.{name_of}
use remote_file_system.FileSystem.{FileSystem, regular, find, open_write}
use remote_file_system.Protocol.Arrival.{buffer_text_lem, whole_block}
use remote_file_system.Protocol.Request.{request_text}
use remote_file_system.Protocol.Response.{response, response_text, deserialize_response}
use remote_file_system.Protocol.Readable.{response_text-Lacks_nul, length-response_text_lt}
use remote_file_system.Protocol.RoundTrip.{deserialize-response}
use remote_file_system.Socket.{Arrival, bytes}
use remote_file_system.Socket.Laws.{Delivers}
use remote_file_system.World.{World, with_socket, close}
use remote_file_system.Client.Session.{command_for, send_request-plain, client_session_lem}
use remote_file_system.Utils.Transfer.{receive_file_contents}
use remote_file_system.Utils.Transfer.Sending.{after_sending}
use remote_file_system.Utils.Transfer.Receiving.{receive_file_contents-stores, nonempty_length}
use remote_file_system.Utils.Transfer.Broken.{receive_file_contents-early_close}

abbrev pub get_command : Bytes → Bytes → Bytes → Command
get_command = command_for get

-- the request for the file
abbrev pub get_text : Bytes → Bytes
get_text remote = request_text (name_of get) (pos 0) remote

module _ (fuel : ℕ) (ip local remote : Bytes) (w2 w3 : World) where
  stores :
      (b : Bytes) (status : Bool) (message : Bytes) (n : ℕ)
      → buffer_text 2000 b ≡ done b
      → deserialize_response w2.memory (some b) ≡ done (some (response status message (pos n)))
      → 0 < n
      → receive_file_contents fuel local (pos n) w2 ≡ done (true, w3)
      → handle_reply fuel (get_command ip local remote) (some b) w2
        ≡ done (returned tt, with_socket w3 (record w3.socket { closed = true }))
  unfolding handle_reply handle_response handle_get_response close
  stores b status message n t d more f = ground (arith, t, d, lt→ltb 0 n more, f)

  hangs :
      (b : Bytes) (status : Bool) (message : Bytes) (n : ℕ)
      → buffer_text 2000 b ≡ done b
      → deserialize_response w2.memory (some b) ≡ done (some (response status message (pos n)))
      → 0 < n
      → receive_file_contents fuel local (pos n) w2 ≡ running
      → handle_reply fuel (get_command ip local remote) (some b) w2 ≡ running
  unfolding handle_reply handle_response handle_get_response
  hangs b status message n t d more f = ground (arith, t, d, lt→ltb 0 n more, f)

-- A GET whose response arrives as one block of its own, with the length of `b`, and then `b` in blocks of
-- any size, where the local file can be opened on a disk with room, with memory, a network that takes all
-- it is given and more fuel than bytes: the client returns with success, the local file holds `b`, no
-- other entry is changed, the text of the request is all that was sent, and the socket is closed.
pub client_session-get :
    (fuel : ℕ) (ip local remote b : Bytes) (w : World) (rest : List Arrival) (fs : FileSystem)
    → is_empty b ≡ false
    → length b ≤ long_max
    → length b < fuel
    → w.memory ≡ true
    → w.socket.accepts ≡ []
    → w.socket.arrivals ≡ bytes (response_text true (pos (length b)) (codes "OK")) ∷ rest
    → Delivers rest b
    → open_write w.fs local ≡ some fs
    → w.fs.disk_full ≡ false
    → (w' : World) × (client_session fuel (get_command ip local remote) w ≡ done (returned tt, w'))
      × (find local w'.fs.entries ≡ some (regular b))
      × ((q : Bytes) → bytes_eq local q ≡ false → find q w'.fs.entries ≡ find q w.fs.entries)
      × (w'.socket.sent ≡ w.socket.sent ++ get_text remote)
      × (w'.socket.closed ≡ true)
client_session-get fuel ip local remote b w rest fs ne fits enough memory takes arrives delivers
      opens room =
    let text = response_text true (pos (length b)) (codes "OK") in
    let no_nul = response_text-Lacks_nul true (length b) (codes "OK") (ground arith) in
    let short = length-response_text_lt true (length b) (codes "OK") fits (omega arith) in
    let w1 = after_sending w (get_text remote) [] in
    let s = record w1.socket { arrivals = rest } in
    let w2 = with_socket w1 s in
    let (w3, stored, st) =
      receive_file_contents-stores fuel local b w2 fs opens room delivers enough in
    (
      with_socket w3 (record w3.socket { closed = true }),
      client_session_lem fuel (get_command ip local remote) w w1 text s _
          (send_request-plain get ip local remote w fuel (λ u. cc u) (λ u. cc u) memory takes)
          (whole_block text w1.socket rest arrives short)
          (stores fuel ip local remote w2 w3 text true (codes "OK") (length b)
            (buffer_text_lem text no_nul short)
            (rw memory (deserialize-response true (length b) (codes "OK") fits refl (ground arith)))
            (nonempty_length b ne) stored),
      st.file,
      st.others,
      ap (λ v. v.socket.sent) st.same_rest,
      refl,
    )

text-append :
    (n : ℕ) (message contents : Bytes)
    → response_text true (pos n) message ++ contents
      ≡ response_text true (pos n) (message ++ contents)
text-append n message contents =
    ap (λ t. codes "1," ++ t) (append_assoc (print_long (pos n)) (b',' ∷ message) contents)

-- A GET whose contents `b` arrive in one block with the response, where the block is shorter than the
-- buffer and has no NUL, and `b` has no comma: the contents are taken for a part of the message, the
-- client waits for them once more, and it does not return, whatever the fuel.
pub client_session-get_merged :
    (fuel : ℕ) (ip local remote b : Bytes) (w : World) (fs : FileSystem)
    → is_empty b ≡ false
    → length b ≤ long_max
    → Lacks b',' b
    → Lacks 0 (response_text true (pos (length b)) (codes "OK") ++ b)
    → length (response_text true (pos (length b)) (codes "OK") ++ b) < 2000
    → w.memory ≡ true
    → w.socket.accepts ≡ []
    → w.socket.arrivals ≡ bytes (response_text true (pos (length b)) (codes "OK") ++ b) ∷ []
    → open_write w.fs local ≡ some fs
    → client_session fuel (get_command ip local remote) w ≡ running
client_session-get_merged fuel ip local remote b w fs ne fits lacks no_nul short memory takes
      arrives opens =
    let text = response_text true (pos (length b)) (codes "OK") ++ b in
    let w1 = after_sending w (get_text remote) [] in
    let s = record w1.socket { arrivals = [] } in
    let w2 = with_socket w1 s in
    client_session_lem fuel (get_command ip local remote) w w1 text s running
      (send_request-plain get ip local remote w fuel (λ u. cc u) (λ u. cc u) memory takes)
      (whole_block text w1.socket [] arrives short)
      (hangs fuel ip local remote w2 w2 text true (codes "OK" ++ b) (length b)
        (buffer_text_lem text no_nul short)
        (rw (memory, text-append (length b) (codes "OK") b)
          (deserialize-response true (length b) (codes "OK" ++ b) fits refl
            (ground (arith, lacks))))
        (nonempty_length b ne)
        (receive_file_contents-early_close fuel local (length b) [] w2 fs opens refl
          (nonempty_length b ne)))
