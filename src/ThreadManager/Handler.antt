-- ===== src/ThreadManager/Handler.antt =====
-- `receiveRequest`: what the server reads of what its client sends.
use remote_file_system.Prelude.{
  ℕ, ◌≡◌, ◌≢◌, ◌<◌, ◌≤◌, ap, ◌∙◌, true, false, Option, some, List, ◌∷◌, ◌++◌, Bytes, Lacks, length,
  is_empty, done, arith, append_assoc,
}
use mathlib.Core.Path.{subst}
use remote_file_system.Prelude.Int.{pos, long_max}
use remote_file_system.CString.{buffer_text}
use remote_file_system.CString.Decimal.{print_long}
use remote_file_system.Command.{CommandType, unknown}
use remote_file_system.Command.Names.{name_of}
use remote_file_system.Protocol.Request.{Request, request, request_text, deserialize_request}
use remote_file_system.Protocol.RoundTrip.{deserialize-request}
use remote_file_system.Protocol.Arrival.{buffer_text_lem, whole_block}
use remote_file_system.Socket
use remote_file_system.Socket.{Socket, Arrival, bytes, receive_from, requeue}
use remote_file_system.ThreadManager.{receive_request}
use remote_file_system.World.{World, with_socket, recv}

module _ (w : World) (b : Bytes) (s : Socket) (o : Option Request) where
  received :
      Socket.recv 2000 w.socket ≡ (some b, s)
      → buffer_text 2000 b ≡ done b
      → deserialize_request w.memory (some b) ≡ done o
      → receive_request w ≡ done (o, with_socket w s)
  unfolding receive_request recv
  received r t d = ground (arith, r, t, d)

-- A request with a known command, a non-empty path without a comma and a `long` for its length, whose
-- text has no NUL, is shorter than the buffer and arrives as one block, is received as it was sent,
-- and what comes behind it is left in the socket, with memory.
pub receive_request-receives :
    (t : CommandType) (n : ℕ) (path : Bytes) (w : World) (rest : List Arrival)
    → t ≢ unknown
    → n ≤ long_max
    → is_empty path ≡ false
    → Lacks b',' path
    → Lacks 0 (request_text (name_of t) (pos n) path)
    → length (request_text (name_of t) (pos n) path) < 2000
    → w.memory ≡ true
    → w.socket.arrivals ≡ bytes (request_text (name_of t) (pos n) path) ∷ rest
    → receive_request w
      ≡ done (some (request t path (pos n)), with_socket w (record w.socket { arrivals = rest }))
receive_request-receives t n path w rest known fits ne lacks no_nul short memory e =
    let text = request_text (name_of t) (pos n) path in
    received w text (record w.socket { arrivals = rest }) (some (request t path (pos n)))
      (whole_block text w.socket rest e short) (buffer_text_lem text no_nul short)
      (rw memory (deserialize-request t n path known fits ne lacks))

text-append :
    (name path contents : Bytes) (n : ℕ)
    → request_text name (pos n) path ++ contents ≡ request_text name (pos n) (path ++ contents)
text-append name path contents n =
    append_assoc name (b',' ∷ (print_long (pos n) ++ b',' ∷ path)) contents
    ∙ ap (λ t. name ++ b',' ∷ t) (append_assoc (print_long (pos n)) (b',' ∷ path) contents)

-- Nothing separates a request from the contents behind it: where both arrive as one block, and the
-- path, the contents and the text are as above, the contents become a part of the path.
pub receive_request-merged :
    (t : CommandType) (n : ℕ) (path contents : Bytes) (w : World) (rest : List Arrival)
    → t ≢ unknown
    → n ≤ long_max
    → is_empty (path ++ contents) ≡ false
    → Lacks b',' (path ++ contents)
    → Lacks 0 (request_text (name_of t) (pos n) path ++ contents)
    → length (request_text (name_of t) (pos n) path ++ contents) < 2000
    → w.memory ≡ true
    → w.socket.arrivals ≡ bytes (request_text (name_of t) (pos n) path ++ contents) ∷ rest
    → receive_request w
      ≡ done (
        some (request t (path ++ contents) (pos n)),
        with_socket w (record w.socket { arrivals = rest }),
      )
receive_request-merged t n path contents w rest known fits ne lacks no_nul short memory e =
    let same = text-append (name_of t) path contents n in
    receive_request-receives t n (path ++ contents) w rest known fits ne lacks
      (subst (Lacks 0) same no_nul) (subst (λ b. length b < 2000) same short) memory
      (subst (λ b. w.socket.arrivals ≡ bytes b ∷ rest) same e)
