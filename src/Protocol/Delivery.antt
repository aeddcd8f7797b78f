-- ===== src/Protocol/Delivery.antt =====
-- `buildAndSendResponse`: what the peer gets.
use Prim.Native.Nat.{min}
use remote_file_system.Prelude.{
  ℕ, suc, ◌≡◌, ◌≢◌, ap, ◌∙◌, Bool, true, some, List, [], ◌∷◌, ◌++◌, Bytes, length, take, done,
  undefined, arith,
}
use remote_file_system.Prelude.Int.{pos}
use remote_file_system.CString.Digits.{pow10}
use remote_file_system.Protocol.Response.{
  response, response_text, message_text, create_response, serialize_response,
}
use remote_file_system.Protocol.Bounds.{serialize_response-fits, serialize_response-overflow}
use remote_file_system.Protocol.Transmit.{send_response, build_and_send_response}
use remote_file_system.Socket
use remote_file_system.Socket.{Socket, Accept, took, send_error, send_as}
use remote_file_system.World.{World, with_socket, send}
use remote_file_system.Utils.Transfer.Sending.{after_sending}

-- what one `send` does, by what the network takes
send-accepts :
    (b : Bytes) (w : World) (accepts : List Accept)
    → w.socket.accepts ≡ accepts
    → Socket.send b w.socket ≡ send_as b w.socket accepts
unfolding Socket.send
send-accepts b w accepts e = ap (send_as b w.socket) e

all_taken :
    (b : Bytes) (s : Socket)
    → s.accepts ≡ []
    → send_as b s [] ≡ (some (length b), record s { sent = s.sent ++ b; accepts = [] })
all_taken b s e = λ i. (some (length b), record s { sent = s.sent ++ b; accepts = e i })

module _ (w : World) (status : Bool) (message : Bytes) (memory : w.memory ≡ true) where
  sends_as :
      (n : ℕ) (text : Bytes) (k : ℕ) (s : Socket)
      → serialize_response true (some (response status (message_text (some message)) (pos n)))
        ≡ done (some text)
      → Socket.send text w.socket ≡ (some k, s)
      → build_and_send_response status (pos n) (some message) w ≡ done (true, with_socket w s)
  unfolding build_and_send_response send_response create_response send
  sends_as n text k s e t = ground (arith, e, t)

  overflows :
      (n : ℕ)
      → serialize_response true (some (response status (message_text (some message)) (pos n)))
        ≡ undefined
      → build_and_send_response status (pos n) (some message) w ≡ undefined
  unfolding build_and_send_response send_response create_response send
  overflows n e = ground (arith, e)

  -- With memory, a length that is no power of ten and a `send` that takes all it is given, exactly the
  -- text of the response is sent, and true is returned.
  pub build_and_send_response-sends :
      (n : ℕ)
      → ((k : ℕ) → n ≢ pow10 k)
      → w.socket.accepts ≡ []
      → build_and_send_response status (pos n) (some message) w
        ≡ done
            (true, after_sending w (response_text status (pos n) (message_text (some message))) [])
  build_and_send_response-sends n not_power e =
      let text = response_text status (pos n) (message_text (some message)) in
      sends_as n text (length text) (record w.socket { sent = w.socket.sent ++ text; accepts = [] })
        (serialize_response-fits status (message_text (some message)) n not_power)
        (send-accepts text w [] e ∙ all_taken text w.socket e)

  -- A `send` that takes only a part is not continued: only the first bytes of the response are sent,
  -- and true is returned all the same.
  build_and_send_response-partial :
      (n k : ℕ) (rest : List Accept)
      → ((j : ℕ) → n ≢ pow10 j)
      → w.socket.accepts ≡ took k ∷ rest
      → build_and_send_response status (pos n) (some message) w
        ≡ done (
          true,
          after_sending w
              (take (suc k) (response_text status (pos n) (message_text (some message))))
              rest,
        )
  build_and_send_response-partial n k rest not_power e =
      let text = response_text status (pos n) (message_text (some message)) in
      sends_as n text (min (suc k) (length text))
        (record w.socket { sent = w.socket.sent ++ take (suc k) text; accepts = rest })
        (serialize_response-fits status (message_text (some message)) n not_power)
        (send-accepts text w (took k ∷ rest) e)

  -- A length that is a power of ten overflows the buffer of the response.
  pub build_and_send_response-overflow :
      (k : ℕ) → build_and_send_response status (pos (pow10 k)) (some message) w ≡ undefined
  build_and_send_response-overflow k =
      overflows (pow10 k) (serialize_response-overflow status (message_text (some message)) k)
