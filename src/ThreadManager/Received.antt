-- ===== src/ThreadManager/Received.antt =====
-- `receiveRequest`: whatever arrives, a request that it returns is well formed.
use remote_file_system.Prelude.{
  ◌≡◌, refl, sym, ap, ◌∙◌, ◌⊎◌, inl, inr, false, true, Bool-cases, Option, none, some, Bytes, Run,
  done, undefined, arith,
}
use remote_file_system.CString.{until_nul, buffer_text, store_text}
use remote_file_system.Protocol.Request.{Request, deserialize_request}
use remote_file_system.Protocol.Safety.{
  IsRequest, deserialize_request-IsRequest, deserialize_request-defined,
}
use remote_file_system.Socket
use remote_file_system.Socket.{Socket}
use remote_file_system.ThreadManager.{receive_request}
use remote_file_system.World.{World, with_socket, recv}

module _ (w : World) (s : Socket) where
  recv_failed :
      Socket.recv 2000 w.socket ≡ (none, s) → receive_request w ≡ done (none, with_socket w s)
  unfolding receive_request recv
  recv_failed r = ground (arith, r)

  no_end :
      (b : Bytes)
      → Socket.recv 2000 w.socket ≡ (some b, s)
      → buffer_text 2000 b ≡ undefined
      → receive_request w ≡ undefined
  unfolding receive_request recv
  no_end b r t = ground (arith, r, t)

  parsed :
      (b text : Bytes) (o : Option Request)
      → Socket.recv 2000 w.socket ≡ (some b, s)
      → buffer_text 2000 b ≡ done text
      → deserialize_request w.memory (some text) ≡ done o
      → receive_request w ≡ done (o, with_socket w s)
  unfolding receive_request recv
  parsed b text o r t d = ground (arith, r, t, d)

  no_copy :
      (b text : Bytes)
      → w.memory ≡ false
      → Socket.recv 2000 w.socket ≡ (some b, s)
      → buffer_text 2000 b ≡ done text
      → receive_request w ≡ undefined
  unfolding receive_request recv deserialize_request
  no_copy b text m r t = ground (arith, r, t, m)

text-cases :
    (b : Bytes) → (buffer_text 2000 b ≡ done (until_nul b)) ⊎ (buffer_text 2000 b ≡ undefined)
unfolding buffer_text store_text
text-cases b = ground arith

same_request :
    {o p : Option Request} {w w' : World}
    → ◌≡◌ {A = Run (Option Request × World)} (done (o, w)) (done (p, w'))
    → o ≡ p
same_request e = ground arith

-- Whatever arrives, a request that `receiveRequest` returns has a known command, a path that is not empty
-- and has no comma, and a length that is not negative.
pub receive_request-IsRequest :
    (w w' : World) (r : Request) → receive_request w ≡ done (some r, w') → IsRequest r
receive_request-IsRequest w w' r e = by_result (Socket.recv 2000 w.socket).0 refl
  where
    by_result : (o : Option Bytes) → (Socket.recv 2000 w.socket).0 ≡ o → IsRequest r
    by_result none q = cc (
        recv_failed w (Socket.recv 2000 w.socket).1
          (ap (λ o. (o, (Socket.recv 2000 w.socket).1)) q))
    by_result (some b) q =
        let s = (Socket.recv 2000 w.socket).1 in
        let got : Socket.recv 2000 w.socket ≡ (some b, s) = ap (λ o. (o, s)) q in
        elim (text-cases b) [
          | inr bad ↦ absurd (cc (no_end w s b got bad))
          | inl ok ↦ elim (Bool-cases w.memory) [
            | inr m ↦ absurd (cc (no_copy w s b (until_nul b) m got ok))
            | inl m ↦
                let (o, d) = deserialize_request-defined (some (until_nul b)) in
                let e' = ap (λ x. deserialize_request x (some (until_nul b))) m ∙ d in
                let same = same_request (sym (parsed w s b (until_nul b) o got ok e') ∙ e) in
                deserialize_request-IsRequest true (until_nul b) r (d ∙ ap done same)
          ]
        ]
