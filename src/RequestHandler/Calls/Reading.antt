-- ===== src/RequestHandler/Calls/Reading.antt =====
-- What is sent changes no file: `sendFileContents` and the handler of a GET.
use remote_file_system.Prelude.{
  ℕ, zero, suc, true, false, some, Bytes, codes, arith, Run-cases, inl, inr, Option-cases,
  Bool-cases, is_empty, drop, Option,
}
use remote_file_system.Prelude.Int.{is_negative, pos}
use remote_file_system.FileSystem.{Stream, fread, open_read}
use remote_file_system.Protocol.Request.{Request}
use remote_file_system.Protocol.Transmit.{build_and_send_response}
use remote_file_system.RequestHandler.{handle_get_request}
use remote_file_system.RequestHandler.Calls.{Acts}
use remote_file_system.RequestHandler.Calls.Rules.{
  Calls-refl, Calls-append, Acts-bind, build_and_send_response-Acts,
}
use remote_file_system.Socket
use remote_file_system.Utils.Transfer.{
  get_file_size, send_loop, send_all, send_contents_loop, send_file_contents,
}
use remote_file_system.World.{with_socket}

module _ {rights : Option Bytes} where
  send_loop-Acts : (fuel : ℕ) (rest : Bytes) → Acts rights (send_loop fuel rest)
  unfolding send_loop
  send_loop-Acts zero rest = record { at = λ w w' s e. cc e }
  send_loop-Acts (suc fuel) rest = record {
    at = λ w w' s e. elim (Bool-cases (is_empty rest)) [
      | inl ends ↦ Calls-refl (ground (arith, e, ends))
      | inr more ↦ elim (Option-cases (Socket.send rest w.socket).0) [
        | inl n ↦ Calls-refl (ground (arith, e, more, n))
        | inr (k, q) ↦
            (send_loop-Acts fuel (drop k rest)).at (with_socket w (Socket.send rest w.socket).1) w'
              s (ground (arith, e, more, q))
      ]
    ];
  }

  send_contents_loop-Acts : (fuel : ℕ) (file : Stream) → Acts rights (send_contents_loop fuel file)
  unfolding send_contents_loop send_all
  send_contents_loop-Acts zero file = record { at = λ w w' s e. cc e }
  send_contents_loop-Acts (suc fuel) file = record {
    at = λ w w' s e.
        let b = (fread 2000 file).0 in
        elim (Run-cases (send_all b w)) [
          | inr bad ↦ absurd (ground (arith, e, bad))
          | inl ((status, w1), q) ↦
              Calls-append ((send_loop-Acts _ b).at w w1 status q)
                (elim (Bool-cases (fread 2000 file).2) [
                  | inl ends ↦ Calls-refl (ground (arith, e, q, ends))
                  | inr more ↦
                      (send_contents_loop-Acts fuel (fread 2000 file).1).at w1 w' s
                        (ground (arith, e, q, more))
                ])
        ];
  }

  send_file_contents-Acts : (fuel : ℕ) (path : Bytes) → Acts rights (send_file_contents fuel path)
  unfolding send_file_contents
  send_file_contents-Acts fuel path = record {
    at = λ w w' s e. elim (Option-cases (open_read w.fs path)) [
      | inl n ↦ Calls-refl (ground (arith, e, n))
      | inr (file, q) ↦ (send_contents_loop-Acts fuel file).at w w' s (ground (arith, e, q))
    ];
  }

  -- Whatever comes of a GET, it changes no file.
  pub handle_get_request-Acts : (fuel : ℕ) (r : Request) → Acts rights (handle_get_request fuel r)
  unfolding handle_get_request
  handle_get_request-Acts fuel r = record {
    at = λ w w' s e. elim (Bool-cases (is_negative (get_file_size w.fs r.remote_path))) [
      | inl n ↦
          (build_and_send_response-Acts false (pos 0)
              (some (codes "unable to open and/or get size of the requested file"))).at
            w w' s (rw n at e)
      | inr p ↦
          (Acts-bind
              (build_and_send_response true (get_file_size w.fs r.remote_path) (some (codes "OK")))
              (λ _. send_file_contents fuel r.remote_path)
              (build_and_send_response-Acts true (get_file_size w.fs r.remote_path)
                (some (codes "OK")))
              (λ _. send_file_contents-Acts fuel r.remote_path)).at
            w w' s (rw p at e)
    ];
  }
