-- ===== src/Examples/Wire.antt =====
-- The protocol on concrete messages.
use remote_file_system.Prelude.{◌≡◌, refl, true, Option, some, codes, done, undefined, ◌>>=◌, arith}
use remote_file_system.Prelude.Int.{pos}
use remote_file_system.Command.{write}
use remote_file_system.Command.Names.{name_of}
use remote_file_system.Protocol.Request.{
  Request, request, request_text, serialize_request, deserialize_request,
}
use remote_file_system.Protocol.Response.{response, serialize_response, deserialize_response}
use remote_file_system.Protocol.RoundTrip.{
  deserialize-serialize_request, deserialize-serialize_response, deserialize-request,
}
use remote_file_system.Protocol.Bounds.{serialize_request-overflow, serialize_response-overflow}
use remote_file_system.Protocol.Safety.{
  IsRequest, deserialize_request-IsRequest, deserialize_request-defined,
}
use remote_file_system.Examples.{three_no_power}

deserialize-serialize_request_example :
    (serialize_request true (some (request write (codes "data/a.txt") (pos 3)))
      >>= deserialize_request true)
    ≡ done (some (request write (codes "data/a.txt") (pos 3)))
deserialize-serialize_request_example =
    deserialize-serialize_request write 3 (codes "data/a.txt") (λ e. cc e) (omega arith)
      (omega arith) three_no_power refl (ground arith)

deserialize-serialize_response_example :
    (serialize_response true (some (response true (codes "OK") (pos 3)))
      >>= deserialize_response true)
    ≡ done (some (response true (codes "OK") (pos 3)))
deserialize-serialize_response_example =
    deserialize-serialize_response true 3 (codes "OK") (omega arith) (omega arith) three_no_power
      refl (ground arith)

serialize_request-overflow_example :
    serialize_request true (some (request write (codes "data/a.txt") (pos 100))) ≡ undefined
serialize_request-overflow_example =
    serialize_request-overflow write (codes "data/a.txt") 2 (λ e. cc e)

serialize_response-overflow_example :
    serialize_response true (some (response true (codes "OK") (pos 10))) ≡ undefined
serialize_response-overflow_example = serialize_response-overflow true (codes "OK") 1

deserialize_request-IsRequest_example : IsRequest (request write (codes "data/a.txt") (pos 3))
deserialize_request-IsRequest_example =
    deserialize_request-IsRequest true (request_text (name_of write) (pos 3) (codes "data/a.txt"))
      (request write (codes "data/a.txt") (pos 3))
      (deserialize-request write 3 (codes "data/a.txt") (λ e. cc e) (omega arith) refl
        (ground arith))

deserialize_request-defined_example :
    (o : Option Request) × (deserialize_request true (some (codes "GET,")) ≡ done o)
deserialize_request-defined_example = deserialize_request-defined (some (codes "GET,"))
