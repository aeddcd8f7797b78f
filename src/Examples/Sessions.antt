-- ===== src/Examples/Sessions.antt =====
-- The command line, the client's request and the server's reading of it, on concrete texts.
use remote_file_system.Prelude.{
  ◌≡◌, refl, false, some, List, [], ◌∷◌, Bytes, codes, bytes_eq, done, arith,
}
use remote_file_system.Prelude.Int.{pos}
use remote_file_system.CString.Decimal.{print_long, print_ℕ, print_digits}
use remote_file_system.Command.{write}
use remote_file_system.FileSystem.{left, open_read, find}
use remote_file_system.Protocol.Request.{request}
use remote_file_system.Socket.{bytes}
use remote_file_system.ThreadManager.{receive_request}
use remote_file_system.ThreadManager.Handler.{receive_request-merged}
use remote_file_system.Examples.{example_world, one_file}

plain : bytes_eq (codes "GET") (codes "--local") ≡ false
unfolding bytes_eq
plain = refl

abbrev command_line : List Bytes
command_line = codes "rfs" ∷ codes "WRITE" ∷ codes "--local" ∷ codes "a.txt" ∷ []

opened : open_read one_file (codes "data/a.txt") ≡ some (left (codes "abc"))
unfolding open_read find bytes_eq
opened = refl

abbrev text : Bytes
text = codes "GET,3,data/b"

receive_request-merged_example :
    receive_request (example_world one_file (bytes (codes "WRITE,3,data/babc") ∷ []) [])
    ≡ done (some (request write (codes "data/babc") (pos 3)), example_world one_file [] [])
unfolding print_long print_ℕ print_digits
receive_request-merged_example =
    receive_request-merged write 3 (codes "data/b") (codes "abc")
      (example_world one_file (bytes (codes "WRITE,3,data/babc") ∷ []) []) [] (λ e. cc e)
      (omega arith) refl (ground arith) (ground arith) (omega arith) refl refl
