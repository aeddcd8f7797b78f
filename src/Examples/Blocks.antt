-- ===== src/Examples/Blocks.antt =====
-- Structs that are made in an empty memory, and freed.
use remote_file_system.Prelude.{◌≡◌, none, some, refl, true, codes, done, arith}
use remote_file_system.Prelude.Int.{pos}
use remote_file_system.Command.{write, get, returned}
use remote_file_system.LockList.{Ptr}
use remote_file_system.Protocol.Request.{create_request}
use remote_file_system.Protocol.Response.{create_response}
use remote_file_system.Structs.{
  command_block, Memory, put_block, allocate_response, free_response, response_at, allocate_request,
  free_request, request_at, allocate_command, free_command_struct,
}
use remote_file_system.Structs.Blocks.{SameBlocks}
use remote_file_system.Structs.Responses.{free_response-allocate_response}
use remote_file_system.Structs.Requests.{command_of, free_request-allocate_request}
use remote_file_system.Structs.Commands.{free_command_struct-allocate_command}
use remote_file_system.Utils.Transfer.{get_file_size}
use remote_file_system.Examples.RoundTrips.{with_file}

abbrev no_blocks : Memory
no_blocks p = none

free_response-allocate_response_example :
    (q : Ptr) × (m' m'' : Memory) × (allocate_response 1 2 true
        (some (codes "OK"))
        (pos 3)
        no_blocks
      ≡ done (q, m'))
    × (response_at q m' ≡ create_response true true (some (codes "OK")) (pos 3))
    × (free_response q m' ≡ done m'')
    × SameBlocks no_blocks m''
free_response-allocate_response_example =
    free_response-allocate_response 1 2 no_blocks (λ _. refl) (λ _. refl) (λ _. omega arith) true
      (some (codes "OK")) (pos 3)

free_request-allocate_request_example :
    (q : Ptr) × (m' m'' : Memory) × (allocate_request 1 2 write
        (codes "data/b")
        (get_file_size with_file (codes "data/a"))
        no_blocks
      ≡ done (q, m'))
    × (create_request true with_file
          (some (command_of write (codes "127.0.0.1") (codes "data/a") (codes "data/b")))
        ≡ done (request_at q m'))
    × (free_request q m' ≡ done m'')
    × SameBlocks no_blocks m''
free_request-allocate_request_example =
    free_request-allocate_request 1 2 no_blocks with_file write (codes "127.0.0.1") (codes "data/a")
      (codes "data/b") (λ _. refl) (λ _. refl) (λ _. omega arith)

free_command_struct-allocate_command_example :
    (m' m'' : Memory) × (allocate_command 4 1 2 3 get
        (codes "127.0.0.1")
        (codes "data/a")
        (codes "data/b")
        no_blocks
      ≡ returned (4, m'))
    × (free_command_struct 4 m' ≡ done m'')
    × SameBlocks (put_block 4 (some (command_block get 1 2 3)) no_blocks) m''
free_command_struct-allocate_command_example =
    free_command_struct-allocate_command 4 1 2 3 get (codes "127.0.0.1") (codes "data/a")
      (codes "data/b") no_blocks (omega arith) refl (λ _. refl) (λ _. refl) (λ _. refl)
      (λ _. omega arith) (λ _. omega arith) (λ _. omega arith) (λ _. omega arith) (λ _. omega arith)
      (λ _. omega arith)
