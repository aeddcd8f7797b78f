-- ===== src/Examples/Connections.antt =====
-- One connection of the server, on a concrete request and on a text that is none.
use remote_file_system.Prelude.{
  ◌≡◌, refl, true, false, none, some, List, [], ◌∷◌, ◌++◌, codes, bytes_eq, done, arith,
}
use remote_file_system.Prelude.Int.{pos}
use remote_file_system.CString.{until_nul, buffer_text, store_text}
use remote_file_system.CString.Decimal.{print_long, print_ℕ, print_digits}
use remote_file_system.CString.Tokens.{tokens, cut}
use remote_file_system.FileSystem.{left, open_read, find}
use remote_file_system.LockList.{Heap, FileLockList, lock_list}
use remote_file_system.LockList.Chain.{IsLockList}
use remote_file_system.LockList.Lookup.{create_file_lock_list-IsLockList}
use remote_file_system.Protocol.Request.{deserialize_request, request_of_tokens}
use remote_file_system.Protocol.Response.{response_text}
use remote_file_system.Socket
use remote_file_system.Socket.{Accept, bytes}
use remote_file_system.ThreadManager.{rdlock, unlock, thread_client_handler, receive_request}
use remote_file_system.ThreadManager.Connection.{
  closed, thread_client_handler-get, thread_client_handler-rejects,
}
use remote_file_system.World
use remote_file_system.Utils.Transfer.Sending.{after_sending}
use remote_file_system.Examples.{example_world, one_file, three_no_power}

abbrev no_nodes : Heap
no_nodes p = none

opened : open_read one_file (codes "data/a.txt") ≡ some (left (codes "abc"))
unfolding open_read find bytes_eq
opened = refl

thread_client_handler-get_example :
    (l' : FileLockList) × (h' : Heap) × (accepts : List Accept) × (thread_client_handler 4 7
        (record { manager = some (lock_list 0 0 0); heap = no_nodes })
        (example_world one_file (bytes (codes "GET,0,data/a.txt") ∷ []) [])
      ≡ done (
        (rdlock 7 ∷ unlock 7 ∷ [], record { manager = some l'; heap = h' }),
        closed (
            after_sending
              (example_world one_file [] [])
              (response_text true (pos 3) (codes "OK") ++ codes "abc")
              accepts),
      ))
    × IsLockList h' l' ((7, codes "data/a.txt") ∷ [])
unfolding print_long print_ℕ print_digits
thread_client_handler-get_example =
    thread_client_handler-get 4 0 7 (lock_list 0 0 0) no_nodes [] (codes "data/a.txt") (codes "abc")
      (example_world one_file (bytes (codes "GET,0,data/a.txt") ∷ []) []) []
      (create_file_lock_list-IsLockList no_nodes).1 (omega arith) refl (omega arith) refl
      (ground arith) (ground arith) (omega arith) refl refl refl opened three_no_power (omega arith)

no_request :
    receive_request (example_world one_file (bytes (codes "hello") ∷ []) [])
    ≡ done (none, example_world one_file [] [])
unfolding receive_request World.recv Socket.recv buffer_text until_nul store_text
    deserialize_request request_of_tokens tokens cut
no_request = refl

thread_client_handler-rejects_example :
    thread_client_handler 4 7
      (record { manager = some (lock_list 0 0 0); heap = no_nodes })
      (example_world one_file (bytes (codes "hello") ∷ []) [])
    ≡ done (
      ([], record { manager = some (lock_list 0 0 0); heap = no_nodes }),
      closed (
          after_sending
            (example_world one_file [] [])
            (response_text false (pos 0) (codes "unable to receive request"))
            []),
    )
thread_client_handler-rejects_example =
    thread_client_handler-rejects 4 7 (record { manager = some (lock_list 0 0 0); heap = no_nodes })
      (example_world one_file (bytes (codes "hello") ∷ []) []) (example_world one_file [] [])
      no_request refl refl
