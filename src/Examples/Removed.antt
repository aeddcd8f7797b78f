-- ===== src/Examples/Removed.antt =====
-- A connection that removes a file, and one that asks for it.
use remote_file_system.Prelude.{
  ◌≡◌, ◌⊎◌, refl, Bool, true, false, none, some, List, [], ◌∷◌, Bytes, codes, bytes_eq, done, arith,
}
use remote_file_system.Prelude.Int.{pos}
use remote_file_system.CString.Decimal.{print_long, print_ℕ, print_digits}
use remote_file_system.FileSystem.{find, readdir}
use remote_file_system.LockList.{Heap, FileLockList, lock_list, node, store}
use remote_file_system.LockList.Chain.{IsLockList}
use remote_file_system.LockList.Lookup.{create_file_lock_list-IsLockList}
use remote_file_system.Protocol.Response.{response_text}
use remote_file_system.RequestHandler.Remove.{matched}
use remote_file_system.Socket.{bytes}
use remote_file_system.ThreadManager.{wrlock, rdlock, unlock, Locks, thread_client_handler}
use remote_file_system.ThreadManager.Connection.{closed}
use remote_file_system.ThreadManager.Working.{Arrives, behind_request}
use remote_file_system.ThreadManager.Removing.{
  Removal, no_such_file, thread_client_handler-remove_get,
}
use remote_file_system.ThreadManager.Threads.{unlocked, receiving}
use remote_file_system.ThreadManager.Threads.Simulation.{Ends, thread_client_handler-Ends}
use remote_file_system.Client.{client_session}
use remote_file_system.Client.Session.{command_for}
use remote_file_system.Command.{returned, rm}
use remote_file_system.EndToEnd.Removing.{remove_done, IsRemove, client_session-remove_arrives}
use remote_file_system.Socket.Laws.{Delivers}
use remote_file_system.World.{World}
use remote_file_system.Utils.Transfer.Sending.{after_sending}
use remote_file_system.Examples.{example_world}
use remote_file_system.Examples.Removal.{
  parts, place, file_removed, folder_there, all_listed_removed, versions, history, with_history,
  no_history,
}

abbrev no_nodes : Heap
no_nodes p = none

listed : IsLockList no_nodes (lock_list 0 0 0) []
listed = (create_file_lock_list-IsLockList no_nodes).1

abbrev remover : World
remover = example_world with_history (bytes (codes "RM,0,data/a.txt") ∷ []) []

order : Arrives remover (codes "RM") 0 (codes "data/a.txt") []
unfolding print_long print_ℕ print_digits
order = record {
  fits = omega arith;
  named = refl;
  no_comma = omega arith;
  no_nul = omega arith;
  short = omega arith;
  first = refl;
}

abbrev can_be_removed : Removal (behind_request remover []) (codes "data/a.txt")
can_be_removed = record {
  fs = history;
  folder = codes "data";
  base = codes "a.txt";
  versions = versions;
  after = example_world no_history [] [];
  unlinked = file_removed;
  parts = parts;
  place = place;
  there = folder_there;
  all_removed = all_listed_removed;
  memory = refl;
  takes = refl;
}

abbrev afterwards : World
afterwards =
    closed
      (after_sending (example_world no_history [] []) (response_text true (pos 0) (codes "OK")) [])

abbrev removing_client : World
removing_client = example_world no_history (bytes remove_done ∷ []) []

abbrev ready_to_remove : IsRemove (codes "data/a.txt") removing_client remover
ready_to_remove = record {
  memory = refl;
  takes = refl;
  answer = refl;
  request = order;
  server_memory = refl;
  removal = can_be_removed;
  client_silent = refl;
  server_silent = refl;
}

client_session-remove_arrives_example :
    (c' : World) × (l' : FileLockList) × (h' : Heap) × (w' : World) × (client_session 4
        (command_for rm (codes "127.0.0.1") (codes "data/l") (codes "data/a.txt"))
        removing_client
      ≡ done (returned tt, c'))
    × (thread_client_handler 4 7
          (record { manager = some (lock_list 0 0 0); heap = no_nodes })
          remover
        ≡ done ((wrlock 7 ∷ unlock 7 ∷ [], record { manager = some l'; heap = h' }), w'))
    × Delivers remover.socket.arrivals c'.socket.sent
    × Delivers removing_client.socket.arrivals w'.socket.sent
    × (find (codes "data/a.txt") w'.fs.entries ≡ none)
    × ((q : Bytes)
        → (matched versions (codes "a.txt") q (readdir versions history.entries) ≡ false)
          ⊎ (find q w'.fs.entries ≡ none))
    × ((q : Bytes)
        → ((matched versions (codes "a.txt") q (readdir versions history.entries) ≡ true)
            ⊎ (bytes_eq (codes "data/a.txt") q ≡ true))
          ⊎ (find q w'.fs.entries ≡ find q with_history.entries))
    × (c'.printed ≡ codes "\nSUCCESS\n")
client_session-remove_arrives_example =
    client_session-remove_arrives 4 (codes "127.0.0.1") (codes "data/l") (codes "data/a.txt")
      removing_client remover 7 (lock_list 0 0 0) no_nodes [] ready_to_remove listed (omega arith)
      refl

abbrev locks_left : Locks
locks_left = record {
  manager = some (lock_list 1 7 0);
  heap = store no_nodes 7 (some (node (codes "data/a.txt") 0));
}

removed :
    thread_client_handler 4 7 (record { manager = some (lock_list 0 0 0); heap = no_nodes }) remover
    ≡ done ((wrlock 7 ∷ unlock 7 ∷ [], locks_left), afterwards)
unfolding thread_client_handler remote_file_system.ThreadManager.receive_request
    remote_file_system.World.recv remote_file_system.Socket.recv
    remote_file_system.CString.buffer_text remote_file_system.CString.until_nul
    remote_file_system.CString.store_text remote_file_system.Protocol.Request.deserialize_request
    remote_file_system.Protocol.Request.request_of_tokens remote_file_system.CString.Tokens.tokens
    remote_file_system.CString.Tokens.cut
    remote_file_system.Protocol.Request.create_request_from_parts
    remote_file_system.Command.str_to_command_type remote_file_system.CString.equals
    remote_file_system.Prelude.bytes_eq remote_file_system.CString.Decimal.strtol
    remote_file_system.LockList.get_lock_for remote_file_system.LockList.search_lock
    remote_file_system.LockList.create_lock_node remote_file_system.LockList.add_lock_to_list
    remote_file_system.LockList.load remote_file_system.LockList.store
    remote_file_system.ThreadManager.serve remote_file_system.ThreadManager.dispatch
    remote_file_system.Utils.Paths.extract_directory remote_file_system.CString.Search.strrchr
    remote_file_system.FileSystem.is_directory remote_file_system.FileSystem.find
    remote_file_system.Protocol.Transmit.build_and_send_response
    remote_file_system.Protocol.Transmit.send_response
    remote_file_system.Protocol.Response.create_response
    remote_file_system.Protocol.Response.serialize_response
    remote_file_system.Protocol.Request.num_digits remote_file_system.CString.Decimal.print_long
    remote_file_system.CString.Decimal.print_ℕ remote_file_system.CString.Decimal.print_digits
    remote_file_system.World.send remote_file_system.Socket.send remote_file_system.World.close
    remote_file_system.FileSystem.remove remote_file_system.FileSystem.discard
    remote_file_system.FileSystem.has_entries remote_file_system.FileSystem.readdir
    remote_file_system.FileSystem.name_in remote_file_system.RequestHandler.handle_remove_request
    remote_file_system.RequestHandler.after_removal remote_file_system.RequestHandler.remove_history
    remote_file_system.RequestHandler.remove_versions remote_file_system.RequestHandler.starts_with
    remote_file_system.RequestHandler.split_path remote_file_system.Utils.Paths.extract_basename
removed = refl

abbrev reader : World
reader = example_world no_history (bytes (codes "GET,0,data/a.txt") ∷ []) []

question : Arrives reader (codes "GET") 0 (codes "data/a.txt") []
unfolding print_long print_ℕ print_digits
question = record {
  fits = omega arith;
  named = refl;
  no_comma = omega arith;
  no_nul = omega arith;
  short = omega arith;
  first = refl;
}

free_address : locks_left.heap 8 ≡ none
unfolding store
free_address = refl

thread_client_handler-remove_get_example :
    (locks' : Locks) × (thread_client_handler 4 8 locks_left reader
      ≡ done (
        (rdlock 7 ∷ unlock 7 ∷ [], locks'),
        closed (after_sending (behind_request reader []) no_such_file []),
      ))
thread_client_handler-remove_get_example =
    thread_client_handler-remove_get 4 0 7 (lock_list 0 0 0) no_nodes [] (codes "data/a.txt")
      remover [] listed (omega arith) refl order refl can_be_removed (wrlock 7 ∷ unlock 7 ∷ [])
      locks_left afterwards reader removed refl 0 [] question refl refl 8 (omega arith) free_address

thread_client_handler-Ends_example :
    Ends
      (record {
        locks = record { manager = some (lock_list 0 0 0); heap = no_nodes };
        held = λ p. unlocked;
      })
      receiving
      locks_left
      (wrlock 7 ∷ unlock 7 ∷ [])
thread_client_handler-Ends_example =
    thread_client_handler-Ends 4 7 (lock_list 0 0 0) no_nodes [] (λ p. unlocked) remover afterwards
      (wrlock 7 ∷ unlock 7 ∷ []) locks_left listed (λ ne. refl) (λ p. refl) removed
