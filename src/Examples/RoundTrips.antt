-- ===== src/Examples/RoundTrips.antt =====
-- A connection on which a file is written, and one on which it is read back.
use remote_file_system.Prelude.{
  ◌⊎◌, ◌≡◌, ◌≢◌, refl, Bool, true, false, none, some, List, [], ◌∷◌, ◌++◌, Bytes, codes, bytes_eq,
  Run, done, arith,
}
use remote_file_system.CString.{store_text}
use remote_file_system.CString.Decimal.{print_long, print_ℕ, print_digits}
use remote_file_system.CString.Search.{strrchr}
use remote_file_system.FileSystem.{
  FileSystem, left, regular, directory, find, put, open_read, open_write, is_directory, has_parent,
}
use remote_file_system.LockList.{Heap, FileLockList, lock_list, node, store}
use remote_file_system.LockList.Chain.{IsLockList}
use remote_file_system.LockList.Lookup.{create_file_lock_list-IsLockList}
use remote_file_system.Protocol.Response.{response, response_text}
use remote_file_system.RequestHandler.Storing.{IsReady}
use remote_file_system.Socket.{Accept, Arrival, bytes}
use remote_file_system.ThreadManager.{
  LockAction, wrlock, rdlock, unlock, Locks, thread_client_handler,
}
use remote_file_system.ThreadManager.Connection.{closed}
use remote_file_system.ThreadManager.Working.{Arrives, behind_request}
use remote_file_system.Command.{returned}
use remote_file_system.Protocol.Request.{request_text}
use remote_file_system.ThreadManager.Effects.{
  Effect, Meant, thread_client_handler-Effect, find-thread_client_handler,
}
use remote_file_system.World.{World}
use remote_file_system.Utils.Paths.{create_nested_directories, extract_directory}
use remote_file_system.Utils.Transfer.Sending.{after_sending}
use remote_file_system.Examples.{example_world, example_files, no_file}

abbrev pub contents_blocks : List Arrival
contents_blocks = bytes (codes "de") ∷ bytes (codes "f") ∷ []

abbrev pub writer : World
writer = example_world no_file (bytes (codes "WRITE,3,data/a") ∷ contents_blocks) []

abbrev pub no_nodes : Heap
no_nodes p = none

abbrev pub new_file : FileSystem
new_file = example_files ((codes "data", directory) ∷ (codes "data/a", regular []) ∷ [])

pub folder_ready :
    create_nested_directories (codes "data/a") (example_world no_file contents_blocks [])
    ≡ done (true, example_world no_file contents_blocks [])
unfolding create_nested_directories extract_directory store_text strrchr is_directory find bytes_eq
folder_ready = refl

pub absent : open_read no_file (codes "data/a") ≡ none
unfolding open_read find bytes_eq
absent = refl

pub opened : open_write no_file (codes "data/a") ≡ some new_file
unfolding open_write has_parent strrchr find put bytes_eq
opened = refl

pub text : Arrives writer (codes "WRITE") 3 (codes "data/a") contents_blocks
unfolding print_long print_ℕ print_digits
text = record {
  fits = omega arith;
  named = refl;
  no_comma = omega arith;
  no_nul = omega arith;
  short = omega arith;
  first = refl;
}

pub connection_ready : IsReady (behind_request writer contents_blocks) (codes "def")
connection_ready = record {
  memory = refl;
  takes = refl;
  room = refl;
  delivers = (refl, (codes "f", refl, (refl, ([], refl, refl))));
}

pub listed : IsLockList no_nodes (lock_list 0 0 0) []
listed = (create_file_lock_list-IsLockList no_nodes).1

abbrev pub with_file : FileSystem
with_file = example_files ((codes "data", directory) ∷ (codes "data/a", regular (codes "def")) ∷ [])

abbrev pub afterwards : World
afterwards = closed (after_sending (example_world with_file [] []) (codes "1,0,NULL") [])

abbrev pub locks_left : Locks
locks_left = record {
  manager = some (lock_list 1 7 0);
  heap = store no_nodes 7 (some (node (codes "data/a") 0));
}

pub wrote :
    thread_client_handler 4 7 (record { manager = some (lock_list 0 0 0); heap = no_nodes }) writer
    ≡ done ((wrlock 7 ∷ unlock 7 ∷ [], locks_left), afterwards)
unfolding thread_client_handler remote_file_system.ThreadManager.receive_request
    remote_file_system.World.recv remote_file_system.Socket.recv
    remote_file_system.CString.buffer_text remote_file_system.CString.until_nul
    remote_file_system.CString.store_text remote_file_system.Protocol.Request.deserialize_request
    remote_file_system.Protocol.Request.request_of_tokens remote_file_system.CString.Tokens.tokens
    remote_file_system.CString.Tokens.cut
    remote_file_system.Protocol.Request.create_request_from_parts
    remote_file_system.Command.str_to_command_type remote_file_system.CString.equals
    remote_file_system.Prelude.bytes_eq remote_file_system.CString.Decimal.strtol
    remote_file_system.LockList.get_lock_for remote_file_system.LockList.search_lock
    remote_file_system.LockList.create_lock_node remote_file_system.LockList.add_lock_to_list
    remote_file_system.LockList.load remote_file_system.LockList.store
    remote_file_system.ThreadManager.serve remote_file_system.ThreadManager.dispatch
    remote_file_system.RequestHandler.handle_write_request
    remote_file_system.Utils.Paths.create_nested_directories
    remote_file_system.Utils.Paths.extract_directory remote_file_system.CString.Search.strrchr
    remote_file_system.FileSystem.is_directory remote_file_system.FileSystem.find
    remote_file_system.FileSystem.put remote_file_system.RequestHandler.save_current_version
    remote_file_system.FileSystem.open_read remote_file_system.FileSystem.open_write
    remote_file_system.FileSystem.has_parent remote_file_system.Utils.Transfer.receive_file_contents
    remote_file_system.Utils.Transfer.receive_loop remote_file_system.FileSystem.fwrite
    remote_file_system.Protocol.Transmit.build_and_send_response
    remote_file_system.Protocol.Transmit.send_response
    remote_file_system.Protocol.Response.create_response
    remote_file_system.Protocol.Response.serialize_response
    remote_file_system.Protocol.Request.num_digits remote_file_system.CString.Decimal.print_long
    remote_file_system.CString.Decimal.print_ℕ remote_file_system.CString.Decimal.print_digits
    remote_file_system.World.send remote_file_system.Socket.send remote_file_system.World.close
wrote = refl

abbrev pub reader : World
reader = example_world with_file (bytes (codes "GET,0,data/a") ∷ []) []

pub question : Arrives reader (codes "GET") 0 (codes "data/a") []
unfolding print_long print_ℕ print_digits
question = record {
  fits = omega arith;
  named = refl;
  no_comma = omega arith;
  no_nul = omega arith;
  short = omega arith;
  first = refl;
}

pub free_address : locks_left.heap 8 ≡ none
unfolding store
free_address = refl

thread_client_handler-Effect_example : Effect writer afterwards.fs
thread_client_handler-Effect_example =
    thread_client_handler-Effect 4 7 (record { manager = some (lock_list 0 0 0); heap = no_nodes })
      locks_left writer afterwards (wrlock 7 ∷ unlock 7 ∷ []) wrote

find-thread_client_handler_example :
    Meant writer (codes "data/x")
    ⊎ ((find (codes "data/x") with_file.entries ≡ find (codes "data/x") no_file.entries)
        ⊎ ((find (codes "data/x") no_file.entries ≡ none)
            × (find (codes "data/x") with_file.entries ≡ some directory)))
find-thread_client_handler_example =
    find-thread_client_handler 4 7 (record { manager = some (lock_list 0 0 0); heap = no_nodes })
      locks_left writer afterwards (wrlock 7 ∷ unlock 7 ∷ []) (codes "data/x") wrote
