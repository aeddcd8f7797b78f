-- ===== src/Examples/Conversations.antt =====
-- A client that puts a file, and another one that gets it.
use remote_file_system.Prelude.{
  ◌≡◌, refl, true, false, some, [], ◌∷◌, ◌++◌, Bytes, codes, bytes_eq, done, arith,
}
use remote_file_system.Prelude.Int.{pos}
use remote_file_system.FileSystem.{FileSystem, left, regular, directory, find, open_read}
use remote_file_system.LockList.{Heap, FileLockList, lock_list}
use remote_file_system.LockList.Chain.{IsLockList}
use remote_file_system.Protocol.Response.{response, response_text}
use remote_file_system.RequestHandler.Storing.{write_done}
use remote_file_system.Socket.{bytes}
use remote_file_system.ThreadManager.{wrlock, rdlock, unlock, Locks, thread_client_handler}
use remote_file_system.Client.{client_session, response_report}
use remote_file_system.Client.Answers.{Answers, client_session-write}
use remote_file_system.Client.Session.{write_command}
use remote_file_system.Client.Receiving.{get_command}
use remote_file_system.Command.{returned}
use remote_file_system.EndToEnd.Putting.{IsPut, client_session-write_arrives}
use remote_file_system.EndToEnd.Getting.{
  IsGet, client_session-get_arrives, client_session-write_get,
}
use remote_file_system.Protocol.Request.{request_text}
use remote_file_system.Socket.Laws.{Delivers}
use remote_file_system.World.{World}
use remote_file_system.Examples.{example_world, example_files, no_file, three_no_power}
use remote_file_system.Examples.RoundTrips.{
  contents_blocks, writer, no_nodes, new_file, folder_ready, absent, opened, text, connection_ready,
  listed, with_file, afterwards, locks_left, wrote, reader, question, free_address,
}

-- the file of the first client
abbrev local_files : FileSystem
local_files =
    example_files ((codes "data", directory) ∷ (codes "data/l", regular (codes "def")) ∷ [])

abbrev putting_client : World
putting_client = example_world local_files (bytes write_done ∷ []) []

local_opened : open_read local_files (codes "data/l") ≡ some (left (codes "def"))
unfolding open_read find bytes_eq
local_opened = refl

ready_to_put : IsPut 4 (codes "data/l") (codes "data/a") (codes "def") putting_client writer
ready_to_put = record {
  blocks = contents_blocks;
  made = true;
  with_folders = example_world no_file contents_blocks [];
  opened = new_file;
  local_file = local_opened;
  no_power = three_no_power;
  enough = omega arith;
  memory = refl;
  takes = refl;
  answer = refl;
  request = text;
  ready = connection_ready;
  folders = folder_ready;
  absent = absent;
  opens = opened;
  client_silent = refl;
  server_silent = refl;
}

abbrev address : Bytes
address = codes "127.0.0.1"

client_session-write_arrives_example :
    (c' : World) × (l' : FileLockList) × (h' : Heap) × (w' : World) × (client_session 4
        (write_command address (codes "data/l") (codes "data/a"))
        putting_client
      ≡ done (returned tt, c'))
    × (thread_client_handler 4 7
          (record { manager = some (lock_list 0 0 0); heap = no_nodes })
          writer
        ≡ done ((wrlock 7 ∷ unlock 7 ∷ [], record { manager = some l'; heap = h' }), w'))
    × IsLockList h' l' ((7, codes "data/a") ∷ [])
    × Delivers writer.socket.arrivals c'.socket.sent
    × Delivers putting_client.socket.arrivals w'.socket.sent
    × (find (codes "data/a") w'.fs.entries ≡ some (regular (codes "def")))
    × (c'.printed ≡ codes "\nSUCCESS\n")
client_session-write_arrives_example =
    client_session-write_arrives 4 address (codes "data/l") (codes "data/a") (codes "def")
      putting_client writer 7 (lock_list 0 0 0) no_nodes [] ready_to_put listed (omega arith) refl

abbrev getting_client : World
getting_client =
    example_world no_file (bytes (response_text true (pos 3) (codes "OK")) ∷ contents_blocks) []

ready_to_get : IsGet 4 (codes "data/a") (codes "data/a") (codes "def") getting_client reader
ready_to_get = record {
  blocks = contents_blocks;
  opened = new_file;
  nonempty = refl;
  fits = omega arith;
  no_power = three_no_power;
  enough = omega arith;
  memory = refl;
  takes = refl;
  room = refl;
  opens = opened;
  answer = refl;
  contents = connection_ready.delivers;
  request = question;
  server_memory = refl;
  server_takes = refl;
  client_silent = refl;
  server_silent = refl;
}

stored : open_read with_file (codes "data/a") ≡ some (left (codes "def"))
unfolding open_read find bytes_eq
stored = refl

client_session-get_arrives_example :
    (c' : World) × (l' : FileLockList) × (h' : Heap) × (w' : World) × (client_session 4
        (get_command address (codes "data/a") (codes "data/a"))
        getting_client
      ≡ done (returned tt, c'))
    × (thread_client_handler 4 7
          (record { manager = some (lock_list 0 0 0); heap = no_nodes })
          reader
        ≡ done ((rdlock 7 ∷ unlock 7 ∷ [], record { manager = some l'; heap = h' }), w'))
    × IsLockList h' l' ((7, codes "data/a") ∷ [])
    × Delivers reader.socket.arrivals c'.socket.sent
    × Delivers getting_client.socket.arrivals w'.socket.sent
    × (find (codes "data/a") c'.fs.entries ≡ some (regular (codes "def")))
    × ((q : Bytes)
        → bytes_eq (codes "data/a") q ≡ false
        → find q c'.fs.entries ≡ find q no_file.entries)
client_session-get_arrives_example =
    client_session-get_arrives 4 address (codes "data/a") (codes "data/a") (codes "def")
      getting_client reader 7 (lock_list 0 0 0) no_nodes [] ready_to_get stored listed (omega arith)
      refl

client_session-write_get_example :
    (d' : World) × (locks' : Locks) × (v' : World) × (client_session 4
        (get_command address (codes "data/a") (codes "data/a"))
        getting_client
      ≡ done (returned tt, d'))
    × (thread_client_handler 4 8 locks_left reader ≡ done ((rdlock 7 ∷ unlock 7 ∷ [], locks'), v'))
    × Delivers reader.socket.arrivals d'.socket.sent
    × Delivers getting_client.socket.arrivals v'.socket.sent
    × (find (codes "data/a") d'.fs.entries ≡ some (regular (codes "def")))
client_session-write_get_example =
    client_session-write_get 4 address (codes "data/l") (codes "data/a") (codes "def")
      putting_client writer 7 (lock_list 0 0 0) no_nodes [] ready_to_put listed (omega arith) refl
      (wrlock 7 ∷ unlock 7 ∷ []) locks_left afterwards wrote (codes "data/a") getting_client reader
      8 ready_to_get refl refl (omega arith) free_address

answer_comes : Answers putting_client.socket.arrivals true 0 (codes "NULL") []
answer_comes = record {
  fits = omega arith;
  told = refl;
  no_comma = ground arith;
  no_nul = ground arith;
  short = omega arith;
  first = refl;
}

client_session-write_example :
    (w' : World) × (client_session 4
        (write_command address (codes "data/l") (codes "data/a"))
        putting_client
      ≡ done (returned tt, w'))
    × (w'.socket.sent ≡ request_text (codes "WRITE") (pos 3) (codes "data/a") ++ codes "def")
    × (w'.printed ≡ response_report (response true (codes "NULL") (pos 0)))
    × (w'.fs ≡ local_files)
    × (w'.socket.closed ≡ true)
client_session-write_example =
    client_session-write 4 address (codes "data/l") (codes "data/a") (codes "def") putting_client
      true 0 (codes "NULL") [] local_opened three_no_power (omega arith) refl refl answer_comes
