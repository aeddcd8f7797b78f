-- ===== src/Examples/Overwritten.antt =====
-- A client that overwrites a concrete file of the server.
use remote_file_system.Prelude.{◌≡◌, bytes_eq, refl, true, none, some, [], ◌∷◌, codes, done, arith}
use remote_file_system.CString.Decimal.{print_long, print_ℕ, print_digits}
use remote_file_system.FileSystem.{FileSystem, regular, directory, left, find, open_read}
use remote_file_system.RequestHandler.Storing.{write_done}
use remote_file_system.Socket.{bytes}
use remote_file_system.LockList.{Heap, FileLockList, lock_list}
use remote_file_system.LockList.Chain.{IsLockList}
use remote_file_system.LockList.Lookup.{create_file_lock_list-IsLockList}
use remote_file_system.ThreadManager.{wrlock, unlock, thread_client_handler}
use remote_file_system.ThreadManager.Working.{Arrives, behind_request}
use remote_file_system.ThreadManager.Overwriting.{IsOverwrite}
use remote_file_system.EndToEnd.Replacing.{IsReplacement, client_session-write_replaces}
use remote_file_system.Client.{client_session}
use remote_file_system.Client.Session.{write_command}
use remote_file_system.Command.{returned}
use remote_file_system.Socket.Laws.{Delivers}
use remote_file_system.World.{World}
use remote_file_system.Examples.{example_world, example_files, one_file, three_no_power}
use remote_file_system.Examples.Writes.{
  version, two_blocks, with_version_folder, with_version, parts, version_place, version_folders,
  opened, version_opened, saved, ready_one, emptied, emptied_file, other_path, ready_for_def,
}

abbrev overwriter : World
overwriter = example_world one_file (bytes (codes "WRITE,3,data/a.txt") ∷ two_blocks) []

order : Arrives overwriter (codes "WRITE") 3 (codes "data/a.txt") two_blocks
unfolding print_long print_ℕ print_digits
order = record {
  fits = omega arith;
  named = refl;
  no_comma = omega arith;
  no_nul = omega arith;
  short = omega arith;
  first = refl;
}

abbrev overwritten :
    IsOverwrite 4
      (codes "data/a.txt")
      (codes "abc")
      (codes "def")
      (behind_request overwriter two_blocks)
overwritten = record {
  folder = codes "data";
  name = codes "a.txt";
  version = version;
  made = true;
  made_version = true;
  with_folders = example_world one_file two_blocks [];
  with_version_folder = example_world with_version_folder two_blocks [];
  saved = example_world (with_version (codes "abc")) two_blocks [];
  version_opened = with_version [];
  file_opened = emptied;
  folders = ready_one;
  there = opened;
  parts = parts;
  place = version_place;
  version_folders = version_folders;
  opens_version = version_opened;
  saves = saved;
  opens_file = emptied_file;
  ready = ready_for_def one_file refl;
  other_path = other_path;
  enough_old = omega arith;
  enough_new = omega arith;
}

abbrev no_nodes : Heap
no_nodes p = none

abbrev replacing_files : FileSystem
replacing_files =
    example_files ((codes "data", directory) ∷ (codes "data/l", regular (codes "def")) ∷ [])

abbrev replacing_client : World
replacing_client = example_world replacing_files (bytes write_done ∷ []) []

local_opened : open_read replacing_files (codes "data/l") ≡ some (left (codes "def"))
unfolding open_read find bytes_eq
local_opened = refl

abbrev replacement :
    IsReplacement 4
      (codes "data/l")
      (codes "data/a.txt")
      (codes "abc")
      (codes "def")
      replacing_client
      overwriter
replacement = record {
  blocks = two_blocks;
  local_file = local_opened;
  no_power = three_no_power;
  memory = refl;
  takes = refl;
  answer = refl;
  request = order;
  overwrite = overwritten;
  client_silent = refl;
  server_silent = refl;
}

client_session-write_replaces_example :
    (c' : World) × (l' : FileLockList) × (h' : Heap) × (w' : World) × (client_session 4
        (write_command (codes "127.0.0.1") (codes "data/l") (codes "data/a.txt"))
        replacing_client
      ≡ done (returned tt, c'))
    × (thread_client_handler 4 7
          (record { manager = some (lock_list 0 0 0); heap = no_nodes })
          overwriter
        ≡ done ((wrlock 7 ∷ unlock 7 ∷ [], record { manager = some l'; heap = h' }), w'))
    × IsLockList h' l' ((7, codes "data/a.txt") ∷ [])
    × Delivers overwriter.socket.arrivals c'.socket.sent
    × Delivers replacing_client.socket.arrivals w'.socket.sent
    × (find (codes "data/a.txt") w'.fs.entries ≡ some (regular (codes "def")))
    × (find version w'.fs.entries ≡ some (regular (codes "abc")))
    × (c'.printed ≡ codes "\nSUCCESS\n")
client_session-write_replaces_example =
    client_session-write_replaces 4 (codes "127.0.0.1") (codes "data/l") (codes "data/a.txt")
      (codes "abc") (codes "def") replacing_client overwriter 7 (lock_list 0 0 0) no_nodes []
      replacement (create_file_lock_list-IsLockList no_nodes).1 (omega arith) refl
