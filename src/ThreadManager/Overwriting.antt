-- ===== src/ThreadManager/Overwriting.antt =====
-- `threadClientHandler` for a WRITE over a file that is there.
use remote_file_system.Prelude.{
  ℕ, ◌≡◌, ◌≢◌, ◌<◌, refl, Bool, true, false, some, List, [], ◌∷◌, ◌++◌, Bytes, codes, length,
  bytes_eq, done, none,
}
use remote_file_system.Prelude.Int.{pos}
use remote_file_system.Command.{write}
use remote_file_system.FileSystem.{FileSystem, regular, left, find, open_read, open_write}
use remote_file_system.LockList.{Ptr, null, Heap, FileLockList}
use remote_file_system.LockList.Chain.{Cells, IsLockList}
use remote_file_system.LockList.Lookup.{lock_of}
use remote_file_system.Protocol.Request.{request}
use remote_file_system.RequestHandler.{split_path, version_path, save_current_version}
use remote_file_system.RequestHandler.Storing.{IsReady, write_done}
use remote_file_system.RequestHandler.Write.{handle_write_request-overwrites}
use remote_file_system.Socket.{Arrival}
use remote_file_system.ThreadManager.{wrlock, unlock, thread_client_handler}
use remote_file_system.ThreadManager.Connection.{closed}
use remote_file_system.ThreadManager.Working.{
  Arrives, behind_request, writes, thread_client_handler_lem,
}
use remote_file_system.Utils.Paths.{create_nested_directories}
use remote_file_system.World.{World}

-- The file at `path` holds `old`; its folders and those of its version are made, and both can be opened; the
-- machine and the connection are ready for `b`, and the fuel exceeds both lengths.
pub record IsOverwrite (fuel : ℕ) (path old b : Bytes) (w : World) : Type 0 where
  pub folder : Bytes
  pub name : Bytes
  pub version : Bytes
  pub made : Bool
  pub made_version : Bool
  pub with_folders : World
  pub with_version_folder : World
  pub saved : World
  pub version_opened : FileSystem
  pub file_opened : FileSystem
  pub folders : create_nested_directories path w ≡ done (made, with_folders)
  pub there : open_read with_folders.fs path ≡ some (left old)
  pub parts : split_path path ≡ done (some (folder, name))
  pub place : version_path with_folders.memory with_folders.now folder name ≡ done version
  pub version_folders :
      create_nested_directories version with_folders ≡ done (made_version, with_version_folder)
  pub opens_version : open_write with_version_folder.fs version ≡ some version_opened
  pub saves : save_current_version fuel path with_folders ≡ done (true, saved)
  pub opens_file : open_write saved.fs path ≡ some file_opened
  pub ready : IsReady w b
  pub other_path : bytes_eq path version ≡ false
  pub enough_old : length old < fuel
  pub enough_new : length b < fuel

-- A connection on which a WRITE of `b` over a file that holds `old` arrives, with a well-formed list of locks
-- and a new address from `malloc`, where the file can be saved and overwritten, the machine and the
-- connection are ready, and the fuel exceeds both lengths: the thread returns. It takes the write lock of the
-- file's node and gives it back; the file holds `b`, and its version holds `old`; the client is sent the
-- response of success and nothing else; the socket is closed, and the list of locks is well formed and has
-- the file.
pub thread_client_handler-overwrites :
    (fuel : ℕ) (fresh : Ptr) (l : FileLockList) (h : Heap) (cells : Cells) (path old b : Bytes)
    (w : World) (rest : List Arrival)
    → IsLockList h l cells
    → fresh ≢ null
    → h fresh ≡ none
    → Arrives w (codes "WRITE") (length b) path rest
    → (o : IsOverwrite fuel path old b (behind_request w rest))
    → (l' : FileLockList) × (h' : Heap) × (w' : World) × (thread_client_handler fuel fresh
          (record { manager = some l; heap = h })
          w
        ≡ done (
          (
            wrlock (lock_of fresh path cells).0 ∷ unlock (lock_of fresh path cells).0 ∷ [],
            record { manager = some l'; heap = h' },
          ),
          closed w',
        ))
      × IsLockList h' l' (lock_of fresh path cells).1
      × (find path w'.fs.entries ≡ some (regular b))
      × (find o.version w'.fs.entries ≡ some (regular old))
      × (w'.socket.sent ≡ w.socket.sent ++ write_done)
thread_client_handler-overwrites fuel fresh l h cells path old b w rest is ne free text o =
    let (w', handled, file, version, sent) =
      handle_write_request-overwrites fuel (request write path (pos (length b))) old b
        (behind_request w rest) o.with_folders o.with_version_folder o.saved o.folder o.name
        o.version o.made o.made_version o.version_opened o.file_opened o.folders o.there o.parts
        o.place o.version_folders o.opens_version o.saves o.opens_file refl o.ready o.other_path
        o.enough_old o.enough_new in
    let (l', h', runs, is') =
      thread_client_handler_lem writes fuel (length b) fresh l h cells path w w' rest true is ne
        free text o.ready.memory handled in
    (l', h', w', runs, is', file, version, sent)
