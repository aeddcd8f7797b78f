-- ===== src/ThreadManager/Removing.antt =====
-- `threadClientHandler` for an RM, and a GET of the same file after it.
use remote_file_system.Prelude.{
  ℕ, ◌≡◌, ◌≢◌, ap, sym, ◌∙◌, ◌⊎◌, true, false, none, some, List, [], ◌∷◌, Bytes, codes, bytes_eq,
  done, arith,
}
use remote_file_system.Prelude.Int.{pos}
use remote_file_system.Command.{rm, get}
use remote_file_system.FileSystem
use remote_file_system.FileSystem.{FileSystem, find, open_read, is_directory, readdir}
use remote_file_system.LockList.{Ptr, null, Heap, FileLockList}
use remote_file_system.LockList.Chain.{Cells, IsLockList}
use remote_file_system.LockList.Lookup.{lock_of}
use remote_file_system.Protocol.Request.{request}
use remote_file_system.Protocol.Response.{response_text}
use remote_file_system.RequestHandler.{split_path, version_folder, remove_versions}
use remote_file_system.RequestHandler.Remove.{matched}
use remote_file_system.RequestHandler.RemoveAll.{handle_remove_request-removes}
use remote_file_system.RequestHandler.Get.{handle_get_request-missing}
use remote_file_system.Socket.{Arrival}
use remote_file_system.ThreadManager.{
  LockAction, wrlock, rdlock, unlock, Locks, thread_client_handler,
}
use remote_file_system.ThreadManager.Connection.{closed}
use remote_file_system.ThreadManager.Working.{
  Arrives, behind_request, removes, gets, thread_client_handler_lem, result-parts, next_connection,
}
use remote_file_system.World.{World, with_fs}
use remote_file_system.Utils.Transfer.Sending.{after_sending}

-- The file at `path` can be removed, its version folder is there, and all its versions can be removed, with
-- memory and a network that takes all it is given. `after` is the world without them.
pub record Removal (w : World) (path : Bytes) : Type 0 where
  pub fs : FileSystem
  pub folder : Bytes
  pub base : Bytes
  pub versions : Bytes
  pub after : World
  pub unlinked : FileSystem.remove w.fs path ≡ (true, fs)
  pub parts : split_path path ≡ done (some (folder, base))
  pub place : version_folder folder ≡ done versions
  pub there : is_directory fs versions ≡ true
  pub all_removed :
      remove_versions versions base (readdir versions fs.entries) true (with_fs w fs)
      ≡ done (true, after)
  pub memory : after.memory ≡ true
  pub takes : after.socket.accepts ≡ []

-- A connection on which an RM arrives, with memory, a well-formed list of locks and a new address from
-- `malloc`, for a file that can be removed with all its versions: the thread returns. It takes the write
-- lock of the file's node and gives it back; the client is sent the response of success, and the socket is
-- closed; the file and each listed version are gone, and every other entry is as it was; and the list of
-- locks is well formed and has the file.
pub thread_client_handler-remove :
    (fuel n : ℕ) (fresh : Ptr) (l : FileLockList) (h : Heap) (cells : Cells) (path : Bytes)
    (w : World) (rest : List Arrival)
    → IsLockList h l cells
    → fresh ≢ null
    → h fresh ≡ none
    → Arrives w (codes "RM") n path rest
    → w.memory ≡ true
    → (r : Removal (behind_request w rest) path)
    → (l' : FileLockList) × (h' : Heap) × (thread_client_handler fuel fresh
          (record { manager = some l; heap = h })
          w
        ≡ done (
          (
            wrlock (lock_of fresh path cells).0 ∷ unlock (lock_of fresh path cells).0 ∷ [],
            record { manager = some l'; heap = h' },
          ),
          closed (after_sending r.after (response_text true (pos 0) (codes "OK")) []),
        ))
      × IsLockList h' l' (lock_of fresh path cells).1
      × (find path r.after.fs.entries ≡ none)
      × ((q : Bytes)
          → (matched r.versions r.base q (readdir r.versions r.fs.entries) ≡ false)
            ⊎ (find q r.after.fs.entries ≡ none))
      × ((q : Bytes)
          → ((matched r.versions r.base q (readdir r.versions r.fs.entries) ≡ true)
              ⊎ (bytes_eq path q ≡ true))
            ⊎ (find q r.after.fs.entries ≡ find q w.fs.entries))
thread_client_handler-remove fuel n fresh l h cells path w rest is ne free text memory r =
    let (handled, gone, versions_gone, others) =
      handle_remove_request-removes (request rm path (pos n)) (behind_request w rest) r.after r.fs
        r.folder r.base r.versions text.named r.unlinked r.parts r.place r.there r.all_removed
        r.memory r.takes in
    let (l', h', runs, is') =
      thread_client_handler_lem removes fuel n fresh l h cells path w
        (after_sending r.after (response_text true (pos 0) (codes "OK")) []) rest true is ne free
        text memory handled in
    (l', h', runs, is', gone, versions_gone, others)

open_read-none :
    (fs : FileSystem) (path : Bytes) → find path fs.entries ≡ none → open_read fs path ≡ none
unfolding open_read
open_read-none fs path e = ground (arith, e)

-- what a GET of a file that is not there is answered with
abbrev pub no_such_file : Bytes
no_such_file =
    response_text false (pos 0) (codes "unable to open and/or get size of the requested file")

-- A file that was removed is gone for the next client: after a connection with an RM, as in the theorem
-- above, a connection with a GET of the same path, on the files and the locks that the first one left, with
-- memory and a network that takes all it is given, locks the same node for reading, and sends the error and
-- nothing else.
pub thread_client_handler-remove_get :
    (fuel n : ℕ) (fresh : Ptr) (l : FileLockList) (h : Heap) (cells : Cells) (path : Bytes)
    (w : World) (rest : List Arrival)
    → IsLockList h l cells
    → fresh ≢ null
    → h fresh ≡ none
    → Arrives w (codes "RM") n path rest
    → w.memory ≡ true
    → Removal (behind_request w rest) path
    → (actions : List LockAction) (locks : Locks) (w' v : World)
    → thread_client_handler fuel fresh (record { manager = some l; heap = h }) w
      ≡ done ((actions, locks), w')
    → v.fs.entries ≡ w'.fs.entries
    → (m : ℕ) (later : List Arrival) → Arrives v (codes "GET") m path later
    → v.memory ≡ true
    → v.socket.accepts ≡ []
    → (fresh' : Ptr) → fresh' ≢ null
    → locks.heap fresh' ≡ none
    → (locks' : Locks) × (thread_client_handler fuel fresh' locks v
        ≡ done (
          (rdlock (lock_of fresh path cells).0 ∷ unlock (lock_of fresh path cells).0 ∷ [], locks'),
          closed (after_sending (behind_request v later) no_such_file []),
        ))
thread_client_handler-remove_get fuel n fresh l h cells path w rest is ne free text memory r actions
      locks w' v removed same m later text' memory' takes' fresh' ne' free' =
    let (l', h', e, is', gone, _, _) =
      thread_client_handler-remove fuel n fresh l h cells path w rest is ne free text memory r in
    let (_, same_locks, same_world) = result-parts (sym e ∙ removed) in
    let nodes = (lock_of fresh path cells).1 in
    let absent = ap (find path) same ∙ ap (λ u. find path u.fs.entries) (sym same_world) ∙ gone in
    let (l'', h'', e', _) =
      thread_client_handler_lem gets fuel m fresh' l' h' nodes path v
        (after_sending (behind_request v later) no_such_file []) later true is' ne'
        (ap (λ k. k.heap fresh') same_locks ∙ free') text' memory'
        (handle_get_request-missing fuel (request get path (pos m)) (behind_request v later)
          (open_read-none v.fs path absent) memory' takes') in
    (
      record { manager = some l''; heap = h'' },
      next_connection (λ q. rdlock q ∷ unlock q ∷ []) fuel fresh fresh' path cells locks
          (record { manager = some l'; heap = h' }) (record { manager = some l''; heap = h'' }) v
          (closed (after_sending (behind_request v later) no_such_file [])) same_locks e',
    )
