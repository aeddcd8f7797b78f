-- ===== src/ThreadManager/Writing.antt =====
-- `threadClientHandler` for a WRITE, and a GET of the same file after it.
use remote_file_system.Prelude.{
  ℕ, ◌≡◌, ◌≢◌, ◌<◌, refl, ap, sym, ◌∙◌, Bool, true, false, none, some, List, [], ◌∷◌, ◌++◌, Bytes,
  codes, length, bytes_eq, done, arith,
}
use remote_file_system.Prelude.Int.{pos}
use remote_file_system.CString.Digits.{pow10}
use remote_file_system.Command.{write}
use remote_file_system.FileSystem.{FileSystem, reading, regular, left, find, open_read, open_write}
use remote_file_system.LockList.{Ptr, null, Heap, FileLockList}
use remote_file_system.LockList.Chain.{Cells, IsLockList}
use remote_file_system.LockList.Lookup.{lock_of}
use remote_file_system.Protocol.Request.{request}
use remote_file_system.Protocol.Response.{response_text}
use remote_file_system.RequestHandler.Storing.{IsReady, write_done}
use remote_file_system.RequestHandler.Write.{handle_write_request-new}
use remote_file_system.Socket.{Arrival, Accept}
use remote_file_system.ThreadManager.{
  LockAction, wrlock, rdlock, unlock, Locks, thread_client_handler,
}
use remote_file_system.ThreadManager.Connection.{closed, thread_client_handler-get}
use remote_file_system.ThreadManager.Working.{
  Arrives, behind_request, writes, thread_client_handler_lem, result-parts, next_connection,
}
use remote_file_system.World.{World}
use remote_file_system.Utils.Paths.{create_nested_directories}
use remote_file_system.Utils.Transfer.Sending.{after_sending}

-- A connection on which a WRITE of `b` to a path without a file arrives, where the list of locks is well
-- formed, `malloc` gives a new address, the file can be opened once its folders are made, the machine and
-- the connection are ready for `b`, and the fuel exceeds its length: the thread returns. It takes the write
-- lock of the file's node and gives it back; the file holds `b`, every other entry is as it was once the
-- folders were made; the client is sent the response of success and nothing else; the socket is closed; and
-- the list of locks is well formed and has the file.
pub thread_client_handler-write :
    (fuel : ℕ) (fresh : Ptr) (l : FileLockList) (h : Heap) (cells : Cells) (path b : Bytes)
    (w w1 : World) (rest : List Arrival) (made : Bool) (fs : FileSystem)
    → IsLockList h l cells
    → fresh ≢ null
    → h fresh ≡ none
    → Arrives w (codes "WRITE") (length b) path rest
    → IsReady (behind_request w rest) b
    → create_nested_directories path (behind_request w rest) ≡ done (made, w1)
    → open_read w1.fs path ≡ none
    → open_write w1.fs path ≡ some fs
    → length b < fuel
    → (l' : FileLockList) × (h' : Heap) × (w' : World) × (thread_client_handler fuel fresh
          (record { manager = some l; heap = h })
          w
        ≡ done (
          (
            wrlock (lock_of fresh path cells).0 ∷ unlock (lock_of fresh path cells).0 ∷ [],
            record { manager = some l'; heap = h' },
          ),
          closed w',
        ))
      × IsLockList h' l' (lock_of fresh path cells).1
      × (find path w'.fs.entries ≡ some (regular b))
      × ((q : Bytes) → bytes_eq path q ≡ false → find q w'.fs.entries ≡ find q w1.fs.entries)
      × (w'.socket.sent ≡ w.socket.sent ++ write_done)
thread_client_handler-write fuel fresh l h cells path b w w1 rest made fs is ne free text ready
      folders absent opens enough =
    let r = request write path (pos (length b)) in
    let w0 = behind_request w rest in
    let (w', handled, file, others, sent) =
      handle_write_request-new fuel r b w0 w1 made fs folders absent opens refl ready enough in
    let (l', h', runs, is') =
      thread_client_handler_lem writes fuel (length b) fresh l h cells path w w' rest true is ne
        free text ready.memory handled in
    (l', h', w', runs, is', file, others, sent)

pub open_read-regular :
    (fs : FileSystem) (path b : Bytes)
    → fs.denied reading path ≡ false
    → find path fs.entries ≡ some (regular b)
    → open_read fs path ≡ some (left b)
unfolding open_read
open_read-regular fs path b allowed e = ground (arith, allowed, e)

-- What was written is what is read: after a connection with a WRITE of `b`, as in the theorem above, a
-- connection with a GET of the same path, on the files and the locks that the first one left, with memory,
-- the right to read the file, a length of `b` that is no power of ten, more fuel than bytes and a network
-- that takes all it is given, locks the same node for reading, and sends the response and exactly `b`.
pub thread_client_handler-write_get :
    (fuel : ℕ) (fresh : Ptr) (l : FileLockList) (h : Heap) (cells : Cells) (path b : Bytes)
    (w w1 : World) (rest : List Arrival) (made : Bool) (fs : FileSystem)
    → IsLockList h l cells
    → fresh ≢ null
    → h fresh ≡ none
    → Arrives w (codes "WRITE") (length b) path rest
    → IsReady (behind_request w rest) b
    → create_nested_directories path (behind_request w rest) ≡ done (made, w1)
    → open_read w1.fs path ≡ none
    → open_write w1.fs path ≡ some fs
    → length b < fuel
    → (actions : List LockAction) (locks : Locks) (w' v : World)
    → thread_client_handler fuel fresh (record { manager = some l; heap = h }) w
      ≡ done ((actions, locks), w')
    → v.fs.entries ≡ w'.fs.entries
    → v.fs.denied reading path ≡ false
    → (n : ℕ) (later : List Arrival) → Arrives v (codes "GET") n path later
    → v.memory ≡ true
    → v.socket.accepts ≡ []
    → ((k : ℕ) → length b ≢ pow10 k)
    → (fresh' : Ptr) → fresh' ≢ null
    → locks.heap fresh' ≡ none
    → (locks' : Locks) × (accepts : List Accept) × (thread_client_handler fuel fresh' locks v
        ≡ done (
          (rdlock (lock_of fresh path cells).0 ∷ unlock (lock_of fresh path cells).0 ∷ [], locks'),
          closed (
              after_sending
                (behind_request v later)
                (response_text true (pos (length b)) (codes "OK") ++ b)
                accepts),
        ))
thread_client_handler-write_get fuel fresh l h cells path b w w1 rest made fs is ne free text ready
      folders absent opens enough actions locks w' v wrote same allowed n later text' memory takes
      no_power fresh' ne' free' =
    let (l', h', w'', e, is', file, others, sent) =
      thread_client_handler-write fuel fresh l h cells path b w w1 rest made fs is ne free text
        ready folders absent opens enough in
    let (_, same_locks, same_world) = result-parts (sym e ∙ wrote) in
    let nodes = (lock_of fresh path cells).1 in
    let there = ap (find path) same ∙ ap (λ u. find path u.fs.entries) (sym same_world) ∙ file in
    let (l'', h'', accepts, e', _) =
      thread_client_handler-get fuel n fresh' l' h' nodes path b v later is' ne'
        (ap (λ k. k.heap fresh') same_locks ∙ free') text'.fits text'.named text'.no_comma
        text'.no_nul text'.short memory text'.first takes
        (open_read-regular v.fs path b allowed there) no_power enough in
    (
      record { manager = some l''; heap = h'' },
      accepts,
      next_connection (λ q. rdlock q ∷ unlock q ∷ []) fuel fresh fresh' path cells locks
          (record { manager = some l'; heap = h' }) (record { manager = some l''; heap = h'' }) v
          (closed (
            after_sending (behind_request v later)
              (response_text true (pos (length b)) (codes "OK") ++ b) accepts))
          same_locks e',
    )
