-- ===== src/EndToEnd/Replacing.antt =====
-- A WRITE from the client's file over a file of the server.
use remote_file_system.Prelude.{
  ℕ, ◌≡◌, ◌≢◌, refl, sym, ap, ◌∙◌, true, none, some, List, [], ◌∷◌, ◌++◌, Bytes, codes, length,
  done, append-nil,
}
use remote_file_system.Client.{client_session}
use remote_file_system.Client.Session.{write_command}
use remote_file_system.Client.Answers.{client_session-write}
use remote_file_system.Command.{returned}
use remote_file_system.CString.Digits.{pow10}
use remote_file_system.EndToEnd.Putting.{success-Answers, success_report}
use remote_file_system.FileSystem.{regular, left, find, open_read}
use remote_file_system.LockList.{Ptr, null, Heap, FileLockList}
use remote_file_system.LockList.Chain.{Cells, IsLockList}
use remote_file_system.LockList.Lookup.{lock_of}
use remote_file_system.Protocol.Request.{request_text}
use remote_file_system.Prelude.Int.{pos}
use remote_file_system.RequestHandler.Storing.{write_done}
use remote_file_system.Socket.{Arrival, bytes}
use remote_file_system.Socket.Laws.{Delivers, Delivers-first}
use remote_file_system.ThreadManager.{wrlock, unlock, thread_client_handler}
use remote_file_system.ThreadManager.Connection.{closed}
use remote_file_system.ThreadManager.Overwriting.{IsOverwrite, thread_client_handler-overwrites}
use remote_file_system.ThreadManager.Working.{Arrives, behind_request}
use remote_file_system.World.{World}

-- The client `c`, whose file `local` holds `b`, and the thread `w`, on which a request for `remote` and then
-- `b` in blocks of any size arrive, are ready for the WRITE of `b` over a file that holds `old`.
pub record IsReplacement (fuel : ℕ) (local remote old b : Bytes) (c w : World) : Type 0 where
  pub blocks : List Arrival
  pub local_file : open_read c.fs local ≡ some (left b)
  pub no_power : (k : ℕ) → length b ≢ pow10 k
  pub memory : c.memory ≡ true
  pub takes : c.socket.accepts ≡ []
  pub answer : c.socket.arrivals ≡ bytes write_done ∷ []
  pub request : Arrives w (codes "WRITE") (length b) remote blocks
  pub overwrite : IsOverwrite fuel remote old b (behind_request w blocks)
  pub client_silent : c.socket.sent ≡ []
  pub server_silent : w.socket.sent ≡ []

-- A WRITE over a file that is there: where the client and the thread are ready for it, and the file can be saved
-- and overwritten, with a well-formed list of locks and a new address from `malloc`, both return; what arrives
-- at the thread is what the client sent, and what arrives at the client is what the thread sent; the thread
-- takes the write lock of the file and gives it back; the file on the server holds the bytes of the client's
-- file, and its version holds the bytes that it held before; the client reports a success, and the list of
-- locks is well formed and has the file.
pub client_session-write_replaces :
    (fuel : ℕ) (ip local remote old b : Bytes) (c w : World) (fresh : Ptr) (l : FileLockList)
    (h : Heap) (cells : Cells)
    → (put : IsReplacement fuel local remote old b c w) → IsLockList h l cells
    → fresh ≢ null
    → h fresh ≡ none
    → (c' : World) × (l' : FileLockList) × (h' : Heap) × (w' : World) × (client_session fuel
          (write_command ip local remote)
          c
        ≡ done (returned tt, c'))
      × (thread_client_handler fuel fresh (record { manager = some l; heap = h }) w
          ≡ done (
            (
              wrlock (lock_of fresh remote cells).0 ∷ unlock (lock_of fresh remote cells).0 ∷ [],
              record { manager = some l'; heap = h' },
            ),
            w',
          ))
      × IsLockList h' l' (lock_of fresh remote cells).1
      × Delivers w.socket.arrivals c'.socket.sent
      × Delivers c.socket.arrivals w'.socket.sent
      × (find remote w'.fs.entries ≡ some (regular b))
      × (find put.overwrite.version w'.fs.entries ≡ some (regular old))
      × (c'.printed ≡ c.printed ++ codes "\nSUCCESS\n")
client_session-write_replaces fuel ip local remote old b c w fresh l h cells put is ne free =
    let text = request_text (codes "WRITE") (pos (length b)) remote in
    let (c', asked, sent, printed, _, _) =
      client_session-write fuel ip local remote b c true 0 (codes "NULL") [] put.local_file
        put.no_power put.overwrite.enough_new put.memory put.takes
        (success-Answers c.socket.arrivals put.answer) in
    let (l', h', w', served, is', file, version, replied) =
      thread_client_handler-overwrites fuel fresh l h cells remote old b w put.blocks is ne free
        put.request put.overwrite in
    (
      c',
      l',
      h',
      closed w',
      asked,
      served,
      is',
      Delivers-first text b c'.socket.sent put.blocks w.socket.arrivals refl put.request.first
          put.overwrite.ready.delivers (sent ∙ ap (λ s. s ++ (text ++ b)) put.client_silent),
      Delivers-first write_done [] w'.socket.sent [] c.socket.arrivals refl put.answer refl
          (replied ∙ ap (λ s. s ++ write_done) put.server_silent ∙ sym (append-nil write_done)),
      file,
      version,
      printed ∙ ap (λ t. c.printed ++ t) success_report,
    )
