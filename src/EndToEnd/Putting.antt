-- ===== src/EndToEnd/Putting.antt =====
-- A WRITE from the client's file to the server's.
use remote_file_system.Prelude.{
  ℕ, ◌≡◌, ◌≢◌, ◌<◌, refl, sym, ap, ◌∙◌, Bool, true, none, some, List, [], ◌∷◌, ◌++◌, Bytes, codes,
  length, done, arith, append-nil,
}
use remote_file_system.Prelude.Int.{pos}
use remote_file_system.Client.{response_report, client_session}
use remote_file_system.Client.Session.{write_command}
use remote_file_system.Client.Answers.{Answers, client_session-write}
use remote_file_system.Command.{returned}
use remote_file_system.CString.Digits.{pow10}
use remote_file_system.FileSystem.{FileSystem, regular, left, find, open_read, open_write}
use remote_file_system.LockList.{Ptr, null, Heap, FileLockList}
use remote_file_system.LockList.Chain.{Cells, IsLockList}
use remote_file_system.LockList.Lookup.{lock_of}
use remote_file_system.Protocol.Request.{request_text}
use remote_file_system.Protocol.Response.{response}
use remote_file_system.RequestHandler.Storing.{IsReady, write_done}
use remote_file_system.Socket.{Arrival, bytes}
use remote_file_system.Socket.Laws.{Delivers, Delivers-first}
use remote_file_system.ThreadManager.{wrlock, unlock, thread_client_handler}
use remote_file_system.ThreadManager.Connection.{closed}
use remote_file_system.ThreadManager.Working.{Arrives, behind_request}
use remote_file_system.ThreadManager.Writing.{thread_client_handler-write}
use remote_file_system.Utils.Paths.{create_nested_directories}
use remote_file_system.World.{World}

-- The client `c`, whose file `local` holds `b`, and the thread `w`, on which a request for `remote` and then
-- `b` in blocks of any size arrive, are ready for the WRITE of `b` to a path without a file.
pub record IsPut (fuel : ℕ) (local remote b : Bytes) (c w : World) : Type 0 where
  pub blocks : List Arrival
  pub made : Bool
  pub with_folders : World
  pub opened : FileSystem
  pub local_file : open_read c.fs local ≡ some (left b)
  pub no_power : (k : ℕ) → length b ≢ pow10 k
  pub enough : length b < fuel
  pub memory : c.memory ≡ true
  pub takes : c.socket.accepts ≡ []
  pub answer : c.socket.arrivals ≡ bytes write_done ∷ []
  pub request : Arrives w (codes "WRITE") (length b) remote blocks
  pub ready : IsReady (behind_request w blocks) b
  pub folders :
      create_nested_directories remote (behind_request w blocks) ≡ done (made, with_folders)
  pub absent : open_read with_folders.fs remote ≡ none
  pub opens : open_write with_folders.fs remote ≡ some opened
  pub client_silent : c.socket.sent ≡ []
  pub server_silent : w.socket.sent ≡ []

pub success_report : response_report (response true (codes "NULL") (pos 0)) ≡ codes "\nSUCCESS\n"
unfolding response_report
success_report = refl

-- the server's answer to a WRITE that succeeded, as the client reads it
pub success-Answers :
    (arrivals : List Arrival)
    → arrivals ≡ bytes write_done ∷ []
    → Answers arrivals true 0 (codes "NULL") []
success-Answers arrivals e = record {
  fits = omega arith;
  told = refl;
  no_comma = ground arith;
  no_nul = ground arith;
  short = omega arith;
  first = e;
}

-- A WRITE reaches the server: where the client and the thread are ready for it, with a well-formed list of
-- locks and a new address from `malloc`, both return; what arrives at the thread is what the client sent, and
-- what arrives at the client is what the thread sent; the file on the server holds the bytes of the client's
-- file, the client reports a success, and the list of locks is well formed and has the file.
pub client_session-write_arrives :
    (fuel : ℕ) (ip local remote b : Bytes) (c w : World) (fresh : Ptr) (l : FileLockList) (h : Heap)
    (cells : Cells)
    → IsPut fuel local remote b c w
    → IsLockList h l cells
    → fresh ≢ null
    → h fresh ≡ none
    → (c' : World) × (l' : FileLockList) × (h' : Heap) × (w' : World) × (client_session fuel
          (write_command ip local remote)
          c
        ≡ done (returned tt, c'))
      × (thread_client_handler fuel fresh (record { manager = some l; heap = h }) w
          ≡ done (
            (
              wrlock (lock_of fresh remote cells).0 ∷ unlock (lock_of fresh remote cells).0 ∷ [],
              record { manager = some l'; heap = h' },
            ),
            w',
          ))
      × IsLockList h' l' (lock_of fresh remote cells).1
      × Delivers w.socket.arrivals c'.socket.sent
      × Delivers c.socket.arrivals w'.socket.sent
      × (find remote w'.fs.entries ≡ some (regular b))
      × (c'.printed ≡ c.printed ++ codes "\nSUCCESS\n")
client_session-write_arrives fuel ip local remote b c w fresh l h cells put is ne free =
    let text = request_text (codes "WRITE") (pos (length b)) remote in
    let (c', asked, sent, printed, _, _) =
      client_session-write fuel ip local remote b c true 0 (codes "NULL") [] put.local_file
        put.no_power put.enough put.memory put.takes
        (success-Answers c.socket.arrivals put.answer) in
    let (l', h', w', served, is', file, _, replied) =
      thread_client_handler-write fuel fresh l h cells remote b w put.with_folders put.blocks
        put.made put.opened is ne free put.request put.ready put.folders put.absent put.opens
        put.enough in
    (
      c',
      l',
      h',
      closed w',
      asked,
      served,
      is',
      Delivers-first text b c'.socket.sent put.blocks w.socket.arrivals refl put.request.first
          put.ready.delivers (sent ∙ ap (λ s. s ++ (text ++ b)) put.client_silent),
      Delivers-first write_done [] w'.socket.sent [] c.socket.arrivals refl put.answer refl
          (replied ∙ ap (λ s. s ++ write_done) put.server_silent ∙ sym (append-nil write_done)),
      file,
      printed ∙ ap (λ t. c.printed ++ t) success_report,
    )
