-- ===== src/EndToEnd/Removing.antt =====
-- An RM from the client to the server's file.
use remote_file_system.Prelude.{
  ℕ, ◌≡◌, ◌≢◌, refl, sym, ap, ◌∙◌, ◌⊎◌, true, false, none, some, [], ◌∷◌, ◌++◌, Bytes, codes, done,
  arith, bytes_eq, append-nil,
}
use remote_file_system.Prelude.Int.{pos}
use remote_file_system.Client.{response_report, client_session}
use remote_file_system.Client.Session.{command_for}
use remote_file_system.Client.Answers.{Answers, client_session-remove}
use remote_file_system.Command.{returned, rm}
use remote_file_system.FileSystem.{find, readdir}
use remote_file_system.LockList.{Ptr, null, Heap, FileLockList}
use remote_file_system.LockList.Chain.{Cells, IsLockList}
use remote_file_system.LockList.Lookup.{lock_of}
use remote_file_system.Protocol.Request.{request_text}
use remote_file_system.Protocol.Response.{response, response_text}
use remote_file_system.RequestHandler.Remove.{matched}
use remote_file_system.Socket.{bytes}
use remote_file_system.Socket.Laws.{Delivers, Delivers-first}
use remote_file_system.ThreadManager.{wrlock, unlock, thread_client_handler}
use remote_file_system.ThreadManager.Working.{Arrives, behind_request}
use remote_file_system.ThreadManager.Removing.{Removal, thread_client_handler-remove}
use remote_file_system.World.{World}

-- the response to an RM that succeeded
abbrev pub remove_done : Bytes
remove_done = response_text true (pos 0) (codes "OK")

-- The client `c` and the thread `w` are ready for the RM of a file that can be removed with its versions.
pub record IsRemove (remote : Bytes) (c w : World) : Type 0 where
  pub memory : c.memory ≡ true
  pub takes : c.socket.accepts ≡ []
  pub answer : c.socket.arrivals ≡ bytes remove_done ∷ []
  pub request : Arrives w (codes "RM") 0 remote []
  pub server_memory : w.memory ≡ true
  pub removal : Removal (behind_request w []) remote
  pub client_silent : c.socket.sent ≡ []
  pub server_silent : removal.after.socket.sent ≡ []

success_report : response_report (response true (codes "OK") (pos 0)) ≡ codes "\nSUCCESS\n"
unfolding response_report
success_report = refl

-- An RM reaches the server: where the client and the thread are ready for it, with a well-formed list of
-- locks and a new address from `malloc`, both return; what arrives at the thread is what the client sent, and
-- what arrives at the client is what the thread sent; the file and each listed version are gone, every other
-- entry is as it was, and the client reports a success.
pub client_session-remove_arrives :
    (fuel : ℕ) (ip local remote : Bytes) (c w : World) (fresh : Ptr) (l : FileLockList) (h : Heap)
    (cells : Cells)
    → (ready : IsRemove remote c w) → IsLockList h l cells
    → fresh ≢ null
    → h fresh ≡ none
    → (c' : World) × (l' : FileLockList) × (h' : Heap) × (w' : World) × (client_session fuel
          (command_for rm ip local remote)
          c
        ≡ done (returned tt, c'))
      × (thread_client_handler fuel fresh (record { manager = some l; heap = h }) w
          ≡ done (
            (
              wrlock (lock_of fresh remote cells).0 ∷ unlock (lock_of fresh remote cells).0 ∷ [],
              record { manager = some l'; heap = h' },
            ),
            w',
          ))
      × Delivers w.socket.arrivals c'.socket.sent
      × Delivers c.socket.arrivals w'.socket.sent
      × (find remote w'.fs.entries ≡ none)
      × ((q : Bytes)
          → (matched ready.removal.versions ready.removal.base q
                (readdir ready.removal.versions ready.removal.fs.entries)
              ≡ false)
            ⊎ (find q w'.fs.entries ≡ none))
      × ((q : Bytes)
          → ((matched ready.removal.versions ready.removal.base q
                  (readdir ready.removal.versions ready.removal.fs.entries)
                ≡ true)
              ⊎ (bytes_eq remote q ≡ true))
            ⊎ (find q w'.fs.entries ≡ find q w.fs.entries))
      × (c'.printed ≡ c.printed ++ codes "\nSUCCESS\n")
client_session-remove_arrives fuel ip local remote c w fresh l h cells ready is ne free =
    let text = request_text (codes "RM") (pos 0) remote in
    let answers : Answers c.socket.arrivals true 0 (codes "OK") [] = record {
      fits = omega arith;
      told = refl;
      no_comma = ground arith;
      no_nul = ground arith;
      short = omega arith;
      first = ready.answer;
    } in
    let (c', asked, sent, printed, _, _) =
      client_session-remove fuel ip local remote c true 0 (codes "OK") [] ready.memory ready.takes
        answers in
    let (l', h', served, _, gone, versions_gone, others) =
      thread_client_handler-remove fuel 0 fresh l h cells remote w [] is ne free ready.request
        ready.server_memory ready.removal in
    (
      c',
      l',
      h',
      _,
      asked,
      served,
      Delivers-first text [] c'.socket.sent [] w.socket.arrivals refl ready.request.first refl
          (sent ∙ ap (λ s. s ++ text) ready.client_silent ∙ sym (append-nil text)),
      Delivers-first remove_done [] _ [] c.socket.arrivals refl ready.answer refl
          (ap (λ s. s ++ remove_done) ready.server_silent ∙ sym (append-nil remove_done)),
      gone,
      versions_gone,
      others,
      printed ∙ ap (λ t. c.printed ++ t) success_report,
    )
