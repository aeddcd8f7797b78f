-- ===== src/RequestHandler/Write.antt =====
-- `handleWriteRequest`: the new contents are stored and the old ones are kept.
use remote_file_system.Prelude.{
  ℕ, ◌<◌, ◌≡◌, ap, sym, ◌∙◌, Bool, true, false, none, some, [], ◌++◌, Bytes, length, bytes_eq, done,
  running,
}
use mathlib.Core.Path.{subst}
use remote_file_system.Prelude.Int.{pos}
use remote_file_system.FileSystem.{FileSystem, regular, left, find, open_read, open_write}
use remote_file_system.Protocol.Request.{Request}
use remote_file_system.RequestHandler.{
  split_path, version_path, save_current_version, handle_write_request,
}
use remote_file_system.RequestHandler.Versions.{
  Saved, save_current_version-new, save_current_version-Saved,
}
use remote_file_system.Socket.Laws.{Delivers}
use remote_file_system.World.{World}
use remote_file_system.Utils.Paths.{create_nested_directories}
use remote_file_system.Utils.Transfer.{receive_file_contents}
use remote_file_system.Utils.Transfer.Broken.{receive_file_contents-early_close}
use remote_file_system.Utils.Transfer.Sending.{after_sending}
use remote_file_system.RequestHandler.Storing.{
  never_returns, write_done, same_world, folder_rest, Saved-SameRest, SameRest-trans, IsReady,
  IsReady-SameRest, receives,
}

-- A WRITE of `b` to a path at which there is no file, where the file can be opened once its folders are
-- made, the machine and the connection are ready for `b`, and the fuel exceeds its length: the handler
-- returns, the file holds `b`, every other entry is as it was once the folders were made, and the
-- client is sent the response of success and nothing else.
pub handle_write_request-new :
    (fuel : ℕ) (r : Request) (b : Bytes) (w w1 : World) (made : Bool) (fs : FileSystem)
    → create_nested_directories r.remote_path w ≡ done (made, w1)
    → open_read w1.fs r.remote_path ≡ none
    → open_write w1.fs r.remote_path ≡ some fs
    → r.data_len ≡ pos (length b)
    → IsReady w b
    → length b < fuel
    → (w' : World) × (handle_write_request fuel r w ≡ done (true, w'))
      × (find r.remote_path w'.fs.entries ≡ some (regular b))
      × ((q : Bytes)
          → bytes_eq r.remote_path q ≡ false
          → find q w'.fs.entries ≡ find q w1.fs.entries)
      × (w'.socket.sent ≡ w.socket.sent ++ write_done)
handle_write_request-new fuel r b w w1 made fs c missing writable len ready lt =
    let same = folder_rest r.remote_path w w1 made c in
    let (w3, e, st) =
      receives fuel r b w w1 w1 made fs c (save_current_version-new fuel r.remote_path w1 missing)
        writable len (IsReady-SameRest w w1 b ready same) lt in
    (
      after_sending w3 write_done [],
      e,
      st.file,
      st.others,
      ap (λ v. v.socket.sent ++ write_done) st.same_rest
          ∙ ap (λ s. s.sent ++ write_done) same.socket,
    )

-- A WRITE of `b` to a path at which there is the file `old`, whose version gets the path `version`,
-- another path: where the folders are made and the two files can be opened, the machine and the
-- connection are ready for `b`, and the fuel exceeds both lengths, the handler returns, the file holds
-- `b`, the version holds `old`, and the client is sent the response of success and nothing else.
pub handle_write_request-overwrites :
    (fuel : ℕ) (r : Request) (old b : Bytes) (w w1 v1 w2 : World) (folder name version : Bytes)
    (made made' : Bool) (fs fs' : FileSystem)
    → create_nested_directories r.remote_path w ≡ done (made, w1)
    → open_read w1.fs r.remote_path ≡ some (left old)
    → split_path r.remote_path ≡ done (some (folder, name))
    → version_path w1.memory w1.now folder name ≡ done version
    → create_nested_directories version w1 ≡ done (made', v1)
    → open_write v1.fs version ≡ some fs
    → save_current_version fuel r.remote_path w1 ≡ done (true, w2)
    → open_write w2.fs r.remote_path ≡ some fs'
    → r.data_len ≡ pos (length b)
    → IsReady w b
    → bytes_eq r.remote_path version ≡ false
    → length old < fuel
    → length b < fuel
    → (w' : World) × (handle_write_request fuel r w ≡ done (true, w'))
      × (find r.remote_path w'.fs.entries ≡ some (regular b))
      × (find version w'.fs.entries ≡ some (regular old))
      × (w'.socket.sent ≡ w.socket.sent ++ write_done)
handle_write_request-overwrites fuel r old b w w1 v1 w2 folder name version made made' fs fs' c o
      parts named c' writable saved writable' len ready apart lt_old lt_b =
    let same1 = folder_rest r.remote_path w w1 made c in
    let (u, e, s) =
      save_current_version-Saved fuel r.remote_path old w1 v1 folder name version made' fs o parts
        named c' writable (same1.disk_full ∙ ready.room) lt_old in
    let s' = subst (λ v. Saved version old w1 v) (same_world (sym e ∙ saved)) s in
    let same = SameRest-trans w w1 w2 same1 (Saved-SameRest version old w1 w2 s') in
    let (w3, done_so, st) =
      receives fuel r b w w1 w2 made fs' c saved writable' len (IsReady-SameRest w w2 b ready same)
        lt_b in
    (
      after_sending w3 write_done [],
      done_so,
      st.file,
      st.others version apart ∙ s'.kept,
      ap (λ v. v.socket.sent ++ write_done) st.same_rest
          ∙ ap (λ t. t.sent ++ write_done) same.socket,
    )

-- A client that closes the connection before it has sent the bytes that it announced leaves the
-- handler, and with it the write lock of the file, busy for ever, whatever the fuel.
pub handle_write_request-early_close :
    (fuel n : ℕ) (r : Request) (b : Bytes) (w w1 : World) (made : Bool) (fs : FileSystem)
    → create_nested_directories r.remote_path w ≡ done (made, w1)
    → open_read w1.fs r.remote_path ≡ none
    → open_write w1.fs r.remote_path ≡ some fs
    → r.data_len ≡ pos n
    → Delivers w.socket.arrivals b
    → length b < n
    → handle_write_request fuel r w ≡ running
handle_write_request-early_close fuel n r b w w1 made fs c missing writable len d lt =
    let same = folder_rest r.remote_path w w1 made c in
    never_returns fuel r w w1 w1 w1 w1 made true true c
      (save_current_version-new fuel r.remote_path w1 missing)
      (ap (λ k. receive_file_contents fuel r.remote_path k w1) len
        ∙ receive_file_contents-early_close fuel r.remote_path n b w1 fs writable
            (subst (λ s. Delivers s.arrivals b) (sym same.socket) d) lt)
