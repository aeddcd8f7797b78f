-- ===== src/RequestHandler/Storing.antt =====
-- The parts of `handleWriteRequest`, and what it leaves alone.
use remote_file_system.Prelude.{
  ℕ, ◌<◌, ◌≡◌, ap, sym, ◌∙◌, Bool, true, false, some, [], Bytes, codes, length, Run, done,
  undefined, running, arith,
}
use mathlib.Core.Path.{subst}
use remote_file_system.Prelude.Int.{pos}
use remote_file_system.CString.Digits.{zero_no_power}
use remote_file_system.FileSystem.{FileSystem, open_write}
use remote_file_system.Protocol.Request.{Request}
use remote_file_system.Protocol.Response.{response_text}
use remote_file_system.Protocol.Transmit.{build_and_send_response}
use remote_file_system.Protocol.Delivery.{build_and_send_response-sends}
use remote_file_system.RequestHandler.{save_current_version, handle_write_request}
use remote_file_system.RequestHandler.Versions.{Saved}
use remote_file_system.Socket.Laws.{Delivers}
use remote_file_system.World.{World}
use remote_file_system.Utils.Paths.{create_nested_directories}
use remote_file_system.Utils.Paths.Nested.{create_nested_directories-FolderReady}
use remote_file_system.Utils.Transfer.{receive_file_contents}
use remote_file_system.Utils.Transfer.Sending.{after_sending}
use remote_file_system.Utils.Transfer.Receiving.{Stored, receive_file_contents-stores}

module _ (fuel : ℕ) (r : Request) (w w1 w2 w3 w4 : World) (made ok sent : Bool) where
  runs :
      create_nested_directories r.remote_path w ≡ done (made, w1)
      → save_current_version fuel r.remote_path w1 ≡ done (true, w2)
      → receive_file_contents fuel r.remote_path r.data_len w2 ≡ done (ok, w3)
      → build_and_send_response ok (pos 0) (some []) w3 ≡ done (sent, w4)
      → handle_write_request fuel r w ≡ done (sent, w4)
  unfolding handle_write_request
  runs a b c d = ground (arith, a, b, c, d)

  pub refuses :
      create_nested_directories r.remote_path w ≡ done (made, w1)
      → save_current_version fuel r.remote_path w1 ≡ done (false, w2)
      → build_and_send_response false (pos 0) (some []) w2 ≡ done (sent, w4)
      → handle_write_request fuel r w ≡ done (sent, w4)
  unfolding handle_write_request
  refuses a b d = ground (arith, a, b, d)

  crashes :
      create_nested_directories r.remote_path w ≡ done (made, w1)
      → save_current_version fuel r.remote_path w1 ≡ undefined
      → handle_write_request fuel r w ≡ undefined
  unfolding handle_write_request
  crashes a b = ground (arith, a, b)

  pub never_returns :
      create_nested_directories r.remote_path w ≡ done (made, w1)
      → save_current_version fuel r.remote_path w1 ≡ done (true, w2)
      → receive_file_contents fuel r.remote_path r.data_len w2 ≡ running
      → handle_write_request fuel r w ≡ running
  unfolding handle_write_request
  never_returns a b c = ground (arith, a, b, c)

-- the text of the response to a WRITE that succeeded
abbrev pub write_done : Bytes
write_done = response_text true (pos 0) (codes "NULL")

-- the response, once the contents are stored
responds :
    (path b : Bytes) (w2 w3 : World)
    → w2.memory ≡ true
    → w2.socket.accepts ≡ []
    → Stored path [] b w2 w3
    → build_and_send_response true (pos 0) (some []) w3
      ≡ done (true, after_sending w3 write_done [])
responds path b w2 w3 memory takes st =
    build_and_send_response-sends w3 true [] (ap (λ v. v.memory) st.same_rest ∙ memory) 0
      zero_no_power (ap (λ v. v.socket.accepts) st.same_rest ∙ takes)

pub same_world :
    {w w' : World} → ◌≡◌ {A = Run (Bool × World)} (done (true, w)) (done (true, w')) → w ≡ w'
same_world e = ground arith

-- What the file system calls leave alone.
pub record SameRest (w w' : World) : Type 0 where
  pub memory : w'.memory ≡ w.memory
  pub socket : w'.socket ≡ w.socket
  pub disk_full : w'.fs.disk_full ≡ w.fs.disk_full

pub folder_rest :
    (path : Bytes) (w w1 : World) (made : Bool)
    → create_nested_directories path w ≡ done (made, w1)
    → SameRest w w1
folder_rest path w w1 made e =
    let f = create_nested_directories-FolderReady path w w1 made e in
    record {
      memory = ap (λ v. v.memory) f.same;
      socket = ap (λ v. v.socket) f.same;
      disk_full = ap (λ v. v.disk_full) f.extends.same;
    }

pub Saved-SameRest : (version old : Bytes) (w w' : World) → Saved version old w w' → SameRest w w'
Saved-SameRest version old w w' s = record {
  memory = ap (λ v. v.memory) s.same;
  socket = ap (λ v. v.socket) s.same;
  disk_full = ap (λ v. v.disk_full) s.same_files;
}

pub SameRest-trans : (u v w : World) → SameRest u v → SameRest v w → SameRest u w
SameRest-trans u v w x y = record {
  memory = y.memory ∙ x.memory;
  socket = y.socket ∙ x.socket;
  disk_full = y.disk_full ∙ x.disk_full;
}

-- what the connection and the machine must offer for a transfer of `b`
pub record IsReady (w : World) (b : Bytes) : Type 0 where
  pub memory : w.memory ≡ true
  pub takes : w.socket.accepts ≡ []
  pub room : w.fs.disk_full ≡ false
  pub delivers : Delivers w.socket.arrivals b

pub IsReady-SameRest : (w w' : World) (b : Bytes) → IsReady w b → SameRest w w' → IsReady w' b
IsReady-SameRest w w' b ready same = record {
  memory = same.memory ∙ ready.memory;
  takes = ap (λ s. s.accepts) same.socket ∙ ready.takes;
  room = same.disk_full ∙ ready.room;
  delivers = subst (λ s. Delivers s.arrivals b) (sym same.socket) ready.delivers;
}

-- the part of the handler behind `saveCurrentVersion`
pub receives :
    (fuel : ℕ) (r : Request) (b : Bytes) (w w1 w2 : World) (made : Bool) (fs : FileSystem)
    → create_nested_directories r.remote_path w ≡ done (made, w1)
    → save_current_version fuel r.remote_path w1 ≡ done (true, w2)
    → open_write w2.fs r.remote_path ≡ some fs
    → r.data_len ≡ pos (length b)
    → IsReady w2 b
    → length b < fuel
    → (w3 : World) × (handle_write_request fuel r w ≡ done (true, after_sending w3 write_done []))
      × Stored r.remote_path [] b w2 w3
receives fuel r b w w1 w2 made fs c s writable len ready lt =
    let (w3, e, st) =
      receive_file_contents-stores fuel r.remote_path b w2 fs writable ready.room ready.delivers
        lt in
    (
      w3,
      runs fuel r w w1 w2 w3 (after_sending w3 write_done []) made true true c s
          (ap (λ n. receive_file_contents fuel r.remote_path n w2) len ∙ e)
          (responds r.remote_path b w2 w3 ready.memory ready.takes st),
      st,
    )
