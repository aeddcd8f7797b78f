-- ===== src/EndToEnd/Getting.antt =====
-- A GET from the server's file to the client's, and the way of a file from one client to another.
use remote_file_system.Prelude.{
  ℕ, ◌≡◌, ◌≢◌, ◌<◌, ◌≤◌, refl, sym, ap, ◌∙◌, true, false, none, some, List, [], ◌∷◌, ◌++◌, Bytes,
  codes, append-nil, length, done, is_empty, bytes_eq,
}
use remote_file_system.Prelude.Int.{pos, long_max}
use remote_file_system.Client.{client_session}
use remote_file_system.Client.Receiving.{get_command, get_text, client_session-get}
use remote_file_system.Command.{returned}
use remote_file_system.CString.Digits.{pow10}
use remote_file_system.EndToEnd.Putting.{IsPut, client_session-write_arrives}
use remote_file_system.FileSystem.{FileSystem, reading, regular, left, find, open_read, open_write}
use remote_file_system.LockList.{Ptr, null, Heap, FileLockList}
use remote_file_system.LockList.Chain.{Cells, IsLockList}
use remote_file_system.LockList.Lookup.{lock_of}
use remote_file_system.Protocol.Response.{response_text}
use remote_file_system.Socket.{Arrival, bytes}
use remote_file_system.Socket.Laws.{Delivers, Delivers-first}
use remote_file_system.ThreadManager.{LockAction, rdlock, unlock, Locks, thread_client_handler}
use remote_file_system.ThreadManager.Connection.{thread_client_handler-get}
use remote_file_system.ThreadManager.Working.{Arrives, result-parts, next_connection}
use remote_file_system.ThreadManager.Writing.{open_read-regular}
use remote_file_system.World.{World}

-- The client `c` and the thread `w` are ready for the GET of a file with `b` in it: the request arrives at the
-- thread, and the response in a block of its own, and then `b` in blocks of any size, at the client, which
-- can open its file `local`.
pub record IsGet (fuel : ℕ) (local remote b : Bytes) (c w : World) : Type 0 where
  pub blocks : List Arrival
  pub opened : FileSystem
  pub nonempty : is_empty b ≡ false
  pub fits : length b ≤ long_max
  pub no_power : (k : ℕ) → length b ≢ pow10 k
  pub enough : length b < fuel
  pub memory : c.memory ≡ true
  pub takes : c.socket.accepts ≡ []
  pub room : c.fs.disk_full ≡ false
  pub opens : open_write c.fs local ≡ some opened
  pub answer : c.socket.arrivals ≡ bytes (response_text true (pos (length b)) (codes "OK")) ∷ blocks
  pub contents : Delivers blocks b
  pub request : Arrives w (codes "GET") 0 remote []
  pub server_memory : w.memory ≡ true
  pub server_takes : w.socket.accepts ≡ []
  pub client_silent : c.socket.sent ≡ []
  pub server_silent : w.socket.sent ≡ []

-- A GET brings the file: where the client and the thread are ready for it, the file on the server can be
-- read and holds `b`, with a well-formed list of locks and a new address from `malloc`, both return; what
-- arrives at the thread is what the client sent, and what arrives at the client is what the thread sent; the
-- client's file holds `b`, no other file of the client is changed, and the list of locks is well formed and
-- has the file.
pub client_session-get_arrives :
    (fuel : ℕ) (ip local remote b : Bytes) (c w : World) (fresh : Ptr) (l : FileLockList) (h : Heap)
    (cells : Cells)
    → IsGet fuel local remote b c w
    → open_read w.fs remote ≡ some (left b)
    → IsLockList h l cells
    → fresh ≢ null
    → h fresh ≡ none
    → (c' : World) × (l' : FileLockList) × (h' : Heap) × (w' : World) × (client_session fuel
          (get_command ip local remote)
          c
        ≡ done (returned tt, c'))
      × (thread_client_handler fuel fresh (record { manager = some l; heap = h }) w
          ≡ done (
            (
              rdlock (lock_of fresh remote cells).0 ∷ unlock (lock_of fresh remote cells).0 ∷ [],
              record { manager = some l'; heap = h' },
            ),
            w',
          ))
      × IsLockList h' l' (lock_of fresh remote cells).1
      × Delivers w.socket.arrivals c'.socket.sent
      × Delivers c.socket.arrivals w'.socket.sent
      × (find local c'.fs.entries ≡ some (regular b))
      × ((q : Bytes) → bytes_eq local q ≡ false → find q c'.fs.entries ≡ find q c.fs.entries)
client_session-get_arrives fuel ip local remote b c w fresh l h cells g there is ne free =
    let text = get_text remote in
    let answer = response_text true (pos (length b)) (codes "OK") in
    let (c', asked, file, others, sent, _) =
      client_session-get fuel ip local remote b c g.blocks g.opened g.nonempty g.fits g.enough
        g.memory g.takes g.answer g.contents g.opens g.room in
    let (l', h', _, served, is') =
      thread_client_handler-get fuel 0 fresh l h cells remote b w [] is ne free g.request.fits
        g.request.named g.request.no_comma g.request.no_nul g.request.short g.server_memory
        g.request.first g.server_takes there g.no_power g.enough in
    (
      c',
      l',
      h',
      _,
      asked,
      served,
      is',
      Delivers-first text [] c'.socket.sent [] w.socket.arrivals refl g.request.first refl
          (sent ∙ ap (λ s. s ++ text) g.client_silent ∙ sym (append-nil text)),
      Delivers-first answer b _ g.blocks c.socket.arrivals refl g.answer g.contents
          (ap (λ s. s ++ (answer ++ b)) g.server_silent),
      file,
      others,
    )

-- What one client puts, another one gets: after a WRITE of the file of client `c` to a new path, as in the
-- entry of `client_session-write_arrives`, a GET of that path by a client `d`, on the files that the first
-- thread left and that may be read, and on its list of locks, where `d` and the second thread are ready for
-- it, with another new address from `malloc`, returns, and the file of `d` holds the bytes of the file of `c`.
pub client_session-write_get :
    (fuel : ℕ) (ip local remote b : Bytes) (c w : World) (fresh : Ptr) (l : FileLockList) (h : Heap)
    (cells : Cells)
    → IsPut fuel local remote b c w
    → IsLockList h l cells
    → fresh ≢ null
    → h fresh ≡ none
    → (actions : List LockAction) (locks : Locks) (w' : World)
    → thread_client_handler fuel fresh (record { manager = some l; heap = h }) w
      ≡ done ((actions, locks), w')
    → (local' : Bytes) (d v : World) (fresh' : Ptr) → IsGet fuel local' remote b d v
    → v.fs.entries ≡ w'.fs.entries
    → v.fs.denied reading remote ≡ false
    → fresh' ≢ null
    → locks.heap fresh' ≡ none
    → (d' : World) × (locks' : Locks) × (v' : World) × (client_session fuel
          (get_command ip local' remote)
          d
        ≡ done (returned tt, d'))
      × (thread_client_handler fuel fresh' locks v
          ≡ done (
            (
              rdlock (lock_of fresh remote cells).0 ∷ unlock (lock_of fresh remote cells).0 ∷ [],
              locks',
            ),
            v',
          ))
      × Delivers v.socket.arrivals d'.socket.sent
      × Delivers d.socket.arrivals v'.socket.sent
      × (find local' d'.fs.entries ≡ some (regular b))
client_session-write_get fuel ip local remote b c w fresh l h cells put is ne free actions locks w'
      wrote local' d v fresh' g same allowed ne' free' =
    let (_, l', h', w'', _, served, is', _, _, file, _) =
      client_session-write_arrives fuel ip local remote b c w fresh l h cells put is ne free in
    let (_, same_locks, same_world) = result-parts (sym served ∙ wrote) in
    let nodes = (lock_of fresh remote cells).1 in
    let there =
      open_read-regular v.fs remote b allowed
        (ap (find remote) same ∙ ap (λ u. find remote u.fs.entries) (sym same_world) ∙ file) in
    let (d', l'', h'', v', asked, served', _, into, back, file', _) =
      client_session-get_arrives fuel ip local' remote b d v fresh' l' h' nodes g there is' ne'
        (ap (λ k. k.heap fresh') same_locks ∙ free') in
    (
      d',
      record { manager = some l''; heap = h'' },
      v',
      asked,
      next_connection (λ q. rdlock q ∷ unlock q ∷ []) fuel fresh fresh' remote cells locks
          (record { manager = some l'; heap = h' }) (record { manager = some l''; heap = h'' }) v v'
          same_locks served',
      into,
      back,
      file',
    )
