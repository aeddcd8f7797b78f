-- ===== src/ThreadManager/Working.antt =====
-- `threadClientHandler` around the handler of its request: the lock before it, the lock and the socket
-- behind it.
use remote_file_system.Prelude.{
  ℕ, ◌≡◌, ◌≢◌, ◌<◌, ◌≤◌, Bool, true, false, none, some, List, [], ◌∷◌, Bytes, Lacks, length,
  is_empty, ==_ne, Run, done, refl, sym, ap, ◌∙◌, arith,
}
use remote_file_system.Prelude.Int.{pos, long_max}
use remote_file_system.Command.{CommandType, write, get, rm, unknown}
use remote_file_system.Command.Names.{name_of}
use remote_file_system.LockList.{Ptr, null, Heap, FileLockList}
use remote_file_system.LockList.Chain.{Cells, IsLockList, find_cell}
use remote_file_system.LockList.Lookup.{granted, lock_of, get_lock_for-lock_of, granted_has}
use remote_file_system.Protocol.Request.{Request, request, request_text}
use remote_file_system.RequestHandler.{
  handle_write_request, handle_get_request, handle_remove_request,
}
use remote_file_system.Socket.{Arrival, bytes}
use remote_file_system.ThreadManager.{
  LockAction, wrlock, rdlock, unlock, dispatch, Locks, serve, thread_client_handler,
}
use remote_file_system.ThreadManager.Handler.{receive_request-receives}
use remote_file_system.ThreadManager.Connection.{closed, lock_of-not_null, connection}
use remote_file_system.World.{World, M, with_socket, close}

-- the world once the request is read
abbrev pub behind_request : World → List Arrival → World
behind_request w rest = with_socket w (record w.socket { arrivals = rest })

-- A request with this text arrives as one block, shorter than the buffer and without a NUL, and `rest`
-- arrives behind it.
pub record Arrives (w : World) (name : Bytes) (n : ℕ) (path : Bytes) (rest : List Arrival)
    : Type 0 where
  pub fits : n ≤ long_max
  pub named : is_empty path ≡ false
  pub no_comma : Lacks b',' path
  pub no_nul : Lacks 0 (request_text name (pos n) path)
  pub short : length (request_text name (pos n) path) < 2000
  pub first : w.socket.arrivals ≡ bytes (request_text name (pos n) path) ∷ rest

-- Which handler a command is for, and which calls on the file's lock stand around it.
pub data Works : CommandType → (ℕ → Request → M Bool) → (Ptr → List LockAction) → Type 0 where
  writes : Works write handle_write_request (λ p. wrlock p ∷ unlock p ∷ [])
  removes : Works rm (λ fuel. handle_remove_request) (λ p. wrlock p ∷ unlock p ∷ [])
  gets : Works get handle_get_request (λ p. rdlock p ∷ unlock p ∷ [])

known_command :
    {c : CommandType} {handler : ℕ → Request → M Bool} {calls : Ptr → List LockAction}
    → Works c handler calls
    → c ≢ unknown
known_command writes e = cc e
known_command removes e = cc e
known_command gets e = cc e

served :
    {c : CommandType} {handler : ℕ → Request → M Bool} {calls : Ptr → List LockAction}
    → Works c handler calls
    → (fuel : ℕ) (lock : Ptr) (path : Bytes) (n : ℕ) (w1 w2 : World) (s : Bool) → lock ≢ null
    → handler fuel (request c path (pos n)) w1 ≡ done (s, w2)
    → serve fuel (request c path (pos n)) lock w1 ≡ done (calls lock, closed w2)
unfolding serve dispatch close
served writes fuel lock path n w1 w2 s ne e = ground (arith, ==_ne lock null ne, e)
served removes fuel lock path n w1 w2 s ne e = ground (arith, ==_ne lock null ne, e)
served gets fuel lock path n w1 w2 s ne e = ground (arith, ==_ne lock null ne, e)

-- A connection on which a WRITE, an RM or a GET arrives, with memory, a well-formed list of locks and a new
-- address from `malloc`, where the handler of the command returns: the thread returns. It takes the lock
-- of the file's node before the handler, for writing but for a GET, and gives it back, closes the socket,
-- leaves to the rest what the handler left, and leaves a well-formed list of locks that has the file.
pub thread_client_handler_lem :
    {c : CommandType} {handler : ℕ → Request → M Bool} {calls : Ptr → List LockAction}
    → Works c handler calls
    → (fuel n : ℕ) (fresh : Ptr) (l : FileLockList) (h : Heap) (cells : Cells) (path : Bytes)
      (w w2 : World) (rest : List Arrival) (s : Bool)
    → IsLockList h l cells
    → fresh ≢ null
    → h fresh ≡ none
    → Arrives w (name_of c) n path rest
    → w.memory ≡ true
    → handler fuel (request c path (pos n)) (behind_request w rest) ≡ done (s, w2)
    → (l' : FileLockList) × (h' : Heap) × (thread_client_handler fuel fresh
          (record { manager = some l; heap = h })
          w
        ≡ done (
          (calls (lock_of fresh path cells).0, record { manager = some l'; heap = h' }),
          closed w2,
        ))
      × IsLockList h' l' (lock_of fresh path cells).1
thread_client_handler_lem {c} {handler} {calls} plan fuel n fresh l h cells path w w2 rest s is ne
      free text memory handled =
    let r = request c path (pos n) in
    let w1 = behind_request w rest in
    let lock = (lock_of fresh path cells).0 in
    let (l', h', got, is') = get_lock_for-lock_of h l cells fresh path is ne free text.named in
    (
      l',
      h',
      connection fuel fresh l h w w1 (closed w2) r lock l' h' (calls lock)
          (receive_request-receives c n path w rest (known_command plan) text.fits text.named
            text.no_comma text.no_nul text.short memory text.first)
          got
          (served plan fuel lock path n w1 w2 s
            (lock_of-not_null h l.head_node cells path fresh is.chain ne) handled),
      is',
    )

-- What two runs of a connection give is the same.
pub result-parts :
    {a a' : List LockAction} {l l' : Locks} {w w' : World}
    → ◌≡◌ {A = Run ((List LockAction × Locks) × World)} (done ((a, l), w)) (done ((a', l'), w'))
    → (a ≡ a') × (l ≡ l') × (w ≡ w')
result-parts e = ground arith

same_node :
    (fresh p : Ptr) (path : Bytes) (cells : Cells)
    → find_cell path cells ≡ some p
    → (lock_of fresh path cells).0 ≡ p
same_node fresh p path cells e = ap (λ o. (granted fresh path cells o).0) e

-- The next connection for the file works with the node that the first one found or made.
pub next_connection :
    (calls : Ptr → List LockAction) (fuel : ℕ) (fresh fresh' : Ptr) (path : Bytes) (cells : Cells)
    (locks locks1 locks2 : Locks) (v v' : World)
    → locks1 ≡ locks
    → thread_client_handler fuel fresh' locks1 v
      ≡ done ((calls (lock_of fresh' path (lock_of fresh path cells).1).0, locks2), v')
    → thread_client_handler fuel fresh' locks v
      ≡ done ((calls (lock_of fresh path cells).0, locks2), v')
next_connection calls fuel fresh fresh' path cells locks locks1 locks2 v v' same runs =
    ap (λ k. thread_client_handler fuel fresh' k v) (sym same)
    ∙ runs
    ∙ ap (λ q. done ((calls q, locks2), v'))
        (same_node fresh' (lock_of fresh path cells).0 path (lock_of fresh path cells).1
          (granted_has fresh path cells (find_cell path cells) refl))
