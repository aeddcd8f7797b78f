-- ===== src/ThreadManager/Connection.antt =====
-- `threadClientHandler`: one connection, from the request to the closed socket.
use remote_file_system.Prelude.{
  ℕ, ◌≡◌, ◌≢◌, ◌<◌, ◌≤◌, refl, sym, Bool, true, false, none, some, List, [], ◌∷◌, ◌++◌, Bytes,
  codes, Lacks, length, is_empty, ==_ne, done, arith, Option-cases, inl, inr, bytes_eq, Bool-cases,
}
use mathlib.Core.Path.{subst}
use remote_file_system.Prelude.Int.{pos, long_max}
use remote_file_system.CString.Digits.{pow10, zero_no_power}
use remote_file_system.Command.{get}
use remote_file_system.FileSystem.{left, open_read}
use remote_file_system.LockList.{Ptr, null, Heap, FileLockList, get_lock_for}
use remote_file_system.LockList.Chain.{Cells, Chain, IsLockList, find_cell}
use remote_file_system.LockList.Lookup.{granted, lock_of, get_lock_for-lock_of}
use remote_file_system.Protocol.Request.{Request, request, request_text}
use remote_file_system.Protocol.Response.{response_text}
use remote_file_system.Protocol.Transmit.{build_and_send_response}
use remote_file_system.Protocol.Delivery.{build_and_send_response-sends}
use remote_file_system.RequestHandler.{handle_get_request}
use remote_file_system.RequestHandler.Get.{handle_get_request-sends}
use remote_file_system.Socket.{Arrival, Accept, bytes}
use remote_file_system.ThreadManager.{
  LockAction, rdlock, unlock, dispatch, Locks, serve, thread_client_handler, receive_request,
}
use remote_file_system.ThreadManager.Handler.{receive_request-receives}
use remote_file_system.World.{World, with_socket, close}
use remote_file_system.Utils.Transfer.Sending.{after_sending}

-- A node that a well-formed list has for a file is not NULL.
find_cell-not_null :
    (h : Heap) (p : Ptr) (cells : Cells) (name : Bytes) (a : Ptr)
    → Chain h p cells
    → find_cell name cells ≡ some a
    → a ≢ null
find_cell-not_null h p [] name a ch e = cc
find_cell-not_null h p ((b, n) ∷ cells) name a (_, ne, _, (q, _, rest)) e =
    elim (Bool-cases (bytes_eq n name)) [
      | inl same ↦ ground (arith, ne)
      | inr differs ↦ find_cell-not_null h q cells name a rest (ground arith)
    ]

pub lock_of-not_null :
    (h : Heap) (p : Ptr) (cells : Cells) (name : Bytes) (fresh : Ptr)
    → Chain h p cells
    → fresh ≢ null
    → (lock_of fresh name cells).0 ≢ null
lock_of-not_null h p cells name fresh ch ne = elim (Option-cases (find_cell name cells)) [
  | inl n ↦ subst (λ o. (granted fresh name cells o).0 ≢ null) (sym n) ne
  | inr (a, s) ↦
      subst (λ o. (granted fresh name cells o).0 ≢ null) (sym s)
        (find_cell-not_null h p cells name a ch s)
]

-- the world after the socket is closed
abbrev pub closed : World → World
closed w = with_socket w (record w.socket { closed = true })

module _ (fuel : ℕ) (fresh : Ptr) (l : FileLockList) (h : Heap) (w w1 w2 : World)
    (r : Request) where
  served :
      (lock : Ptr) (s : Bool)
      → r.command ≡ get
      → lock ≢ null
      → handle_get_request fuel r w1 ≡ done (s, w2)
      → serve fuel r lock w1 ≡ done (rdlock lock ∷ unlock lock ∷ [], closed w2)
  unfolding serve dispatch close
  served lock s g ne e = ground (arith, g, ==_ne lock null ne, e)

  pub connection :
      (lock : Ptr) (l' : FileLockList) (h' : Heap) (actions : List LockAction)
      → receive_request w ≡ done (some r, w1)
      → get_lock_for fresh (some r.remote_path) (some l) h ≡ done (lock, some l', h')
      → serve fuel r lock w1 ≡ done (actions, w2)
      → thread_client_handler fuel fresh (record { manager = some l; heap = h }) w
        ≡ done ((actions, record { manager = some l'; heap = h' }), w2)
  unfolding thread_client_handler
  connection lock l' h' actions a b c = ground (arith, a, b, c)

-- A connection on which a GET arrives as one block, as its client sends it, for a file with `b` in it:
-- where the list of locks is well formed, `malloc` gives a new address, there is memory, the fuel exceeds
-- the length of `b`, which is no power of ten, and the network takes all it is given, the thread returns.
-- It takes the read lock of the file's node and gives it back; the client is sent the response and exactly
-- the bytes of the file; the files are as they were, the socket is closed, and the list of locks is well
-- formed and has the file.
pub thread_client_handler-get :
    (fuel n : ℕ) (fresh : Ptr) (l : FileLockList) (h : Heap) (cells : Cells) (path b : Bytes)
    (w : World) (rest : List Arrival)
    → IsLockList h l cells
    → fresh ≢ null
    → h fresh ≡ none
    → n ≤ long_max
    → is_empty path ≡ false
    → Lacks b',' path
    → Lacks 0 (request_text (codes "GET") (pos n) path)
    → length (request_text (codes "GET") (pos n) path) < 2000
    → w.memory ≡ true
    → w.socket.arrivals ≡ bytes (request_text (codes "GET") (pos n) path) ∷ rest
    → w.socket.accepts ≡ []
    → open_read w.fs path ≡ some (left b)
    → ((k : ℕ) → length b ≢ pow10 k)
    → length b < fuel
    → (l' : FileLockList) × (h' : Heap) × (accepts : List Accept) × (thread_client_handler fuel
          fresh
          (record { manager = some l; heap = h })
          w
        ≡ done (
          (
            rdlock (lock_of fresh path cells).0 ∷ unlock (lock_of fresh path cells).0 ∷ [],
            record { manager = some l'; heap = h' },
          ),
          closed (
              after_sending
                (with_socket w (record w.socket { arrivals = rest }))
                (response_text true (pos (length b)) (codes "OK") ++ b)
                accepts),
        ))
      × IsLockList h' l' (lock_of fresh path cells).1
thread_client_handler-get fuel n fresh l h cells path b w rest is ne free fits named lacks no_nul
      short memory arrives takes opens no_power enough =
    let r = request get path (pos n) in
    let w1 = with_socket w (record w.socket { arrivals = rest }) in
    let lock = (lock_of fresh path cells).0 in
    let (l', h', found, is') = get_lock_for-lock_of h l cells fresh path is ne free named in
    let (accepts, sends) =
      handle_get_request-sends fuel r b w1 opens no_power enough memory takes in
    let w2 = after_sending w1 (response_text true (pos (length b)) (codes "OK") ++ b) accepts in
    (
      l',
      h',
      accepts,
      connection fuel fresh l h w w1 (closed w2) r lock l' h' (rdlock lock ∷ unlock lock ∷ [])
          (receive_request-receives get n path w rest (λ e. cc e) fits named lacks no_nul short
            memory arrives)
          found
          (served fuel fresh l h w w1 w2 r lock true refl
            (lock_of-not_null h l.head_node cells path fresh is.chain ne) sends),
      is',
    )

module _ (fuel : ℕ) (fresh : Ptr) (locks : Locks) (w w1 w2 : World) (s : Bool) where
  rejects :
      receive_request w ≡ done (none, w1)
      → build_and_send_response false (pos 0) (some (codes "unable to receive request")) w1
        ≡ done (s, w2)
      → thread_client_handler fuel fresh locks w ≡ done (([], locks), closed w2)
  unfolding thread_client_handler close
  rejects a b = ground (arith, a, b)

-- A connection on which no request could be received, with memory and a network that takes all it is
-- given: no lock is taken or made, the client is sent the error, the socket is closed, and nothing else
-- changes.
pub thread_client_handler-rejects :
    (fuel : ℕ) (fresh : Ptr) (locks : Locks) (w w1 : World)
    → receive_request w ≡ done (none, w1)
    → w1.memory ≡ true
    → w1.socket.accepts ≡ []
    → thread_client_handler fuel fresh locks w
      ≡ done (
        ([], locks),
        closed
            (after_sending w1 (response_text false (pos 0) (codes "unable to receive request")) []),
      )
thread_client_handler-rejects fuel fresh locks w w1 e memory takes =
    rejects fuel fresh locks w w1
      (after_sending w1 (response_text false (pos 0) (codes "unable to receive request")) []) true e
      (build_and_send_response-sends w1 false (codes "unable to receive request") memory 0
        zero_no_power takes)
