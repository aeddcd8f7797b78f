-- ===== src/ThreadManager/Effects.antt =====
-- What `threadClientHandler` does to the files, whatever arrives and whatever comes of it.
use remote_file_system.Prelude.{
  ℕ, ◌≡◌, refl, sym, ap, ◌⊎◌, inl, inr, true, false, Option, none, some, List, [], ◌∷◌, Bytes,
  codes, done, arith, Run-cases, ◌==◌,
}
use remote_file_system.Prelude.Int.{pos}
use remote_file_system.Command.{CommandType, write, get, rm, ls, unknown}
use remote_file_system.CString.{buffer_text}
use remote_file_system.FileSystem.{FileSystem, find, directory}
use remote_file_system.LockList.{Ptr, null, get_lock_for}
use remote_file_system.Protocol.Request.{Request, deserialize_request}
use remote_file_system.Protocol.Transmit.{build_and_send_response}
use remote_file_system.RequestHandler.{
  handle_write_request, handle_get_request, handle_remove_request,
}
use remote_file_system.RequestHandler.Calls.{Owns, Calls, Acts}
use remote_file_system.RequestHandler.Calls.Rules.{
  Calls-append, Acts-pure, Acts-if, Acts-option, Acts-bind, Acts-lift, Acts-with_memory,
  Acts-on_socket, build_and_send_response-Acts,
}
use remote_file_system.RequestHandler.Calls.Frame.{Calls-Frame, Calls-none}
use remote_file_system.RequestHandler.Calls.Handlers.{
  handle_write_request-Acts, handle_remove_request-Acts,
}
use remote_file_system.RequestHandler.Calls.Reading.{handle_get_request-Acts}
use remote_file_system.Socket
use remote_file_system.ThreadManager.{
  LockAction, wrlock, rdlock, unlock, dispatch, Locks, serve, receive_request,
  thread_client_handler,
}
use remote_file_system.World.{World, ◌>>=◌, pure, recv, close, lift_run, on_socket}

-- which files a request may change: those that belong to its own, or none
abbrev pub rights_of : CommandType → Bytes → Option Bytes
rights_of write path = some path
rights_of rm path = some path
rights_of get path = none
rights_of ls path = none
rights_of unknown path = none

close-Acts : {rights : Option Bytes} → Acts rights close
unfolding close
close-Acts = Acts-on_socket (λ s. (tt, record s { closed = true }))

module _ (fuel : ℕ) (lock : Ptr) (r : Request) where
  -- the calls of the handler for the command, and the answer behind them
  dispatch-Acts :
      (c : CommandType) → r.command ≡ c → Acts (rights_of c r.remote_path) (dispatch fuel lock r)
  unfolding dispatch
  dispatch-Acts write q = record {
    at = λ w w' s e.
        (Acts-bind (handle_write_request fuel r) _ (handle_write_request-Acts fuel r)
            (λ _. Acts-pure (wrlock lock ∷ unlock lock ∷ []))).at
          w w' s (ground (arith, e, q));
  }
  dispatch-Acts rm q = record {
    at = λ w w' s e.
        (Acts-bind (handle_remove_request r) _ (handle_remove_request-Acts r)
            (λ _. Acts-pure (wrlock lock ∷ unlock lock ∷ []))).at
          w w' s (ground (arith, e, q));
  }
  dispatch-Acts get q = record {
    at = λ w w' s e.
        (Acts-bind (handle_get_request fuel r) _ (handle_get_request-Acts fuel r)
            (λ _. Acts-pure (rdlock lock ∷ unlock lock ∷ []))).at
          w w' s (ground (arith, e, q));
  }
  dispatch-Acts ls q = record {
    at = λ w w' s e.
        (Acts-bind
            (build_and_send_response false (pos 0)
              (some (codes "optional command isn't implemented yet")))
            _ (build_and_send_response-Acts false (pos 0) _) (λ _. Acts-pure [])).at
          w w' s (ground (arith, e, q));
  }
  dispatch-Acts unknown q = record {
    at = λ w w' s e.
        (Acts-bind
            (build_and_send_response false (pos 0) (some (codes "didn't receive valid command"))) _
            (build_and_send_response-Acts false (pos 0) _) (λ _. Acts-pure [])).at
          w w' s (ground (arith, e, q));
  }

  serve-Acts : Acts (rights_of r.command r.remote_path) (serve fuel r lock)
  unfolding serve
  serve-Acts =
      Acts-if (lock == null) _ _
        (Acts-bind (build_and_send_response false (pos 0) (some (codes "failed to get file lock")))
          _ (build_and_send_response-Acts false (pos 0) _)
          (λ _. Acts-bind close _ close-Acts (λ _. Acts-pure [])))
        (Acts-bind (dispatch fuel lock r) _ (dispatch-Acts r.command refl)
          (λ actions. Acts-bind close _ close-Acts (λ _. Acts-pure actions)))

receive_request-Acts : {rights : Option Bytes} → Acts rights receive_request
unfolding receive_request recv
receive_request-Acts =
    Acts-bind (on_socket (Socket.recv 2000)) _ (Acts-on_socket (Socket.recv 2000)) (λ o.
      Acts-option o _ _ (Acts-pure none) (λ b.
        Acts-bind (lift_run (buffer_text 2000 b)) _ (Acts-lift (buffer_text 2000 b))
          (λ buffer. Acts-with_memory (λ mem. deserialize_request mem (some buffer)))))

-- What a connection did to the files: nothing, or the calls of the request that arrived.
pub data Effect (w : World) (fs : FileSystem) : Type 0 where
  nothing : w.fs ≡ fs → Effect w fs
  calls :
      (r : Request) (w1 : World)
      → receive_request w ≡ done (some r, w1)
      → Calls (rights_of r.command r.remote_path) w.fs fs
      → Effect w fs

module _ (fuel : ℕ) (fresh : Ptr) (locks : Locks) where
  -- the answer where no request was received
  rejected-Acts : Acts none (
      build_and_send_response false (pos 0) (some (codes "unable to receive request")) >>= λ _.
      close >>= λ _. pure {A = List LockAction × Locks} ([], locks))
  rejected-Acts =
      Acts-bind (build_and_send_response false (pos 0) (some (codes "unable to receive request"))) _
        (build_and_send_response-Acts false (pos 0) _)
        (λ _. Acts-bind close _ close-Acts (λ _. Acts-pure ([], locks)))

  -- the work for a request
  accepted-Acts :
      (r : Request)
      → Acts (rights_of r.command r.remote_path) (
          lift_run (get_lock_for fresh (some r.remote_path) locks.manager locks.heap)
          >>= λ (lock, manager, heap). serve fuel r lock >>= λ actions.
              pure {A = List LockAction × Locks}
                (actions, record { manager = manager; heap = heap }))
  accepted-Acts r =
      Acts-bind (lift_run (get_lock_for fresh (some r.remote_path) locks.manager locks.heap)) _
        (Acts-lift (get_lock_for fresh (some r.remote_path) locks.manager locks.heap))
        (λ (lock, manager, heap).
          Acts-bind (serve fuel r lock) _ (serve-Acts fuel lock r)
            (λ actions. Acts-pure (actions, record { manager = manager; heap = heap })))

-- Whatever arrives on a connection, and whatever comes of it: where the thread returns, it has changed no
-- file, or a request was received, and the files were changed by its calls and by nothing else: none for a
-- GET or an unknown command, and for a WRITE or an RM folders that are made, and the file of the request
-- and its versions that are emptied, written or removed.
pub thread_client_handler-Effect :
    (fuel : ℕ) (fresh : Ptr) (locks locks' : Locks) (w w' : World) (actions : List LockAction)
    → thread_client_handler fuel fresh locks w ≡ done ((actions, locks'), w')
    → Effect w w'.fs
unfolding thread_client_handler
thread_client_handler-Effect fuel fresh locks locks' w w' actions e =
    elim (Run-cases (receive_request w)) [
      | inr bad ↦ absurd (ground (arith, e, bad))
      | inl ((none, w1), g) ↦ nothing (
          Calls-none (
            Calls-append (receive_request-Acts.at w w1 none g)
              ((rejected-Acts fuel fresh locks).at w1 w' (actions, locks') (rw g at e))))
      | inl ((some r, w1), g) ↦ calls r w1 g (
          Calls-append (receive_request-Acts.at w w1 (some r) g)
            ((accepted-Acts fuel fresh locks r).at w1 w' (actions, locks') (rw g at e)))
    ]

-- A WRITE or an RM was received, and the file belongs to that of the request.
pub record Meant (w : World) (q : Bytes) : Type 0 where
  pub received : Request
  pub after : World
  pub arrives : receive_request w ≡ done (some received, after)
  pub writer : (received.command ≡ write) ⊎ (received.command ≡ rm)
  pub owns : Owns received.remote_path q

Calls-Meant :
    (w w1 : World) (r : Request) (fs : FileSystem) (c : CommandType) (q : Bytes)
    → receive_request w ≡ done (some r, w1)
    → r.command ≡ c
    → Calls (rights_of c r.remote_path) w.fs fs
    → Meant w q
      ⊎ ((find q fs.entries ≡ find q w.fs.entries)
          ⊎ ((find q w.fs.entries ≡ none) × (find q fs.entries ≡ some directory)))
Calls-Meant w w1 r fs write q g e xs = elim ((Calls-Frame xs).others q) [
  | inl o ↦ inl (record { received = r; after = w1; arrives = g; writer = inl e; owns = o })
  | inr kept ↦ inr kept
]
Calls-Meant w w1 r fs rm q g e xs = elim ((Calls-Frame xs).others q) [
  | inl o ↦ inl (record { received = r; after = w1; arrives = g; writer = inr e; owns = o })
  | inr kept ↦ inr kept
]
Calls-Meant w w1 r fs get q g e xs = inr (inl (ap (λ x. find q x.entries) (sym (Calls-none xs))))
Calls-Meant w w1 r fs ls q g e xs = inr (inl (ap (λ x. find q x.entries) (sym (Calls-none xs))))
Calls-Meant w w1 r fs unknown q g e xs =
    inr (inl (ap (λ x. find q x.entries) (sym (Calls-none xs))))

-- Whatever arrives on a connection, and whatever comes of it: where the thread returns, each entry is as it
-- was, or is a new folder, or belongs to the file of the WRITE or RM that arrived.
pub find-thread_client_handler :
    (fuel : ℕ) (fresh : Ptr) (locks locks' : Locks) (w w' : World) (actions : List LockAction)
    (q : Bytes)
    → thread_client_handler fuel fresh locks w ≡ done ((actions, locks'), w')
    → Meant w q
      ⊎ ((find q w'.fs.entries ≡ find q w.fs.entries)
          ⊎ ((find q w.fs.entries ≡ none) × (find q w'.fs.entries ≡ some directory)))
find-thread_client_handler fuel fresh locks locks' w w' actions q e =
    elim (thread_client_handler-Effect fuel fresh locks locks' w w' actions e) [
      | nothing same ↦ inr (inl (ap (λ x. find q x.entries) (sym same)))
      | calls r w1 g xs ↦ Calls-Meant w w1 r w'.fs r.command q g refl xs
    ]
