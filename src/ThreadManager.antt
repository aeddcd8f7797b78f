-- ===== src/ThreadManager.antt =====
-- server/thread_manager.c: what one thread does with one connection. The list of locks is in
-- LockList. The calls on a file's lock are listed in the order in which they are made.
pub mod Handler
pub mod Received
pub mod Connection
pub mod Working
pub mod Writing
pub mod Overwriting
pub mod Removing
pub mod Effects
pub mod Threads
use remote_file_system.Prelude.{
  ℕ, Bool, true, false, Option, none, some, List, [], ◌∷◌, ◌++◌, Bytes, codes, ◌==◌, if◌then◌else◌,
  Run, done, undefined, running,
}
use remote_file_system.Prelude.Int.{pos}
use remote_file_system.Config.{max_buff_size}
use remote_file_system.CString.{buffer_text}
use remote_file_system.Command.{CommandType, write, get, rm, ls, unknown}
use remote_file_system.LockList.{Ptr, null, Heap, FileLockList, get_lock_for}
use remote_file_system.Protocol.Request.{Request, deserialize_request}
use remote_file_system.Protocol.Transmit.{with_memory, build_and_send_response}
use remote_file_system.RequestHandler.{
  handle_write_request, handle_get_request, handle_remove_request,
}
use remote_file_system.World.{World, M, ◌>>=◌, ◌>>◌, pure, lift_run, recv, close}

-- A failed `recv` and a text that is no request both give NULL.
unfoldable pub receive_request : M (Option Request)
receive_request = do
  received ← recv max_buff_size
  elim received [
    | none ↦ pure none
    | some b ↦ lift_run (buffer_text max_buff_size b) >>= λ buffer.
        with_memory (λ mem. deserialize_request mem (some buffer))
  ]

pub data LockAction : Type 0 where
  wrlock rdlock unlock : Ptr → LockAction

-- The work of the request, with the two calls on its lock that stand before and behind it in the source. The
-- list names the calls; Threads has them as steps, the second one only behind a run of this work that returned.
unfoldable pub dispatch : ℕ → Ptr → Request → M (List LockAction)
dispatch fuel lock request = elim request.command [
  | write ↦ handle_write_request fuel request >>= λ _. pure (wrlock lock ∷ unlock lock ∷ [])
  | rm ↦ handle_remove_request request >>= λ _. pure (wrlock lock ∷ unlock lock ∷ [])
  | get ↦ handle_get_request fuel request >>= λ _. pure (rdlock lock ∷ unlock lock ∷ [])
  | ls ↦
      build_and_send_response false (pos 0) (some (codes "optional command isn't implemented yet"))
      >>= λ _. pure []
  | unknown ↦
      build_and_send_response false (pos 0) (some (codes "didn't receive valid command")) >>= λ _.
      pure []
]

-- the locks of the server: the global list, and the heap on which its nodes are
pub record Locks : Type 0 where
  pub manager : Option FileLockList
  pub heap : Heap

-- the part of the handler behind the lookup of the lock
unfoldable pub serve : ℕ → Request → Ptr → M (List LockAction)
serve fuel request lock =
    if lock == null
    then (build_and_send_response false (pos 0) (some (codes "failed to get file lock")) >>= λ _.
        close >>= λ _. pure [])
    else (dispatch fuel lock request >>= λ actions. close >>= λ _. pure actions)

-- `fresh` is what `malloc` returns for a new lock node.
unfoldable pub thread_client_handler :
    ℕ → (fresh : Ptr) → Locks → World → Run ((List LockAction × Locks) × World)
thread_client_handler fuel fresh locks = receive_request >>= λ received. elim received [
  | none ↦ build_and_send_response false (pos 0) (some (codes "unable to receive request")) >>= λ _.
      close >>= λ _. pure ([], locks)
  | some request ↦
      lift_run (get_lock_for fresh (some request.remote_path) locks.manager locks.heap)
      >>= λ (lock, manager, heap). serve fuel request lock >>= λ actions.
          pure (actions, record { manager = manager; heap = heap })
]
