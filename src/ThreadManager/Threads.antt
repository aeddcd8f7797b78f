-- ===== src/ThreadManager/Threads.antt =====
-- The threads of the server, interleaved in any order: each runs `threadClientHandler` of
-- server/thread_manager.c on a connection of its own, and they share the list of locks and the locks.
-- What a thread does to files and to its connection between two of these steps is in Handler,
-- Connection and RequestHandler; Files has the calls that they make on files between these steps.
pub mod Invariant
pub mod Counts
pub mod Preservation
pub mod Exclusion
pub mod Progress
pub mod Returns
pub mod Simulation
pub mod Files
use remote_file_system.Prelude.{
  ℕ, zero, suc, ◌+◌, ◌-◌, ◌≡◌, ◌≢◌, Bool, true, false, ◌&&◌, Option, none, some, List, [], ◌∷◌,
  ◌++◌, get_elem?, ◌==◌, if◌then◌else◌, Run, done,
}
use remote_file_system.Prelude.Counting.{set}
use remote_file_system.Command.{CommandType, write, get, rm, ls, unknown}
use remote_file_system.LockList.{Ptr, null, Heap, FileLockList, get_lock_for, lock_list}
use remote_file_system.Protocol.Request.{Request}
use remote_file_system.ThreadManager.{LockAction, Locks, receive_request, dispatch}
use remote_file_system.World.{World}

-- a `pthread_rwlock_t`: how many threads hold it for reading, and whether one holds it for writing
pub record RwLock : Type 0 where
  pub readers : ℕ
  pub writer : Bool

-- `pthread_rwlock_init`
abbrev pub unlocked : RwLock
unlocked = record { readers = 0; writer = false }

-- Where a thread stands in the handler, with the local variables that are live there.
pub data Phase : Type 0 where
  receiving : Phase
  looking : Request → Phase  -- before `getLockFor`
  found : Request → Ptr → Phase  -- before the `switch`
  writing : Request → Ptr → World → Phase  -- between `wrlock` and `unlock`, with the world of the handler
  reading : Request → Ptr → World → Phase  -- between `rdlock` and `unlock`, likewise
  closing : Phase  -- before `close`
  finished : Phase

-- what the threads share: the list of locks, and the state of the lock in each node
pub record Shared : Type 0 where
  pub locks : Locks
  pub held : Ptr → RwLock

abbrev pub set_lock : (Ptr → RwLock) → Ptr → RwLock → Ptr → RwLock
set_lock held p l q = if q == p then l else held q

-- A node that is new to the list has its lock initialised.
abbrev pub init_lock : (fresh lock : Ptr) → (Ptr → RwLock) → Ptr → RwLock
init_lock fresh lock held = if lock == fresh then set_lock held fresh unlocked else held

abbrev pub lock_to_write : RwLock → RwLock
lock_to_write l = record l { writer = true }

abbrev pub lock_to_read : RwLock → RwLock
lock_to_read l = record l { readers = l.readers + 1 }

abbrev pub unlock_write : RwLock → RwLock
unlock_write l = record l { writer = false }

abbrev pub unlock_read : RwLock → RwLock
unlock_read l = record l { readers = l.readers - 1 }

-- the cases of the `switch` that take the write lock, the read lock, and none
abbrev pub is_writer : CommandType → Bool
is_writer write = true
is_writer rm = true
is_writer get = false
is_writer ls = false
is_writer unknown = false

abbrev pub is_reader : CommandType → Bool
is_reader get = true
is_reader write = false
is_reader rm = false
is_reader ls = false
is_reader unknown = false

-- One step of one thread. A lock is given back only once the handler of the request has returned, in the world
-- that the thread went on with when it took the lock. `fresh` is what `malloc` returns for a new node: NULL, or
-- an address at which there is no node.
pub data Move (s : Shared) : Phase → Shared → Phase → Type 0 where
  reject : (w w' : World) → receive_request w ≡ done (none, w') → Move s receiving s closing
  receive :
      (w w' : World) (r : Request)
      → receive_request w ≡ done (some r, w')
      → Move s receiving s (looking r)
  find :
      (r : Request) (fresh lock : Ptr) (manager : Option FileLockList) (heap : Heap)
      → (fresh ≢ null → s.locks.heap fresh ≡ none)
      → get_lock_for fresh (some r.remote_path) s.locks.manager s.locks.heap
        ≡ done (lock, manager, heap)
      → lock ≢ null
      → Move s
          (looking r)
          (record {
            locks = record { manager = manager; heap = heap };
            held = init_lock fresh lock s.held;
          })
          (found r lock)
  no_lock :
      (r : Request) (manager : Option FileLockList) (heap : Heap)
      → get_lock_for null (some r.remote_path) s.locks.manager s.locks.heap
        ≡ done (null, manager, heap)
      → Move s (looking r) (record s { locks = record { manager = manager; heap = heap } }) closing
  wrlock :
      (r : Request) (lock : Ptr) (w : World)
      → is_writer r.command ≡ true
      → s.held lock ≡ unlocked
      → Move s
          (found r lock)
          (record s { held = set_lock s.held lock (lock_to_write (s.held lock)) })
          (writing r lock w)
  rdlock :
      (r : Request) (lock : Ptr) (w : World)
      → is_reader r.command ≡ true
      → (s.held lock).writer ≡ false
      → Move s
          (found r lock)
          (record s { held = set_lock s.held lock (lock_to_read (s.held lock)) })
          (reading r lock w)
  refuse :
      (r : Request) (lock : Ptr)
      → is_writer r.command ≡ false
      → is_reader r.command ≡ false
      → Move s (found r lock) s closing
  wrlock_done :
      (r : Request) (lock : Ptr) (fuel : ℕ) (w w' : World) (actions : List LockAction)
      → dispatch fuel lock r w ≡ done (actions, w')
      → Move s
          (writing r lock w)
          (record s { held = set_lock s.held lock (unlock_write (s.held lock)) })
          closing
  rdlock_done :
      (r : Request) (lock : Ptr) (fuel : ℕ) (w w' : World) (actions : List LockAction)
      → dispatch fuel lock r w ≡ done (actions, w')
      → Move s
          (reading r lock w)
          (record s { held = set_lock s.held lock (unlock_read (s.held lock)) })
          closing
  finish : Move s closing s finished

pub record System : Type 0 where
  pub shared : Shared
  pub threads : List Phase

-- `createAndDetachThread` adds a thread, and any thread may make the next move.
pub data Step (s : System) : System → Type 0 where
  spawn : Step s (record s { threads = s.threads ++ receiving ∷ [] })
  move :
      (i : ℕ) (p : Phase) (shared : Shared) (p' : Phase)
      → get_elem? s.threads i ≡ some p
      → Move s.shared p shared p'
      → Step s (record { shared = shared; threads = set s.threads i p' })

-- Before the first connection, where `createFileLockList` had memory.
abbrev pub start : System
start = record {
  shared = record {
    locks = record { manager = some (lock_list 0 null null); heap = λ p. none };
    held = λ p. unlocked;
  };
  threads = [];
}

pub data Reach : System → Type 0 where
  here : Reach start
  next : {s t : System} → Reach s → Step s t → Reach t
