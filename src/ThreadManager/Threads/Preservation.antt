-- ===== src/ThreadManager/Threads/Preservation.antt =====
-- Each move of a thread keeps the invariant.
use remote_file_system.Prelude.{
  ℕ, ◌≡◌, refl, none, some, List, [], ◌∷◌, ◌++◌, get_elem?, All-append, ==_iff, arith,
}
use remote_file_system.Prelude.Counting.{set, All-get, weigh-append}
use remote_file_system.LockList.{null, lock_list}
use remote_file_system.LockList.Lookup.{create_file_lock_list-IsLockList}
use remote_file_system.LockList.NoMemory.{get_lock_for-Handed}
use remote_file_system.ThreadManager.Received.{receive_request-IsRequest}
use remote_file_system.ThreadManager.Threads.{
  Phase, receiving, looking, found, closing, Shared, init_lock, Move, reject, receive, find,
  no_lock, wrlock, rdlock, refuse, wrlock_done, rdlock_done, finish, System, Step, spawn, move,
  start, Reach, here, next,
}
use remote_file_system.ThreadManager.Threads.Invariant.{reads_at, writes_at, Placed, Inv}
use remote_file_system.ThreadManager.Threads.Counts.{
  counts, keeps, init_lock-same, looked_up, writer_holds, reader_holds, managed_call, given,
}

-- Each move of a thread keeps the invariant.
Move-Inv :
    {shared shared' : Shared} {threads : List Phase} {p p' : Phase}
    → Inv shared threads
    → (i : ℕ) → get_elem? threads i ≡ some p
    → Move shared p shared' p'
    → Inv shared' (set threads i p')
Move-Inv inv i at (reject w w' e) = keeps inv i _ _ at tt (λ q. omega arith) (λ q. omega arith)
Move-Inv inv i at (receive w w' r e) =
    keeps inv i _ _ at (receive_request-IsRequest w w' r e).path_not_empty (λ q. omega arith)
      (λ q. omega arith)
Move-Inv {shared} {threads} inv i at (find r fresh lock manager heap free e ne) =
    let named = All-get (Placed inv.cells) threads i (looking r) inv.placed at in
    let hd =
      get_lock_for-Handed shared.locks.heap inv.list inv.cells r.remote_path inv.listed named lock
        manager heap fresh free (managed_call inv i r lock fresh lock manager heap e) in
    looked_up inv i r (found r lock) fresh lock manager heap hd (init_lock fresh lock shared.held)
      at (given inv i r lock hd ne) (λ q. omega arith)
      (λ q. init_lock-same inv fresh lock q (hd.new ne))
Move-Inv {shared} {threads} inv i at (no_lock r manager heap e) =
    let named = All-get (Placed inv.cells) threads i (looking r) inv.placed at in
    let hd =
      get_lock_for-Handed shared.locks.heap inv.list inv.cells r.remote_path inv.listed named null
        manager heap null (λ ne. absurd (ne refl))
        (managed_call inv i r null null null manager heap e) in
    looked_up inv i r closing null null manager heap hd shared.held at tt (λ q. omega arith)
      (λ q. refl)
Move-Inv {shared} {threads} inv i at (wrlock r lock w writer free) =
    counts inv i _ _ at _ (All-get (Placed inv.cells) threads i (found r lock) inv.placed at)
      (λ q. ground (arith, free)) (λ q. ground (arith, free, ==_iff q lock))
      (λ q h. ground (arith, free, inv.apart q, ==_iff q lock))
Move-Inv {shared} {threads} inv i at (rdlock r lock w reader free) =
    counts inv i _ _ at _ (All-get (Placed inv.cells) threads i (found r lock) inv.placed at)
      (λ q. ground (arith, ==_iff q lock)) (λ q. ground (arith, ==_iff q lock))
      (λ q h. ground (arith, free, inv.apart q, ==_iff q lock))
Move-Inv inv i at (refuse r lock a b) = keeps inv i _ _ at tt (λ q. omega arith) (λ q. omega arith)
Move-Inv {shared} {threads} inv i at (wrlock_done r lock fuel w w' actions run) =
    counts inv i _ _ at _ tt (λ q. ground (arith, ==_iff q lock))
      (λ q. ground (arith, writer_holds inv i r lock at, ==_iff q lock))
      (λ q h. ground (arith, inv.apart q, ==_iff q lock))
Move-Inv {shared} {threads} inv i at (rdlock_done r lock fuel w w' actions run) =
    counts inv i _ _ at _ tt (λ q. ground (arith, reader_holds inv i r lock at, ==_iff q lock))
      (λ q. ground (arith, ==_iff q lock)) (λ q h. ground (arith, inv.apart q, ==_iff q lock))
Move-Inv inv i at finish = keeps inv i _ _ at tt (λ q. omega arith) (λ q. omega arith)

spawn-Inv :
    {shared : Shared} {threads : List Phase}
    → Inv shared threads
    → Inv shared (threads ++ receiving ∷ [])
spawn-Inv {shared} {threads} inv = record {
  cells = inv.cells;
  list = inv.list;
  managed = inv.managed;
  listed = inv.listed;
  placed = All-append (Placed inv.cells) threads (receiving ∷ []) inv.placed (tt, tt);
  readers = λ q. omega (arith, weigh-append (reads_at q) threads receiving, inv.readers q);
  writers = λ q. omega (arith, weigh-append (writes_at q) threads receiving, inv.writers q);
  apart = inv.apart;
}

Step-Inv : {s t : System} → Inv s.shared s.threads → Step s t → Inv t.shared t.threads
Step-Inv inv spawn = spawn-Inv inv
Step-Inv inv (move i p shared p' at mv) = Move-Inv inv i at mv

start-Inv : Inv start.shared start.threads
start-Inv = record {
  cells = [];
  list = lock_list 0 null null;
  managed = refl;
  listed = (create_file_lock_list-IsLockList (λ p. none)).1;
  placed = tt;
  readers = λ q. refl;
  writers = λ q. refl;
  apart = λ q e. refl;
}

-- In every state that the threads reach, the list of locks is well formed and has one node for a file,
-- each thread works with the node of its file, each lock counts the threads that hold it, and a lock that
-- is held for writing is not held for reading.
pub Reach-Inv : {s : System} → Reach s → Inv s.shared s.threads
Reach-Inv here = start-Inv
Reach-Inv (next r st) = Step-Inv (Reach-Inv r) st
