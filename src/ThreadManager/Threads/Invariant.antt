-- ===== src/ThreadManager/Threads/Invariant.antt =====
-- What holds of the server's threads in every state that is reached.
use remote_file_system.Prelude.{ℕ, ◌≡◌, Bool, true, false, some, List, All, is_empty, ◌==◌}
use remote_file_system.Prelude.Counting.{weigh}
use remote_file_system.LockList.{Ptr, FileLockList}
use remote_file_system.LockList.Chain.{Cells, find_cell, IsLockList}
use remote_file_system.ThreadManager.Threads.{
  Phase, receiving, looking, found, writing, reading, closing, finished, Shared,
}

abbrev pub bit : Bool → ℕ
bit true = 1
bit false = 0

-- 1 for a thread that holds the lock at `p` for reading
abbrev pub reads_at : Ptr → Phase → ℕ
reads_at p receiving = 0
reads_at p (looking r) = 0
reads_at p (found r lock) = 0
reads_at p (writing r lock w) = 0
reads_at p (reading r lock w) = bit (p == lock)
reads_at p closing = 0
reads_at p finished = 0

-- 1 for a thread that holds the lock at `p` for writing
abbrev pub writes_at : Ptr → Phase → ℕ
writes_at p receiving = 0
writes_at p (looking r) = 0
writes_at p (found r lock) = 0
writes_at p (writing r lock w) = bit (p == lock)
writes_at p (reading r lock w) = 0
writes_at p closing = 0
writes_at p finished = 0

-- The lock that a thread works with is that of the node that its file has.
abbrev pub Placed : Cells → Phase → Type 0
Placed cells receiving = Unit
Placed cells (looking r) = is_empty r.remote_path ≡ false
Placed cells (found r lock) = find_cell r.remote_path cells ≡ some lock
Placed cells (writing r lock w) = find_cell r.remote_path cells ≡ some lock
Placed cells (reading r lock w) = find_cell r.remote_path cells ≡ some lock
Placed cells closing = Unit
Placed cells finished = Unit

-- The list of locks is well formed, each thread has the lock of its file, each lock counts the threads
-- that hold it, and a lock that is held for writing is not held for reading.
pub record Inv (shared : Shared) (threads : List Phase) : Type 0 where
  pub cells : Cells
  pub list : FileLockList
  pub managed : shared.locks.manager ≡ some list
  pub listed : IsLockList shared.locks.heap list cells
  pub placed : All (Placed cells) threads
  pub readers : (p : Ptr) → weigh (reads_at p) threads ≡ (shared.held p).readers
  pub writers : (p : Ptr) → weigh (writes_at p) threads ≡ bit (shared.held p).writer
  pub apart : (p : Ptr) → (shared.held p).writer ≡ true → (shared.held p).readers ≡ 0
