-- ===== src/ThreadManager/Threads/Exclusion.antt =====
-- What the locks are for: a thread that writes or removes a file is alone with it.
use native.Mathlib.Decide.{ℕ_discrete}
use remote_file_system.Prelude.{
  ℕ, ◌≤◌, ◌≡◌, ◌≢◌, sym, ap, ◌∙◌, Bool, true, false, some, List, Bytes, get_elem?, ==_self, arith,
}
use remote_file_system.Prelude.Counting.{All-get, weigh-get, weigh_two}
use remote_file_system.LockList.{Ptr}
use remote_file_system.LockList.Chain.{find_cell}
use remote_file_system.Protocol.Request.{Request}
use remote_file_system.World.{World}
use remote_file_system.ThreadManager.Threads.{
  Phase, receiving, looking, found, writing, reading, closing, finished, Shared, System, Reach,
}
use remote_file_system.ThreadManager.Threads.Invariant.{bit, reads_at, writes_at, Placed, Inv}
use remote_file_system.ThreadManager.Threads.Preservation.{Reach-Inv}

-- The thread is between the lock and the unlock of a request for the file at `path`.
abbrev pub IsWorkingOn : Bytes → Phase → Type 0
IsWorkingOn path receiving = ⊥
IsWorkingOn path (looking r) = ⊥
IsWorkingOn path (found r lock) = ⊥
IsWorkingOn path (writing r lock w) = r.remote_path ≡ path
IsWorkingOn path (reading r lock w) = r.remote_path ≡ path
IsWorkingOn path closing = ⊥
IsWorkingOn path finished = ⊥

bit_le : (b : Bool) → bit b ≤ 1
bit_le true = omega arith
bit_le false = omega arith

module _ {shared : Shared} {threads : List Phase} (inv : Inv shared threads) where
  -- two threads with one file have one lock
  same_lock :
      (r q : Request) (lock lock' : Ptr)
      → find_cell r.remote_path inv.cells ≡ some lock
      → find_cell q.remote_path inv.cells ≡ some lock'
      → q.remote_path ≡ r.remote_path
      → lock ≡ lock'
  same_lock r q lock lock' e e' same = cc (ap (λ b. find_cell b inv.cells) same)

  two_writers :
      (i j : ℕ) (r q : Request) (lock : Ptr) (w v : World)
      → i ≢ j
      → get_elem? threads i ≡ some (writing r lock w)
      → get_elem? threads j ≡ some (writing q lock v)
      → ⊥
  two_writers i j r q lock w v ne e f = ground (
    arith,
    weigh_two (writes_at lock) threads i j (writing r lock w) (writing q lock v) ne e f,
    inv.writers lock,
    bit_le (shared.held lock).writer,
    ==_self lock,
  )

  writer_and_reader :
      (i j : ℕ) (r q : Request) (lock : Ptr) (w v : World)
      → get_elem? threads i ≡ some (writing r lock w)
      → get_elem? threads j ≡ some (reading q lock v)
      → ⊥
  writer_and_reader i j r q lock w v e f = ground (
    arith,
    weigh-get (writes_at lock) threads i (writing r lock w) e,
    weigh-get (reads_at lock) threads j (reading q lock v) f,
    inv.writers lock,
    inv.readers lock,
    inv.apart lock,
    ==_self lock,
  )

  alone :
      (i j : ℕ) (r : Request) (lock : Ptr) (w : World) (p : Phase)
      → i ≢ j
      → get_elem? threads i ≡ some (writing r lock w)
      → get_elem? threads j ≡ some p
      → IsWorkingOn r.remote_path p
      → ⊥
  alone i j r lock w (writing q lock' v) ne e f on =
      let own = All-get (Placed inv.cells) threads i (writing r lock w) inv.placed e in
      let other = All-get (Placed inv.cells) threads j (writing q lock' v) inv.placed f in
      two_writers i j r q lock w v ne e
        (f ∙ ap (λ l. some (writing q l v)) (sym (same_lock r q lock lock' own other on)))
  alone i j r lock w (reading q lock' v) ne e f on =
      let own = All-get (Placed inv.cells) threads i (writing r lock w) inv.placed e in
      let other = All-get (Placed inv.cells) threads j (reading q lock' v) inv.placed f in
      writer_and_reader i j r q lock w v e
        (f ∙ ap (λ l. some (reading q l v)) (sym (same_lock r q lock lock' own other on)))
  alone i j r lock w receiving ne e f on = on
  alone i j r lock w (looking q) ne e f on = on
  alone i j r lock w (found q lock') ne e f on = on
  alone i j r lock w closing ne e f on = on
  alone i j r lock w finished ne e f on = on

-- Mutual exclusion: in every state that the threads reach, while a thread works on a file for a WRITE or
-- an RM, no other thread works on that file.
pub mutual_exclusion :
    (s : System) (i j : ℕ) (r : Request) (lock : Ptr) (w : World) (p : Phase)
    → Reach s
    → get_elem? s.threads i ≡ some (writing r lock w)
    → get_elem? s.threads j ≡ some p
    → IsWorkingOn r.remote_path p
    → i ≡ j
mutual_exclusion s i j r lock w p reach e f on = elim (ℕ_discrete i j) [
  | yes same ↦ same
  | no ne ↦ absurd (alone (Reach-Inv reach) i j r lock w p ne e f on)
]
