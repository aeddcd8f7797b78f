-- ===== src/ThreadManager/Threads/Progress.antt =====
-- A thread that waits for a file waits for one that can give it back, once its handler has returned.
use native.Mathlib.Decide.{ℕ_discrete}
use remote_file_system.Prelude.{
  ℕ, ◌<◌, ◌≡◌, ap, ◌∙◌, ◌⊎◌, inl, inr, true, some, Bytes, get_elem?, ==_iff, arith, Bool-cases,
}
use remote_file_system.Prelude.Counting.{All-get, weigh_pos}
use remote_file_system.LockList.{Ptr}
use remote_file_system.LockList.Chain.{find_cell}
use remote_file_system.LockList.Lookup.{find_cell-injective}
use remote_file_system.Protocol.Request.{Request}
use remote_file_system.ThreadManager.Threads.Returns.{Dispatched}
use remote_file_system.World.{World}
use remote_file_system.ThreadManager.Threads.{
  RwLock, unlocked, Phase, receiving, looking, found, writing, reading, closing, finished, Shared,
  is_writer, is_reader, Move, wrlock, rdlock, refuse, wrlock_done, rdlock_done, System, Reach,
}
use remote_file_system.ThreadManager.Threads.Invariant.{reads_at, writes_at, Placed, Inv}
use remote_file_system.ThreadManager.Threads.Preservation.{Reach-Inv}
use remote_file_system.ThreadManager.Threads.Exclusion.{IsWorkingOn}

-- thread `i` can make a move now
pub record CanMove (s : System) (i : ℕ) : Type 0 where
  pub phase : Phase
  pub standing : get_elem? s.threads i ≡ some phase
  pub shared' : Shared
  pub phase' : Phase
  pub moves : Move s.shared phase shared' phase'

-- a thread that works on the file, and can give its lock back
pub record Holder (s : System) (path : Bytes) : Type 0 where
  pub thread : ℕ
  pub phase : Phase
  pub standing : get_elem? s.threads thread ≡ some phase
  pub works : IsWorkingOn path phase
  pub can_move : CanMove s thread

writes_there :
    (lock : Ptr) (p : Phase)
    → 0 < writes_at lock p
    → (q : Request) × (v : World) × (p ≡ writing q lock v)
writes_there lock receiving h = absurd (omega arith)
writes_there lock (looking r) h = absurd (omega arith)
writes_there lock (found r l) h = absurd (omega arith)
writes_there lock (writing r l v) h =
    (r, v, ap (λ x. writing r x v) (ground (arith, ==_iff lock l)))
writes_there lock (reading r l v) h = absurd (omega arith)
writes_there lock closing h = absurd (omega arith)
writes_there lock finished h = absurd (omega arith)

reads_there :
    (lock : Ptr) (p : Phase)
    → 0 < reads_at lock p
    → (q : Request) × (v : World) × (p ≡ reading q lock v)
reads_there lock receiving h = absurd (omega arith)
reads_there lock (looking r) h = absurd (omega arith)
reads_there lock (found r l) h = absurd (omega arith)
reads_there lock (writing r l v) h = absurd (omega arith)
reads_there lock (reading r l v) h = (r, v, ap (λ x. reading r x v) (ground (arith, ==_iff lock l)))
reads_there lock closing h = absurd (omega arith)
reads_there lock finished h = absurd (omega arith)

-- The handler of each thread that holds a lock returns, in the world in which it runs.
abbrev pub HandlersReturn : System → Type 0
HandlersReturn s =
    (j : ℕ) (q : Request) (lock : Ptr) (v : World)
    → (get_elem? s.threads j ≡ some (writing q lock v))
      ⊎ (get_elem? s.threads j ≡ some (reading q lock v))
    → Dispatched lock q v

module _ (s : System) (inv : Inv s.shared s.threads) (returns : HandlersReturn s) (r : Request)
    (lock : Ptr) (own : find_cell r.remote_path inv.cells ≡ some lock) where
  held_to_write : (s.shared.held lock).writer ≡ true → Holder s r.remote_path
  held_to_write w =
      let (j, p, at, pos) =
        weigh_pos (writes_at lock) s.threads (ground (arith, inv.writers lock)) in
      let (q, v, e) = writes_there lock p pos in
      let there = at ∙ ap some e in
      let (fuel, w2, actions, run) = returns j q lock v (inl there) in
      let placed = All-get (Placed inv.cells) s.threads j (writing q lock v) inv.placed there in
      record {
        thread = j;
        phase = writing q lock v;
        standing = there;
        works =
            find_cell-injective s.shared.locks.heap inv.list.head_node inv.cells q.remote_path
              r.remote_path lock inv.listed.chain placed own;
        can_move = record {
          phase = writing q lock v;
          standing = there;
          shared' = _;
          phase' = closing;
          moves = wrlock_done q lock fuel v w2 actions run;
        };
      }

  held_to_read : 0 < (s.shared.held lock).readers → Holder s r.remote_path
  held_to_read w =
      let (j, p, at, pos) = weigh_pos (reads_at lock) s.threads (omega (arith, inv.readers lock)) in
      let (q, v, e) = reads_there lock p pos in
      let there = at ∙ ap some e in
      let (fuel, w2, actions, run) = returns j q lock v (inr there) in
      let placed = All-get (Placed inv.cells) s.threads j (reading q lock v) inv.placed there in
      record {
        thread = j;
        phase = reading q lock v;
        standing = there;
        works =
            find_cell-injective s.shared.locks.heap inv.list.head_node inv.cells q.remote_path
              r.remote_path lock inv.listed.chain placed own;
        can_move = record {
          phase = reading q lock v;
          standing = there;
          shared' = _;
          phase' = closing;
          moves = rdlock_done q lock fuel v w2 actions run;
        };
      }

readers-cases : (l : RwLock) → (l ≡ unlocked) ⊎ ((l.writer ≡ true) ⊎ (0 < l.readers))
readers-cases l = elim (Bool-cases l.writer) [
  | inl w ↦ inr (inl w)
  | inr free ↦ elim (ℕ_discrete l.readers 0) [
    | no some_read ↦ inr (inr (omega arith))
    | yes none_read ↦ inl (λ i. record { readers = none_read i; writer = free i })
  ]
]

-- No deadlock: in every state that the threads reach and in which the handler of each thread that holds a lock
-- returns in the world in which it runs, a thread that has found the lock of its file can go on, in any world,
-- or another thread works on that file and can give the lock back.
pub no_deadlock :
    (s : System) (i : ℕ) (r : Request) (lock : Ptr) (w0 : World)
    → Reach s
    → HandlersReturn s
    → get_elem? s.threads i ≡ some (found r lock)
    → CanMove s i ⊎ Holder s r.remote_path
no_deadlock s i r lock w0 reach returns at =
    let inv = Reach-Inv reach in
    let own = All-get (Placed inv.cells) s.threads i (found r lock) inv.placed at in
    let goes_on : (shared' : Shared) (p' : Phase)
        → Move s.shared (found r lock) shared' p'
        → CanMove s i ⊎ Holder s r.remote_path =
      λ shared' p' m. inl (record {
        phase = found r lock;
        standing = at;
        shared' = shared';
        phase' = p';
        moves = m;
      }) in
    elim (Bool-cases (is_writer r.command)) [
      | inl writer ↦ elim (readers-cases (s.shared.held lock)) [
        | inl free ↦ goes_on _ _ (wrlock r lock w0 writer free)
        | inr (inl w) ↦ inr (held_to_write s inv returns r lock own w)
        | inr (inr n) ↦ inr (held_to_read s inv returns r lock own n)
      ]
      | inr no_writer ↦ elim (Bool-cases (is_reader r.command)) [
        | inr no_reader ↦ goes_on _ _ (refuse r lock no_writer no_reader)
        | inl reader ↦ elim (Bool-cases (s.shared.held lock).writer) [
          | inl w ↦ inr (held_to_write s inv returns r lock own w)
          | inr free ↦ goes_on _ _ (rdlock r lock w0 reader free)
        ]
      ]
    ]
