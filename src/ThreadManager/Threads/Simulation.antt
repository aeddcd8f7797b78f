-- ===== src/ThreadManager/Threads/Simulation.antt =====
-- The handler of one thread, run from its start to its end, is a sequence of the steps of that thread.
use mathlib.Core.Path.{subst}
use native.Mathlib.Decide.{ℕ_discrete}
use remote_file_system.Prelude.{
  ℕ, ◌≡◌, ◌≢◌, sym, ap, ◌∙◌, ◌⊎◌, inl, inr, true, false, Option, none, some, List, [], ◌∷◌, ◌++◌,
  ==_self, done, arith, Bool-cases, is_empty,
}
use remote_file_system.LockList.{Ptr, null, Heap, FileLockList, get_lock_for}
use remote_file_system.LockList.Chain.{Cells, IsLockList}
use remote_file_system.LockList.Lookup.{get_lock_for-lock_of}
use remote_file_system.ThreadManager.Connection.{lock_of-not_null}
use remote_file_system.ThreadManager.Received.{receive_request-IsRequest}
use remote_file_system.Protocol.Request.{Request}
use remote_file_system.ThreadManager.{
  LockAction, dispatch, wrlock, rdlock, unlock, Locks, thread_client_handler,
}
use remote_file_system.ThreadManager.Threads
use remote_file_system.ThreadManager.Threads.{
  RwLock, unlocked, Phase, receiving, looking, found, writing, reading, closing, finished, Shared,
  set_lock, init_lock, lock_to_write, lock_to_read, unlock_write, unlock_read, is_writer, is_reader,
  Move,
}
use remote_file_system.World.{World}
use remote_file_system.ThreadManager.Threads.Returns.{
  calls_of, Dispatched, serve-calls, rejected, served, thread_client_handler-ran,
}

-- the call on a lock that a step makes, from the thread's phases before and behind it
abbrev pub called : Phase → Phase → List LockAction
called (found r lock) (writing q l w) = wrlock l ∷ []
called (found r lock) (reading q l w) = rdlock l ∷ []
called (writing r lock w) _ = unlock lock ∷ []
called (reading r lock w) _ = unlock lock ∷ []
called _ _ = []

-- Steps of one thread, one after another, with the calls on locks that they make.
pub data Trace : Shared → Phase → List LockAction → Shared → Phase → Type 0 where
  stop : {s : Shared} {p : Phase} → Trace s p [] s p
  step :
      {s s1 s2 : Shared} {p p1 p2 : Phase} {actions : List LockAction}
      → Move s p s1 p1
      → Trace s1 p1 actions s2 p2
      → Trace s p (called p p1 ++ actions) s2 p2

-- no thread holds a lock
abbrev pub AllFree : (Ptr → RwLock) → Type 0
AllFree held = (p : Ptr) → held p ≡ unlocked

init_lock-AllFree :
    (fresh lock : Ptr) (held : Ptr → RwLock) → AllFree held → AllFree (init_lock fresh lock held)
init_lock-AllFree fresh lock held free p = ground (arith, free p)

module _ (held : Ptr → RwLock) (lock : Ptr) (free : AllFree held) where
  abbrev for_writing : Ptr → RwLock
  for_writing = set_lock held lock (lock_to_write (held lock))

  abbrev for_reading : Ptr → RwLock
  for_reading = set_lock held lock (lock_to_read (held lock))

  write-AllFree : AllFree (set_lock for_writing lock (unlock_write (for_writing lock)))
  write-AllFree p = ground (arith, free p, free lock, ==_self lock)

  read-AllFree : AllFree (set_lock for_reading lock (unlock_read (for_reading lock)))
  read-AllFree p = ground (arith, free p, free lock, ==_self lock)

-- The thread comes to the end of its handler, with these calls on locks, leaves this list of locks, and no
-- lock is held.
abbrev pub Ends : Shared → Phase → Locks → List LockAction → Type 0
Ends s p locks actions =
    (held : Ptr → RwLock) × Trace s p actions (record { locks = locks; held = held }) finished
    × AllFree held

before :
    {s s1 : Shared} {p p1 : Phase} {locks : Locks} {actions : List LockAction}
    → Move s p s1 p1
    → Ends s1 p1 locks actions
    → Ends s p locks (called p p1 ++ actions)
before m (held, t, free) = (held, step m t, free)

at_end : (s : Shared) → AllFree s.held → Ends s closing s.locks []
at_end s free = (s.held, step Threads.finish stop, free)

module _ (s : Shared) (r : Request) (lock : Ptr) (free : AllFree s.held) (fuel : ℕ) (w1 w2 : World)
    (done_by : List LockAction) (run : dispatch fuel lock r w1 ≡ done (done_by, w2)) where
  from_writer :
      is_writer r.command ≡ true → Ends s (found r lock) s.locks (wrlock lock ∷ unlock lock ∷ [])
  from_writer w = before (Threads.wrlock r lock w1 w (free lock)) (
      before (Threads.wrlock_done r lock fuel w1 w2 done_by run)
        (at_end _ (write-AllFree s.held lock free)))

  from_reader :
      is_reader r.command ≡ true → Ends s (found r lock) s.locks (rdlock lock ∷ unlock lock ∷ [])
  from_reader w = before (Threads.rdlock r lock w1 w (ap (λ l. l.writer) (free lock))) (
      before (Threads.rdlock_done r lock fuel w1 w2 done_by run)
        (at_end _ (read-AllFree s.held lock free)))

  -- the steps behind the lookup of the lock
  from_found : Ends s (found r lock) s.locks (calls_of r.command lock)
  from_found = elim (Bool-cases (is_writer r.command)) [
    | inl w ↦ subst (Ends s (found r lock) s.locks) (sym (ground (arith, w))) (from_writer w)
    | inr n ↦ elim (Bool-cases (is_reader r.command)) [
      | inl w ↦ subst (Ends s (found r lock) s.locks) (sym (ground (arith, n, w))) (from_reader w)
      | inr m ↦
          subst (Ends s (found r lock) s.locks) (sym (ground (arith, n, m)))
            (before (Threads.refuse r lock n m) (at_end s free))
    ]
  ]

module _ (l : FileLockList) (h : Heap) (cells : Cells) (is : IsLockList h l cells) (fresh : Ptr)
    (new : fresh ≢ null → h fresh ≡ none) (held : Ptr → RwLock) (free : AllFree held) (r : Request)
    (lock : Ptr) (manager : Option FileLockList) (heap : Heap)
    (named : is_empty r.remote_path ≡ false)
    (q : get_lock_for fresh (some r.remote_path) (some l) h ≡ done (lock, manager, heap)) where
  abbrev before_lookup : Shared
  before_lookup = record { locks = record { manager = some l; heap = h }; held = held }

  -- NULL is handed out only where `malloc` has given NULL.
  no_lock_without_memory : lock ≡ null → fresh ≡ null
  no_lock_without_memory z = elim (ℕ_discrete fresh null) [
    | yes f ↦ f
    | no ne ↦
        let (l', h', e, _) =
          get_lock_for-lock_of h l cells fresh r.remote_path is ne (new ne) named in
        absurd (
          lock_of-not_null h l.head_node cells r.remote_path fresh is.chain ne
            (ground (arith, q, e, z)))
  ]

  from_lookup :
      (actions : List LockAction) (w : World)
      → ((lock ≡ null) × (actions ≡ []))
        ⊎ ((lock ≢ null) × (actions ≡ calls_of r.command lock) × Dispatched lock r w)
      → Ends before_lookup (looking r) (record { manager = manager; heap = heap }) actions
  from_lookup actions w (inl (z, a)) =
      subst (Ends before_lookup (looking r) (record { manager = manager; heap = heap })) (sym a) (
        before
          (Threads.no_lock r manager heap (
            ap (λ f. get_lock_for f (some r.remote_path) (some l) h)
              (sym (no_lock_without_memory z))
            ∙ q
            ∙ ap (λ p. done (p, manager, heap)) z))
          (at_end _ free))
  from_lookup actions w (inr (ne, a, (fuel, w2, acts, run))) =
      subst (Ends before_lookup (looking r) (record { manager = manager; heap = heap })) (sym a) (
        before (Threads.find r fresh lock manager heap new q ne)
          (from_found _ r lock (init_lock-AllFree fresh lock held free) fuel w w2 acts run))

-- The handler of one thread is a sequence of its steps: where it returns, on a well-formed list of locks,
-- with an address from `malloc` that is NULL or new, and while no thread holds a lock, the steps of the
-- thread lead from the start of the handler to its end, make the calls on locks that the handler made, leave
-- the list that it left, and no lock is held behind them.
pub thread_client_handler-Ends :
    (fuel : ℕ) (fresh : Ptr) (l : FileLockList) (h : Heap) (cells : Cells) (held : Ptr → RwLock)
    (w w' : World) (actions : List LockAction) (locks' : Locks)
    → IsLockList h l cells
    → (fresh ≢ null → h fresh ≡ none)
    → AllFree held
    → thread_client_handler fuel fresh (record { manager = some l; heap = h }) w
      ≡ done ((actions, locks'), w')
    → Ends
        (record { locks = record { manager = some l; heap = h }; held = held })
        receiving
        locks'
        actions
thread_client_handler-Ends fuel fresh l h cells held w w' actions locks' is new free e =
    let locks : Locks = record { manager = some l; heap = h } in
    let s : Shared = record { locks = locks; held = held } in
    elim (thread_client_handler-ran fuel fresh locks locks' w w' actions e) [
      | rejected w1 g a b ↦ subst (Ends s receiving locks') (sym a) (
          subst (λ k. Ends s receiving k []) (sym b)
            (before (Threads.reject w w1 g) (at_end s free)))
      | served r w1 w2 lock manager heap g q d b ↦
          let named = (receive_request-IsRequest w w1 r g).path_not_empty in
          subst (λ k. Ends s receiving k actions) (sym b)
            (before (Threads.receive w w1 r g) (
              from_lookup l h cells is fresh new held free r lock manager heap named q actions w1
                (serve-calls fuel lock r w1 w2 actions d)))
    ]
