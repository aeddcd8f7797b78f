-- ===== src/ThreadManager/Threads/Returns.antt =====
-- What a run of `threadClientHandler` that returns has done.
use native.Mathlib.Decide.{ℕ_discrete}
use remote_file_system.Prelude.{
  ℕ, ◌≡◌, ◌≢◌, ap, ◌∙◌, ◌⊎◌, inl, inr, Option, none, some, List, [], ◌∷◌, if◌then◌else◌, ==_ne,
  Run-cases, done, arith,
}
use remote_file_system.Command.{CommandType}
use remote_file_system.LockList.{Ptr, null, Heap, FileLockList, get_lock_for}
use remote_file_system.Protocol.Request.{Request}
use remote_file_system.ThreadManager.{
  LockAction, wrlock, rdlock, unlock, dispatch, Locks, serve, receive_request,
  thread_client_handler,
}
use remote_file_system.ThreadManager.Threads.{is_writer, is_reader}
use remote_file_system.World.{World, close}

-- the calls on a file's lock around the handler of a command
abbrev pub calls_of : CommandType → Ptr → List LockAction
calls_of c lock =
    if is_writer c
    then wrlock lock ∷ unlock lock ∷ []
    else if is_reader c
    then rdlock lock ∷ unlock lock ∷ []
    else []

-- The handler of the request returns, run in this world.
abbrev pub Dispatched : Ptr → Request → World → Type 0
Dispatched lock r w =
    (fuel : ℕ) × (w' : World) × (actions : List LockAction) × (dispatch fuel lock r w
      ≡ done (actions, w'))

module _ (fuel : ℕ) (lock : Ptr) (r : Request) (w w' : World) (actions : List LockAction) where
  dispatch-calls :
      (w1 : World) → dispatch fuel lock r w ≡ done (actions, w1) → actions ≡ calls_of r.command lock
  unfolding dispatch
  dispatch-calls w1 e = ground (arith, e)

  served_calls :
      lock ≢ null
      → serve fuel r lock w ≡ done (actions, w')
      → (actions ≡ calls_of r.command lock) × Dispatched lock r w
  unfolding serve close
  served_calls ne e = elim (Run-cases (dispatch fuel lock r w)) [
    | inl ((a, w1), d) ↦ (
      dispatch-calls w1 (d ∙ ap (λ x. done (x, w1)) (ground (arith, e, d, ==_ne lock null ne))),
      (fuel, w1, a, d),
    )
    | inr bad ↦ absurd (ground (arith, e, bad, ==_ne lock null ne))
  ]

  pub serve-calls :
      serve fuel r lock w ≡ done (actions, w')
      → ((lock ≡ null) × (actions ≡ []))
        ⊎ ((lock ≢ null) × (actions ≡ calls_of r.command lock) × Dispatched lock r w)
  unfolding serve close
  serve-calls e = elim (ℕ_discrete lock null) [
    | yes z ↦ inl (z, ground (arith, e, z))
    | no ne ↦ let (calls, ran) = served_calls ne e in inr (ne, calls, ran)
  ]

-- What a run of the handler that returns has done.
pub data Ran (fuel : ℕ) (fresh : Ptr) (locks : Locks) (w : World) (actions : List LockAction)
    (locks' : Locks) : Type 0 where
  rejected :
      (w1 : World)
      → receive_request w ≡ done (none, w1)
      → actions ≡ []
      → locks' ≡ locks
      → Ran fuel fresh locks w actions locks'
  served :
      (r : Request) (w1 w2 : World) (lock : Ptr) (manager : Option FileLockList) (heap : Heap)
      → receive_request w ≡ done (some r, w1)
      → get_lock_for fresh (some r.remote_path) locks.manager locks.heap
        ≡ done (lock, manager, heap)
      → serve fuel r lock w1 ≡ done (actions, w2)
      → locks' ≡ record { manager = manager; heap = heap }
      → Ran fuel fresh locks w actions locks'

pub thread_client_handler-ran :
    (fuel : ℕ) (fresh : Ptr) (locks locks' : Locks) (w w' : World) (actions : List LockAction)
    → thread_client_handler fuel fresh locks w ≡ done ((actions, locks'), w')
    → Ran fuel fresh locks w actions locks'
unfolding thread_client_handler close
thread_client_handler-ran fuel fresh locks locks' w w' actions e =
    elim (Run-cases (receive_request w)) [
      | inr bad ↦ absurd (ground (arith, e, bad))
      | inl ((none, w1), g) ↦ rejected w1 g (ground (arith, e, g)) (ground (arith, e, g))
      | inl ((some r, w1), g) ↦
          elim (Run-cases (get_lock_for fresh (some r.remote_path) locks.manager locks.heap)) [
            | inr bad ↦ absurd (ground (arith, e, g, bad))
            | inl ((lock, manager, heap), q) ↦ elim (Run-cases (serve fuel r lock w1)) [
              | inr bad ↦ absurd (ground (arith, e, g, q, bad))
              | inl ((acts, w2), d) ↦
                  served r w1 w2 lock manager heap g q
                    (d ∙ ap (λ x. done (x, w2)) (ground (arith, e, g, q, d)))
                    (ground (arith, e, g, q, d))
            ]
          ]
    ]
