-- ===== src/Examples/Interleaved.antt =====
-- Two threads of the server and one file: the states that they reach.
use mathlib.Core.Path.{subst}
use remote_file_system.Prelude.{
  suc, zero, inl, inr, bytes_eq, Bytes, ℕ, ◌*◌, ◌≤◌, ◌≡◌, ◌⊎◌, refl, none, some, [], ◌∷◌, codes,
  get_elem?, done, arith,
}
use remote_file_system.Prelude.Int.{pos}
use remote_file_system.CString.Decimal.{print_long, print_ℕ, print_digits}
use remote_file_system.Command.{write}
use remote_file_system.LockList.{
  Heap, store, node, lock_list, get_lock_for, search_lock, create_lock_node, add_lock_to_list, load,
}
use remote_file_system.Protocol.Request.{Request, request}
use remote_file_system.Socket.{bytes}
use remote_file_system.ThreadManager
use remote_file_system.ThreadManager.{receive_request, dispatch}
use remote_file_system.ThreadManager.Threads.Returns.{Dispatched}
use remote_file_system.Utils.Transfer.Sending.{after_sending}
use remote_file_system.FileSystem.{directory, regular}
use remote_file_system.CString.{equals}
use remote_file_system.ThreadManager.Handler.{receive_request-receives}
use remote_file_system.ThreadManager.Threads.{
  receiving, looking, found, writing, Move, receive, wrlock, System, spawn, move, Reach, here, next,
}
use remote_file_system.ThreadManager.Threads.Invariant.{Inv}
use remote_file_system.ThreadManager.Threads.Preservation.{Reach-Inv}
use remote_file_system.ThreadManager.Threads.Exclusion.{mutual_exclusion}
use remote_file_system.ThreadManager.Threads.Progress.{CanMove, Holder, HandlersReturn, no_deadlock}
use remote_file_system.World.{World}
use remote_file_system.Examples.{example_world, example_files, no_file}

abbrev pub job : Request
job = request write (codes "data/b") (pos 3)

abbrev incoming : World
incoming = example_world no_file (bytes (codes "WRITE,3,data/b") ∷ []) []

pub arrived : receive_request incoming ≡ done (some job, example_world no_file [] [])
unfolding print_long print_ℕ print_digits
arrived =
    receive_request-receives write 3 (codes "data/b") incoming [] (λ e. cc e) (omega arith) refl
      (ground arith) (ground arith) (omega arith) refl refl

abbrev pub empty_heap : Heap
empty_heap p = none

abbrev pub one_node : Heap
one_node = store empty_heap 7 (some (node (codes "data/b") 0))

pub first_lookup :
    get_lock_for 7 (some (codes "data/b")) (some (lock_list 0 0 0)) empty_heap
    ≡ done (7, some (lock_list 1 7 0), one_node)
unfolding get_lock_for search_lock create_lock_node add_lock_to_list
first_lookup = refl

-- A thread has read its request, and has found the lock of its file.
abbrev pub waiting : (s : System) × Reach s × (get_elem? s.threads 0 ≡ some (found job 7))
waiting = (
  _,
  next
      (next (next (next here spawn) (move 0 receiving _ _ refl (receive incoming _ job arrived)))
        spawn)
      (move 0 (looking job) _ _ refl (
        Move.find job 7 7 (some (lock_list 1 7 0)) one_node (λ _. refl) first_lookup
          (omega arith))),
  refl,
)

-- The first thread, with the bytes of the file still to come, and the file system behind its work.
abbrev pub at_work : World
at_work = example_world no_file (bytes (codes "de") ∷ bytes (codes "f") ∷ []) []

abbrev worked : World
worked =
    after_sending
      (example_world
        (example_files ((codes "data", directory) ∷ (codes "data/b", regular (codes "def")) ∷ []))
        [] [])
      (codes "1,0,NULL") []

-- It has taken the lock.
abbrev pub locked : (s : System) × Reach s × (get_elem? s.threads 0 ≡ some (writing job 7 at_work))
locked =
    (_, next waiting.1 (move 0 (found job 7) _ _ waiting.2 (wrlock job 7 at_work refl refl)), refl)

Reach-Inv_example : Inv waiting.0.shared waiting.0.threads
Reach-Inv_example = Reach-Inv waiting.1

mutual_exclusion_example : ◌≡◌ {A = ℕ} 0 0
mutual_exclusion_example =
    mutual_exclusion locked.0 0 0 job 7 at_work (writing job 7 at_work) locked.1 locked.2 locked.2
      refl

again :
    get_lock_for 0 (some (codes "data/b")) (some (lock_list 1 7 0)) one_node
    ≡ done (7, some (lock_list 1 7 0), one_node)
unfolding get_lock_for search_lock load store equals bytes_eq
again = refl

-- The second thread has found the lock that the first one holds.
abbrev both : (s : System) × Reach s × (get_elem? s.threads 1 ≡ some (found job 7))
both = (
  _,
  next (next locked.1 (move 1 receiving _ _ refl (receive incoming _ job arrived))) (
      move 1 (looking job) _ _ refl (
        Move.find job 0 7 (some (lock_list 1 7 0)) one_node (λ ne. absurd (ne refl)) again
          (omega arith))),
  refl,
)

dispatched :
    dispatch 4 7 job at_work ≡ done (ThreadManager.wrlock 7 ∷ ThreadManager.unlock 7 ∷ [], worked)
unfolding dispatch remote_file_system.World.recv remote_file_system.Socket.recv
    remote_file_system.CString.store_text remote_file_system.Prelude.bytes_eq
    remote_file_system.RequestHandler.handle_write_request
    remote_file_system.Utils.Paths.create_nested_directories
    remote_file_system.Utils.Paths.extract_directory remote_file_system.CString.Search.strrchr
    remote_file_system.FileSystem.is_directory remote_file_system.FileSystem.find
    remote_file_system.FileSystem.put remote_file_system.RequestHandler.save_current_version
    remote_file_system.FileSystem.open_read remote_file_system.FileSystem.open_write
    remote_file_system.FileSystem.has_parent remote_file_system.Utils.Transfer.receive_file_contents
    remote_file_system.Utils.Transfer.receive_loop remote_file_system.FileSystem.fwrite
    remote_file_system.Protocol.Transmit.build_and_send_response
    remote_file_system.Protocol.Transmit.send_response
    remote_file_system.Protocol.Response.create_response
    remote_file_system.Protocol.Response.serialize_response
    remote_file_system.Protocol.Request.num_digits remote_file_system.CString.Decimal.print_long
    remote_file_system.CString.Decimal.print_ℕ remote_file_system.CString.Decimal.print_digits
    remote_file_system.World.send remote_file_system.Socket.send
dispatched = refl

holder_returns : HandlersReturn both.0
holder_returns zero q lock v (inl at) =
    subst (λ r. Dispatched lock r v) (ground (arith, at))
      (subst (λ p. Dispatched p job v) (ground (arith, at))
        (subst (λ x. Dispatched 7 job x) (ground (arith, at)) (4, worked, _, dispatched)))
holder_returns zero q lock v (inr at) = absurd (ground (arith, at))
holder_returns (suc zero) q lock v (inl at) = absurd (ground (arith, at))
holder_returns (suc zero) q lock v (inr at) = absurd (ground (arith, at))
holder_returns (suc (suc j)) q lock v (inl at) = absurd (ground (arith, at))
holder_returns (suc (suc j)) q lock v (inr at) = absurd (ground (arith, at))

no_deadlock_example : CanMove both.0 1 ⊎ Holder both.0 (codes "data/b")
no_deadlock_example = no_deadlock both.0 1 job 7 at_work both.1 holder_returns both.2
