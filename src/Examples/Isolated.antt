-- ===== src/Examples/Isolated.antt =====
-- Two threads of the server that work on two files at a time.
use remote_file_system.Prelude.{
  ◌≡◌, refl, none, some, [], ◌∷◌, ◌++◌, codes, get_elem?, bytes_eq, done, arith, ap, length,
  length-append,
}
use remote_file_system.Prelude.Int.{pos}
use remote_file_system.CString.Decimal.{print_long, print_ℕ, print_digits}
use remote_file_system.CString.Search.{strrchr}
use remote_file_system.Config.{version_subfolder}
use remote_file_system.Command.{write}
use remote_file_system.FileSystem.{
  FileSystem, left, regular, directory, find, put, open_read, open_write, has_parent,
}
use remote_file_system.LockList.{
  Heap, store, node, lock_list, get_lock_for, search_lock, create_lock_node, add_lock_to_list, load,
  set_next,
}
use remote_file_system.CString.{equals}
use remote_file_system.Protocol.Request.{Request, request}
use remote_file_system.RequestHandler.Calls.{itself, empties}
use remote_file_system.Socket.{bytes}
use remote_file_system.ThreadManager.{receive_request}
use remote_file_system.ThreadManager.Handler.{receive_request-receives}
use remote_file_system.ThreadManager.Threads.{
  receiving, looking, found, writing, Move, receive, wrlock, System, move, Reach, next,
}
use remote_file_system.ThreadManager.Threads.Files.{
  Site, Others, at_rest, works, IsNoVersion, open_read-Others,
}
use remote_file_system.Utils.Transfer.{get_file_size}
use remote_file_system.World.{World}
use remote_file_system.Examples.{example_world, example_files, no_file}
use remote_file_system.Examples.Interleaved.{job, at_work, one_node, locked}

abbrev other_job : Request
other_job = request write (codes "data/c") (pos 3)

abbrev incoming : World
incoming = example_world no_file (bytes (codes "WRITE,3,data/c") ∷ []) []

arrived : receive_request incoming ≡ done (some other_job, example_world no_file [] [])
unfolding print_long print_ℕ print_digits
arrived =
    receive_request-receives write 3 (codes "data/c") incoming [] (λ e. cc e) (omega arith) refl
      (ground arith) (ground arith) (omega arith) refl refl

abbrev two_nodes : Heap
two_nodes =
    store (store one_node 8 (some (node (codes "data/c") 0))) 7 (some (node (codes "data/b") 8))

second_lookup :
    get_lock_for 8 (some (codes "data/c")) (some (lock_list 1 7 0)) one_node
    ≡ done (8, some (lock_list 2 7 8), two_nodes)
unfolding get_lock_for search_lock create_lock_node add_lock_to_list load store set_next equals
    bytes_eq
second_lookup = refl

free_address : one_node 8 ≡ none
unfolding store
free_address = refl

-- The first thread is at work on its file; the second one has found the lock of another file.
abbrev both : (s : System) × Reach s × (get_elem? s.threads 0 ≡ some (writing job 7 at_work))
both = (
  _,
  next
      (next (next locked.1 (move 1 receiving _ _ refl (receive incoming _ other_job arrived))) (
        move 1 (looking other_job) _ _ refl (
          Move.find other_job 8 8 (some (lock_list 2 7 8)) two_nodes (λ _. free_address)
            second_lookup (omega arith))))
      (move 1 (found other_job 8) _ _ refl (wrlock other_job 8 incoming refl refl)),
  refl,
)

abbrev files : FileSystem
files = example_files ((codes "data", directory) ∷ (codes "data/b", regular (codes "abc")) ∷ [])

abbrev files_later : FileSystem
files_later = example_files (
    (codes "data", directory)
    ∷ (codes "data/b", regular (codes "abc"))
    ∷ (codes "data/c", regular [])
    ∷ [])

opened : open_write files (codes "data/c") ≡ some files_later
unfolding open_write has_parent strrchr find put bytes_eq
opened = refl

readable : open_read files (codes "data/b") ≡ some (left (codes "abc"))
unfolding open_read find bytes_eq
readable = refl

abbrev before : Site
before = record { system = both.0; files = files }

-- The second thread opens its own file.
abbrev after : Site
after = record { system = both.0; files = files_later }

by_the_other : Others 0 before after
by_the_other =
    works 1 other_job 8 incoming files_later at_rest (omega arith) refl refl
      (empties (codes "data/c") files_later (itself refl) opened)

no_version : IsNoVersion (codes "data/b")
no_version folder name e = omega (
  arith,
  ap length e,
  length-append (folder ++ version_subfolder) (b'/' ∷ name),
  length-append folder version_subfolder,
)

open_read-Others_example :
    (open_read files_later (codes "data/b") ≡ some (left (codes "abc")))
    × (get_file_size files_later (codes "data/b") ≡ pos 3)
open_read-Others_example =
    open_read-Others 0 before after (writing job 7 at_work) (codes "data/b") (codes "abc") both.1
      both.2 refl refl no_version by_the_other readable
