-- ===== src/Examples/Locks.antt =====
-- The list of locks on a concrete heap.
use mathlib.Core.Quot
use remote_file_system.Prelude.{
  ℕ, ◌≡◌, ◌↔◌, refl, false, none, some, [], ◌∷◌, codes, bytes_eq, done, arith,
}
use remote_file_system.CString.{equals}
use remote_file_system.LockList.{
  Heap, store, node, FileLockList, lock_list, get_lock_for, search_lock, create_lock_node,
  add_lock_to_list, load, set_next,
}
use remote_file_system.LockList.Chain.{Cells, IsLockList}
use remote_file_system.LockList.Table.{LockTable, get_lock_for_comm}
use remote_file_system.LockList.Lookup.{get_lock_for-lock_of, create_file_lock_list-IsLockList}
use remote_file_system.LockList.Identity.{get_lock_for-same_iff}

abbrev no_nodes : Heap
no_nodes p = none

abbrev one_node : Heap
one_node = store no_nodes 1 (some (node (codes "a") 0))

empty_list : IsLockList no_nodes (lock_list 0 0 0) []
empty_list = (create_file_lock_list-IsLockList no_nodes).1

get_lock_for-lock_of_example :
    (l' : FileLockList) × (h' : Heap) × (get_lock_for 1
        (some (codes "a"))
        (some (lock_list 0 0 0))
        no_nodes
      ≡ done (1, some l', h'))
    × IsLockList h' l' ((1, codes "a") ∷ [])
get_lock_for-lock_of_example =
    get_lock_for-lock_of no_nodes (lock_list 0 0 0) [] 1 (codes "a") empty_list (omega arith) refl
      refl

first_lock :
    get_lock_for 1 (some (codes "a")) (some (lock_list 0 0 0)) no_nodes
    ≡ done (1, some (lock_list 1 1 0), one_node)
unfolding get_lock_for search_lock create_lock_node add_lock_to_list
first_lock = refl

free_address : one_node 2 ≡ none
unfolding store
free_address = refl

second_lock :
    get_lock_for 2 (some (codes "a")) (some (lock_list 1 1 0)) one_node
    ≡ done (1, some (lock_list 1 1 0), one_node)
unfolding get_lock_for search_lock load equals bytes_eq store
second_lock = refl

get_lock_for-same_iff_example : (◌≡◌ {A = ℕ} 1 1) ↔ (codes "a" ≡ codes "a")
get_lock_for-same_iff_example =
    get_lock_for-same_iff no_nodes (lock_list 0 0 0) [] empty_list 1 (codes "a") (omega arith) refl
      refl 1 (lock_list 1 1 0) one_node first_lock 2 (codes "a") (omega arith) free_address refl 1
      (lock_list 1 1 0) one_node second_lock

abbrev other_node : Heap
other_node = store no_nodes 2 (some (node (codes "b") 0))

abbrev a_then_b : Heap
a_then_b = store (store one_node 2 (some (node (codes "b") 0))) 1 (some (node (codes "a") 2))

abbrev b_then_a : Heap
b_then_a = store (store other_node 1 (some (node (codes "a") 0))) 2 (some (node (codes "b") 1))

then_b :
    get_lock_for 2 (some (codes "b")) (some (lock_list 1 1 0)) one_node
    ≡ done (2, some (lock_list 2 1 2), a_then_b)
unfolding get_lock_for search_lock create_lock_node add_lock_to_list load store set_next equals
    bytes_eq
then_b = refl

first_b :
    get_lock_for 2 (some (codes "b")) (some (lock_list 0 0 0)) no_nodes
    ≡ done (2, some (lock_list 1 2 0), other_node)
unfolding get_lock_for search_lock create_lock_node add_lock_to_list
first_b = refl

then_a :
    get_lock_for 1 (some (codes "a")) (some (lock_list 1 2 0)) other_node
    ≡ done (1, some (lock_list 2 2 1), b_then_a)
unfolding get_lock_for search_lock create_lock_node add_lock_to_list load store set_next equals
    bytes_eq
then_a = refl

free_for_a : other_node 1 ≡ none
unfolding store
free_for_a = refl

two_files : bytes_eq (codes "a") (codes "b") ≡ false
unfolding bytes_eq
two_files = refl

get_lock_for_comm_example :
    (◌≡◌ {A = ℕ} 1 1)
    × (◌≡◌ {A = ℕ} 2 2)
    × ((xs ys : Cells) × IsLockList a_then_b (lock_list 2 1 2) xs
        × IsLockList b_then_a (lock_list 2 2 1) ys
        × ◌≡◌ {A = LockTable} (Quot.mk xs) (Quot.mk ys))
get_lock_for_comm_example =
    get_lock_for_comm no_nodes (lock_list 0 0 0) [] 1 2 (codes "a") (codes "b") empty_list
      (omega arith) (omega arith) refl refl refl refl two_files 1 2 2 1 (lock_list 1 1 0)
      (lock_list 2 1 2) (lock_list 1 2 0) (lock_list 2 2 1) one_node a_then_b other_node b_then_a
      first_lock free_address then_b first_b free_for_a then_a
