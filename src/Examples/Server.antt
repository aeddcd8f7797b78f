-- ===== src/Examples/Server.antt =====
-- The end of a list of locks.
use remote_file_system.Prelude.{
  ◌≡◌, refl, none, some, [], ◌∷◌, codes, done, ◌==◌, if◌then◌else◌, arith,
}
use remote_file_system.LockList.{Heap, lock_list, node, free_file_lock_list}
use remote_file_system.LockList.Chain.{IsLockList}
use remote_file_system.LockList.Freeing.{Freed, free_file_lock_list-Freed}

abbrev one_node : Heap
one_node p = if p == 7 then some (node (codes "data/b") 0) else none

listed : IsLockList one_node (lock_list 1 7 0) ((7, codes "data/b") ∷ [])
listed = record {
  chain = (refl, omega arith, refl, (0, refl, refl));
  counted = refl;
  tail = tt;
  distinct = (refl, tt);
}

free_file_lock_list-Freed_example :
    (h' : Heap) × (free_file_lock_list (some (lock_list 1 7 0)) one_node ≡ done h')
    × Freed one_node ((7, codes "data/b") ∷ []) h'
free_file_lock_list-Freed_example =
    free_file_lock_list-Freed one_node (lock_list 1 7 0) ((7, codes "data/b") ∷ []) listed
