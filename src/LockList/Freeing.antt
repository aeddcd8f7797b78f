-- ===== src/LockList/Freeing.antt =====
-- `freeFileLockList`: every node is freed once, and nothing else.
use remote_file_system.Prelude.{
  ℕ, suc, ◌≡◌, ◌≢◌, refl, ◌∙◌, none, some, [], ◌∷◌, Bytes, length, ◌==◌, ==_ne, if◌then◌else◌, done,
  arith, ap,
}
use remote_file_system.LockList.{
  Ptr, null, node, Heap, store, FileLockList, free_lock_node, free_nodes, free_file_lock_list,
}
use remote_file_system.LockList.Chain.{
  Cells, has_address, Chain, IsLockList, load-node, Chain-store,
}

-- `h'` is `h` without the nodes of the list.
abbrev pub Freed : Heap → Cells → Heap → Type 0
Freed h cells h' = (q : Ptr) → h' q ≡ (if has_address q cells then none else h q)

free_lock_node-node :
    (h : Heap) (p q : Ptr) (name : Bytes)
    → p ≢ null
    → h p ≡ some (node name q)
    → free_lock_node p h ≡ done (store h p none)
unfolding free_lock_node
free_lock_node-node h p q name ne at = rw (==_ne p null ne, load-node h p (node name q) ne at) refl

free_round :
    (rounds : ℕ) (h : Heap) (p q : Ptr) (name : Bytes)
    → p ≢ null
    → h p ≡ some (node name q)
    → free_nodes (suc rounds) p h ≡ free_nodes rounds q (store h p none)
unfolding free_nodes
free_round rounds h p q name ne at =
    rw (load-node h p (node name q) ne at, free_lock_node-node h p q name ne at) refl

store-none : (h : Heap) (p q : Ptr) → store h p none q ≡ (if q == p then none else h q)
unfolding store
store-none h p q = refl

free_nodes-Freed :
    (h : Heap) (p : Ptr) (cells : Cells)
    → Chain h p cells
    → (h' : Heap) × (free_nodes (length cells) p h ≡ done h') × Freed h cells h'
free_nodes-Freed h p [] ch = (h, unfold free_nodes in refl, λ q. refl)
free_nodes-Freed h p ((a, name) ∷ cells) (head, ne, once, (q, at, rest)) =
    let (h', e, freed) =
      free_nodes-Freed (store h a none) q cells (Chain-store h q cells a none once rest) in
    (
      h',
      ap (λ x. free_nodes (suc (length cells)) x h) head
          ∙ free_round (length cells) h a q name ne at
          ∙ e,
      λ x. ground (arith, freed x, store-none h a x),
    )

-- On a well-formed list `freeFileLockList` returns: each of its nodes is freed, no pointer is followed or
-- freed after its node is gone, and every other address is as it was.
pub free_file_lock_list-Freed :
    (h : Heap) (l : FileLockList) (cells : Cells)
    → IsLockList h l cells
    → (h' : Heap) × (free_file_lock_list (some l) h ≡ done h') × Freed h cells h'
unfolding free_file_lock_list
free_file_lock_list-Freed h l cells is =
    let (h', e, freed) = free_nodes-Freed h l.head_node cells is.chain in
    (h', ap (λ n. free_nodes n l.head_node h) is.counted ∙ e, freed)
