-- ===== src/LockList/NoMemory.antt =====
-- `getLockFor` where `malloc` returns NULL, and what every call that hands out a node gives.
use mathlib.Core.Path.{subst}
use remote_file_system.Prelude.{
  ap, sym, ◌∙◌, ◌≡◌, ◌≢◌, ◌⊎◌, inl, inr, refl, false, Option, none, some, Bytes, is_empty, Run,
  done, arith, Option-cases,
}
use native.Mathlib.Decide.{ℕ_discrete}
use remote_file_system.LockList.{
  Ptr, null, Heap, FileLockList, create_lock_node, add_lock_to_list, search_lock, get_lock_for,
}
use remote_file_system.LockList.Chain.{Cells, has_address, find_cell, IsLockList, fresh_address}
use remote_file_system.LockList.Lookup.{
  lock_of, get_lock_for-lock_of, search_lock-find_cell, granted_has, find_cell-lock_of,
}

module _ (h : Heap) (l : FileLockList) (cells : Cells) (name : Bytes) (is : IsLockList h l cells)
    (named : is_empty name ≡ false) where
  searched : search_lock l.length l.head_node (some name) h ≡ done (find_cell name cells)
  searched = rw is.counted (search_lock-find_cell name h l.head_node cells is.chain)

  nothing_created : create_lock_node null (some name) h ≡ (null, h)
  unfolding create_lock_node
  nothing_created = ground arith

  nothing_added : add_lock_to_list null l h ≡ done (l, h)
  unfolding add_lock_to_list
  nothing_added = refl

  -- Without memory a file that has a node gets it, and any other gets NULL; the list stays.
  pub get_lock_for-no_memory :
      (get_lock_for null (some name) (some l) h ≡ done (null, some l, h))
      ⊎ ((p : Ptr) × (find_cell name cells ≡ some p)
          × (get_lock_for null (some name) (some l) h ≡ done (p, some l, h)))
  unfolding get_lock_for
  get_lock_for-no_memory = elim (Option-cases (find_cell name cells)) [
    | inl e ↦ inl (rw (searched, e, nothing_created, nothing_added) refl)
    | inr (p, e) ↦ inr (p, e, rw (searched, e) refl)
  ]

-- What a call of `getLockFor` leaves, with or without memory, for the node that it hands out: the list
-- is well formed, the file has that node, every file keeps the node that it had, and a new node was
-- no node of the list before.
pub record Handed (cells : Cells) (fresh : Ptr) (name : Bytes) (lock : Ptr)
    (manager : Option FileLockList) (heap : Heap) : Type 0 where
  pub list : FileLockList
  pub nodes : Cells
  pub managed : manager ≡ some list
  pub listed : IsLockList heap list nodes
  pub has : (lock ≡ null) ⊎ (find_cell name nodes ≡ some lock)
  pub kept : (m : Bytes) (p : Ptr) → find_cell m cells ≡ some p → find_cell m nodes ≡ some p
  pub new : lock ≢ null → lock ≡ fresh → has_address fresh cells ≡ false

parts :
    {p q : Ptr} {l m : Option FileLockList} {h k : Heap}
    → ◌≡◌ {A = Run (Ptr × Option FileLockList × Heap)} (done (p, l, h)) (done (q, m, k))
    → (p ≡ q) × (l ≡ m) × (h ≡ k)
parts e = ground arith

module _ (h : Heap) (l : FileLockList) (cells : Cells) (name : Bytes) (is : IsLockList h l cells)
    (named : is_empty name ≡ false) (lock : Ptr) (manager : Option FileLockList) (heap : Heap) where
  unchanged :
      (fresh p : Ptr)
      → (p ≡ null) ⊎ (find_cell name cells ≡ some p)
      → (p ≢ null → p ≡ fresh → has_address fresh cells ≡ false)
      → (p ≡ lock) × (some l ≡ manager) × (h ≡ heap)
      → Handed cells fresh name lock manager heap
  unchanged fresh p found new (same, managed, same_heap) = record {
    list = l;
    nodes = cells;
    managed = sym managed;
    listed = subst (λ k. IsLockList k l cells) same_heap is;
    has = subst (λ q. (q ≡ null) ⊎ (find_cell name cells ≡ some q)) same found;
    kept = λ m q e. e;
    new = subst (λ q. q ≢ null → q ≡ fresh → has_address fresh cells ≡ false) same new;
  }

  with_memory :
      (fresh : Ptr)
      → fresh ≢ null
      → h fresh ≡ none
      → get_lock_for fresh (some name) (some l) h ≡ done (lock, manager, heap)
      → Handed cells fresh name lock manager heap
  with_memory fresh ne free e =
      let (m, k, e', is') = get_lock_for-lock_of h l cells fresh name is ne free named in
      let (same, managed, same_heap) = parts (sym e' ∙ e) in
      record {
        list = m;
        nodes = (lock_of fresh name cells).1;
        managed = sym managed;
        listed = subst (λ x. IsLockList x m (lock_of fresh name cells).1) same_heap is';
        has = inr (granted_has fresh name cells (find_cell name cells) refl ∙ ap some same);
        kept = λ q p. find_cell-lock_of q name fresh cells p;
        new = λ _ _. fresh_address h l.head_node cells fresh free is.chain;
      }

  without_memory :
      get_lock_for null (some name) (some l) h ≡ done (lock, manager, heap)
      → Handed cells null name lock manager heap
  without_memory e = elim (get_lock_for-no_memory h l cells name is named) [
    | inl none_left ↦
        unchanged null null (inl refl) (λ ne _. absurd (ne refl)) (parts (sym none_left ∙ e))
    | inr (p, has, found) ↦
        unchanged null p (inr has) (λ ne same. absurd (ne same)) (parts (sym found ∙ e))
  ]

  pub get_lock_for-Handed :
      (fresh : Ptr)
      → (fresh ≢ null → h fresh ≡ none)
      → get_lock_for fresh (some name) (some l) h ≡ done (lock, manager, heap)
      → Handed cells fresh name lock manager heap
  get_lock_for-Handed fresh free e = elim (ℕ_discrete fresh null) [
    | no ne ↦ with_memory fresh ne (free ne) e
    | yes null_given ↦
        subst (λ f. Handed cells f name lock manager heap) (sym null_given)
          (without_memory (
            subst (λ f. get_lock_for f (some name) (some l) h ≡ done (lock, manager, heap))
              null_given e))
  ]
