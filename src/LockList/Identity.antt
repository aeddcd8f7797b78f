-- ===== src/LockList/Identity.antt =====
-- Files and their locks: one node for one file.
use mathlib.Core.Path.{subst}
use remote_file_system.Prelude.{
  ap, sym, ◌∙◌, ◌≡◌, ◌≢◌, ◌↔◌, refl, false, Option, none, some, Bytes, is_empty, Run, done, arith,
}
use remote_file_system.LockList.{Ptr, null, Heap, FileLockList, get_lock_for}
use remote_file_system.LockList.Chain.{Cells, find_cell, IsLockList}
use remote_file_system.LockList.Lookup.{
  lock_of, get_lock_for-lock_of, granted_has, find_cell-lock_of, find_cell-injective,
}

done-parts :
    {p q : Ptr} {l m : FileLockList} {h k : Heap}
    → ◌≡◌ {A = Run (Ptr × Option FileLockList × Heap)} (done (p, some l, h)) (done (q, some m, k))
    → (p ≡ q) × (l ≡ m) × (h ≡ k)
done-parts e = ground arith

-- what a call that returned says of its results
module _ (h : Heap) (l : FileLockList) (cells : Cells) (fresh : Ptr) (name : Bytes)
    (is : IsLockList h l cells) (ne : fresh ≢ null) (free : h fresh ≡ none)
    (named : is_empty name ≡ false) (p : Ptr) (l' : FileLockList) (h' : Heap)
    (returned : get_lock_for fresh (some name) (some l) h ≡ done (p, some l', h')) where
  pub returned-IsLockList : IsLockList h' l' (lock_of fresh name cells).1
  returned-IsLockList =
      let (m, k, e, is') = get_lock_for-lock_of h l cells fresh name is ne free named in
      let (_, same_list, same_heap) = done-parts (sym e ∙ returned) in
      subst (λ x. IsLockList x l' (lock_of fresh name cells).1) same_heap
        (subst (λ x. IsLockList k x (lock_of fresh name cells).1) same_list is')

  pub returned-find_cell : find_cell name (lock_of fresh name cells).1 ≡ some p
  returned-find_cell =
      let (m, k, e, is') = get_lock_for-lock_of h l cells fresh name is ne free named in
      let (same, _, _) = done-parts (sym e ∙ returned) in
      granted_has fresh name cells (find_cell name cells) refl ∙ ap some same

-- Two lookups one after the other, each with a new address from `malloc`, hand out the same node
-- exactly if they are for the same file.
pub get_lock_for-same_iff :
    (h : Heap) (l : FileLockList) (cells : Cells)
    → IsLockList h l cells
    → (fresh : Ptr) (first : Bytes) → fresh ≢ null
    → h fresh ≡ none
    → is_empty first ≡ false
    → (p : Ptr) (l' : FileLockList) (h' : Heap)
    → get_lock_for fresh (some first) (some l) h ≡ done (p, some l', h')
    → (fresh' : Ptr) (second : Bytes) → fresh' ≢ null
    → h' fresh' ≡ none
    → is_empty second ≡ false
    → (q : Ptr) (l'' : FileLockList) (h'' : Heap)
    → get_lock_for fresh' (some second) (some l') h' ≡ done (q, some l'', h'')
    → (p ≡ q) ↔ (first ≡ second)
get_lock_for-same_iff h l cells is f m f_ne f_free m_named p l' h' e g n g_ne g_free n_named q l''
      h'' e' =
    let is' = returned-IsLockList h l cells f m is f_ne f_free m_named p l' h' e in
    let mid = (lock_of f m cells).1 in
    let is'' = returned-IsLockList h' l' mid g n is' g_ne g_free n_named q l'' h'' e' in
    let end = (lock_of g n mid).1 in
    let has_m =
      find_cell-lock_of m n g mid p
        (returned-find_cell h l cells f m is f_ne f_free m_named p l' h' e) in
    let has_n = returned-find_cell h' l' mid g n is' g_ne g_free n_named q l'' h'' e' in
    (
      λ same.
          find_cell-injective h'' l''.head_node end m n p is''.chain has_m
            (has_n ∙ ap some (sym same)),
      λ same. cc (has_m, has_n, ap (λ x. find_cell x end) same),
    )
