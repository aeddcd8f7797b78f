-- ===== src/LockList.antt =====
-- The list of file locks of server/thread_manager.c: nodes on an explicit heap, and the list with its
-- cached length and its two pointers. The list's mutex is held over `getLockFor`, so one call is one
-- step here. Each node's lock is named by the address of the node.
pub mod Chain
pub mod Append
pub mod Lookup
pub mod Identity
pub mod Table
pub mod NoMemory
pub mod Freeing
use remote_file_system.Prelude.{
  ℕ, zero, suc, ◌+◌, Bool, true, false, Option, none, some, Bytes, is_empty, ◌==◌, if◌then◌else◌,
  Run, done, undefined, ◌>>=◌,
}
use remote_file_system.CString.{equals}

abbrev pub Ptr : Type 0
Ptr = ℕ

abbrev pub null : Ptr
null = 0

pub record FileLockNode : Type 0 where
  pub filename : Option Bytes
  pub next : Ptr

abbrev pub node : Bytes → Ptr → FileLockNode
node name next = record { filename = some name; next = next }

abbrev pub Heap : Type 0
Heap = Ptr → Option FileLockNode

unfoldable pub store : Heap → Ptr → Option FileLockNode → Heap
store h p c q = if q == p then c else h q

pub record FileLockList : Type 0 where
  pub length : ℕ
  pub head_node : Ptr
  pub tail_node : Ptr

abbrev pub lock_list : ℕ → Ptr → Ptr → FileLockList
lock_list n head tail = record { length = n; head_node = head; tail_node = tail }

-- what a pointer leads to: NULL and an address without a node are undefined behaviour
unfoldable pub load : Heap → Ptr → Run FileLockNode
load h p = if p == null then undefined else elim (h p) [ none ↦ undefined | some n ↦ done n ]

-- `p->next = q`
unfoldable pub set_next : Heap → Ptr → Ptr → Run Heap
set_next h p q = load h p >>= λ n. done (store h p (some (record n { next = q })))

-- `fresh` is what `malloc` returns.
unfoldable pub create_file_lock_list : Bool → Option FileLockList
create_file_lock_list mem = if mem then some (lock_list 0 null null) else none

unfoldable pub create_lock_node : (fresh : Ptr) → Option Bytes → Heap → Ptr × Heap
create_lock_node fresh none h = (null, h)
create_lock_node fresh (some filename) h =
    if is_empty filename
    then (null, h)
    else if fresh == null
    then (null, h)
    else (fresh, store h fresh (some (node filename null)))

unfoldable pub add_lock_to_list : Ptr → FileLockList → Heap → Run (FileLockList × Heap)
add_lock_to_list new_lock l h =
    if new_lock == null
    then done (l, h)
    else if l.length == 0
    then done (lock_list (l.length + 1) new_lock l.tail_node, h)
    else if l.length == 1
    then (set_next h l.head_node new_lock >>= λ h'.
        done (lock_list (l.length + 1) l.head_node new_lock, h'))
    else (set_next h l.tail_node new_lock >>= λ h'.
        done (lock_list (l.length + 1) l.head_node new_lock, h'))

-- The loop over the first `rounds` nodes: the node with the name, if there is one.
unfoldable pub search_lock : ℕ → Ptr → Option Bytes → Heap → Run (Option Ptr)
search_lock zero curr filename h = done none
search_lock (suc rounds) curr filename h = load h curr >>= λ n. elim (equals n.filename filename) [
  | true ↦ done (some curr)
  | false ↦ search_lock rounds n.next filename h
]

unfoldable pub get_lock_for :
    (fresh : Ptr)
    → Option Bytes
    → Option FileLockList
    → Heap
    → Run (Ptr × Option FileLockList × Heap)
get_lock_for fresh filename none h = done (null, none, h)
get_lock_for fresh filename (some l) h = search_lock l.length l.head_node filename h >>= λ found.
    elim found [
      | some curr ↦ done (curr, some l, h)
      | none ↦
          let (new_lock, h') = create_lock_node fresh filename h in
          add_lock_to_list new_lock l h' >>= λ (l', h''). done (new_lock, some l', h'')
    ]

-- Frees the node and its name; NULL is left alone.
unfoldable pub free_lock_node : Ptr → Heap → Run Heap
free_lock_node p h = if p == null then done h else load h p >>= λ n. done (store h p none)

unfoldable pub free_nodes : ℕ → Ptr → Heap → Run Heap
free_nodes zero curr h = done h
free_nodes (suc rounds) curr h =
    load h curr >>= λ n. free_lock_node curr h >>= λ h'. free_nodes rounds n.next h'

unfoldable pub free_file_lock_list : Option FileLockList → Heap → Run Heap
free_file_lock_list none h = done h
free_file_lock_list (some l) h = free_nodes l.length l.head_node h
