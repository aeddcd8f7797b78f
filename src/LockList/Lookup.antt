-- ===== src/LockList/Lookup.antt =====
-- `getLockFor` against its specification on the list of nodes.
use remote_file_system.Prelude.{
  sym, ◌∙◌, ℕ, suc, ◌≡◌, ◌≢◌, refl, true, false, Option, none, some, [], ◌∷◌, Bytes, length,
  bytes_eq, bytes_eq_self, bytes_eq_sound, is_empty, done, arith, Bool-cases, inl, inr,
  Option-cases,
}
use remote_file_system.CString.{equals}
use remote_file_system.LockList.{
  Ptr, null, node, Heap, store, FileLockList, lock_list, create_lock_node, search_lock,
  get_lock_for, add_lock_to_list, create_file_lock_list,
}
use remote_file_system.LockList.Chain.{
  Cells, has_address, has_name, find_cell, Chain, IsLockList, load-node, Chain-store, fresh_address,
}
use remote_file_system.LockList.Append.{appended, add_lock_to_list_lem, store_self}

-- The specification: the file's node, which is new if the file had none.
abbrev pub granted : Ptr → Bytes → Cells → Option Ptr → Ptr × Cells
granted fresh name cells (some p) = (p, cells)
granted fresh name cells none = (fresh, appended cells fresh name)

abbrev pub lock_of : Ptr → Bytes → Cells → Ptr × Cells
lock_of fresh name cells = granted fresh name cells (find_cell name cells)

module _ (name : Bytes) (h : Heap) where
  round-hit :
      (rounds : ℕ) (p q : Ptr) (n : Bytes)
      → p ≢ null
      → h p ≡ some (node n q)
      → bytes_eq n name ≡ true
      → search_lock (suc rounds) p (some name) h ≡ done (some p)
  unfolding search_lock equals
  round-hit rounds p q n ne at e = rw (load-node h p (node n q) ne at) (ground arith)

  round-miss :
      (rounds : ℕ) (p q : Ptr) (n : Bytes)
      → p ≢ null
      → h p ≡ some (node n q)
      → bytes_eq n name ≡ false
      → search_lock (suc rounds) p (some name) h ≡ search_lock rounds q (some name) h
  unfolding search_lock equals
  round-miss rounds p q n ne at e = rw (load-node h p (node n q) ne at) (ground arith)

  -- the linear search finds what the list of nodes says
  pub search_lock-find_cell :
      (p : Ptr) (cells : Cells)
      → Chain h p cells
      → search_lock (length cells) p (some name) h ≡ done (find_cell name cells)
  search_lock-find_cell p [] ch = unfold search_lock in refl
  search_lock-find_cell p ((a, n) ∷ cells) (head, ne, once, (q, at, rest)) =
      elim (Bool-cases (bytes_eq n name)) [
        | inl e ↦ rw (head, round-hit (length cells) a q n ne at e, e) refl
        | inr e ↦
            rw (head, round-miss (length cells) a q n ne at e, e)
              (search_lock-find_cell q cells rest)
      ]

find_cell-none :
    (name : Bytes) (cells : Cells) → find_cell name cells ≡ none → has_name name cells ≡ false
find_cell-none name [] e = refl
find_cell-none name ((a, n) ∷ cells) e = ground (arith, find_cell-none name cells)

module _ (h : Heap) (l : FileLockList) (cells : Cells) (fresh : Ptr) (name : Bytes)
    (is : IsLockList h l cells) (ne : fresh ≢ null) (free : h fresh ≡ none)
    (named : is_empty name ≡ false) where
  searched : search_lock l.length l.head_node (some name) h ≡ done (find_cell name cells)
  searched = rw is.counted (search_lock-find_cell name h l.head_node cells is.chain)

  created : create_lock_node fresh (some name) h ≡ (fresh, store h fresh (some (node name null)))
  unfolding create_lock_node
  created = ground arith

  new_node :
      find_cell name cells ≡ none
      → (l' : FileLockList) × (h' : Heap) × (add_lock_to_list fresh l
            (store h fresh (some (node name null)))
          ≡ done (l', h'))
        × IsLockList h' l' (appended cells fresh name)
  new_node e =
      let out = fresh_address h l.head_node cells fresh free is.chain in
      add_lock_to_list_lem (store h fresh (some (node name null))) l cells fresh name
        (record {
          chain = Chain-store h l.head_node cells fresh (some (node name null)) out is.chain;
          counted = is.counted;
          tail = is.tail;
          distinct = is.distinct;
        })
        ne (store_self h fresh _) out (find_cell-none name cells e)

  -- `getLockFor` returns, hands out the node that the specification says, and keeps the list well
  -- formed.
  pub get_lock_for-granted :
      (o : Option Ptr)
      → find_cell name cells ≡ o
      → (l' : FileLockList) × (h' : Heap) × (get_lock_for fresh (some name) (some l) h
          ≡ done ((granted fresh name cells o).0, some l', h'))
        × IsLockList h' l' (granted fresh name cells o).1
  unfolding get_lock_for
  get_lock_for-granted (some p) e = (l, h, rw (searched, e) refl, is)
  get_lock_for-granted none e =
      let (l', h', added, is') = new_node e in (l', h', rw (searched, e, created, added) refl, is')

module _ (h : Heap) (l : FileLockList) (cells : Cells) (fresh : Ptr) (name : Bytes)
    (is : IsLockList h l cells) (ne : fresh ≢ null) (free : h fresh ≡ none)
    (named : is_empty name ≡ false) where
  -- On a well-formed list, with a new address from `malloc` and a name that is not empty,
  -- `getLockFor` returns: it hands out the node that the file has, or a new one at the end of the
  -- list, and the list that it leaves is well formed and stands for the specification's nodes.
  pub get_lock_for-lock_of :
      (l' : FileLockList) × (h' : Heap) × (get_lock_for fresh (some name) (some l) h
        ≡ done ((lock_of fresh name cells).0, some l', h'))
      × IsLockList h' l' (lock_of fresh name cells).1
  get_lock_for-lock_of =
      get_lock_for-granted h l cells fresh name is ne free named (find_cell name cells) refl

-- the new list, with no file in it
pub create_file_lock_list-IsLockList :
    (h : Heap)
    → create_file_lock_list true ≡ some (lock_list 0 null null)
      × IsLockList h (lock_list 0 null null) []
unfolding create_file_lock_list
create_file_lock_list-IsLockList h =
    (refl, record { chain = refl; counted = refl; tail = tt; distinct = tt })

find_cell-append_self :
    (name : Bytes) (p : Ptr) (cells : Cells)
    → find_cell name cells ≡ none
    → find_cell name (appended cells p name) ≡ some p
find_cell-append_self name p [] e = rw (bytes_eq_self name)
find_cell-append_self name p (c ∷ cells) e = ground (arith, find_cell-append_self name p cells)

find_cell-append :
    (name other : Bytes) (p q : Ptr) (cells : Cells)
    → find_cell name cells ≡ some q
    → find_cell name (appended cells p other) ≡ some q
find_cell-append name other p q [] e = cc
find_cell-append name other p q (c ∷ cells) e =
    ground (arith, find_cell-append name other p q cells)

pub address_of :
    (name : Bytes) (p : Ptr) (cells : Cells)
    → find_cell name cells ≡ some p
    → has_address p cells ≡ true
address_of name p [] e = cc
address_of name p ((a, n) ∷ cells) e = ground (arith, address_of name p cells)

pub granted_has :
    (fresh : Ptr) (name : Bytes) (cells : Cells) (o : Option Ptr)
    → find_cell name cells ≡ o
    → find_cell name (granted fresh name cells o).1 ≡ some (granted fresh name cells o).0
granted_has fresh name cells none e = find_cell-append_self name fresh cells e
granted_has fresh name cells (some p) e = e

-- After a file was given a node, every later lookup of it finds the same node, whatever other files
-- were looked up in between.
pub find_cell-lock_of :
    (name other : Bytes) (fresh : Ptr) (cells : Cells) (p : Ptr)
    → find_cell name cells ≡ some p
    → find_cell name (lock_of fresh other cells).1 ≡ some p
find_cell-lock_of name other fresh cells p e = elim (Option-cases (find_cell other cells)) [
  | inl n ↦ rw n (find_cell-append name other fresh p cells e)
  | inr (q, s) ↦ rw s e
]

-- Two files with one node are one file, where the addresses of the nodes are distinct.
pub find_cell-injective :
    (h : Heap) (p : Ptr) (cells : Cells) (m n : Bytes) (a : Ptr)
    → Chain h p cells
    → find_cell m cells ≡ some a
    → find_cell n cells ≡ some a
    → m ≡ n
find_cell-injective h p [] m n a ch e f = cc
find_cell-injective h p ((b, k) ∷ cells) m n a (_, _, once, (q, at, rest)) e f =
    elim (Bool-cases (bytes_eq k m)) [
      | inl km ↦ elim (Bool-cases (bytes_eq k n)) [
        | inl kn ↦ sym (bytes_eq_sound k m km) ∙ bytes_eq_sound k n kn
        | inr not_n ↦ ground (arith, address_of n a cells)
      ]
      | inr not_m ↦ elim (Bool-cases (bytes_eq k n)) [
        | inl kn ↦ ground (arith, address_of m a cells)
        | inr not_n ↦ find_cell-injective h q cells m n a rest (ground arith) (ground arith)
      ]
    ]
