-- ===== src/LockList/Chain.antt =====
-- The nodes that the list reaches from its head, as a list of addresses and file names.
use remote_file_system.Prelude.{
  ◌≡◌, ◌≢◌, refl, Bool, false, ◌||◌, Option, none, some, List, [], ◌∷◌, ◌++◌, Bytes, length,
  bytes_eq, ◌==◌, if◌then◌else◌, done, arith,
}
use remote_file_system.LockList.{Ptr, null, FileLockNode, node, Heap, store, load, FileLockList}

abbrev pub Cells : Type 0
Cells = List (Ptr × Bytes)

abbrev pub has_address : Ptr → Cells → Bool
has_address a [] = false
has_address a ((p, name) ∷ cells) = (a == p) || has_address a cells

abbrev pub has_name : Bytes → Cells → Bool
has_name n [] = false
has_name n ((p, name) ∷ cells) = bytes_eq name n || has_name n cells

-- the node of a file, if it has one
abbrev pub find_cell : Bytes → Cells → Option Ptr
find_cell n [] = none
find_cell n ((p, name) ∷ cells) = if bytes_eq name n then some p else find_cell n cells

-- From `p` the `next` pointers lead through distinct nodes to NULL.
abbrev pub Chain : Heap → Ptr → Cells → Type 0
Chain h p [] = p ≡ null
Chain h p ((a, name) ∷ cells) =
    (p ≡ a)
    × (a ≢ null)
    × (has_address a cells ≡ false)
    × ((q : Ptr) × (h a ≡ some (node name q)) × Chain h q cells)

abbrev pub last_address : Ptr → Cells → Ptr
last_address p [] = p
last_address p ((a, name) ∷ cells) = last_address a cells

-- The tail pointer is set from the second node on.
abbrev pub IsTail : Ptr → Cells → Type 0
IsTail t [] = Unit
IsTail t (c ∷ []) = Unit
IsTail t (c ∷ (a, name) ∷ cells) = t ≡ last_address a cells

abbrev pub NamesDistinct : Cells → Type 0
NamesDistinct [] = Unit
NamesDistinct ((p, name) ∷ cells) = (has_name name cells ≡ false) × NamesDistinct cells

-- The list stands for `cells`: every file has one node, the length counts the nodes, and the tail is
-- the last of them.
pub record IsLockList (h : Heap) (l : FileLockList) (cells : Cells) : Type 0 where
  pub chain : Chain h l.head_node cells
  pub counted : l.length ≡ length cells
  pub tail : IsTail l.tail_node cells
  pub distinct : NamesDistinct cells

pub load-node :
    (h : Heap) (p : Ptr) (n : FileLockNode) → p ≢ null → h p ≡ some n → load h p ≡ done n
unfolding load
load-node h p n ne e = ground arith

-- A write at an address that is not among the nodes leaves the chain.
pub Chain-store :
    (h : Heap) (p : Ptr) (cells : Cells) (a : Ptr) (c : Option FileLockNode)
    → has_address a cells ≡ false
    → Chain h p cells
    → Chain (store h a c) p cells
unfolding store
Chain-store h p [] a c out ch = ch
Chain-store h p ((b, name) ∷ cells) a c out (e, ne, once, (q, at, rest)) =
    (e, ne, once, (q, ground arith, Chain-store h q cells a c (ground arith) rest))

-- An address without a node is not among the nodes.
pub fresh_address :
    (h : Heap) (p : Ptr) (cells : Cells) (a : Ptr)
    → h a ≡ none
    → Chain h p cells
    → has_address a cells ≡ false
fresh_address h p [] a free ch = refl
fresh_address h p ((b, name) ∷ cells) a free (e, ne, once, (q, at, rest)) =
    ground (arith, fresh_address h q cells a free rest)

pub has_address-append :
    (a b : Ptr) (name : Bytes) (cells : Cells)
    → has_address a (cells ++ (b, name) ∷ []) ≡ (has_address a cells || (a == b))
has_address-append a b name [] = ground arith
has_address-append a b name (c ∷ cells) = ground (arith, has_address-append a b name cells)
