-- ===== src/LockList/Table.antt =====
-- The list of locks as a table from names to nodes, which forgets the order of the nodes.
use mathlib.Core.Quot
use mathlib.Core.Quot.{Quot, Quot-set}
use remote_file_system.Prelude.{
  ◌≡◌, ◌≢◌, refl, sym, ap, ◌∙◌, inl, inr, false, Option, none, some, [], ◌∷◌, Bytes, is_empty,
  bytes_eq, bytes_eq_self, bytes_eq_sound, if◌then◌else◌, done, arith, Bool-cases, Option-cases,
}
use remote_file_system.LockList.{Ptr, null, Heap, FileLockList, get_lock_for}
use remote_file_system.LockList.Append.{appended}
use remote_file_system.LockList.Chain.{Cells, find_cell, IsLockList}
use remote_file_system.LockList.Identity.{returned-IsLockList, returned-find_cell}
use remote_file_system.LockList.Lookup.{lock_of}

-- Two lists of nodes give each file the same node.
abbrev pub SameFiles : Cells → Cells → Type 0
SameFiles xs ys = (name : Bytes) → find_cell name xs ≡ find_cell name ys

abbrev pub LockTable : Type 0
LockTable = Quot SameFiles

-- the node that a name has, once `name` was given the node `fresh` unless it had one
abbrev pub assigned : Ptr → Bytes → Bytes → Option Ptr → Option Ptr
assigned fresh name n (some p) = some p
assigned fresh name n none = if bytes_eq name n then some fresh else none

find_cell-appended :
    (fresh : Ptr) (name n : Bytes) (cells : Cells)
    → find_cell n (appended cells fresh name) ≡ assigned fresh name n (find_cell n cells)
find_cell-appended fresh name n [] = refl
find_cell-appended fresh name n ((p, k) ∷ cells) = elim (Bool-cases (bytes_eq k n)) [
  | inl e ↦ rw e refl
  | inr e ↦ rw e (find_cell-appended fresh name n cells)
]

-- a name that has a node keeps it
assigned-had :
    (fresh p : Ptr) (name n : Bytes) (cells : Cells)
    → find_cell name cells ≡ some p
    → find_cell n cells ≡ assigned fresh name n (find_cell n cells)
assigned-had fresh p name n cells e = elim (Option-cases (find_cell n cells)) [
  | inr (q, s) ↦ rw s refl
  | inl s ↦ elim (Bool-cases (bytes_eq name n)) [
    | inl same ↦
        absurd (ground (arith, ap (λ x. find_cell x cells) (bytes_eq_sound name n same), e, s))
    | inr other ↦ rw (s, other) refl
  ]
]

find_cell-assigned :
    (fresh : Ptr) (name n : Bytes) (cells : Cells)
    → find_cell n (lock_of fresh name cells).1 ≡ assigned fresh name n (find_cell n cells)
find_cell-assigned fresh name n cells = elim (Option-cases (find_cell name cells)) [
  | inl e ↦ rw e (find_cell-appended fresh name n cells)
  | inr (p, e) ↦ rw e (assigned-had fresh p name n cells e)
]

-- The specification of a lookup on tables: the file gets the node `fresh`, unless it has one.
pub assign : Ptr → Bytes → LockTable → LockTable
assign fresh name =
    Quot.lift Quot-set (λ cells. Quot.mk (lock_of fresh name cells).1)
      (λ xs ys same. Quot.sound (λ n.
        find_cell-assigned fresh name n xs
        ∙ ap (assigned fresh name n) (same n)
        ∙ sym (find_cell-assigned fresh name n ys)))

assigned_comm :
    (p q : Ptr) (a b n : Bytes) (o : Option Ptr)
    → bytes_eq a b ≡ false
    → assigned q b n (assigned p a n o) ≡ assigned p a n (assigned q b n o)
assigned_comm p q a b n (some x) ne = refl
assigned_comm p q a b n none ne = elim (Bool-cases (bytes_eq a n)) [
  | inr e ↦ rw e (elim (Bool-cases (bytes_eq b n)) [ inr f ↦ rw (f, e) refl | inl f ↦ rw f refl ])
  | inl e ↦ elim (Bool-cases (bytes_eq b n)) [
    | inr f ↦ rw (e, f, e) refl
    | inl f ↦
        absurd (ground (arith, ne, bytes_eq_sound a n e, bytes_eq_sound b n f, bytes_eq_self n))
  ]
]

-- For two files the order does not matter.
pub assign_comm :
    (p q : Ptr) (a b : Bytes)
    → bytes_eq a b ≡ false
    → (t : LockTable) → assign q b (assign p a t) ≡ assign p a (assign q b t)
unfolding assign
assign_comm p q a b ne =
    Quot.ind (λ x. Quot-set _ _)
      (λ cells. Quot.sound (λ n.
        find_cell-assigned q b n (lock_of p a cells).1
        ∙ ap (assigned q b n) (find_cell-assigned p a n cells)
        ∙ assigned_comm p q a b n (find_cell n cells) ne
        ∙ sym (
            find_cell-assigned p a n (lock_of q b cells).1
            ∙ ap (assigned p a n) (find_cell-assigned q b n cells))))

-- what the two results of a lookup say of the table
returned-assign :
    (h : Heap) (l : FileLockList) (cells : Cells) (fresh : Ptr) (name : Bytes)
    → IsLockList h l cells
    → fresh ≢ null
    → h fresh ≡ none
    → is_empty name ≡ false
    → (p : Ptr) (l' : FileLockList) (h' : Heap)
    → get_lock_for fresh (some name) (some l) h ≡ done (p, some l', h')
    → IsLockList h' l' (lock_of fresh name cells).1
      × (assigned fresh name name (find_cell name cells) ≡ some p)
returned-assign h l cells fresh name is ne free named p l' h' e = (
  returned-IsLockList h l cells fresh name is ne free named p l' h' e,
  sym (find_cell-assigned fresh name name cells)
      ∙ returned-find_cell h l cells fresh name is ne free named p l' h' e,
)

-- the node of a file does not depend on whether another file was looked up before
assigned-other :
    (p q : Ptr) (a b : Bytes) (o : Option Ptr)
    → bytes_eq b a ≡ false
    → assigned p a a (assigned q b a o) ≡ assigned p a a o
assigned-other p q a b (some x) ne = refl
assigned-other p q a b none ne = rw ne refl

bytes_eq-false : (a b : Bytes) → bytes_eq a b ≡ false → bytes_eq b a ≡ false
bytes_eq-false a b ne = elim (Bool-cases (bytes_eq b a)) [
  | inr e ↦ e
  | inl e ↦ absurd (
      ground
        (arith, ne, bytes_eq_sound b a e, bytes_eq_self a, ap (bytes_eq a) (bytes_eq_sound b a e)))
]

-- one file's node in both orders
same_node :
    (p q x y : Ptr) (a b : Bytes) (cells : Cells)
    → bytes_eq b a ≡ false
    → assigned p a a (find_cell a cells) ≡ some x
    → assigned p a a (find_cell a (lock_of q b cells).1) ≡ some y
    → x ≡ y
same_node p q x y a b cells ne e f =
    let same : some x ≡ some y =
      sym e
      ∙ sym (assigned-other p q a b (find_cell a cells) ne)
      ∙ ap (assigned p a a) (sym (find_cell-assigned q b a cells))
      ∙ f in
    ground (arith, same)

-- Two lookups of two files, each with its own new address from `malloc`, in either order: on a well-formed list
-- both orders hand out the same node for each file, and leave well-formed lists that are one table, though the
-- nodes may stand in another order.
pub get_lock_for_comm :
    (h : Heap) (l : FileLockList) (cells : Cells) (p q : Ptr) (a b : Bytes)
    → IsLockList h l cells
    → p ≢ null
    → q ≢ null
    → h p ≡ none
    → h q ≡ none
    → is_empty a ≡ false
    → is_empty b ≡ false
    → bytes_eq a b ≡ false
    → (a1 b2 b1 a2 : Ptr) (l1 l2 k1 k2 : FileLockList) (h1 h2 g1 g2 : Heap)
    → get_lock_for p (some a) (some l) h ≡ done (a1, some l1, h1)
    → h1 q ≡ none
    → get_lock_for q (some b) (some l1) h1 ≡ done (b2, some l2, h2)
    → get_lock_for q (some b) (some l) h ≡ done (b1, some k1, g1)
    → g1 p ≡ none
    → get_lock_for p (some a) (some k1) g1 ≡ done (a2, some k2, g2)
    → (a1 ≡ a2)
      × (b1 ≡ b2)
      × ((xs ys : Cells) × IsLockList h2 l2 xs
          × IsLockList g2 k2 ys
          × ◌≡◌ {A = LockTable} (Quot.mk xs) (Quot.mk ys))
unfolding assign
get_lock_for_comm h l cells p q a b is p_ne q_ne p_free q_free a_named b_named ne a1 b2 b1 a2 l1 l2
      k1 k2 h1 h2 g1 g2 first_a q_new then_b first_b p_new then_a =
    let (is1, at_a1) = returned-assign h l cells p a is p_ne p_free a_named a1 l1 h1 first_a in
    let (is2, at_b2) = returned-assign h1 l1 _ q b is1 q_ne q_new b_named b2 l2 h2 then_b in
    let (js1, at_b1) = returned-assign h l cells q b is q_ne q_free b_named b1 k1 g1 first_b in
    let (js2, at_a2) = returned-assign g1 k1 _ p a js1 p_ne p_new a_named a2 k2 g2 then_a in
    (
      same_node p q a1 a2 a b cells (bytes_eq-false a b ne) at_a1 at_a2,
      same_node q p b1 b2 b a cells ne at_b1 at_b2,
      (_, _, is2, js2, assign_comm p q a b ne (Quot.mk cells)),
    )
