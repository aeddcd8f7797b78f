-- ===== src/LockList/Append.antt =====
-- `addLockToList` puts a new node behind the last one.
use remote_file_system.Prelude.{
  ap, sym, ◌∙◌, bytes_eq_iff, bytes_eq_self, ◌+◌, ◌≡◌, ◌≢◌, refl, true, false, Option, some, [],
  ◌∷◌, ◌++◌, Bytes, length-append, bytes_eq, done, arith,
}
use remote_file_system.LockList.{
  Ptr, null, FileLockNode, node, Heap, store, set_next, FileLockList, lock_list, add_lock_to_list,
}
use remote_file_system.LockList.Chain.{
  Cells, has_address, has_name, Chain, last_address, NamesDistinct, IsLockList, load-node,
  has_address-append,
}

-- Linking a new last node behind the last node of a chain.
pub record Linked (h : Heap) (p last fresh : Ptr) (cells : Cells) (name : Bytes) : Type 0 where
  pub heap : Heap
  pub done_so : set_next h last fresh ≡ done heap
  pub chain : Chain heap p (cells ++ (fresh, name) ∷ [])
  -- nothing but the last node was written
  pub elsewhere : (a : Ptr) → a ≢ last → heap a ≡ h a

last_in :
    (a : Ptr) (name : Bytes) (cells : Cells)
    → has_address (last_address a cells) ((a, name) ∷ cells) ≡ true
last_in a name [] = ground arith
last_in a name ((b, n) ∷ cells) = ground (arith, last_in b n cells)

set_next-node :
    (h : Heap) (p q r : Ptr) (name : Bytes)
    → p ≢ null
    → h p ≡ some (node name q)
    → set_next h p r ≡ done (store h p (some (node name r)))
unfolding set_next
set_next-node h p q r name ne e = rw (load-node h p (node name q) ne e)

pub store_self : (h : Heap) (p : Ptr) (c : Option FileLockNode) → store h p c p ≡ c
unfolding store
store_self h p c = ground arith

store_other : (h : Heap) (p : Ptr) (c : Option FileLockNode) (a : Ptr) → a ≢ p → store h p c a ≡ h a
unfolding store
store_other h p c a ne = ground arith

not_last :
    (a b : Ptr) (m : Bytes) (cells : Cells)
    → has_address a ((b, m) ∷ cells) ≡ false
    → a ≢ last_address b cells
not_last a b m cells out e = cc (last_in b m cells, ap (λ x. has_address x ((b, m) ∷ cells)) e)

bytes_ne : (m n : Bytes) → bytes_eq m n ≡ false → bytes_eq n m ≡ false
bytes_ne m n h = ground (arith, bytes_eq_iff m n, bytes_eq_iff n m, bytes_eq_self m)

module _ (fresh : Ptr) (name : Bytes) (fresh_ne : fresh ≢ null) where
  pub link-last :
      (h : Heap) (a : Ptr) (n : Bytes) (cells : Cells)
      → h fresh ≡ some (node name null)
      → has_address fresh ((a, n) ∷ cells) ≡ false
      → Chain h a ((a, n) ∷ cells)
      → Linked h a (last_address a cells) fresh ((a, n) ∷ cells) name
  link-last h a n [] new out (e, ne, once, (q, at, end)) = record {
    heap = store h a (some (node n fresh));
    done_so = set_next-node h a q fresh n ne at;
    chain = (
      refl,
      ne,
      ground arith,
      (
        fresh,
        store_self h a _,
        (refl, fresh_ne, refl, (null, store_other h a _ fresh (ground arith) ∙ new, refl)),
      ),
    );
    elsewhere = store_other h a _;
  }
  link-last h a n ((b, m) ∷ cells) new out (e, ne, once, (q, at, (q_b, ne_b, once_b, end))) =
      let tail = link-last h b m cells new (ground arith) (refl, ne_b, once_b, end) in
      let apart : a ≢ last_address b cells = not_last a b m cells once in
      let t = tail.chain in
      record {
        heap = tail.heap;
        done_so = tail.done_so;
        chain = (
          refl,
          ne,
          ground (arith, has_address-append a fresh name ((b, m) ∷ cells)),
          (q, tail.elsewhere a apart ∙ at, (q_b, t.1, t.2, t.3)),
        );
        elsewhere = tail.elsewhere;
      }

-- what the list stands for after a new file
abbrev pub appended : Cells → Ptr → Bytes → Cells
appended cells fresh name = cells ++ (fresh, name) ∷ []

has_name-append :
    (n : Bytes) (cells : Cells) (p : Ptr) (name : Bytes)
    → has_name n cells ≡ false
    → bytes_eq name n ≡ false
    → has_name n (appended cells p name) ≡ false
has_name-append n [] p name h e = ground arith
has_name-append n (c ∷ cells) p name h e = ground (arith, has_name-append n cells p name)

pub NamesDistinct-append :
    (cells : Cells) (p : Ptr) (name : Bytes)
    → has_name name cells ≡ false
    → NamesDistinct cells
    → NamesDistinct (appended cells p name)
NamesDistinct-append [] p name h d = (refl, tt)
NamesDistinct-append ((q, n) ∷ cells) p name h d = (
  has_name-append n cells p name d.0 (bytes_ne n name (ground arith)),
  NamesDistinct-append cells p name (ground arith) d.1,
)

last-append :
    (a : Ptr) (cells : Cells) (p : Ptr) (name : Bytes) → last_address a (appended cells p name) ≡ p
last-append a [] p name = refl
last-append a ((b, n) ∷ cells) p name = last-append b cells p name

-- The new node is behind the others, and the list is as it should be.
pub add_lock_to_list_lem :
    (h : Heap) (l : FileLockList) (cells : Cells) (fresh : Ptr) (name : Bytes)
    → IsLockList h l cells
    → fresh ≢ null
    → h fresh ≡ some (node name null)
    → has_address fresh cells ≡ false
    → has_name name cells ≡ false
    → (l' : FileLockList) × (h' : Heap) × (add_lock_to_list fresh l h ≡ done (l', h'))
      × IsLockList h' l' (appended cells fresh name)
unfolding add_lock_to_list
add_lock_to_list_lem h l [] fresh name is ne new out unknown = (
  lock_list (l.length + 1) fresh l.tail_node,
  h,
  ground (arith, is.counted),
  record {
    chain = (refl, ne, refl, (null, new, refl));
    counted = omega (arith, is.counted);
    tail = tt;
    distinct = (refl, tt);
  },
)
add_lock_to_list_lem h l ((a, n) ∷ []) fresh name is ne new out unknown =
    let (head, a_ne, once, rest) = is.chain in
    let link = link-last fresh name ne h a n [] new out (refl, a_ne, once, rest) in
    let (_, c_ne, c_once, c_rest) = link.chain in
    (
      lock_list (l.length + 1) l.head_node fresh,
      link.heap,
      ground (arith, link.done_so, head, is.counted),
      record {
        chain = (head, c_ne, c_once, c_rest);
        counted =
            omega (
              arith,
              is.counted,
              length-append {A = Ptr × Bytes} ((a, n) ∷ []) ((fresh, name) ∷ []),
            );
        tail = refl;
        distinct = NamesDistinct-append ((a, n) ∷ []) fresh name unknown is.distinct;
      },
    )
add_lock_to_list_lem h l ((a, n) ∷ (b, m) ∷ cells) fresh name is ne new out unknown =
    let (head, a_ne, once, rest) = is.chain in
    let link = link-last fresh name ne h a n ((b, m) ∷ cells) new out (refl, a_ne, once, rest) in
    let (_, c_ne, c_once, c_rest) = link.chain in
    (
      lock_list (l.length + 1) l.head_node fresh,
      link.heap,
      ground (arith, link.done_so, head, is.counted, is.tail),
      record {
        chain = (head, c_ne, c_once, c_rest);
        counted = omega (
          arith,
          is.counted,
          length-append {A = Ptr × Bytes} ((a, n) ∷ (b, m) ∷ cells) ((fresh, name) ∷ []),
        );
        tail = sym (last-append b cells fresh name);
        distinct = NamesDistinct-append ((a, n) ∷ (b, m) ∷ cells) fresh name unknown is.distinct;
      },
    )
