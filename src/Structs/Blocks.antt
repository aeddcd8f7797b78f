-- ===== src/Structs/Blocks.antt =====
-- Blocks that are new, and what freeing them leaves.
use remote_file_system.Prelude.{
  ◌≡◌, ◌≢◌, refl, ◌∙◌, inl, inr, true, Option, none, some, Bytes, ◌==◌, ==_ne, if◌then◌else◌, done,
  arith, Bool-cases,
}
use remote_file_system.LockList.{Ptr, null}
use remote_file_system.Structs.{
  Block, text_block, Memory, put_block, free, free_both, strdup, load_block, text_at,
}

-- What `malloc` returns: NULL, or an address at which there is no block.
abbrev pub IsNew : Memory → Ptr → Type 0
IsNew m p = p ≢ null → m p ≡ none

-- Addresses that `malloc` returned one after the other are NULL or differ.
abbrev pub IsApart : Ptr → Ptr → Type 0
IsApart p q = p ≢ null → p ≢ q

-- The two memories have the same blocks.
abbrev pub SameBlocks : Memory → Memory → Type 0
SameBlocks m m' = (q : Ptr) → m' q ≡ m q

pub put_block-at :
    (p q : Ptr) (b : Option Block) (m : Memory) → put_block p b m q ≡ (if q == p then b else m q)
unfolding put_block
put_block-at p q b m = refl

pub put_block-put_block :
    (p : Ptr) (b b' : Option Block) (m : Memory)
    → SameBlocks (put_block p b m) (put_block p b (put_block p b' m))
unfolding put_block
put_block-put_block p b b' m q = ground arith

pub strdup-at :
    (p q : Ptr) (s : Bytes) (m : Memory)
    → strdup p s m q ≡ (if p == null then m q else (if q == p then some (text_block s) else m q))
unfolding strdup put_block
strdup-at p q s m = ground arith

pub free-null : (m : Memory) → free null m ≡ done m
unfolding free
free-null m = refl

pub free-block :
    (p : Ptr) (b : Block) (m : Memory)
    → p ≢ null
    → m p ≡ some b
    → free p m ≡ done (put_block p none m)
unfolding free
free-block p b m ne at = rw (==_ne p null ne, at) refl

pub load_block-block :
    (p : Ptr) (b : Block) (m : Memory) → p ≢ null → m p ≡ some b → load_block p m ≡ done b
unfolding load_block
load_block-block p b m ne at = rw (==_ne p null ne, at) refl

free-is_null : (p : Ptr) (m : Memory) → (p == null) ≡ true → free p m ≡ done m
unfolding free
free-is_null p m e = rw e refl

-- A text is freed, if there is one.
pub free-strdup :
    (c : Ptr) (s : Bytes) (m x : Memory)
    → IsNew m c
    → SameBlocks (strdup c s m) x
    → (x' : Memory) × (free c x ≡ done x') × SameBlocks m x'
free-strdup c s m x new same = elim (Bool-cases (c == null)) [
  | inl e ↦ (x, free-is_null c x e, λ q. ground (arith, same q, strdup-at c q s m, e))
  | inr e ↦ (
    put_block c none x,
    free-block c (text_block s) x (ground (arith, e))
        (ground (arith, same c, strdup-at c c s m, e)),
    λ q.
        ground
          (arith, same q, strdup-at c q s m, e, put_block-at c q none x, new (ground (arith, e))),
  )
]

pub strdup-IsNew :
    (p c : Ptr) (s : Bytes) (m : Memory) → IsNew m p → IsApart p c → IsNew (strdup c s m) p
strdup-IsNew p c s m new apart ne = strdup-at c p s m ∙ ground (arith, new ne, apart ne)

pub put_block-IsNew :
    (p c : Ptr) (b : Option Block) (m : Memory)
    → IsNew m p
    → IsApart p c
    → IsNew (put_block c b m) p
put_block-IsNew p c b m new apart ne = put_block-at c p b m ∙ ground (arith, new ne, apart ne)

-- What is done at two addresses that differ can be done in any order.
pub strdup-strdup :
    (a c : Ptr) (s t : Bytes) (m : Memory)
    → IsApart a c
    → SameBlocks (strdup a s (strdup c t m)) (strdup c t (strdup a s m))
strdup-strdup a c s t m apart q = ground (
  arith,
  strdup-at a q s m,
  strdup-at c q t m,
  strdup-at a q s (strdup c t m),
  strdup-at c q t (strdup a s m),
  apart,
)

pub strdup-put_block :
    (c p : Ptr) (s : Bytes) (b : Option Block) (m : Memory)
    → IsApart c p
    → SameBlocks (strdup c s (put_block p b m)) (put_block p b (strdup c s m))
strdup-put_block c p s b m apart q = ground (
  arith,
  strdup-at c q s m,
  strdup-at c q s (put_block p b m),
  put_block-at p q b m,
  put_block-at p q b (strdup c s m),
  apart,
)

pub strdup-SameBlocks :
    (c : Ptr) (s : Bytes) (m m' : Memory)
    → SameBlocks m m'
    → SameBlocks (strdup c s m) (strdup c s m')
strdup-SameBlocks c s m m' same q = ground (arith, strdup-at c q s m, strdup-at c q s m', same q)

module _ (c p : Ptr) (s : Bytes) (b : Block) (m : Memory) (new : IsNew m c) (free_p : m p ≡ none)
    (apart : IsApart c p) where
  -- A struct with its text is freed.
  pub free_both-struct :
      (x : Memory)
      → p ≢ null
      → SameBlocks (put_block p (some b) (strdup c s m)) x
      → (x' : Memory) × (free_both c p x ≡ done x') × SameBlocks m x'
  unfolding free_both
  free_both-struct x ne same =
      let (x1, e1, same1) =
        free-strdup c s (put_block p (some b) m) x (put_block-IsNew c p (some b) m new apart)
          (λ q. same q ∙ strdup-put_block c p s (some b) m apart q) in
      (
        put_block p none x1,
        rw (e1, free-block p b x1 ne (ground (arith, same1 p, put_block-at p p (some b) m))) refl,
        λ q. ground (arith, same1 q, put_block-at p q none x1, put_block-at p q (some b) m, free_p),
      )

pub text_at-block :
    (p : Ptr) (s : Bytes) (m : Memory) → p ≢ null → m p ≡ some (text_block s) → text_at p m ≡ some s
unfolding text_at
text_at-block p s m ne at = rw (==_ne p null ne, at) refl

pub text_at-is_null : (p : Ptr) (m : Memory) → (p == null) ≡ true → text_at p m ≡ none
unfolding text_at
text_at-is_null p m e = rw e refl
