-- ===== src/ThreadManager/Threads/Counts.antt =====
-- What one step of a thread does to the counts of the locks, and to the places of the threads.
use remote_file_system.Prelude.{
  ℕ, ◌+◌, ◌≡◌, ◌≢◌, refl, sym, ap, ◌∙◌, inl, inr, Bool, true, false, Option, some, List, Bytes,
  get_elem?, ◌==◌, ==_iff, ==_self, ◌<◌, done, arith, Bool-cases,
}
use remote_file_system.Prelude.Counting.{set, All-set, All-map, weigh-set, weigh-zero, weigh-get}
use remote_file_system.LockList.{Ptr, null, Heap, FileLockList, get_lock_for}
use remote_file_system.LockList.Chain.{Cells, has_address, find_cell}
use remote_file_system.LockList.Lookup.{address_of}
use remote_file_system.LockList.NoMemory.{Handed}
use remote_file_system.Protocol.Request.{Request}
use remote_file_system.World.{World}
use remote_file_system.ThreadManager.Threads.{
  RwLock, unlocked, Phase, receiving, looking, found, writing, reading, closing, finished, Shared,
  init_lock,
}
use remote_file_system.ThreadManager.Threads.Invariant.{bit, reads_at, writes_at, Placed, Inv}

-- The threads keep their places when the list grows.
Placed-kept :
    (cells nodes : Cells)
    → ((m : Bytes) (p : Ptr) → find_cell m cells ≡ some p → find_cell m nodes ≡ some p)
    → (p : Phase) → Placed cells p
    → Placed nodes p
Placed-kept cells nodes kept receiving h = tt
Placed-kept cells nodes kept (looking r) h = h
Placed-kept cells nodes kept (found r lock) h = kept r.remote_path lock h
Placed-kept cells nodes kept (writing r lock w) h = kept r.remote_path lock h
Placed-kept cells nodes kept (reading r lock w) h = kept r.remote_path lock h
Placed-kept cells nodes kept closing h = tt
Placed-kept cells nodes kept finished h = tt

-- One thread goes from `p` to `p'`, and changes the counts of the locks by its own part in them.
module _ {shared : Shared} {threads : List Phase} (inv : Inv shared threads) (i : ℕ) (p p' : Phase)
    (at : get_elem? threads i ≡ some p) where
  -- the list of locks is as it was
  pub counts :
      (held : Ptr → RwLock)
      → Placed inv.cells p'
      → ((q : Ptr) → (held q).readers + reads_at q p ≡ (shared.held q).readers + reads_at q p')
      → ((q : Ptr)
          → bit (held q).writer + writes_at q p ≡ bit (shared.held q).writer + writes_at q p')
      → ((q : Ptr) → (held q).writer ≡ true → (held q).readers ≡ 0)
      → Inv (record shared { held = held }) (set threads i p')
  counts held place reads writes apart = record {
    cells = inv.cells;
    list = inv.list;
    managed = inv.managed;
    listed = inv.listed;
    placed = All-set (Placed inv.cells) threads i p' inv.placed place;
    readers = λ q. omega (arith, weigh-set (reads_at q) threads i p p' at, inv.readers q, reads q);
    writers =
        λ q. omega (arith, weigh-set (writes_at q) threads i p p' at, inv.writers q, writes q);
    apart = apart;
  }

  -- no lock is taken or given back
  pub keeps :
      Placed inv.cells p'
      → ((q : Ptr) → (reads_at q p ≡ 0) × (writes_at q p ≡ 0))
      → ((q : Ptr) → (reads_at q p' ≡ 0) × (writes_at q p' ≡ 0))
      → Inv shared (set threads i p')
  keeps place before after =
      counts shared.held place (λ q. omega (arith, (before q).0, (after q).0))
        (λ q. omega (arith, (before q).1, (after q).1)) inv.apart

-- a node that no list has is held by no thread
reads-none :
    (q : Ptr) (cells : Cells)
    → has_address q cells ≡ false
    → (p : Phase) → Placed cells p
    → reads_at q p ≡ 0
reads-none q cells out receiving h = refl
reads-none q cells out (looking r) h = refl
reads-none q cells out (found r lock) h = refl
reads-none q cells out (writing r lock w) h = refl
reads-none q cells out (reading r lock w) h =
    ground
      (arith, ==_iff q lock, address_of r.remote_path lock cells h, ap (λ a. has_address a cells))
reads-none q cells out closing h = refl
reads-none q cells out finished h = refl

writes-none :
    (q : Ptr) (cells : Cells)
    → has_address q cells ≡ false
    → (p : Phase) → Placed cells p
    → writes_at q p ≡ 0
writes-none q cells out receiving h = refl
writes-none q cells out (looking r) h = refl
writes-none q cells out (found r lock) h = refl
writes-none q cells out (writing r lock w) h =
    ground
      (arith, ==_iff q lock, address_of r.remote_path lock cells h, ap (λ a. has_address a cells))
writes-none q cells out (reading r lock w) h = refl
writes-none q cells out closing h = refl
writes-none q cells out finished h = refl

bit-eq-zero : (b : Bool) → bit b ≡ 0 → b ≡ false
bit-eq-zero true e = absurd (omega arith)
bit-eq-zero false e = refl

module _ {shared : Shared} {threads : List Phase} (inv : Inv shared threads) where
  -- the lock of a node that is not in the list
  unused : (q : Ptr) → has_address q inv.cells ≡ false → shared.held q ≡ unlocked
  unused q out =
      let none_read =
        weigh-zero (reads_at q) threads
          (All-map (Placed inv.cells) _ threads (reads-none q inv.cells out) inv.placed) in
      let none_write =
        weigh-zero (writes_at q) threads
          (All-map (Placed inv.cells) _ threads (writes-none q inv.cells out) inv.placed) in
      let read : (shared.held q).readers ≡ 0 = omega (arith, none_read, inv.readers q) in
      let write = bit-eq-zero (shared.held q).writer (omega (arith, none_write, inv.writers q)) in
      λ i. record { readers = read i; writer = write i }

  pub init_lock-same :
      (fresh lock q : Ptr)
      → (lock ≡ fresh → has_address fresh inv.cells ≡ false)
      → init_lock fresh lock shared.held q ≡ shared.held q
  init_lock-same fresh lock q new = elim (Bool-cases (lock == fresh)) [
    | inr other ↦ rw other refl
    | inl same ↦ elim (Bool-cases (q == fresh)) [
      | inr other ↦ rw (same, other) refl
      | inl at_fresh ↦
          let e = unused fresh (new ((==_iff lock fresh).0 same)) in
          rw (same, at_fresh) (sym e ∙ ap shared.held (sym ((==_iff q fresh).0 at_fresh)))
    ]
  ]

  -- the list of locks after `getLockFor`
  pub looked_up :
      (i : ℕ) (r : Request) (p' : Phase) (fresh lock : Ptr) (manager : Option FileLockList)
      (heap : Heap) (hd : Handed inv.cells fresh r.remote_path lock manager heap)
      (held : Ptr → RwLock)
      → get_elem? threads i ≡ some (looking r)
      → Placed hd.nodes p'
      → ((q : Ptr) → (reads_at q p' ≡ 0) × (writes_at q p' ≡ 0))
      → ((q : Ptr) → held q ≡ shared.held q)
      → Inv
          (record { locks = record { manager = manager; heap = heap }; held = held })
          (set threads i p')
  looked_up i r p' fresh lock manager heap hd held at place after same = record {
    cells = hd.nodes;
    list = hd.list;
    managed = hd.managed;
    listed = hd.listed;
    placed =
        All-set (Placed hd.nodes) threads i p'
          (All-map (Placed inv.cells) (Placed hd.nodes) threads
            (Placed-kept inv.cells hd.nodes hd.kept) inv.placed)
          place;
    readers = λ q. omega (
      arith,
      weigh-set (reads_at q) threads i (looking r) p' at,
      inv.readers q,
      (after q).0,
      ap (λ l. l.readers) (same q),
    );
    writers = λ q. omega (
      arith,
      weigh-set (writes_at q) threads i (looking r) p' at,
      inv.writers q,
      (after q).1,
      ap (λ l. bit l.writer) (same q),
    );
    apart =
        λ q e. ap (λ l. l.readers) (same q) ∙ inv.apart q (sym (ap (λ l. l.writer) (same q)) ∙ e);
  }

bit-pos : (b : Bool) → 0 < bit b → b ≡ true
bit-pos true e = refl
bit-pos false e = absurd (omega arith)

module _ {shared : Shared} {threads : List Phase} (inv : Inv shared threads) (i : ℕ) (r : Request)
    (lock : Ptr) where
  pub writer_holds :
      {w : World} → get_elem? threads i ≡ some (writing r lock w) → (shared.held lock).writer ≡ true
  writer_holds {w} at = bit-pos (shared.held lock).writer (
      ground (
        arith,
        weigh-get (writes_at lock) threads i (writing r lock w) at,
        inv.writers lock,
        ==_self lock,
      ))

  pub reader_holds :
      {w : World} → get_elem? threads i ≡ some (reading r lock w) → 0 < (shared.held lock).readers
  reader_holds {w} at = ground (
    arith,
    weigh-get (reads_at lock) threads i (reading r lock w) at,
    inv.readers lock,
    ==_self lock,
  )

  pub managed_call :
      (fresh p : Ptr) (manager : Option FileLockList) (heap : Heap)
      → get_lock_for fresh (some r.remote_path) shared.locks.manager shared.locks.heap
        ≡ done (p, manager, heap)
      → get_lock_for fresh (some r.remote_path) (some inv.list) shared.locks.heap
        ≡ done (p, manager, heap)
  managed_call fresh p manager heap e =
      sym (ap (λ m. get_lock_for fresh (some r.remote_path) m shared.locks.heap) inv.managed) ∙ e

  pub given :
      {cells : Cells} {fresh : Ptr} {manager : Option FileLockList} {heap : Heap}
      (hd : Handed cells fresh r.remote_path lock manager heap)
      → lock ≢ null
      → find_cell r.remote_path hd.nodes ≡ some lock
  given hd ne = elim hd.has [ inl n ↦ absurd (ne n) | inr h ↦ h ]
