-- ===== src/FileSystem/Laws.antt =====
-- Lookups after the changes that the calls make to the table of entries.
use remote_file_system.Prelude.{
  ◌≡◌, refl, none, some, [], ◌∷◌, Bytes, if◌then◌else◌, bytes_eq, bytes_eq_iff, arith,
}
use remote_file_system.FileSystem.{Entry, Entries, find, put, discard}

pub find-put :
    (p q : Bytes) (e : Entry) (m : Entries)
    → find q (put p e m) ≡ (if bytes_eq p q then some e else find q m)
unfolding find put
find-put p q e [] = refl
find-put p q e ((r, d) ∷ m) =
    ground (arith, bytes_eq_iff p q, bytes_eq_iff r p, bytes_eq_iff r q, find-put p q e m)

pub find-discard :
    (p q : Bytes) (m : Entries) → find q (discard p m) ≡ (if bytes_eq p q then none else find q m)
unfolding find discard
find-discard p q [] = ground arith
find-discard p q ((r, d) ∷ m) =
    ground (arith, bytes_eq_iff p q, bytes_eq_iff r p, bytes_eq_iff r q, find-discard p q m)
