-- ===== src/RequestHandler/Calls/Frame.antt =====
-- What the calls of a request leave alone.
use remote_file_system.Prelude.{
  ◌≡◌, refl, sym, ap, ◌∙◌, ◌⊎◌, inl, inr, false, none, some, [], ◌++◌, Bytes, bytes_eq,
  bytes_eq_iff, Bool-cases, arith,
}
use mathlib.Core.Path.{subst}
use remote_file_system.FileSystem.{
  FileSystem, Entry, regular, contents, directory, find, put, discard, open_write, fwrite,
}
use remote_file_system.FileSystem.Laws.{find-put, find-discard}
use remote_file_system.RequestHandler.Calls.{
  Owns, FileCall, makes, empties, writes, removes, Calls, no_calls, call,
}
use remote_file_system.RequestHandler.Remove.{remove-cases}
use remote_file_system.Utils.Paths.Extends.{mkdir-Extends}

-- Every file that does not belong to the one at `path` is as it was, but that folders may be new; and the
-- operating system is as it was.
pub record Frame (path : Bytes) (fs fs' : FileSystem) : Type 0 where
  pub others :
      (q : Bytes)
      → Owns path q
        ⊎ ((find q fs'.entries ≡ find q fs.entries)
            ⊎ ((find q fs.entries ≡ none) × (find q fs'.entries ≡ some directory)))
  pub same : fs' ≡ record fs { entries = fs'.entries }

Frame-refl : (path : Bytes) (fs : FileSystem) → Frame path fs fs
Frame-refl path fs = record { others = λ q. inr (inl refl); same = refl }

Frame-trans :
    (path : Bytes) (fs mid end : FileSystem)
    → Frame path fs mid
    → Frame path mid end
    → Frame path fs end
Frame-trans path fs mid end x y = record {
  others = λ q. elim (x.others q) [
    | inl o ↦ inl o
    | inr a ↦ elim (y.others q) [ inl o ↦ inl o | inr b ↦ inr (ground (arith, a, b)) ]
  ];
  same = y.same ∙ λ i. record (x.same i) { entries = end.entries };
}

-- a call that changes one entry
Frame-at :
    (path p : Bytes) (fs fs' : FileSystem)
    → Owns path p
    → ((q : Bytes) → bytes_eq p q ≡ false → find q fs'.entries ≡ find q fs.entries)
    → fs' ≡ record fs { entries = fs'.entries }
    → Frame path fs fs'
Frame-at path p fs fs' o other same = record {
  others = λ q. elim (Bool-cases (bytes_eq p q)) [
    | inl e ↦ inl (subst (Owns path) ((bytes_eq_iff p q).0 e) o)
    | inr n ↦ inr (inl (other q n))
  ];
  same = same;
}

put-Frame :
    (path p : Bytes) (e : Entry) (fs : FileSystem)
    → Owns path p
    → Frame path fs (record fs { entries = put p e fs.entries })
put-Frame path p e fs o =
    Frame-at path p fs (record fs { entries = put p e fs.entries }) o
      (λ q n. ground (arith, find-put p q e fs.entries, n)) refl

discard-Frame :
    (path p : Bytes) (fs : FileSystem)
    → Owns path p
    → Frame path fs (record fs { entries = discard p fs.entries })
discard-Frame path p fs o =
    Frame-at path p fs (record fs { entries = discard p fs.entries }) o
      (λ q n. ground (arith, find-discard p q fs.entries, n)) refl

open_write-put :
    (fs fs' : FileSystem) (p : Bytes)
    → open_write fs p ≡ some fs'
    → fs' ≡ record fs { entries = put p (regular []) fs.entries }
unfolding open_write
open_write-put fs fs' p e = ground (arith, e)

fwrite-cases :
    (fs : FileSystem) (p b : Bytes)
    → ((fwrite fs p b).1 ≡ fs)
      ⊎ ((fwrite fs p b).1
          ≡ record fs { entries = put p (regular (contents (find p fs.entries) ++ b)) fs.entries })
unfolding fwrite
fwrite-cases fs p b = ground arith

pub FileCall-Frame : (path : Bytes) (fs fs' : FileSystem) → FileCall path fs fs' → Frame path fs fs'
FileCall-Frame path fs fs' (makes p) =
    let x = mkdir-Extends fs p in record { others = λ q. inr (x.only q); same = x.same }
FileCall-Frame path fs fs' (empties p fs1 o e) =
    subst (Frame path fs) (sym (open_write-put fs fs1 p e)) (put-Frame path p (regular []) fs o)
FileCall-Frame path fs fs' (writes p b o) = elim (fwrite-cases fs p b) [
  | inl e ↦ subst (Frame path fs) (sym e) (Frame-refl path fs)
  | inr e ↦ subst (Frame path fs) (sym e) (put-Frame path p _ fs o)
]
FileCall-Frame path fs fs' (removes p o) = elim (remove-cases fs p) [
  | inl e ↦ subst (Frame path fs) (sym (ap (λ x. x.1) e)) (Frame-refl path fs)
  | inr e ↦ subst (Frame path fs) (sym (ap (λ x. x.1) e)) (discard-Frame path p fs o)
]

-- What calls for a request on `path` leave alone.
pub Calls-Frame :
    {path : Bytes} {fs fs' : FileSystem} → Calls (some path) fs fs' → Frame path fs fs'
Calls-Frame {path} {fs} no_calls = Frame-refl path fs
Calls-Frame {path} {fs} {fs'} (call {fs1 = mid} c xs) =
    Frame-trans path fs mid fs' (FileCall-Frame path fs mid c) (Calls-Frame xs)

-- Calls for a request that may change nothing change nothing.
pub Calls-none : {fs fs' : FileSystem} → Calls none fs fs' → fs ≡ fs'
Calls-none no_calls = refl
