-- ===== src/Utils/Paths/Extends.antt =====
-- What `mkdir` does to the table of entries.
use remote_file_system.Prelude.{
  ◌≡◌, ◌≢◌, refl, sym, ◌∙◌, ◌⊎◌, inl, inr, none, some, Bytes, bytes_eq_iff, bytes_eq_self, arith,
}
use mathlib.Core.Path.{subst}
use remote_file_system.FileSystem.{FileSystem, directory, find, put, failed, mkdir}
use remote_file_system.FileSystem.Laws.{find-put}

-- Nothing is lost and nothing changes but that folders are new.
pub record Extends (fs fs' : FileSystem) : Type 0 where
  pub only :
      (q : Bytes)
      → (find q fs'.entries ≡ find q fs.entries)
        ⊎ ((find q fs.entries ≡ none) × (find q fs'.entries ≡ some directory))
  pub same : fs' ≡ record fs { entries = fs'.entries }

pub Extends-refl : (fs : FileSystem) → Extends fs fs
Extends-refl fs = record { only = λ q. inl refl; same = refl }

pub Extends-trans : (fs mid end : FileSystem) → Extends fs mid → Extends mid end → Extends fs end
Extends-trans fs mid end x y = record {
  only = λ q. ground (arith, x.only q, y.only q);
  same = y.same ∙ λ i. record (x.same i) { entries = end.entries };
}

Extends-put :
    (fs : FileSystem) (p : Bytes)
    → find p fs.entries ≡ none
    → Extends fs (record fs { entries = put p directory fs.entries })
Extends-put fs p e = record {
  only = λ q. ground (arith, find-put p q directory fs.entries, bytes_eq_iff p q);
  same = refl;
}

mkdir-cases :
    (fs : FileSystem) (p : Bytes)
    → ((mkdir fs p).1 ≡ fs)
      ⊎ ((find p fs.entries ≡ none)
          × ((mkdir fs p).1 ≡ record fs { entries = put p directory fs.entries }))
unfolding mkdir
mkdir-cases fs p = ground arith

pub mkdir-Extends : (fs : FileSystem) (p : Bytes) → Extends fs (mkdir fs p).1
mkdir-Extends fs p = elim (mkdir-cases fs p) [
  | inl e ↦ subst (λ x. Extends fs x) (sym e) (Extends-refl fs)
  | inr (none_there, e) ↦ subst (λ x. Extends fs x) (sym e) (Extends-put fs p none_there)
]

-- If `mkdir` did not fail, or only because the path exists, then there is an entry.
pub mkdir-present :
    (fs : FileSystem) (p : Bytes) → (mkdir fs p).0 ≢ failed → find p (mkdir fs p).1.entries ≢ none
unfolding mkdir
mkdir-present fs p h = ground (arith, find-put p p directory fs.entries, bytes_eq_self p)
