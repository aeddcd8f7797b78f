-- ===== src/Utils/Paths/Split.antt =====
-- A path is cut at its last slash: `extractDirectory` and `extractBasename`.
use remote_file_system.Prelude.{
  ℕ, ◌≤◌, ◌<◌, ◌≡◌, refl, ap, false, none, some, [], ◌∷◌, ◌++◌, Bytes, length, length-append,
  is_empty, Lacks, done, undefined, arith, Option,
}
use remote_file_system.CString.{store_text}
use remote_file_system.CString.Search.{strrchr, strrchr-some, strrchr-none}
use remote_file_system.Utils.Paths.{
  extract_directory, extract_basename, before_slash, after_slash, before_last, after_last,
}

-- How a path is made of its folder and its name: they are around the last slash, or there is no slash
-- and no folder.
pub data IsSplit (path folder name : Bytes) : Type 0 where
  at_slash : path ≡ folder ++ b'/' ∷ name → Lacks b'/' name → IsSplit path folder name
  no_slash : path ≡ name → folder ≡ [] → Lacks b'/' name → IsSplit path folder name

module _ (size : ℕ) (text : Bytes) where
  pub store_text-fits : length text < size → store_text size text ≡ done text
  unfolding store_text
  store_text-fits h = ground arith

  pub store_text-overflow : size ≤ length text → store_text size text ≡ undefined
  unfolding store_text
  store_text-overflow h = ground arith

IsSplit-of :
    (path : Bytes) (o : Option (Bytes × Bytes))
    → strrchr b'/' path ≡ o
    → IsSplit path (before_last o) (after_last path o)
IsSplit-of path none e = no_slash refl refl (strrchr-none b'/' path e)
IsSplit-of path (some (u, v)) e = let (s, l) = strrchr-some b'/' path u v e in at_slash s l

pub before_slash-IsSplit : (path : Bytes) → IsSplit path (before_slash path) (after_slash path)
before_slash-IsSplit path = IsSplit-of path (strrchr b'/' path) refl

after-length : (path : Bytes) → length (after_slash path) ≤ length path
after-length path = from_split (before_slash-IsSplit path)
  where
    from_split :
        IsSplit path (before_slash path) (after_slash path)
        → length (after_slash path) ≤ length path
    from_split (at_slash e l) =
        omega (arith, ap length e, length-append (before_slash path) (b'/' ∷ after_slash path))
    from_split (no_slash e f l) = omega (arith, ap length e)

-- On a path that is not empty and fits into the buffers, the two functions return true, and leave the
-- two parts of the path around its last slash; without a slash the folder is empty.
pub extract-IsSplit :
    (size : ℕ) (path : Bytes)
    → is_empty path ≡ false
    → length path < size
    → (folder : Bytes) × (name : Bytes) × (extract_directory (some path) (some size)
        ≡ done (some folder))
      × (extract_basename (some path) (some size) ≡ done (some name))
      × IsSplit path folder name
unfolding extract_directory extract_basename
extract-IsSplit size path ne fits = (
  before_slash path,
  after_slash path,
  rw (ne, store_text-fits size path fits) refl,
  rw (ne, store_text-fits size (after_slash path) (omega (arith, after-length path))) refl,
  before_slash-IsSplit path,
)

-- `extractDirectory` writes behind its buffer if the path is as long as the buffer or longer.
pub extract_directory-overflow :
    (size : ℕ) (path : Bytes)
    → is_empty path ≡ false
    → size ≤ length path
    → extract_directory (some path) (some size) ≡ undefined
unfolding extract_directory
extract_directory-overflow size path ne long = rw (ne, store_text-overflow size path long) refl
