-- ===== src/Utils/Paths/Returns.antt =====
-- `createNestedDirectories` returns on every path that fits into its buffers.
use remote_file_system.Prelude.{
  ℕ, suc, ◌+◌, ◌≤◌, ◌<◌, ◌≡◌, refl, ap, ◌∙◌, Bool, true, false, some, List, [], ◌∷◌, ◌++◌, Bytes,
  length, length-append, is_empty, Run, done, arith, inl, inr, ◌==◌, Bool-cases,
}
use remote_file_system.CString.Tokens.{flush, cut, tokens}
use remote_file_system.FileSystem.{Made, made, exists, failed, mkdir, is_directory}
use remote_file_system.World.{World}
use remote_file_system.Utils.Paths.{
  append_folder, after_mkdir, make_folders, mkdir_in, ensure_folder, create_nested_directories,
  extract_directory,
}
use remote_file_system.Utils.Paths.Split.{
  IsSplit, at_slash, no_slash, extract-IsSplit, store_text-fits,
}
use remote_file_system.Utils.Paths.Nested.{FolderReady, create_nested_directories-FolderReady}

-- the bytes of some tokens, and one more for each
abbrev total : List Bytes → ℕ
total [] = 0
total (t ∷ ts) = length t + 1 + total ts

total-append : (xs ys : List Bytes) → total (xs ++ ys) ≡ total xs + total ys
total-append [] ys = omega arith
total-append (x ∷ xs) ys = omega (arith, total-append xs ys)

total-flush : (cur : Bytes) → total (flush cur) ≤ length cur + 1
total-flush [] = omega arith
total-flush (c ∷ cur) = omega arith

module _ (d c : ℕ) (s cur : Bytes) where
  cut_hit : (c == d) ≡ true → cut d (c ∷ s) cur ≡ flush cur ++ cut d s []
  unfolding cut
  cut_hit e = ground (arith, e)

  cut_miss : (c == d) ≡ false → cut d (c ∷ s) cur ≡ cut d s (cur ++ c ∷ [])
  unfolding cut
  cut_miss e = ground (arith, e)

cut_end : (d : ℕ) (cur : Bytes) → cut d [] cur ≡ flush cur
unfolding cut
cut_end d cur = refl

total-cut : (d : ℕ) (s cur : Bytes) → total (cut d s cur) ≤ length cur + length s + 1
total-cut d [] cur = omega (arith, ap total (cut_end d cur), total-flush cur)
total-cut d (c ∷ s) cur = elim (Bool-cases (c == d)) [
  | inl e ↦ omega (
    arith,
    ap total (cut_hit d c s cur e),
    total-append (flush cur) (cut d s []),
    total-flush cur,
    total-cut d s [],
  )
  | inr e ↦ omega (
    arith,
    ap total (cut_miss d c s cur e),
    total-cut d s (cur ++ c ∷ []),
    length-append cur (c ∷ []),
  )
]

-- the bytes of the current folder and of the slash behind it
abbrev weight : Bytes → ℕ
weight [] = 0
weight (c ∷ curr) = suc (length curr) + 1

length-append_folder :
    (curr token : Bytes) → length (append_folder curr token) ≡ weight curr + length token
length-append_folder [] token = omega arith
length-append_folder (c ∷ curr) token = omega (arith, length-append curr (b'/' ∷ token))

weight_le : (b : Bytes) → weight b ≤ length b + 1
weight_le [] = omega arith
weight_le (c ∷ b) = omega arith

after_mkdir-returns :
    (m : Made) (rest : Run (Bool × World)) (w : World)
    → ((status : Bool) × (w' : World) × (rest ≡ done (status, w')))
    → (status : Bool) × (w' : World) × (after_mkdir m rest w ≡ done (status, w'))
after_mkdir-returns made rest w r = r
after_mkdir-returns exists rest w r = r
after_mkdir-returns failed rest w r = (false, w, refl)

make_folders-returns :
    (ts : List Bytes) (curr : Bytes) (w : World)
    → weight curr + total ts ≤ 260
    → (status : Bool) × (w' : World) × (make_folders ts curr w ≡ done (status, w'))
unfolding make_folders
make_folders-returns [] curr w h = (true, w, refl)
make_folders-returns (t ∷ ts) curr w h =
    let next = append_folder curr t in
    let (status, w', e) =
      after_mkdir-returns (mkdir w.fs next).0 (make_folders ts next (mkdir_in w next))
        (mkdir_in w next)
        (make_folders-returns ts next (mkdir_in w next)
          (omega (arith, length-append_folder curr t, weight_le next))) in
    (status, w', rw (store_text-fits 260 next (omega (arith, length-append_folder curr t))) e)

before-length : (path folder name : Bytes) → IsSplit path folder name → length folder ≤ length path
before-length path folder name (at_slash e l) =
    omega (arith, ap length e, length-append folder (b'/' ∷ name))
before-length path folder name (no_slash e f l) = omega (arith, ap length f)

ensure_folder-returns :
    (folder : Bytes) (w : World)
    → length folder < 260
    → (status : Bool) × (w' : World) × (ensure_folder folder w ≡ done (status, w'))
unfolding tokens
ensure_folder-returns folder w h = elim (Bool-cases (is_directory w.fs folder)) [
  | inl e ↦ (true, w, rw e refl)
  | inr e ↦
      rw e
        (make_folders-returns (tokens b'/' folder) [] w (omega (arith, total-cut b'/' folder [])))
]

extracted :
    (path folder : Bytes) (w : World)
    → extract_directory (some path) (some 260) ≡ done (some folder)
    → create_nested_directories path w ≡ ensure_folder folder w
unfolding create_nested_directories
extracted path folder w e = rw e refl

-- On a path that is not empty and shorter than its buffers, `createNestedDirectories` returns. Every
-- entry that was there is as it was, the only new entries are folders, and nothing but the table of
-- entries changed. If it returned true, the folder of the path was there already, or every folder on the
-- way to it has an entry now.
pub create_nested_directories-returns :
    (path : Bytes) (w : World)
    → is_empty path ≡ false
    → length path < 260
    → (status : Bool) × (w' : World) × (create_nested_directories path w ≡ done (status, w'))
      × FolderReady path w w' status
create_nested_directories-returns path w ne short =
    let (folder, name, e, _, split) = extract-IsSplit 260 path ne short in
    let (status, w', r) =
      ensure_folder-returns folder w (omega (arith, before-length path folder name split)) in
    let returned = extracted path folder w e ∙ r in
    (status, w', returned, create_nested_directories-FolderReady path w w' status returned)
