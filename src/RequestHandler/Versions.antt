-- ===== src/RequestHandler/Versions.antt =====
-- `saveCurrentVersion`: the old contents are kept, or the server crashes.
use remote_file_system.Prelude.{
  ℕ, ◌<◌, ◌≡◌, refl, ap, ◌∙◌, ◌⊎◌, Bool, true, false, none, some, [], Bytes, length, bytes_eq,
  bytes_eq_self, done, undefined, running, arith,
}
use remote_file_system.FileSystem.{
  FileSystem, regular, directory, Stream, left, find, open_read, open_write,
}
use remote_file_system.FileSystem.Laws.{find-put}
use remote_file_system.World.{World, with_fs}
use remote_file_system.World
use remote_file_system.Utils.Paths.{create_nested_directories}
use remote_file_system.Utils.Paths.Extends.{Extends}
use remote_file_system.Utils.Paths.Nested.{create_nested_directories-FolderReady}
use remote_file_system.Utils.Transfer.{copy_file}
use remote_file_system.Utils.Transfer.Copying.{Appended, copy_file-copies}
use remote_file_system.Utils.Transfer.Receiving.{grown, open_write-grown}
use remote_file_system.RequestHandler.{
  split_path, version_path, store_version, save_current_version,
}

-- a file that is open for reading is an entry
pub open_read-find :
    (fs : FileSystem) (path b : Bytes)
    → open_read fs path ≡ some (left b)
    → find path fs.entries ≡ some (regular b)
unfolding open_read
open_read-find fs path b e = ground arith

module _ (fuel : ℕ) (file : Stream) (path : Bytes) (w w1 : World) (status : Bool)
    (made : create_nested_directories path w ≡ done (status, w1)) where
  stored :
      (fs : FileSystem) (w' : World)
      → open_write w1.fs path ≡ some fs
      → copy_file fuel (some file) (some path) (with_fs w1 fs) ≡ done (true, w')
      → store_version fuel file path w ≡ done (true, w')
  unfolding store_version World.open_write
  stored fs w' o c = ground (arith, made, o, c)

  stuck :
      (fs : FileSystem)
      → open_write w1.fs path ≡ some fs
      → copy_file fuel (some file) (some path) (with_fs w1 fs) ≡ running
      → store_version fuel file path w ≡ running
  unfolding store_version World.open_write
  stuck fs o c = ground (arith, made, o, c)

  crashed : open_write w1.fs path ≡ none → store_version fuel file path w ≡ undefined
  unfolding store_version World.open_write copy_file
  crashed o = ground (arith, made, o)

module _ (fuel : ℕ) (path : Bytes) (file : Stream) (w : World) (folder name version : Bytes)
    (opened : open_read w.fs path ≡ some file)
    (parts : split_path path ≡ done (some (folder, name)))
    (named : version_path w.memory w.now folder name ≡ done version) where
  saves_as : save_current_version fuel path w ≡ store_version fuel file version w
  unfolding save_current_version
  saves_as = ground (arith, opened, parts, named)

-- Where there is no file yet, nothing is saved and nothing changes.
pub save_current_version-new :
    (fuel : ℕ) (path : Bytes) (w : World)
    → open_read w.fs path ≡ none
    → save_current_version fuel path w ≡ done (true, w)
unfolding save_current_version
save_current_version-new fuel path w e = ground (arith, e)

-- `w'` is `w` with the bytes `old` saved at `version`: every other entry is as it was, or is a new
-- folder.
pub record Saved (version old : Bytes) (w w' : World) : Type 0 where
  pub kept : find version w'.fs.entries ≡ some (regular old)
  pub others :
      (q : Bytes)
      → bytes_eq version q ≡ false
      → (find q w'.fs.entries ≡ find q w.fs.entries)
        ⊎ ((find q w.fs.entries ≡ none) × (find q w'.fs.entries ≡ some directory))
  pub same_files : w'.fs ≡ record w.fs { entries = w'.fs.entries }
  pub same : w' ≡ with_fs w w'.fs

Saved-copied :
    (version old : Bytes) (w w1 : World) (fs : FileSystem)
    → Extends w.fs w1.fs
    → w1 ≡ with_fs w w1.fs
    → Appended version [] old (grown w1.fs version []) fs
    → Saved version old w (with_fs w1 fs)
Saved-copied version old w w1 fs x same c = record {
  kept = c.file;
  others =
      λ q h. ground (arith, x.only q, c.others q h, find-put version q (regular []) w1.fs.entries);
  same_files = c.same ∙ λ i. record (x.same i) { entries = fs.entries };
  same = λ i. with_fs (same i) fs;
}

-- A file with the bytes `old`, whose version gets the path `version`, where that path can be opened
-- once its folders are made, on a disk with room and with more fuel than bytes: `saveCurrentVersion`
-- returns true, the version holds `old`, and nothing else changed but that folders may be new.
pub save_current_version-Saved :
    (fuel : ℕ) (path old : Bytes) (w w1 : World) (folder name version : Bytes) (status : Bool)
    (fs : FileSystem)
    → open_read w.fs path ≡ some (left old)
    → split_path path ≡ done (some (folder, name))
    → version_path w.memory w.now folder name ≡ done version
    → create_nested_directories version w ≡ done (status, w1)
    → open_write w1.fs version ≡ some fs
    → w.fs.disk_full ≡ false
    → length old < fuel
    → (w' : World) × (save_current_version fuel path w ≡ done (true, w')) × Saved version old w w'
save_current_version-Saved fuel path old w w1 folder name version status fs opened parts named made
      writable room lt =
    let ready = create_nested_directories-FolderReady version w w1 status made in
    let empty = grown w1.fs version [] in
    let e = open_write-grown w1.fs fs version writable in
    let (fs', copied, c) =
      copy_file-copies fuel version old (with_fs w1 empty)
        (ap (λ f. f.disk_full) ready.extends.same ∙ room)
        (find-put version version (regular []) w1.fs.entries ∙ rw (bytes_eq_self version) refl)
        lt in
    (
      with_fs w1 fs',
      saves_as fuel path (left old) w folder name version opened parts named
          ∙ stored fuel (left old) version w w1 status made empty (with_fs w1 fs')
              (writable ∙ ap some e) copied,
      Saved-copied version old w w1 fs' ready.extends ready.same c,
    )

-- If the version's file cannot be opened, `fclose` is called on NULL.
save_current_version-crash :
    (fuel : ℕ) (path : Bytes) (file : Stream) (w w1 : World) (folder name version : Bytes)
    (status : Bool)
    → open_read w.fs path ≡ some file
    → split_path path ≡ done (some (folder, name))
    → version_path w.memory w.now folder name ≡ done version
    → create_nested_directories version w ≡ done (status, w1)
    → open_write w1.fs version ≡ none
    → save_current_version fuel path w ≡ undefined
save_current_version-crash fuel path file w w1 folder name version status opened parts named made
      refused =
    saves_as fuel path file w folder name version opened parts named
    ∙ crashed fuel file version w w1 status made refused
