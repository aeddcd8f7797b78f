-- ===== src/Examples/Removal.antt =====
-- An RM of a concrete file, with its versions.
use remote_file_system.Prelude.{
  ◌≡◌, refl, Bool, true, none, some, List, [], ◌∷◌, Bytes, codes, bytes_eq, done,
}
use remote_file_system.CString.{store_text}
use remote_file_system.CString.Search.{strrchr}
use remote_file_system.FileSystem
use remote_file_system.FileSystem.{
  FileSystem, Entry, Stream, reading, regular, directory, left, of_directory, find, put, discard,
  open_read, open_write, is_directory, has_parent, mkdir, readdir, has_entries, name_in, fread,
  fwrite,
}
use remote_file_system.RequestHandler.{split_path, remove_versions, starts_with, version_folder}
use remote_file_system.RequestHandler.Remove.{remove_versions-gone, remove_versions-kept}
use remote_file_system.RequestHandler.RemoveAll.{remove_versions-longer_name}
use remote_file_system.Utils.Paths.{extract_directory, extract_basename}
use remote_file_system.Examples.{example_world, example_files}

pub parts : split_path (codes "data/a.txt") ≡ done (some (codes "data", codes "a.txt"))
unfolding split_path extract_directory extract_basename store_text strrchr
parts = refl

abbrev pub versions : Bytes
versions = codes "data/.versions"

pub place : version_folder (codes "data") ≡ done versions
unfolding store_text
place = refl

-- the version of another file, whose name is longer
abbrev other_version : Bytes
other_version = codes "data/.versions/a.txt2.1_2"

abbrev pub history : FileSystem
history = example_files (
    (codes "data", directory)
    ∷ (versions, directory)
    ∷ (codes "data/.versions/a.txt.1_2", regular (codes "abc"))
    ∷ (other_version, regular (codes "de"))
    ∷ [])

abbrev pub with_history : FileSystem
with_history = example_files ((codes "data/a.txt", regular (codes "f")) ∷ history.entries)

abbrev pub no_history : FileSystem
no_history = example_files ((codes "data", directory) ∷ (versions, directory) ∷ [])

abbrev names : List (Bytes × Bool)
names = (codes "a.txt.1_2", true) ∷ (codes "a.txt2.1_2", true) ∷ []

all_removed :
    remove_versions versions (codes "a.txt") names true (example_world history [] [])
    ≡ done (true, example_world no_history [] [])
unfolding remove_versions starts_with store_text FileSystem.remove find discard bytes_eq
all_removed = refl

remove_versions-gone_example : find other_version no_history.entries ≡ none
unfolding starts_with bytes_eq
remove_versions-gone_example =
    remove_versions-gone versions (codes "a.txt") other_version names (example_world history [] [])
      (example_world no_history [] []) all_removed refl

remove_versions-kept_example :
    find (codes "data") no_history.entries ≡ find (codes "data") history.entries
unfolding starts_with bytes_eq
remove_versions-kept_example =
    remove_versions-kept versions (codes "a.txt") (codes "data") names (example_world history [] [])
      (example_world no_history [] []) true all_removed refl

remove_versions-longer_name_example : find other_version no_history.entries ≡ none
remove_versions-longer_name_example =
    remove_versions-longer_name versions (codes "a.txt") (codes "2.1_2")
      ((codes "a.txt.1_2", true) ∷ []) [] (example_world history [] [])
      (example_world no_history [] []) all_removed

pub file_removed : FileSystem.remove with_history (codes "data/a.txt") ≡ (true, history)
unfolding FileSystem.remove find discard bytes_eq has_entries
file_removed = refl

pub folder_there : is_directory history versions ≡ true
unfolding is_directory find bytes_eq
folder_there = refl

pub all_listed_removed :
    remove_versions versions
      (codes "a.txt")
      (readdir versions history.entries)
      true
      (example_world history [] [])
    ≡ done (true, example_world no_history [] [])
unfolding remove_versions starts_with store_text FileSystem.remove find discard bytes_eq readdir
    name_in strrchr
all_listed_removed = refl
