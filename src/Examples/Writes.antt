-- ===== src/Examples/Writes.antt =====
-- A WRITE, and the versions that it saves, on a concrete file.
use remote_file_system.Prelude.{
  ◌≡◌, refl, true, false, none, some, List, [], ◌∷◌, Bytes, codes, bytes_eq, done, running, arith,
}
use remote_file_system.Prelude.Int.{pos}
use remote_file_system.CString.{store_text}
use remote_file_system.CString.Decimal.{print_long, print_ℕ, print_digits}
use remote_file_system.CString.Search.{strrchr}
use remote_file_system.CString.Tokens.{tokens, cut}
use remote_file_system.Command.{write}
use remote_file_system.FileSystem
use remote_file_system.FileSystem.{
  FileSystem, Entry, Stream, reading, regular, directory, left, of_directory, find, put, discard,
  open_read, open_write, is_directory, has_parent, mkdir, readdir, name_in, fread, fwrite,
}
use remote_file_system.Protocol.Request.{request}
use remote_file_system.RequestHandler.{
  split_path, version_path, make_version_name, store_version, save_current_version,
  handle_write_request,
}
use remote_file_system.RequestHandler.Versions.{Saved, save_current_version-Saved}
use remote_file_system.RequestHandler.Storing.{IsReady}
use remote_file_system.RequestHandler.Write.{handle_write_request-early_close}
use remote_file_system.Socket.{Arrival, bytes}
use remote_file_system.World
use remote_file_system.World.{World, with_fs}
use remote_file_system.Utils.Paths.{
  extract_directory, extract_basename, create_nested_directories, make_folders,
}
use remote_file_system.Utils.Transfer.{copy_file, copy_loop}
use remote_file_system.Examples.{example_world, one_file, no_file, example_files}

abbrev pub version : Bytes
version = codes "data/.versions/a.txt.1_2"

abbrev pub two_blocks : List Arrival
two_blocks = bytes (codes "de") ∷ bytes (codes "f") ∷ []

abbrev pub with_version_folder : FileSystem
with_version_folder = example_files (
    (codes "data", directory)
    ∷ (codes "data/a.txt", regular (codes "abc"))
    ∷ (codes "data/.versions", directory)
    ∷ [])

abbrev pub with_version : Bytes → FileSystem
with_version content = example_files (
    (codes "data", directory)
    ∷ (codes "data/a.txt", regular (codes "abc"))
    ∷ (codes "data/.versions", directory)
    ∷ (version, regular content)
    ∷ [])

-- the folder of the file is there
ready :
    (fs : FileSystem) (w : World)
    → find (codes "data") w.fs.entries ≡ some directory
    → w.fs.denied reading (codes "data") ≡ false
    → create_nested_directories (codes "data/a.txt") w ≡ done (true, w)
unfolding create_nested_directories extract_directory store_text strrchr is_directory
ready fs w e d = ground (arith, e, d)

pub parts : split_path (codes "data/a.txt") ≡ done (some (codes "data", codes "a.txt"))
unfolding split_path extract_directory extract_basename store_text strrchr
parts = refl

pub version_place : version_path true (1, 2) (codes "data") (codes "a.txt") ≡ done version
unfolding version_path store_text make_version_name print_long print_ℕ print_digits
version_place = refl

pub version_folders :
    create_nested_directories version (example_world one_file two_blocks [])
    ≡ done (true, example_world with_version_folder two_blocks [])
unfolding create_nested_directories extract_directory store_text strrchr is_directory find bytes_eq
    make_folders tokens cut mkdir has_parent put
version_folders = refl

pub opened : open_read one_file (codes "data/a.txt") ≡ some (left (codes "abc"))
unfolding open_read find bytes_eq
opened = refl

pub version_opened : open_write with_version_folder version ≡ some (with_version [])
unfolding open_write has_parent strrchr find put bytes_eq
version_opened = refl

save_current_version-Saved_example :
    (w' : World) × (save_current_version 4
        (codes "data/a.txt")
        (example_world one_file two_blocks [])
      ≡ done (true, w'))
    × Saved version (codes "abc") (example_world one_file two_blocks []) w'
save_current_version-Saved_example =
    save_current_version-Saved 4 (codes "data/a.txt") (codes "abc")
      (example_world one_file two_blocks []) (example_world with_version_folder two_blocks [])
      (codes "data") (codes "a.txt") version true (with_version []) opened parts version_place
      version_folders version_opened refl (omega arith)

-- The version cannot be opened.
abbrev refusing : List (Bytes × Entry) → FileSystem
refusing entries = record (example_files entries) { denied = λ access path. bytes_eq path version }

abbrev refusing_file : FileSystem
refusing_file = refusing one_file.entries

refusing_opened : open_read refusing_file (codes "data/a.txt") ≡ some (left (codes "abc"))
unfolding open_read find bytes_eq
refusing_opened = refl

refusing_folders :
    create_nested_directories version (example_world refusing_file [] [])
    ≡ done (true, example_world (refusing with_version_folder.entries) [] [])
unfolding create_nested_directories extract_directory store_text strrchr is_directory find bytes_eq
    make_folders tokens cut mkdir has_parent put
refusing_folders = refl

version_refused : open_write (refusing with_version_folder.entries) version ≡ none
unfolding open_write has_parent strrchr find bytes_eq
version_refused = refl

pub saved :
    save_current_version 4 (codes "data/a.txt") (example_world one_file two_blocks [])
    ≡ done (true, example_world (with_version (codes "abc")) two_blocks [])
unfolding save_current_version store_version open_read split_path version_path make_version_name
    print_long print_ℕ print_digits World.open_write FileSystem.open_write copy_file copy_loop fread
    fwrite create_nested_directories extract_directory extract_basename store_text strrchr
    is_directory find bytes_eq make_folders tokens cut mkdir has_parent put
saved = refl

pub ready_one :
    create_nested_directories (codes "data/a.txt") (example_world one_file two_blocks [])
    ≡ done (true, example_world one_file two_blocks [])
unfolding create_nested_directories extract_directory store_text strrchr is_directory find bytes_eq
ready_one = refl

abbrev pub emptied : FileSystem
emptied = example_files (
    (codes "data", directory)
    ∷ (codes "data/a.txt", regular [])
    ∷ (codes "data/.versions", directory)
    ∷ (version, regular (codes "abc"))
    ∷ [])

pub emptied_file : open_write (with_version (codes "abc")) (codes "data/a.txt") ≡ some emptied
unfolding open_write has_parent strrchr find put bytes_eq
emptied_file = refl

pub other_path : bytes_eq (codes "data/a.txt") version ≡ false
unfolding bytes_eq
other_path = refl

abbrev pub ready_for_def :
    (fs : FileSystem)
    → fs.disk_full ≡ false
    → IsReady (example_world fs two_blocks []) (codes "def")
ready_for_def fs room = record {
  memory = refl;
  takes = refl;
  room = room;
  delivers = (refl, (codes "f", refl, (refl, ([], refl, refl))));
}

ready_none :
    (arrivals : List Arrival)
    → create_nested_directories (codes "data/a.txt") (example_world no_file arrivals [])
      ≡ done (true, example_world no_file arrivals [])
unfolding create_nested_directories extract_directory store_text strrchr is_directory find bytes_eq
ready_none arrivals = refl

nothing_there : open_read no_file (codes "data/a.txt") ≡ none
unfolding open_read find bytes_eq
nothing_there = refl

abbrev new_file : FileSystem
new_file = example_files ((codes "data", directory) ∷ (codes "data/a.txt", regular []) ∷ [])

made_file : open_write no_file (codes "data/a.txt") ≡ some new_file
unfolding open_write has_parent strrchr find put bytes_eq
made_file = refl

handle_write_request-early_close_example :
    handle_write_request 1000
      (request write (codes "data/a.txt") (pos 9))
      (example_world no_file two_blocks [])
    ≡ running
handle_write_request-early_close_example =
    handle_write_request-early_close 1000 9 (request write (codes "data/a.txt") (pos 9))
      (codes "def") (example_world no_file two_blocks []) (example_world no_file two_blocks []) true
      new_file (ready_none two_blocks) nothing_there made_file refl
      (refl, (codes "f", refl, (refl, ([], refl, refl)))) (omega arith)
