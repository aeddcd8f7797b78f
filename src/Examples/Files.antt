-- ===== src/Examples/Files.antt =====
-- Paths and transfers on concrete files.
use remote_file_system.Prelude.{
  ◌≡◌, refl, Bool, some, [], ◌∷◌, codes, bytes_eq, done, undefined, arith,
}
use remote_file_system.CString.Search.{strrchr}
use remote_file_system.FileSystem.{
  FileSystem, regular, directory, left, find, put, open_read, open_write, has_parent,
}
use remote_file_system.World.{World}
use remote_file_system.Utils.Paths.{extract_directory, create_nested_directories}
use remote_file_system.Utils.Paths.Split.{extract_directory-overflow}
use remote_file_system.Utils.Paths.Nested.{FolderReady}
use remote_file_system.Utils.Paths.Returns.{create_nested_directories-returns}
use remote_file_system.Examples.{example_world, one_file, example_files}

extract_directory-overflow_example :
    extract_directory (some (codes "data/a.txt")) (some 10) ≡ undefined
extract_directory-overflow_example =
    extract_directory-overflow 10 (codes "data/a.txt") refl (omega arith)

create_nested_directories-returns_example :
    (status : Bool) × (w' : World) × (create_nested_directories
        (codes "data/b/a.txt")
        (example_world one_file [] [])
      ≡ done (status, w'))
    × FolderReady (codes "data/b/a.txt") (example_world one_file [] []) w' status
create_nested_directories-returns_example =
    create_nested_directories-returns (codes "data/b/a.txt") (example_world one_file [] []) refl
      (omega arith)

opened : open_read one_file (codes "data/a.txt") ≡ some (left (codes "abc"))
unfolding open_read find bytes_eq
opened = refl

-- the file is emptied
abbrev emptied : FileSystem
emptied = example_files ((codes "data", directory) ∷ (codes "data/a.txt", regular []) ∷ [])

opened_for_writing : open_write one_file (codes "data/a.txt") ≡ some emptied
unfolding open_write has_parent strrchr find put bytes_eq
opened_for_writing = refl

found_empty : find (codes "data/a.txt") emptied.entries ≡ some (regular [])
unfolding find bytes_eq
found_empty = refl
