-- ===== src/Examples/Gets.antt =====
-- A GET of a concrete file, and of a folder.
use remote_file_system.Prelude.{
  ℕ, zero, suc, ◌≡◌, ◌≢◌, refl, none, some, [], ◌∷◌, codes, bytes_eq, undefined, running, arith,
}
use remote_file_system.Prelude.Int.{pos}
use remote_file_system.CString.Digits.{pow10}
use remote_file_system.Command.{get}
use remote_file_system.FileSystem.{FileSystem, regular, left, of_directory, find, open_read}
use remote_file_system.Protocol.Request.{request}
use remote_file_system.RequestHandler.{handle_get_request}
use remote_file_system.RequestHandler.Get.{
  handle_get_request-overflow, handle_get_request-directory,
}
use remote_file_system.Examples.{example_world, one_file, no_file, example_files}

opened : open_read one_file (codes "data/a.txt") ≡ some (left (codes "abc"))
unfolding open_read find bytes_eq
opened = refl

nothing_there : open_read no_file (codes "data/a.txt") ≡ none
unfolding open_read find bytes_eq
nothing_there = refl

abbrev one_byte : FileSystem
one_byte = example_files ((codes "data/a.txt", regular (codes "a")) ∷ [])

one_byte_opened : open_read one_byte (codes "data/a.txt") ≡ some (left (codes "a"))
unfolding open_read find bytes_eq
one_byte_opened = refl

handle_get_request-overflow_example :
    handle_get_request 4 (request get (codes "data/a.txt") (pos 0)) (example_world one_byte [] [])
    ≡ undefined
handle_get_request-overflow_example =
    handle_get_request-overflow 4 0 (request get (codes "data/a.txt") (pos 0)) (codes "a")
      (example_world one_byte [] []) one_byte_opened refl refl

folder_opened : open_read one_file (codes "data") ≡ some of_directory
unfolding open_read find bytes_eq
folder_opened = refl

no_power_4096 : (k : ℕ) → 4096 ≢ pow10 k
no_power_4096 zero e = omega (arith, e)
no_power_4096 (suc k) e = omega (arith, e)

handle_get_request-directory_example :
    handle_get_request 1000 (request get (codes "data") (pos 0)) (example_world one_file [] [])
    ≡ running
handle_get_request-directory_example =
    handle_get_request-directory 1000 4096 (request get (codes "data") (pos 0))
      (example_world one_file [] []) folder_opened refl no_power_4096 refl refl
