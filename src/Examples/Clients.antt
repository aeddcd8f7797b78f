-- ===== src/Examples/Clients.antt =====
-- The client on a concrete GET.
use remote_file_system.Prelude.{
  ◌≡◌, refl, true, false, done, some, [], ◌∷◌, ◌++◌, Bytes, codes, bytes_eq, running, arith,
}
use remote_file_system.Prelude.Int.{pos}
use remote_file_system.Client.{client_session, client_main}
use remote_file_system.Client.Main.{client_main-get}
use remote_file_system.Client.Receiving.{get_command, get_text, client_session-get_merged}
use remote_file_system.Command.{returned}
use remote_file_system.CString.Decimal.{print_long, print_ℕ, print_digits}
use remote_file_system.CString.Search.{strrchr}
use remote_file_system.FileSystem.{
  FileSystem, regular, directory, find, put, open_write, has_parent,
}
use remote_file_system.Protocol.Response.{response_text}
use remote_file_system.Socket.{bytes}
use remote_file_system.World.{World}
use remote_file_system.Examples.{example_world, example_files, no_file}

abbrev new_file : FileSystem
new_file = example_files ((codes "data", directory) ∷ (codes "data/a", regular []) ∷ [])

opened : open_write no_file (codes "data/a") ≡ some new_file
unfolding open_write has_parent strrchr find put bytes_eq
opened = refl

abbrev answer : Bytes
answer = response_text true (pos 3) (codes "OK")

abbrev apart : World
apart = example_world no_file (bytes answer ∷ bytes (codes "ab") ∷ bytes (codes "c") ∷ []) []

abbrev merged : World
merged = example_world no_file (bytes (answer ++ codes "abc") ∷ []) []

client_session-get_merged_example :
    client_session 1000 (get_command (codes "127.0.0.1") (codes "data/a") (codes "data/b")) merged
    ≡ running
unfolding print_long print_ℕ print_digits
client_session-get_merged_example =
    client_session-get_merged 1000 (codes "127.0.0.1") (codes "data/a") (codes "data/b")
      (codes "abc") merged new_file refl (omega arith) (omega arith) (omega arith) (omega arith)
      refl refl refl opened

client_main-get_example :
    (w' : World) × (client_main 4 true
        (λ ip. true)
        (codes "rfs" ∷ codes "GET" ∷ codes "--remote" ∷ codes "a" ∷ [])
        apart
      ≡ done (returned tt, w'))
    × (find (codes "data/a") w'.fs.entries ≡ some (regular (codes "abc")))
    × ((q : Bytes)
        → bytes_eq (codes "data/a") q ≡ false
        → find q w'.fs.entries ≡ find q no_file.entries)
    × (w'.socket.sent ≡ get_text (codes "data/a"))
    × (w'.socket.closed ≡ true)
client_main-get_example =
    client_main-get 4 (λ ip. true) (codes "rfs") (codes "a") (codes "abc") apart
      (bytes (codes "ab") ∷ bytes (codes "c") ∷ []) new_file refl refl refl (omega arith)
      (omega arith) refl refl refl (refl, (codes "c", refl, (refl, ([], refl, refl)))) opened refl
