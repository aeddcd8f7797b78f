-- ===== src/RequestHandler.antt =====
-- server/request_handler.c: what the server does for a WRITE, a GET and an RM, while it holds the
-- lock of the file. The fuel bounds each loop that copies or receives.
pub mod Versions
pub mod Storing
pub mod Write
pub mod Get
pub mod Remove
pub mod RemoveAll
pub mod Calls
use remote_file_system.Prelude.{
  ℕ, Bool, true, false, not, ◌&&◌, Option, none, some, List, [], ◌∷◌, ◌++◌, Bytes, codes, is_empty,
  ◌==◌, if◌then◌else◌, Run, done, undefined, running,
}
use remote_file_system.Prelude
use remote_file_system.Prelude.Int.{ℤ, pos, is_negative}
use remote_file_system.Config.{max_path_len, version_subfolder}
use remote_file_system.CString.{store_text}
use remote_file_system.CString.Decimal.{print_long}
use remote_file_system.FileSystem
use remote_file_system.FileSystem.{Stream, is_directory, open_read, readdir}
use remote_file_system.World.{World, M, ◌>>=◌, ◌>>◌, pure, lift_run, on_files, open_write}
use remote_file_system.Utils.Paths.{extract_directory, extract_basename, create_nested_directories}
use remote_file_system.Utils.Transfer.{
  get_file_size, copy_file, send_file_contents, receive_file_contents,
}
use remote_file_system.Protocol.Request.{Request}
use remote_file_system.Protocol.Transmit.{with_memory, build_and_send_response}

-- `sprintf` with "%s.%ld_%ld"
abbrev pub version_name : Bytes → ℕ × ℕ → Bytes
version_name basename (seconds, microseconds) =
    basename ++ b'.' ∷ (print_long (pos seconds) ++ b'_' ∷ print_long (pos microseconds))

-- The result of `malloc` is not tested: without memory the text is stored at NULL.
unfoldable pub make_version_name : Bool → Bytes → ℕ × ℕ → Run Bytes
make_version_name mem basename now =
    if mem then store_text max_path_len (version_name basename now) else undefined

-- The two buffers that `saveCurrentVersion` and `handleRemoveRequest` fill from a path; `none` where
-- one of the calls returns false. The second call is made only if the first succeeds.
unfoldable pub split_path : Bytes → Run (Option (Bytes × Bytes))
split_path path = elim (extract_directory (some path) (some max_path_len)) [
  | undefined ↦ undefined
  | running ↦ running
  | done none ↦ done none
  | done (some folder) ↦ elim (extract_basename (some path) (some max_path_len)) [
    | undefined ↦ undefined
    | running ↦ running
    | done none ↦ done none
    | done (some name) ↦ done (some (folder, name))
  ]
]

-- the folder of the versions: `strcpy` and `strcat` into a buffer
abbrev pub version_folder : Bytes → Run Bytes
version_folder folder = store_text max_path_len (folder ++ version_subfolder)

-- where the version of a file is saved
unfoldable pub version_path : Bool → ℕ × ℕ → Bytes → Bytes → Run Bytes
version_path mem now folder name = Prelude.◌>>=◌ (version_folder folder) λ version_directory.
    Prelude.◌>>=◌ (make_version_name mem name now)
      λ version_filename. store_text max_path_len (version_directory ++ b'/' ∷ version_filename)

-- What follows once the path of the version is known. The result of the first call is not read; a
-- version file that could not be opened is closed all the same, and `fclose(NULL)` is undefined.
unfoldable pub store_version : ℕ → Stream → Bytes → M Bool
store_version fuel curr_file full_path = do
  create_nested_directories full_path
  opened ← open_write full_path
  success ← copy_file fuel (some curr_file) (if opened then some full_path else none)
  if opened then pure success else λ w. undefined

unfoldable pub save_current_version : ℕ → Bytes → M Bool
save_current_version fuel filepath w = elim (open_read w.fs filepath) [
  | none ↦ done (true, w)
  | some curr_file ↦ elim (split_path filepath) [
    | undefined ↦ undefined
    | running ↦ running
    | done none ↦ done (false, w)
    | done (some (folder, name)) ↦ elim (version_path w.memory w.now folder name) [
      | undefined ↦ undefined
      | running ↦ running
      | done full_path ↦ store_version fuel curr_file full_path w
    ]
  ]
]

-- `status && receiveFileContents(…)`
abbrev receive_if : Bool → ℕ → Request → M Bool
receive_if saved fuel write_request =
    if saved
    then receive_file_contents fuel write_request.remote_path write_request.data_len
    else pure false

unfoldable pub handle_write_request : ℕ → Request → M Bool
handle_write_request fuel write_request = do
  create_nested_directories write_request.remote_path
  saved ← save_current_version fuel write_request.remote_path
  status ← receive_if saved fuel write_request
  build_and_send_response status (pos 0) (some [])

unfoldable pub handle_get_request : ℕ → Request → M Bool
handle_get_request fuel get_request w =
    let source_length = get_file_size w.fs get_request.remote_path in
    if is_negative source_length
    then build_and_send_response false (pos 0)
        (some (codes "unable to open and/or get size of the requested file")) w
    else (build_and_send_response true source_length (some (codes "OK")) >>= λ _.
          send_file_contents fuel get_request.remote_path)
        w

-- `strncmp(name, base, strlen(base)) == 0`
unfoldable pub starts_with : Bytes → Bytes → Bool
starts_with [] name = true
starts_with (b ∷ base) [] = false
starts_with (b ∷ base) (c ∷ name) = (c == b) && starts_with base name

abbrev pub remove : Bytes → M Bool
remove path = on_files (λ fs. FileSystem.remove fs path)

-- The loop over the version folder. After a failure `&&` makes no more calls of `remove`.
unfoldable pub remove_versions :
    Bytes → Bytes → List (Bytes × Bool) → Bool → World → Run (Bool × World)
remove_versions folder base [] success w = done (success, w)
remove_versions folder base ((name, regular) ∷ rest) success w =
    elim (regular && starts_with base name) [
      | false ↦ remove_versions folder base rest success w
      | true ↦ elim (store_text max_path_len (folder ++ b'/' ∷ name)) [
        | undefined ↦ undefined
        | running ↦ running
        | done full_version_path ↦ elim success [
          | false ↦ remove_versions folder base rest false w
          | true ↦
              let (removed, fs) = FileSystem.remove w.fs full_version_path in
              remove_versions folder base rest removed (record w { fs = fs })
        ]
      ]
    ]

-- the part of `handleRemoveRequest` behind the split of the path
unfoldable pub remove_history : Bytes → Bytes → M Bool
remove_history folder base w = elim (version_folder folder) [
  | undefined ↦ undefined
  | running ↦ running
  | done versions ↦
      if is_directory w.fs versions
      then (remove_versions versions base (readdir versions w.fs.entries) true >>= λ success.
            if success
            then build_and_send_response true (pos 0) (some (codes "OK"))
            else build_and_send_response false (pos 0)
                (some (codes "ERROR: unable to remove all prior versions of this file")))
          w
      else build_and_send_response true (pos 0) (some (codes "OK")) w
]

-- the part behind the removal of the file itself
unfoldable pub after_removal : Bytes → M Bool
after_removal filepath = do
  parts ← lift_run (split_path filepath)
  elim parts [
    | none ↦
        build_and_send_response false (pos 0) (some (codes "unable to remove file version history"))
    | some (folder, base) ↦ remove_history folder base
  ]

unfoldable pub handle_remove_request : Request → M Bool
handle_remove_request remove_request =
    if is_empty remove_request.remote_path
    then build_and_send_response false (pos 0) (some (codes "didn't receive file path"))
    else (remove remove_request.remote_path >>= λ removed.
        if removed
        then after_removal remove_request.remote_path
        else build_and_send_response false (pos 0) (some (codes "unable to remove file")))
