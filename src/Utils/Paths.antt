-- ===== src/Utils/Paths.antt =====
-- `extractDirectory`, `extractBasename` and `createNestedDirectories` of utils.c.
pub mod Split
pub mod Extends
pub mod Nested
pub mod Returns
use remote_file_system.Prelude.{
  ℕ, Bool, true, false, Option, none, some, List, [], ◌∷◌, ◌++◌, Bytes, is_empty, if◌then◌else◌,
  Run, done, undefined, running,
}
use remote_file_system.Prelude
use remote_file_system.Config.{max_path_len}
use remote_file_system.CString.{store_text}
use remote_file_system.CString.Search.{strrchr}
use remote_file_system.CString.Tokens.{tokens}
use remote_file_system.FileSystem.{Made, made, exists, failed, mkdir, is_directory}
use remote_file_system.World.{World, M, ◌>>=◌, pure, lift_run, on_files, with_fs}

-- what is left in the buffer when it is cut at its last slash
abbrev pub before_last : Option (Bytes × Bytes) → Bytes
before_last none = []
before_last (some (before, after)) = before

abbrev pub before_slash : Bytes → Bytes
before_slash path = before_last (strrchr b'/' path)

-- `buffer` is the size of the buffer, `none` for a NULL pointer. The result is the text in it, or
-- `none` where the function returns false. The whole path is copied there first.
unfoldable pub extract_directory : Option Bytes → Option ℕ → Run (Option Bytes)
extract_directory none buffer = done none
extract_directory (some path) none = done none
extract_directory (some path) (some size) =
    if is_empty path
    then done none
    else Prelude.◌>>=◌ (store_text size path) (λ text. done (some (before_slash text)))

-- the text behind the last slash, or the whole path
abbrev pub after_last : Bytes → Option (Bytes × Bytes) → Bytes
after_last path none = path
after_last path (some (before, after)) = after

abbrev pub after_slash : Bytes → Bytes
after_slash path = after_last path (strrchr b'/' path)

unfoldable pub extract_basename : Option Bytes → Option ℕ → Run (Option Bytes)
extract_basename none buffer = done none
extract_basename (some path) none = done none
extract_basename (some path) (some size) =
    if is_empty path
    then done none
    else Prelude.◌>>=◌ (store_text size (after_slash path)) (λ text. done (some text))

-- one more folder behind the current one
abbrev pub append_folder : Bytes → Bytes → Bytes
append_folder curr token = if is_empty curr then token else curr ++ b'/' ∷ token

-- What follows a `mkdir`: a folder that exists already is no error, any other failure ends the loop.
abbrev pub after_mkdir : Made → Run (Bool × World) → World → Run (Bool × World)
after_mkdir made rest w = rest
after_mkdir exists rest w = rest
after_mkdir failed rest w = done (false, w)

abbrev pub mkdir_in : World → Bytes → World
mkdir_in w path = with_fs w (mkdir w.fs path).1

-- The loop: `mkdir` of each folder on the way.
unfoldable pub make_folders : List Bytes → Bytes → World → Run (Bool × World)
make_folders [] curr w = done (true, w)
make_folders (token ∷ rest) curr w =
    Prelude.◌>>=◌ (store_text max_path_len (append_folder curr token)) λ next.
      after_mkdir (mkdir w.fs next).0 (make_folders rest next (mkdir_in w next)) (mkdir_in w next)

-- the part behind the call of `extractDirectory`
abbrev pub ensure_folder : Bytes → World → Run (Bool × World)
ensure_folder folder w =
    if is_directory w.fs folder then done (true, w) else make_folders (tokens b'/' folder) [] w

abbrev pub ensure_extracted : Option Bytes → World → Run (Bool × World)
ensure_extracted none w = done (false, w)
ensure_extracted (some folder) w = ensure_folder folder w

unfoldable pub create_nested_directories : Bytes → World → Run (Bool × World)
create_nested_directories full_path w =
    Prelude.◌>>=◌ (extract_directory (some full_path) (some max_path_len))
      λ directory_only. ensure_extracted directory_only w
