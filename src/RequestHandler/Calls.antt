-- ===== src/RequestHandler/Calls.antt =====
-- The calls on files that change something, and that the handlers of requests make: which of them are
-- made on which files.
pub mod Rules
pub mod Folders
pub mod Contents
pub mod Handlers
pub mod Reading
pub mod Frame
use remote_file_system.Prelude.{◌≡◌, Bool, true, Option, none, some, ◌∷◌, ◌++◌, Bytes, Run, done}
use remote_file_system.Config.{version_subfolder}
use remote_file_system.FileSystem.{FileSystem, mkdir, open_write, fwrite, remove}
use remote_file_system.RequestHandler.{split_path, starts_with}
use remote_file_system.World.{World, M}

-- the path of a version
abbrev pub version_of : Bytes → Bytes → Bytes
version_of folder name = (folder ++ version_subfolder) ++ b'/' ∷ name

-- The files that belong to the one at `path`: itself, and what is in its version folder with a name that
-- goes on from the file's own.
pub data Owns (path q : Bytes) : Type 0 where
  itself : q ≡ path → Owns path q
  version :
      (folder base name : Bytes)
      → split_path path ≡ done (some (folder, base))
      → starts_with base name ≡ true
      → q ≡ version_of folder name
      → Owns path q

-- One call that changes the files, for a request on `path`: a folder is made, or a file that belongs to
-- `path` is emptied, written or removed.
pub data FileCall (path : Bytes) (fs : FileSystem) : FileSystem → Type 0 where
  makes : (p : Bytes) → FileCall path fs (mkdir fs p).1
  empties :
      (q : Bytes) (fs' : FileSystem)
      → Owns path q
      → open_write fs q ≡ some fs'
      → FileCall path fs fs'
  writes : (q b : Bytes) → Owns path q → FileCall path fs (fwrite fs q b).1
  removes : (q : Bytes) → Owns path q → FileCall path fs (remove fs q).1

-- Such calls, one after another, for a request on a path, or for one that may change nothing.
pub data Calls : Option Bytes → FileSystem → FileSystem → Type 0 where
  no_calls : {rights : Option Bytes} {fs : FileSystem} → Calls rights fs fs
  call :
      {path : Bytes} {fs fs1 fs2 : FileSystem}
      → FileCall path fs fs1
      → Calls (some path) fs1 fs2
      → Calls (some path) fs fs2

-- Wherever `m` returns, it has changed the files by such calls and by nothing else.
pub record Acts {A : Type 0} (rights : Option Bytes) (m : M A) : Type 0 where
  pub at : (w w' : World) (a : A) → m w ≡ done (a, w') → Calls rights w.fs w'.fs
