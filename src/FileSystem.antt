-- ===== src/FileSystem.antt =====
-- The calls of the C library and of POSIX on files and directories that the program makes, over an
-- explicit file system. A path is a key as it is spelled, relative to the working directory.
pub mod Laws
use remote_file_system.Prelude.{
  ℕ, Bool, true, false, ◌&&◌, ◌||◌, not, Option, none, some, List, [], ◌∷◌, ◌++◌, Bytes, length,
  take, drop, is_empty, ltb, if◌then◌else◌, bytes_eq,
}
use remote_file_system.Prelude.Int.{ℤ, pos}
use remote_file_system.CString.Search.{strrchr}

pub data Entry : Type 0 where
  regular : Bytes → Entry
  directory : Entry

pub data Access : Type 0 where
  reading writing : Access

pub record FileSystem : Type 0 where
  pub entries : List (Bytes × Entry)
  -- what the operating system refuses, whatever the reason
  pub denied : Access → Bytes → Bool
  -- a full disk takes no byte of an `fwrite`
  pub disk_full : Bool
  -- what `ftell` reports at the end of a directory that was opened for reading
  pub dir_size : ℤ

abbrev pub Entries : Type 0
Entries = List (Bytes × Entry)

unfoldable pub find : Bytes → Entries → Option Entry
find p [] = none
find p ((q, e) ∷ m) = if bytes_eq q p then some e else find p m

unfoldable pub put : Bytes → Entry → Entries → Entries
put p e [] = (p, e) ∷ []
put p e ((q, d) ∷ m) = if bytes_eq q p then (p, e) ∷ m else (q, d) ∷ put p e m

unfoldable pub discard : Bytes → Entries → Entries
discard p [] = []
discard p ((q, e) ∷ m) = if bytes_eq q p then discard p m else (q, e) ∷ discard p m

abbrev pub holds_directory : Option Entry → Bool
holds_directory none = false
holds_directory (some (regular b)) = false
holds_directory (some directory) = true

-- `opendir(path) != NULL`
unfoldable pub is_directory : FileSystem → Bytes → Bool
is_directory fs path = holds_directory (find path fs.entries) && not (fs.denied reading path)

-- The folder in which a path lies is there: the working directory, the root, or an entry.
unfoldable pub has_parent : FileSystem → Bytes → Bool
has_parent fs path = elim (strrchr b'/' path) [
  | none ↦ true
  | some (folder, name) ↦ is_empty folder || holds_directory (find folder fs.entries)
]

pub data Made : Type 0 where
  made : Made
  -- `errno` is EEXIST
  exists : Made
  failed : Made

-- `mkdir`
unfoldable pub mkdir : FileSystem → Bytes → Made × FileSystem
mkdir fs path = elim (find path fs.entries) [
  | some e ↦ (exists, fs)
  | none ↦
      if is_empty path || not (has_parent fs path) || fs.denied writing path
      then (failed, fs)
      else (made, record fs { entries = put path directory fs.entries })
]

-- A stream open for reading: the bytes that are left, or a directory, of which every read fails.
pub data Stream : Type 0 where
  left : Bytes → Stream
  of_directory : Stream

abbrev pub stream_of : Entry → Stream
stream_of (regular content) = left content
stream_of directory = of_directory

-- `fopen(path, "rb")`
unfoldable pub open_read : FileSystem → Bytes → Option Stream
open_read fs path =
    if fs.denied reading path
    then none
    else elim (find path fs.entries) [ none ↦ none | some e ↦ some (stream_of e) ]

-- `fread` of at most `n` bytes: the bytes, the stream after it, and `feof`. The end is noticed by a
-- read that gets less than it asked for; a failed read gets nothing and is no end.
unfoldable pub fread : ℕ → Stream → Bytes × Stream × Bool
fread n (left b) = (take n b, left (drop n b), ltb (length b) n)
fread n of_directory = ([], of_directory, false)

-- `fseek` to the end and `ftell`
unfoldable pub end_position : FileSystem → Stream → ℤ
end_position fs (left b) = pos (length b)
end_position fs of_directory = fs.dir_size

-- `fopen(path, "wb")` makes the file or empties it.
unfoldable pub open_write : FileSystem → Bytes → Option FileSystem
open_write fs path =
    if is_empty path
      || not (has_parent fs path)
      || fs.denied writing path
      || holds_directory (find path fs.entries)
    then none
    else some (record fs { entries = put path (regular []) fs.entries })

-- what the file at a path holds
abbrev pub contents : Option Entry → Bytes
contents none = []
contents (some (regular b)) = b
contents (some directory) = []

-- `fwrite` at the end of the open file `path`: how many bytes were written, and the file system
unfoldable pub fwrite : FileSystem → Bytes → Bytes → ℕ × FileSystem
fwrite fs path b = if fs.disk_full then (0, fs) else (
  length b,
  record fs { entries = put path (regular (contents (find path fs.entries) ++ b)) fs.entries },
)

-- the name of an entry that lies directly in `folder`
unfoldable pub name_in : Bytes → Bytes → Option Bytes
name_in folder path = elim (strrchr b'/' path) [
  | none ↦ none
  | some (before, name) ↦ if bytes_eq before folder then some name else none
]

unfoldable pub has_entries : Bytes → Entries → Bool
has_entries folder [] = false
has_entries folder ((q, e) ∷ m) = elim (name_in folder q) [
  | none ↦ has_entries folder m
  | some name ↦ true
]

-- `remove`: a file, or a directory without entries. The first part says whether it returned 0.
unfoldable pub remove : FileSystem → Bytes → Bool × FileSystem
remove fs path = elim (find path fs.entries) [
  | none ↦ (false, fs)
  | some e ↦
      if fs.denied writing path || (holds_directory (some e) && has_entries path fs.entries)
      then (false, fs)
      else (true, record fs { entries = discard path fs.entries })
]

abbrev pub is_regular : Entry → Bool
is_regular (regular b) = true
is_regular directory = false

-- What `readdir` returns of a folder, one after another: each name, and whether it is DT_REG. The
-- entries `.` and `..` are no regular files and are left out.
unfoldable pub readdir : Bytes → Entries → List (Bytes × Bool)
readdir folder [] = []
readdir folder ((q, e) ∷ m) = elim (name_in folder q) [
  | none ↦ readdir folder m
  | some name ↦ (name, is_regular e) ∷ readdir folder m
]
