-- ===== src/ThreadManager/Threads/Files.antt =====
-- The files that the threads of the server share: while one thread works on a file, the others go on with
-- their own steps and their own calls on files.
use remote_file_system.Prelude.{
  ℕ, ◌≡◌, ◌≢◌, refl, ap, ◌∙◌, inl, inr, Bool, true, false, some, List, [], ◌∷◌, ◌&&◌, not, ltb,
  ◌==◌, if◌then◌else◌, Bytes, length, get_elem?, arith, Option-cases,
}
use mathlib.Core.Path.{subst}
use remote_file_system.Prelude.Int.{pos}
use remote_file_system.FileSystem
use remote_file_system.FileSystem.{
  FileSystem, Entry, regular, left, of_directory, directory, find, open_read, end_position,
}
use remote_file_system.LockList.{Ptr}
use remote_file_system.Protocol.Request.{Request}
use remote_file_system.RequestHandler.Calls.{version_of, Owns, itself, version, FileCall}
use remote_file_system.RequestHandler.Calls.Frame.{FileCall-Frame}
use remote_file_system.World.{World}
use remote_file_system.ThreadManager.Threads.{Phase, writing, System, Step, Reach, next}
use remote_file_system.ThreadManager.Threads.Exclusion.{IsWorkingOn, mutual_exclusion}
use remote_file_system.Utils.Transfer.{get_file_size}

-- the threads with what they share, and the files
pub record Site : Type 0 where
  pub system : System
  pub files : FileSystem

-- the names between the slashes of a path
abbrev pub path_names : Bytes → List Bytes
path_names [] = [] ∷ []
path_names (c ∷ path) = elim (path_names path) [
  | [] ↦ []
  | name ∷ names ↦ if c == b'/' then [] ∷ name ∷ names else (c ∷ name) ∷ names
]

abbrev pub is_name : Bytes → Bool
is_name [] = false
is_name (c ∷ []) = not (c == b'.')
is_name (c ∷ d ∷ []) = not ((c == b'.') && (d == b'.'))
is_name (c ∷ d ∷ e ∷ name) = true

abbrev pub all_names : List Bytes → Bool
all_names [] = true
all_names (name ∷ names) = is_name name && all_names names

-- A path below a folder, of names that are not empty and not `.` or `..`: where there are no links, two such
-- paths that differ lead to two files, so that a path stands for its file.
abbrev pub IsPlain : Bytes → Type 0
IsPlain path = (all_names (path_names path) && ltb 1 (length (path_names path))) ≡ true

-- Steps in which thread `i` takes no part: another thread makes a step of its handler, or a thread is
-- started, or a thread that has locked its file, under a plain path, for writing makes one call of its handler
-- on the files.
pub data Others (i : ℕ) (s : Site) : Site → Type 0 where
  at_rest : Others i s s
  steps :
      {t : Site} (system : System)
      → Others i s t
      → Step t.system system
      → get_elem? system.threads i ≡ get_elem? t.system.threads i
      → Others i s (record { system = system; files = t.files })
  works :
      {t : Site} (j : ℕ) (r : Request) (lock : Ptr) (w : World) (files : FileSystem)
      → Others i s t
      → j ≢ i
      → get_elem? t.system.threads j ≡ some (writing r lock w)
      → IsPlain r.remote_path
      → FileCall r.remote_path t.files files
      → Others i s (record { system = t.system; files = files })

-- The path lies in no version folder.
abbrev pub IsNoVersion : Bytes → Type 0
IsNoVersion path = (folder name : Bytes) → path ≢ version_of folder name

module _ {i : ℕ} {s : Site} (reach : Reach s.system) where
  Others-Reach : {t : Site} → Others i s t → Reach t.system
  Others-Reach at_rest = reach
  Others-Reach (steps system o step same) = next (Others-Reach o) step
  Others-Reach (works j r lock w files o ne at plain c) = Others-Reach o

  Others-stays :
      {t : Site} → Others i s t → get_elem? t.system.threads i ≡ get_elem? s.system.threads i
  Others-stays at_rest = refl
  Others-stays (steps system o step same) = same ∙ Others-stays o
  Others-stays (works j r lock w files o ne at plain c) = Others-stays o

  module _ (p : Phase) (path : Bytes) (at_work : get_elem? s.system.threads i ≡ some p)
      (on : IsWorkingOn path p) (no_version : IsNoVersion path) where
    -- No other thread may change the file.
    not_owned :
        {t : Site} (o : Others i s t) (j : ℕ) (r : Request) (lock : Ptr) (w : World)
        → j ≢ i
        → get_elem? t.system.threads j ≡ some (writing r lock w)
        → Owns r.remote_path path
        → ⊥
    not_owned {t} o j r lock w ne at (itself e) = ne (
        mutual_exclusion t.system j i r lock w p (Others-Reach o) at (Others-stays o ∙ at_work)
          (subst (λ q. IsWorkingOn q p) e on))
    not_owned o j r lock w ne at (version folder base name parts starts e) =
        no_version folder name e

    -- A file that a thread works on is not changed by the others, nor is what the operating system allows.
    pub find-Others :
        {t : Site} (e : Entry)
        → Others i s t
        → find path s.files.entries ≡ some e
        → (find path t.files.entries ≡ some e)
          × (t.files ≡ record s.files { entries = t.files.entries })
    find-Others e at_rest there = (there, refl)
    find-Others e (steps system o step same) there = find-Others e o there
    find-Others e (works {t} j r lock w files o ne at plain c) there =
        let (kept, same) = find-Others e o there in
        let f = FileCall-Frame r.remote_path t.files files c in
        (
          elim (f.others path) [
            | inl owns ↦ absurd (not_owned o j r lock w ne at owns)
            | inr unchanged ↦ ground (arith, unchanged, kept)
          ],
          f.same ∙ λ k. record (same k) { entries = files.entries },
        )

opened_regular :
    (fs : FileSystem) (path b : Bytes)
    → open_read fs path ≡ some (left b)
    → (find path fs.entries ≡ some (regular b)) × (fs.denied FileSystem.reading path ≡ false)
unfolding open_read
opened_regular fs path b e = elim (Option-cases (find path fs.entries)) [
  | inl n ↦ absurd (ground (arith, e, n))
  | inr (regular c, q) ↦ (ground (arith, e, q), ground (arith, e, q))
  | inr (directory, q) ↦ absurd (ground (arith, e, q))
]

opens_regular :
    (fs : FileSystem) (path b : Bytes)
    → find path fs.entries ≡ some (regular b)
    → fs.denied FileSystem.reading path ≡ false
    → (open_read fs path ≡ some (left b)) × (get_file_size fs path ≡ pos (length b))
unfolding open_read get_file_size end_position
opens_regular fs path b e allowed = (ground (arith, e, allowed), ground (arith, e, allowed))

-- While a thread works on a file under a plain path that lies in no version folder, in a state that the threads
-- reach, the file stays as it is, whatever the other threads do, with any number of steps, and of calls on files
-- for requests with plain paths, in any order: what the file is opened with and the length that is announced for
-- it are the same at each moment. Two spellings of one path have two locks, and are left out.
pub open_read-Others :
    (i : ℕ) (s t : Site) (p : Phase) (path b : Bytes)
    → Reach s.system
    → get_elem? s.system.threads i ≡ some p
    → IsWorkingOn path p
    → IsPlain path
    → IsNoVersion path
    → Others i s t
    → open_read s.files path ≡ some (left b)
    → (open_read t.files path ≡ some (left b)) × (get_file_size t.files path ≡ pos (length b))
open_read-Others i s t p path b reach at_work on plain no_version o opens =
    let (there, allowed) = opened_regular s.files path b opens in
    let (kept, same) = find-Others reach p path at_work on no_version (regular b) o there in
    opens_regular t.files path b kept (ap (λ fs. fs.denied FileSystem.reading path) same ∙ allowed)
