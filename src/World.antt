-- ===== src/World.antt =====
-- The state that a handler of one connection works on, and the calls that change it.
use remote_file_system.Prelude.{
  ℕ, Bool, Option, none, some, ◌++◌, Bytes, Run, done, undefined, running, true, false,
}
use remote_file_system.FileSystem
use remote_file_system.FileSystem.{FileSystem}
use remote_file_system.Socket
use remote_file_system.Socket.{Socket}

pub record World : Type 0 where
  pub fs : FileSystem
  pub socket : Socket
  -- whether `malloc` has memory to give
  pub memory : Bool
  -- what `gettimeofday` reports: seconds and microseconds
  pub now : ℕ × ℕ
  -- what `displayServerResponse` of the client has printed
  pub printed : Bytes

abbrev pub M : Type 0 → Type 0
M A = World → Run (A × World)

module _ {A B : Type 0} where
  abbrev pub and_then : Run (A × World) → (A → M B) → Run (B × World)
  and_then (done (a, w)) k = k a w
  and_then undefined k = undefined
  and_then running k = running

  infixl 5 ◌>>=◌ ◌>>◌
  abbrev pub ◌>>=◌ : M A → (A → M B) → M B
  ◌>>=◌ m k w = and_then (m w) k

  abbrev pub ◌>>◌ : M A → M B → M B
  ◌>>◌ m n w = and_then (m w) (λ _. n)

abbrev pub pure : {A : Type 0} → A → M A
pure a w = done (a, w)

-- a pure computation that may be undefined
abbrev pub lift_run : {A : Type 0} → Run A → World → Run (A × World)
lift_run (done a) w = done (a, w)
lift_run undefined w = undefined
lift_run running w = running

abbrev pub with_fs : World → FileSystem → World
with_fs w fs = record w { fs = fs }

abbrev pub with_socket : World → Socket → World
with_socket w s = record w { socket = s }

-- a call on the file system that returns a value
abbrev pub on_files : {A : Type 0} → (FileSystem → A × FileSystem) → M A
on_files f w = let (a, fs) = f w.fs in done (a, with_fs w fs)

abbrev pub on_socket : {A : Type 0} → (Socket → A × Socket) → M A
on_socket f w = let (a, s) = f w.socket in done (a, with_socket w s)

unfoldable pub send : Bytes → M (Option ℕ)
send b = on_socket (Socket.send b)

unfoldable pub recv : ℕ → M (Option Bytes)
recv n = on_socket (Socket.recv n)

-- `close`
unfoldable pub close : M (Unit {0})
close = on_socket (λ s. (tt, record s { closed = true }))

abbrev pub print : Bytes → M (Unit {0})
print text w = done (tt, record w { printed = w.printed ++ text })

-- `fopen(path, "wb")`: whether it opened the file
unfoldable pub open_write : Bytes → M Bool
open_write path w = elim (FileSystem.open_write w.fs path) [
  | none ↦ done (false, w)
  | some fs ↦ done (true, with_fs w fs)
]
