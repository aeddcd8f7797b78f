-- ===== src/Utils/Transfer.antt =====
-- `getFileSize`, `copyFile`, `sendALL`, `sendFileContents`, `receiveFileContents` and `receiveALL` of
-- utils.c. Each `while` runs on fuel; `running` says that it has not ended within it.
pub mod Sending
pub mod Receiving
pub mod Copying
pub mod Broken
use remote_file_system.Prelude.{
  ℕ, zero, suc, ◌-◌, Bool, true, false, ◌&&◌, Option, none, some, [], ◌∷◌, Bytes, length, drop,
  is_empty, ltb, ◌==◌, if◌then◌else◌, Run, done, running,
}
use remote_file_system.Prelude.Int.{ℤ, pos, negsuc}
use remote_file_system.Config.{max_buff_size}
use remote_file_system.FileSystem
use remote_file_system.FileSystem.{
  FileSystem, Stream, open_read, open_write, fread, fwrite, end_position,
}
use remote_file_system.Socket
use remote_file_system.World.{World, with_fs, with_socket}

-- -1 where the file cannot be opened
unfoldable pub get_file_size : FileSystem → Bytes → ℤ
get_file_size fs file_path = elim (open_read fs file_path) [
  | none ↦ negsuc 0
  | some file ↦ end_position fs file
]

-- The loop of `copyFile`. A destination is the path of a file that is open for writing.
unfoldable pub copy_loop : ℕ → Stream → Bytes → World → Run (Bool × World)
copy_loop zero source destination w = running
copy_loop (suc fuel) source destination w =
    let (buffer, source', at_end) = fread max_buff_size source in
    let (written, fs) = fwrite w.fs destination buffer in
    elim at_end [
      | true ↦ done (true, with_fs w fs)
      | false ↦ copy_loop fuel source' destination (with_fs w fs)
    ]

-- A NULL file pointer is an error.
unfoldable pub copy_file : ℕ → Option Stream → Option Bytes → World → Run (Bool × World)
copy_file fuel none destination w = done (false, w)
copy_file fuel (some source) none w = done (false, w)
copy_file fuel (some source) (some destination) w = copy_loop fuel source destination w

-- `data` is what is not sent yet: each round sends from there.
unfoldable pub send_loop : ℕ → Bytes → World → Run (Bool × World)
send_loop zero rest w = running
send_loop (suc fuel) rest w = elim (is_empty rest) [
  | true ↦ done (true, w)
  | false ↦
      let (num_sent, s) = Socket.send rest w.socket in
      elim num_sent [
        | none ↦ done (false, with_socket w s)
        | some n ↦ send_loop fuel (drop n rest) (with_socket w s)
      ]
]

-- every round sends a byte, so there are at most as many as there are bytes
unfoldable pub send_all : Bytes → World → Run (Bool × World)
send_all bytes w = send_loop (suc (length bytes)) bytes w

-- The loop of `sendFileContents`. The Boolean that `sendALL` returns is compared with 0 by `<`, which
-- no Boolean is: the branch for an error is never taken.
unfoldable pub send_contents_loop : ℕ → Stream → World → Run (Bool × World)
send_contents_loop zero file w = running
send_contents_loop (suc fuel) file w =
    let (buffer, file', at_end) = fread max_buff_size file in
    elim (send_all buffer w) [
      | done (status, w') ↦ elim at_end [
        | true ↦ done (true, w')
        | false ↦ send_contents_loop fuel file' w'
      ]
      | other ↦ other
    ]

unfoldable pub send_file_contents : ℕ → Bytes → World → Run (Bool × World)
send_file_contents fuel source_file w = elim (open_read w.fs source_file) [
  | none ↦ done (false, w)
  | some file ↦ send_contents_loop fuel file w
]

-- The loop of `receiveFileContents`: a `recv` that fails leaves it, and a short write is remembered.
unfoldable pub receive_loop : ℕ → Bytes → ℕ → Bool → World → Run (Bool × World)
receive_loop zero path remaining success w = running
receive_loop (suc fuel) path remaining success w = elim (ltb 0 remaining) [
  | false ↦ done (success, w)
  | true ↦
      let (received, s) = Socket.recv max_buff_size w.socket in
      elim received [
        | none ↦ done (success, with_socket w s)
        | some buffer ↦
            let (written, fs) = fwrite w.fs path buffer in
            receive_loop fuel path (remaining - length buffer)
              (success && (written == length buffer)) (record w { fs = fs; socket = s })
      ]
]

-- a negative size is no byte to wait for
abbrev pub byte_count : ℤ → ℕ
byte_count (pos n) = n
byte_count (negsuc n) = 0

unfoldable pub receive_file_contents : ℕ → Bytes → ℤ → World → Run (Bool × World)
receive_file_contents fuel destination_path file_size w = elim (open_write w.fs destination_path) [
  | none ↦ done (false, w)
  | some fs ↦ receive_loop fuel destination_path (byte_count file_size) true (with_fs w fs)
]

-- not implemented in the source
unfoldable pub receive_all : ℕ → World → Run (Bool × World)
receive_all expected_bytes w = done (false, w)
