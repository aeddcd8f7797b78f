-- ===== src/Utils/Transfer/Broken.antt =====
-- `receiveFileContents` on a connection that breaks.
use remote_file_system.Prelude.{
  ℕ, zero, suc, ◌-◌, ◌<◌, ◌≡◌, refl, ap, ◌∙◌, Bool, true, ◌&&◌, ◌==◌, none, some, List, [], ◌∷◌,
  Bytes, length, length-append, done, running, arith,
}
use remote_file_system.Prelude.Int.{pos}
use remote_file_system.Config.{max_buff_size}
use remote_file_system.FileSystem.{FileSystem, fwrite, open_write}
use remote_file_system.Socket
use remote_file_system.Socket.{Socket, Arrival, bytes, recv_error, receive_from}
use remote_file_system.Socket.Laws.{Delivers}
use remote_file_system.World.{World, with_fs, with_socket}
use remote_file_system.Utils.Transfer.{receive_loop, receive_file_contents}
use remote_file_system.Utils.Transfer.Receiving.{
  recv-progress, recv-receive_from, receive_opened, Delivers-nil,
}

module _ (fuel : ℕ) (path : Bytes) (remaining : ℕ) (success : Bool) (w : World) where
  any_round :
      (got : Bytes) (s : Socket) (written : ℕ) (fs : FileSystem)
      → 0 < remaining
      → Socket.recv max_buff_size w.socket ≡ (some got, s)
      → fwrite w.fs path got ≡ (written, fs)
      → receive_loop (suc fuel) path remaining success w
        ≡ receive_loop fuel path
            (remaining - length got)
            (success && (written == length got))
            (record w { fs = fs; socket = s })
  unfolding receive_loop
  any_round got s written fs more r f = ground (arith, r, f)

  failed_round :
      (s : Socket)
      → 0 < remaining
      → Socket.recv max_buff_size w.socket ≡ (none, s)
      → receive_loop (suc fuel) path remaining success w ≡ done (success, with_socket w s)
  unfolding receive_loop
  failed_round s more r = ground (arith, r)

-- at the end of the stream every `recv` returns 0
closed_loop :
    (fuel : ℕ) (path : Bytes) (remaining : ℕ) (success : Bool) (w : World)
    → 0 < remaining
    → w.socket.arrivals ≡ []
    → receive_loop fuel path remaining success w ≡ running
closed_loop zero path remaining success w more e = unfold receive_loop in refl
closed_loop (suc fuel) path remaining success w more e =
    let f = fwrite w.fs path [] in
    any_round fuel path remaining success w [] w.socket f.0 f.1 more
      (recv-receive_from 2000 w.socket ∙ ap (receive_from 2000 w.socket) e) refl
    ∙ closed_loop fuel path (remaining - 0) (success && (f.0 == 0)) (with_fs w f.1) (omega arith) e

early_loop :
    (fuel : ℕ) (path : Bytes) (remaining : ℕ) (success : Bool) (b : Bytes) (w : World)
    → length b < remaining
    → Delivers w.socket.arrivals b
    → receive_loop fuel path remaining success w ≡ running
early_loop zero path remaining success b w more d = unfold receive_loop in refl
early_loop (suc fuel) path remaining success [] w more d =
    closed_loop (suc fuel) path remaining success w more (Delivers-nil w.socket.arrivals d)
early_loop (suc fuel) path remaining success (c ∷ b) w more d =
    let (got, left_over, rest, r, split, d', nonempty) =
      recv-progress 1999 w.socket w.socket.arrivals (c ∷ b) refl d in
    let f = fwrite w.fs path got in
    any_round fuel path remaining success w got (record w.socket { arrivals = rest }) f.0 f.1
      (omega arith) (recv-receive_from 2000 w.socket ∙ r) refl
    ∙ early_loop fuel path (remaining - length got) (success && (f.0 == length got)) left_over
        (record w { fs = f.1; socket = record w.socket { arrivals = rest } })
        (omega (arith, ap length split, length-append got left_over)) d'

-- If the peer closes the connection before it has sent what it announced, `receiveFileContents` does
-- not return, whatever the fuel: a `recv` that returns 0 is not seen as the end.
pub receive_file_contents-early_close :
    (fuel : ℕ) (path : Bytes) (n : ℕ) (b : Bytes) (w : World) (fs : FileSystem)
    → open_write w.fs path ≡ some fs
    → Delivers w.socket.arrivals b
    → length b < n
    → receive_file_contents fuel path (pos n) w ≡ running
receive_file_contents-early_close fuel path n b w fs opened d lt =
    receive_opened fuel path n w fs opened ∙ early_loop fuel path n true b (with_fs w fs) lt d

-- If the first `recv` fails, `receiveFileContents` returns true all the same, with nothing written but
-- the file that it opened.
pub receive_file_contents-recv_error :
    (fuel : ℕ) (path : Bytes) (n : ℕ) (w : World) (fs : FileSystem) (rest : List Arrival)
    → open_write w.fs path ≡ some fs
    → w.socket.arrivals ≡ recv_error ∷ rest
    → receive_file_contents (suc fuel) path (pos (suc n)) w
      ≡ done (true, record w { fs = fs; socket = record w.socket { arrivals = rest } })
receive_file_contents-recv_error fuel path n w fs rest opened e =
    receive_opened (suc fuel) path (suc n) w fs opened
    ∙ failed_round fuel path (suc n) true (with_fs w fs) (record w.socket { arrivals = rest })
        (omega arith) (recv-receive_from 2000 w.socket ∙ ap (receive_from 2000 w.socket) e)
