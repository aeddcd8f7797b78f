-- ===== src/Utils/Transfer/Sending.antt =====
-- `sendALL` and `sendFileContents`: what reaches the socket.
use Prim.Native.Nat.{min}
use native.Mathlib.Decide.{dec_lt}
use remote_file_system.Prelude.{
  ℕ, zero, suc, ◌≤◌, ◌<◌, ◌≡◌, refl, ap, ◌∙◌, Bool, true, false, some, List, [], ◌∷◌, ◌++◌,
  append_assoc, append-nil, Bytes, length, take, drop, take-append-drop, take_all, length-drop,
  drop-min, Run, done, running, arith, ltb, lt→ltb, le→ltb,
}
use remote_file_system.Config.{max_buff_size}
use remote_file_system.FileSystem.{Stream, left, of_directory, fread, open_read}
use remote_file_system.Socket
use remote_file_system.Socket.{Socket, Accept, took, send_error, send_as}
use remote_file_system.Socket.Laws.{NoSendError}
use remote_file_system.World.{World, with_socket}
use remote_file_system.Utils.Transfer.{send_loop, send_all, send_contents_loop, send_file_contents}

-- the world after `b` went out, with the accepts that are left
abbrev pub after_sending : World → Bytes → List Accept → World
after_sending w b rest =
    with_socket w (record w.socket { sent = w.socket.sent ++ b; accepts = rest })

-- one call: at least a byte goes out
send_as-progress :
    (c : ℕ) (b : Bytes) (s : Socket) (accepts : List Accept)
    → s.accepts ≡ accepts
    → NoSendError accepts
    → (k : ℕ) × (rest : List Accept) × (send_as (c ∷ b) s accepts ≡ (
      some (min (suc k) (length (c ∷ b))),
      record s { sent = s.sent ++ take (suc k) (c ∷ b); accepts = rest },
    ))
      × NoSendError rest
send_as-progress c b s [] e h =
    (length b, [], ground (arith, take_all (length b) b (omega arith)), tt)
send_as-progress c b s (took n ∷ rest) e h = (n, rest, refl, h)
send_as-progress c b s (send_error ∷ rest) e h = absurd h

send_round :
    (fuel c : ℕ) (b : Bytes) (w : World) (k : ℕ) (rest : List Accept)
    → send_as (c ∷ b) w.socket w.socket.accepts ≡ (
      some (min (suc k) (length (c ∷ b))),
      record w.socket { sent = w.socket.sent ++ take (suc k) (c ∷ b); accepts = rest },
    )
    → send_loop (suc fuel) (c ∷ b) w
      ≡ send_loop fuel (drop k b) (after_sending w (take (suc k) (c ∷ b)) rest)
unfolding send_loop Socket.send
send_round fuel c b w k rest e = ground (arith, e, drop-min (suc k) (c ∷ b))

-- the first `n` bytes and then the others
after_both :
    (w : World) (n : ℕ) (b : Bytes) (rest : List Accept)
    → ◌≡◌ {A = Run (Bool × World)}
        (done (
          true,
          with_socket w
              (record w.socket { sent = (w.socket.sent ++ take n b) ++ drop n b; accepts = rest }),
        ))
        (done (true, after_sending w b rest))
after_both w n b rest =
    ap (λ t. done (true, with_socket w (record w.socket { sent = t; accepts = rest })))
      (append_assoc w.socket.sent (take n b) (drop n b)
        ∙ ap (λ t. w.socket.sent ++ t) (take-append-drop n b))

-- With no failing `send` the loop ends, and all that it was given has gone out.
send_loop-sends :
    (fuel : ℕ) (b : Bytes) (w : World)
    → NoSendError w.socket.accepts
    → length b < fuel
    → (rest : List Accept) × (send_loop fuel b w ≡ done (true, after_sending w b rest))
      × NoSendError rest
unfolding send_loop Socket.send
send_loop-sends zero b w h lt = elim lt [ ]
send_loop-sends (suc fuel) [] w h lt =
    (w.socket.accepts, ground (arith, append-nil w.socket.sent), h)
send_loop-sends (suc fuel) (c ∷ b) w h lt =
    let (k, rest, e, h') = send_as-progress c b w.socket w.socket.accepts refl h in
    let w' = after_sending w (take (suc k) (c ∷ b)) rest in
    let (rest', e', h'') = send_loop-sends fuel (drop k b) w' h' (omega (arith, length-drop k b)) in
    (rest', send_round fuel c b w k rest e ∙ e' ∙ after_both w (suc k) (c ∷ b) rest', h'')

-- `sendALL` on a connection that does not fail: it returns true, and every byte is sent once, in
-- order, however small the parts are that each `send` takes.
pub send_all-sends :
    (b : Bytes) (w : World)
    → NoSendError w.socket.accepts
    → (rest : List Accept) × (send_all b w ≡ done (true, after_sending w b rest)) × NoSendError rest
unfolding send_all
send_all-sends b w h = send_loop-sends (suc (length b)) b w h (omega arith)

pub fread-short : (n : ℕ) (b : Bytes) → length b < n → fread n (left b) ≡ (b, left (drop n b), true)
unfolding fread
fread-short n b h =
    ap (λ t. (t, left (drop n b), ltb (length b) n)) (take_all n b (omega arith))
    ∙ ap (λ t. (b, left (drop n b), t)) (lt→ltb (length b) n h)

pub fread-long :
    (n : ℕ) (b : Bytes) → n ≤ length b → fread n (left b) ≡ (take n b, left (drop n b), false)
unfolding fread
fread-long n b h = ap (λ t. (take n b, left (drop n b), t)) (le→ltb (length b) n h)

module _ (fuel : ℕ) (file file' : Stream) (buffer : Bytes) (w w' : World) (status : Bool) where
  pub contents_last :
      fread max_buff_size file ≡ (buffer, file', true)
      → send_all buffer w ≡ done (status, w')
      → send_contents_loop (suc fuel) file w ≡ done (true, w')
  unfolding send_contents_loop
  contents_last r e = ground (arith, r, e)

  pub contents_next :
      fread max_buff_size file ≡ (buffer, file', false)
      → send_all buffer w ≡ done (status, w')
      → send_contents_loop (suc fuel) file w ≡ send_contents_loop fuel file' w'
  unfolding send_contents_loop
  contents_next r e = ground (arith, r, e)

-- The loop over a file, from any point of it.
send_contents_loop-sends :
    (fuel : ℕ) (b : Bytes) (w : World)
    → NoSendError w.socket.accepts
    → length b < fuel
    → (rest : List Accept) × (send_contents_loop fuel (left b) w
        ≡ done (true, after_sending w b rest))
      × NoSendError rest
send_contents_loop-sends zero b w h lt = elim lt [ ]
send_contents_loop-sends (suc fuel) b w h lt = elim (dec_lt (length b) max_buff_size) [
  | yes short ↦
      let (rest, e, h') = send_all-sends b w h in
      (rest, contents_last fuel (left b) _ b w _ true (fread-short max_buff_size b short) e, h')
  | no long ↦
      let n = max_buff_size in
      let (rest, e, h') = send_all-sends (take n b) w h in
      let w' = after_sending w (take n b) rest in
      let (rest', e', h'') =
        send_contents_loop-sends fuel (drop n b) w' h' (omega (arith, length-drop n b)) in
      (
        rest',
        contents_next fuel (left b) (left (drop n b)) (take n b) w w' true
              (fread-long n b (omega arith)) e
            ∙ e'
            ∙ after_both w n b rest',
        h'',
      )
]

send_opened :
    (fuel : ℕ) (path : Bytes) (file : Stream) (w : World)
    → open_read w.fs path ≡ some file
    → send_file_contents fuel path w ≡ send_contents_loop fuel file w
unfolding send_file_contents
send_opened fuel path file w e = ground (arith, e)

send_none : (w : World) → send_all [] w ≡ done (true, w)
unfolding send_all send_loop
send_none w = refl

fread-directory : (n : ℕ) → fread n of_directory ≡ ([], of_directory, false)
unfolding fread
fread-directory n = refl

directory_loop : (fuel : ℕ) (w : World) → send_contents_loop fuel of_directory w ≡ running
directory_loop zero w = unfold send_contents_loop in refl
directory_loop (suc fuel) w =
    contents_next fuel of_directory of_directory [] w w true (fread-directory max_buff_size)
      (send_none w)
    ∙ directory_loop fuel w

-- `sendFileContents` on a connection that does not fail, with more fuel than there are bytes: it
-- returns true, and the bytes of the file are sent, in order, and nothing else.
pub send_file_contents-sends :
    (fuel : ℕ) (path b : Bytes) (w : World)
    → open_read w.fs path ≡ some (left b)
    → NoSendError w.socket.accepts
    → length b < fuel
    → (rest : List Accept) × (send_file_contents fuel path w ≡ done (true, after_sending w b rest))
      × NoSendError rest
send_file_contents-sends fuel path b w opened h lt =
    let (rest, e, h') = send_contents_loop-sends fuel b w h lt in
    (rest, send_opened fuel path (left b) w opened ∙ e, h')

-- The bytes of a directory cannot be read and its end is never met: `sendFileContents` of a
-- directory goes on for ever, whatever the fuel.
pub send_file_contents-directory :
    (fuel : ℕ) (path : Bytes) (w : World)
    → open_read w.fs path ≡ some of_directory
    → send_file_contents fuel path w ≡ running
send_file_contents-directory fuel path w opened =
    send_opened fuel path of_directory w opened ∙ directory_loop fuel w
