-- ===== src/Utils/Transfer/Receiving.antt =====
-- `receiveFileContents`: what ends up in the file.
use mathlib.Core.Path.{subst}
use remote_file_system.Prelude.{
  ℕ, zero, suc, ◌-◌, ◌<◌, ◌≡◌, refl, ap, sym, ◌∙◌, Bool, true, false, some, List, [], ◌∷◌, ◌++◌,
  append_assoc, append-nil, Bytes, length, length-append, take, drop, take-append-drop, is_empty,
  bytes_eq, bytes_eq_self, done, arith,
}
use remote_file_system.Prelude.Int.{pos}
use remote_file_system.Config.{max_buff_size}
use remote_file_system.FileSystem.{FileSystem, regular, find, put, fwrite, open_write}
use remote_file_system.FileSystem.Laws.{find-put}
use remote_file_system.Socket
use remote_file_system.Socket.{Socket, Arrival, bytes, recv_error, receive_from, requeue}
use remote_file_system.Socket.Laws.{Delivers}
use remote_file_system.World.{World, with_fs}
use remote_file_system.Utils.Transfer.{receive_loop, receive_file_contents}

-- the blocks that are left after a part of the first was read
pub Delivers-requeue :
    (b text : Bytes) (rest : List Arrival)
    → Delivers rest text
    → Delivers (requeue b rest) (b ++ text)
Delivers-requeue [] text rest h = h
Delivers-requeue (c ∷ b) text rest h = (refl, (text, refl, h))

-- one call: it gets at least a byte of what is still to come
pub recv-progress :
    (n : ℕ) (s : Socket) (arrivals : List Arrival) (text : Bytes)
    → is_empty text ≡ false
    → Delivers arrivals text
    → (got : Bytes) × (text' : Bytes) × (rest : List Arrival) × (receive_from (suc n) s arrivals
        ≡ (some got, record s { arrivals = rest }))
      × (text ≡ got ++ text')
      × Delivers rest text'
      × (is_empty got ≡ false)
recv-progress n s [] text ne h = ground (arith, h)
recv-progress n s (recv_error ∷ rest) text ne h = absurd h
recv-progress n s (bytes [] ∷ rest) text ne h = cc (h.0)
recv-progress n s (bytes (c ∷ b) ∷ rest) text ne (_, (more, e, h)) = (
  c ∷ take n b,
  drop n b ++ more,
  requeue (drop n b) rest,
  refl,
  e
      ∙ ap (λ t. c ∷ (t ++ more)) (sym (take-append-drop n b))
      ∙ append_assoc (c ∷ take n b) (drop n b) more,
  Delivers-requeue (drop n b) more rest h,
  refl,
)

-- `w'` is `w` with `b` added to the file at `path`, whose contents were `old`, and with nothing else
-- changed but what the network still has to deliver.
pub record Stored (path old b : Bytes) (w w' : World) : Type 0 where
  pub file : find path w'.fs.entries ≡ some (regular (old ++ b))
  pub others : (q : Bytes) → bytes_eq path q ≡ false → find q w'.fs.entries ≡ find q w.fs.entries
  pub same_files : w'.fs ≡ record w.fs { entries = w'.fs.entries }
  pub same_rest : w' ≡ record w { fs = w'.fs; socket = record w.socket { arrivals = [] } }

module _ (fuel : ℕ) (path : Bytes) (remaining : ℕ) (w : World) (got : Bytes) (s : Socket)
    (fs : FileSystem) where
  receive_round :
      0 < remaining
      → Socket.recv max_buff_size w.socket ≡ (some got, s)
      → fwrite w.fs path got ≡ (length got, fs)
      → receive_loop (suc fuel) path remaining true w
        ≡ receive_loop fuel path (remaining - length got) true (record w { fs = fs; socket = s })
  unfolding receive_loop
  receive_round more r f = ground (arith, r, f)

pub Delivers-nil : (arrivals : List Arrival) → Delivers arrivals [] → arrivals ≡ []
Delivers-nil [] h = refl
Delivers-nil (recv_error ∷ rest) h = absurd h
Delivers-nil (bytes [] ∷ rest) h = cc (h.0)
Delivers-nil (bytes (c ∷ b) ∷ rest) (_, (more, e, h)) = cc e

receive_end :
    (fuel : ℕ) (path : Bytes) (success : Bool) (w : World)
    → receive_loop (suc fuel) path 0 success w ≡ done (success, w)
unfolding receive_loop
receive_end fuel path success w = refl

-- the files after `got` was written behind `old`
abbrev pub grown : FileSystem → Bytes → Bytes → FileSystem
grown fs path b = record fs { entries = put path (regular b) fs.entries }

pub fwrite-grown :
    (fs : FileSystem) (path old got : Bytes)
    → fs.disk_full ≡ false
    → find path fs.entries ≡ some (regular old)
    → fwrite fs path got ≡ (length got, grown fs path (old ++ got))
unfolding fwrite
fwrite-grown fs path old got room e = rw (room, e) refl

abbrev after_round : World → Bytes → Bytes → List Arrival → World
after_round w path b rest = record w {
  fs = grown w.fs path b;
  socket = record w.socket { arrivals = rest };
}

Stored-nil :
    (path old : Bytes) (w : World)
    → find path w.fs.entries ≡ some (regular old)
    → w.socket.arrivals ≡ []
    → Stored path old [] w w
Stored-nil path old w e none_left = record {
  file = e ∙ ap (λ t. some (regular t)) (sym (append-nil old));
  others = λ q h. refl;
  same_files = refl;
  same_rest = λ i. record w { socket = record w.socket { arrivals = none_left i } };
}

Stored-round :
    (path old got more : Bytes) (rest : List Arrival) (w w' : World)
    → Stored path (old ++ got) more (after_round w path (old ++ got) rest) w'
    → Stored path old (got ++ more) w w'
Stored-round path old got more rest w w' st = record {
  file = st.file ∙ ap (λ t. some (regular t)) (append_assoc old got more);
  others = λ q h. st.others q h ∙ find-put path q (regular (old ++ got)) w.fs.entries ∙ rw h refl;
  same_files = st.same_files;
  same_rest = st.same_rest;
}

pub recv-receive_from : (n : ℕ) (s : Socket) → Socket.recv n s ≡ receive_from n s s.arrivals
unfolding Socket.recv
recv-receive_from n s = refl

pub nonempty_length : (b : Bytes) → is_empty b ≡ false → 0 < length b
nonempty_length [] h = cc
nonempty_length (c ∷ b) h = omega arith

-- From any point of the loop: the bytes that are to come are written behind those that are there.
receive_loop-stores :
    (fuel : ℕ) (path old b : Bytes) (w : World)
    → w.fs.disk_full ≡ false
    → find path w.fs.entries ≡ some (regular old)
    → Delivers w.socket.arrivals b
    → length b < fuel
    → (w' : World) × (receive_loop fuel path (length b) true w ≡ done (true, w'))
      × Stored path old b w w'
receive_loop-stores zero path old b w room e d lt = elim lt [ ]
receive_loop-stores (suc fuel) path old [] w room e d lt =
    (w, receive_end fuel path true w, Stored-nil path old w e (Delivers-nil w.socket.arrivals d))
receive_loop-stores (suc fuel) path old (c ∷ b) w room e d lt =
    let (got, more, rest, r, split, d', nonempty) =
      recv-progress 1999 w.socket w.socket.arrivals (c ∷ b) refl d in
    let w1 = after_round w path (old ++ got) rest in
    let (w', e', st) =
      receive_loop-stores fuel path (old ++ got) more w1 room
        (find-put path path (regular (old ++ got)) w.fs.entries ∙ rw (bytes_eq_self path) refl) d'
        (omega (arith, ap length split, length-append got more, nonempty_length got nonempty)) in
    (
      w',
      receive_round fuel path (suc (length b)) w got (record w.socket { arrivals = rest })
            (grown w.fs path (old ++ got)) (omega arith) (recv-receive_from 2000 w.socket ∙ r)
            (fwrite-grown w.fs path old got room e)
          ∙ ap (λ n. receive_loop fuel path n true w1)
              (omega (arith, ap length split, length-append got more))
          ∙ e',
      subst (λ t. Stored path old t w w') (sym split) (Stored-round path old got more rest w w' st),
    )

pub open_write-grown :
    (fs fs' : FileSystem) (path : Bytes) → open_write fs path ≡ some fs' → fs' ≡ grown fs path []
unfolding open_write
open_write-grown fs fs' path e = ground arith

pub receive_opened :
    (fuel : ℕ) (path : Bytes) (n : ℕ) (w : World) (fs : FileSystem)
    → open_write w.fs path ≡ some fs
    → receive_file_contents fuel path (pos n) w ≡ receive_loop fuel path n true (with_fs w fs)
unfolding receive_file_contents
receive_opened fuel path n w fs e = ground (arith, e)

Stored-open :
    (path b : Bytes) (w w' : World)
    → Stored path [] b (with_fs w (grown w.fs path [])) w'
    → Stored path [] b w w'
Stored-open path b w w' st = record {
  file = st.file;
  others = λ q h. st.others q h ∙ find-put path q (regular []) w.fs.entries ∙ rw h refl;
  same_files = st.same_files;
  same_rest = st.same_rest;
}

-- `receiveFileContents` where the file can be opened, the disk has room, the peer sends the bytes that
-- were announced and no `recv` fails, with more fuel than there are bytes: it returns true, the file
-- holds those bytes, however they were cut into blocks, and no other file is changed.
pub receive_file_contents-stores :
    (fuel : ℕ) (path b : Bytes) (w : World) (fs : FileSystem)
    → open_write w.fs path ≡ some fs
    → w.fs.disk_full ≡ false
    → Delivers w.socket.arrivals b
    → length b < fuel
    → (w' : World) × (receive_file_contents fuel path (pos (length b)) w ≡ done (true, w'))
      × Stored path [] b w w'
receive_file_contents-stores fuel path b w fs opened room d lt =
    let empty = grown w.fs path [] in
    let (w', e, st) =
      receive_loop-stores fuel path [] b (with_fs w empty) room
        (find-put path path (regular []) w.fs.entries ∙ rw (bytes_eq_self path) refl) d lt in
    (
      w',
      receive_opened fuel path (length b) w empty
            (opened ∙ ap some (open_write-grown w.fs fs path opened))
          ∙ e,
      Stored-open path b w w' st,
    )
