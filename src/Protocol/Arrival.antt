-- ===== src/Protocol/Arrival.antt =====
-- A message that arrives as one block, in a buffer that is longer than it.
use remote_file_system.Prelude.{
  ◌≡◌, ◌<◌, refl, ap, ◌∙◌, some, List, [], ◌∷◌, Bytes, Lacks, length, take_all, drop_all, done,
  arith,
}
use remote_file_system.CString.{until_nul, buffer_text, store_text}
use remote_file_system.Socket
use remote_file_system.Socket.{Socket, Arrival, bytes, receive_from}
use remote_file_system.Utils.Transfer.Receiving.{recv-receive_from}

until_nul_lem : (b : Bytes) → Lacks 0 b → until_nul b ≡ b
unfolding until_nul
until_nul_lem [] h = refl
until_nul_lem (c ∷ b) h = ground (arith, until_nul_lem b h.1)

pub buffer_text_lem : (b : Bytes) → Lacks 0 b → length b < 2000 → buffer_text 2000 b ≡ done b
unfolding buffer_text store_text
buffer_text_lem b h short = rw (until_nul_lem b h) (ground arith)

-- A block that is shorter than the buffer is read whole by one `recv`.
pub whole_block :
    (b : Bytes) (s : Socket) (rest : List Arrival)
    → s.arrivals ≡ bytes b ∷ rest
    → length b < 2000
    → Socket.recv 2000 s ≡ (some b, record s { arrivals = rest })
whole_block b s rest e short =
    recv-receive_from 2000 s
    ∙ ap (receive_from 2000 s) e
    ∙ rw (take_all 2000 b (omega arith), drop_all 2000 b (omega arith)) refl
