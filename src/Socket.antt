-- ===== src/Socket.antt =====
-- The calls `recv`, `send` and `close` on a connected TCP socket. What the network does is the two
-- lists of the socket: the blocks that will arrive, and how much each `send` will take.
pub mod Laws
use remote_file_system.Prelude.{
  ℕ, suc, Bool, Option, none, some, List, [], ◌∷◌, ◌++◌, Bytes, length, take, drop, is_empty,
  if◌then◌else◌,
}
use Prim.Native.Nat.{min}

pub data Arrival : Type 0 where
  bytes : Bytes → Arrival
  recv_error : Arrival

-- `took n` takes at most `n + 1` bytes: a `send` that does not fail makes progress.
pub data Accept : Type 0 where
  took : ℕ → Accept
  send_error : Accept

pub record Socket : Type 0 where
  -- behind the last arrival the peer has closed its end
  pub arrivals : List Arrival
  -- behind the last of these each `send` takes all that it is given
  pub accepts : List Accept
  pub sent : Bytes
  pub closed : Bool

abbrev pub requeue : Bytes → List Arrival → List Arrival
requeue b rest = if is_empty b then rest else bytes b ∷ rest

-- the arrivals that are left, given the first of them
abbrev pub receive_from : ℕ → Socket → List Arrival → Option Bytes × Socket
receive_from n s [] = (some [], s)
receive_from n s (recv_error ∷ rest) = (none, record s { arrivals = rest })
receive_from n s (bytes b ∷ rest) =
    (some (take n b), record s { arrivals = requeue (drop n b) rest })

-- `recv` into `n` bytes: `none` is -1, and `some []` is 0, at the end of the stream
unfoldable pub recv : ℕ → Socket → Option Bytes × Socket
recv n s = receive_from n s s.arrivals

abbrev pub send_as : Bytes → Socket → List Accept → Option ℕ × Socket
send_as b s [] = (some (length b), record s { sent = s.sent ++ b })
send_as b s (send_error ∷ rest) = (none, record s { accepts = rest })
send_as b s (took n ∷ rest) =
    (some (min (suc n) (length b)), record s { sent = s.sent ++ take (suc n) b; accepts = rest })

-- `send`: how many bytes it took, or `none` for -1
unfoldable pub send : Bytes → Socket → Option ℕ × Socket
send b s = send_as b s s.accepts
