-- ===== src/Examples.antt =====
-- A small server state on which the theorems are applied.
mod Wire
mod Sessions
mod Connections
mod Interleaved
mod Isolated
mod Blocks
mod Server
mod Clients
mod RoundTrips
mod Conversations
mod Files
mod Writes
mod Overwritten
mod Gets
mod Removal
mod Removed
mod Locks
use remote_file_system.Prelude.{
  ℕ, ◌≢◌, Bool, true, false, List, [], ◌∷◌, Bytes, codes, suc, zero, arith,
}
use remote_file_system.Prelude.Int.{pos}
use remote_file_system.CString.Digits.{pow10}
use remote_file_system.FileSystem.{FileSystem, Entry, regular, directory}
use remote_file_system.Socket.{Socket, Arrival, Accept}
use remote_file_system.World.{World}

abbrev pub example_path : Bytes
example_path = codes "data/a.txt"

abbrev pub example_files : List (Bytes × Entry) → FileSystem
example_files entries = record {
  entries = entries;
  denied = λ access path. false;
  disk_full = false;
  dir_size = pos 4096;
}

-- the data folder and one file in it
abbrev pub one_file : FileSystem
one_file =
    example_files ((codes "data", directory) ∷ (codes "data/a.txt", regular (codes "abc")) ∷ [])

-- the data folder alone
abbrev pub no_file : FileSystem
no_file = example_files ((codes "data", directory) ∷ [])

abbrev pub example_socket : List Arrival → List Accept → Socket
example_socket arrivals accepts = record {
  arrivals = arrivals;
  accepts = accepts;
  sent = [];
  closed = false;
}

abbrev pub example_world : FileSystem → List Arrival → List Accept → World
example_world fs arrivals accepts = record {
  fs = fs;
  socket = example_socket arrivals accepts;
  memory = true;
  now = (1, 2);
  printed = [];
}

pub three_no_power : (k : ℕ) → 3 ≢ pow10 k
three_no_power zero e = omega (arith, e)
three_no_power (suc k) e = omega (arith, e)
