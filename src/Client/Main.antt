-- ===== src/Client/Main.antt =====
-- `main` of the client: how a command line is carried out.
use remote_file_system.Prelude.{
  ℕ, ◌≡◌, refl, ap, ◌∙◌, Bool, true, false, none, some, List, [], ◌∷◌, ◌++◌, Bytes, codes, bytes_eq,
  done, arith, inl, ◌≤◌, ◌<◌, length, is_empty,
}
use remote_file_system.ArgParser.{
  is_flag, search_flag, get_path_arg, get_command_type, choose_paths, parse_flags, arg_parser,
  server_flag, local_flag, remote_flag,
}
use remote_file_system.ArgParser.Flags.{created_command}
use remote_file_system.CString.{equals}
use remote_file_system.Client.{client_session, client_main, run_parsed, connect_and_run}
use remote_file_system.Client.Receiving.{get_command, get_text, client_session-get}
use remote_file_system.Command.{Command, returned, get, str_to_command_type}
use remote_file_system.Command.Names.{str_to_command_type_iff}
use remote_file_system.Config.{default_ip, path_prefix}
use remote_file_system.FileSystem.{FileSystem, regular, find, open_write}
use remote_file_system.Prelude.Int.{pos, long_max}
use remote_file_system.Protocol.Response.{response_text}
use remote_file_system.Socket.{Arrival, bytes}
use remote_file_system.Socket.Laws.{Delivers}
use remote_file_system.World.{World}

-- an argument that is no flag is none of the three
not_flag : (p rest : Bytes) → is_flag p ≡ false → bytes_eq p (b'-' ∷ rest) ≡ false
unfolding bytes_eq
not_flag [] rest h = refl
not_flag (c ∷ p) rest h = ground (arith, h)

module _ (program path : Bytes) (plain : is_flag path ≡ false) where
  abbrev get_line : List Bytes
  get_line = program ∷ codes "GET" ∷ codes "--remote" ∷ path ∷ []

  parsed_type : get_command_type get_line ≡ get
  unfolding get_command_type
  parsed_type = (str_to_command_type_iff get (codes "GET") (λ e. cc e)).1 (inl refl)

  server : get_path_arg get_line server_flag ≡ returned none
  unfolding get_path_arg search_flag equals bytes_eq
  server = rw (not_flag path (codes "-server") plain) refl

  no_local : get_path_arg get_line local_flag ≡ returned none
  unfolding get_path_arg search_flag equals bytes_eq
  no_local = rw (not_flag path (codes "-local") plain) refl

  remote : get_path_arg get_line remote_flag ≡ returned (some path)
  unfolding get_path_arg search_flag equals bytes_eq
  remote = rw plain refl

  parsed_flags : parse_flags get get_line ≡ returned (default_ip, path, path)
  unfolding parse_flags choose_paths
  parsed_flags = rw (server, no_local, remote) refl

  parsed_line :
      arg_parser true get_line
      ≡ done (returned (some (get_command default_ip (path_prefix ++ path) (path_prefix ++ path))))
  unfolding arg_parser get_command_type str_to_command_type equals bytes_eq
  parsed_line = rw (parsed_type, parsed_flags) (created_command get default_ip path path)

module _ (fuel : ℕ) (connects : Bytes → Bool) (command : Command) (argv : List Bytes)
    (w : World) where
  runs :
      arg_parser w.memory argv ≡ done (returned (some command))
      → connects command.server_ip ≡ true
      → client_main fuel true connects argv w ≡ client_session fuel command w
  unfolding client_main run_parsed connect_and_run
  runs e c = rw e (rw c refl)

-- The command line `GET --remote PATH` is the session for that file.
client_main-session :
    (fuel : ℕ) (connects : Bytes → Bool) (program path : Bytes) (w : World)
    → is_flag path ≡ false
    → w.memory ≡ true
    → connects default_ip ≡ true
    → client_main fuel true connects (program ∷ codes "GET" ∷ codes "--remote" ∷ path ∷ []) w
      ≡ client_session fuel (get_command default_ip (path_prefix ++ path) (path_prefix ++ path)) w
client_main-session fuel connects program path w plain memory accepts =
    runs fuel connects (get_command default_ip (path_prefix ++ path) (path_prefix ++ path))
      (program ∷ codes "GET" ∷ codes "--remote" ∷ path ∷ []) w
      (ap (λ m. arg_parser m (program ∷ codes "GET" ∷ codes "--remote" ∷ path ∷ [])) memory
        ∙ parsed_line program path plain)
      accepts

-- `GET --remote PATH`, with memory, a server at the default address that accepts the connection, and a
-- network that takes all it is given, where a response of success with the length of `b` arrives as one block,
-- and then `b` in blocks of any size, and the local file can be opened on a disk with room, with more fuel than
-- bytes: the client returns with success; it has sent the request for the file at PATH in the data folder and
-- nothing else, the file at the same path of its own holds `b`, no other entry is changed, and the socket is
-- closed.
pub client_main-get :
    (fuel : ℕ) (connects : Bytes → Bool) (program path b : Bytes) (w : World) (rest : List Arrival)
    (fs : FileSystem)
    → is_flag path ≡ false
    → connects default_ip ≡ true
    → is_empty b ≡ false
    → length b ≤ long_max
    → length b < fuel
    → w.memory ≡ true
    → w.socket.accepts ≡ []
    → w.socket.arrivals ≡ bytes (response_text true (pos (length b)) (codes "OK")) ∷ rest
    → Delivers rest b
    → open_write w.fs (path_prefix ++ path) ≡ some fs
    → w.fs.disk_full ≡ false
    → (w' : World) × (client_main fuel true connects
          (program ∷ codes "GET" ∷ codes "--remote" ∷ path ∷ [])
          w
        ≡ done (returned tt, w'))
      × (find (path_prefix ++ path) w'.fs.entries ≡ some (regular b))
      × ((q : Bytes)
          → bytes_eq (path_prefix ++ path) q ≡ false
          → find q w'.fs.entries ≡ find q w.fs.entries)
      × (w'.socket.sent ≡ w.socket.sent ++ get_text (path_prefix ++ path))
      × (w'.socket.closed ≡ true)
client_main-get fuel connects program path b w rest fs plain accepts ne fits enough memory takes
      arrives delivers opens room =
    let (w', runs, stored, others, sent, closed) =
      client_session-get fuel default_ip (path_prefix ++ path) (path_prefix ++ path) b w rest fs ne
        fits enough memory takes arrives delivers opens room in
    (
      w',
      client_main-session fuel connects program path w plain memory accepts ∙ runs,
      stored,
      others,
      sent,
      closed,
    )
