-- ===== src/ArgParser/Flags.antt =====
-- The command line: the value of a flag, and that every command line is decided.
use remote_file_system.Prelude.{
  ◌≡◌, refl, true, false, Option, none, some, List, [], ◌∷◌, ◌++◌, Bytes, All, bytes_eq,
  bytes_eq_self, done, arith, ◌⊎◌, ◌≢◌,
}
use remote_file_system.Config.{path_prefix, default_ip}
use remote_file_system.CString.{equals}
use remote_file_system.Command.{
  CommandType, write, get, rm, ls, unknown, returned, exit_with, create_command_struct,
}
use remote_file_system.Command.Names.{format_path-fits}
use remote_file_system.ArgParser.{
  is_flag, search_flag, get_path_arg, get_command_type, or_else, server_flag, local_flag,
  remote_flag,
}

-- Behind arguments other than the flag, the first flag gives the argument next to it.
search_flag-append :
    (flag value : Bytes) (before rest : List Bytes)
    → All (λ a. bytes_eq a flag ≡ false) before
    → is_flag value ≡ false
    → search_flag (before ++ flag ∷ value ∷ rest) flag ≡ returned (some value)
unfolding search_flag equals
search_flag-append flag value [] rest h plain = ground (arith, bytes_eq_self flag)
search_flag-append flag value (a ∷ before) rest h plain =
    ground (arith, search_flag-append flag value before rest h.1 plain)

search_flag-none :
    (flag : Bytes) (args : List Bytes)
    → All (λ a. bytes_eq a flag ≡ false) args
    → search_flag args flag ≡ returned none
unfolding search_flag equals
search_flag-none flag [] h = refl
search_flag-none flag (a ∷ args) h = ground (arith, search_flag-none flag args h.1)

search_flag-last :
    (flag : Bytes) (before : List Bytes)
    → All (λ a. bytes_eq a flag ≡ false) before
    → search_flag (before ++ flag ∷ []) flag ≡ exit_with 1
unfolding search_flag equals
search_flag-last flag [] h = ground (arith, bytes_eq_self flag)
search_flag-last flag (a ∷ before) h = ground (arith, search_flag-last flag before h.1)

-- The first occurrence of a flag behind the program's name gives the argument next to it, which is no
-- flag; a flag that does not occur gives nothing; a flag at the end exits the program with status 1.
pub get_path_arg-cases :
    (program flag value : Bytes) (before rest : List Bytes)
    → All (λ a. bytes_eq a flag ≡ false) before
    → is_flag value ≡ false
    → (get_path_arg (program ∷ (before ++ flag ∷ value ∷ rest)) flag ≡ returned (some value))
      × (get_path_arg (program ∷ before) flag ≡ returned none)
      × (get_path_arg (program ∷ (before ++ flag ∷ [])) flag ≡ exit_with 1)
unfolding get_path_arg
get_path_arg-cases program flag value before rest h plain = (
  search_flag-append flag value before rest h plain,
  search_flag-none flag before h,
  search_flag-last flag before h,
)

-- The paths that a command works on, from the values of `--local` and `--remote`: a WRITE needs the first and a
-- GET the second, which stand for both where the other is missing; an RM and an LS need the second only.
pub data Chosen
    : CommandType
      → (local_flag_value remote_flag_value : Option Bytes) → (local remote : Bytes) → Type 0 where
  write_both : (l r : Bytes) → Chosen write (some l) (some r) l r
  write_local : (l : Bytes) → Chosen write (some l) none l l
  get_both : (l r : Bytes) → Chosen get (some l) (some r) l r
  get_remote : (r : Bytes) → Chosen get none (some r) r r
  rm_remote : (l : Option Bytes) (r : Bytes) → Chosen rm l (some r) [] r
  ls_remote : (l : Option Bytes) (r : Bytes) → Chosen ls l (some r) [] r

-- the path that a command needs is missing
abbrev pub IsMissing : CommandType → Option Bytes → Option Bytes → Type 0
IsMissing t l r = ((t ≡ write) × (l ≡ none)) ⊎ ((t ≢ write) × (r ≡ none))

-- What is wrong with a command line.
pub data IsRefused (argv : List Bytes) : Type 0 where
  no_command : get_command_type argv ≡ unknown → IsRefused argv
  bad_server : get_path_arg argv server_flag ≡ exit_with 1 → IsRefused argv
  bad_local : get_path_arg argv local_flag ≡ exit_with 1 → IsRefused argv
  bad_remote : get_path_arg argv remote_flag ≡ exit_with 1 → IsRefused argv
  no_path :
      (l r : Option Bytes)
      → get_path_arg argv local_flag ≡ returned l
      → get_path_arg argv remote_flag ≡ returned r
      → IsMissing (get_command_type argv) l r
      → IsRefused argv

-- The server's address and the paths that a command line says, with the defaults.
pub record Says (argv : List Bytes) (ip local remote : Bytes) : Type 0 where
  pub server_value : Option Bytes
  pub local_value : Option Bytes
  pub remote_value : Option Bytes
  pub server : get_path_arg argv server_flag ≡ returned server_value
  pub local_path : get_path_arg argv local_flag ≡ returned local_value
  pub remote_path : get_path_arg argv remote_flag ≡ returned remote_value
  pub address : ip ≡ or_else server_value default_ip
  pub paths : Chosen (get_command_type argv) local_value remote_value local remote

pub created_command :
    (t : CommandType) (ip local remote : Bytes)
    → create_command_struct true t (some ip) local remote
      ≡ done (
          returned (
            some (record {
              c_type = t;
              server_ip = ip;
              local_path = some (path_prefix ++ local);
              remote_path = some (path_prefix ++ remote);
            })))
unfolding create_command_struct
created_command t ip local remote = rw (format_path-fits local, format_path-fits remote) refl
