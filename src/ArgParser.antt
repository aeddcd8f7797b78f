-- ===== src/ArgParser.antt =====
-- client/arg_parser.c: the command line of the client. `argv` is the list of its arguments, the
-- program's name first; what is printed before an exit is left out.
pub mod Flags
use remote_file_system.Prelude.{
  Bool, true, false, Option, none, some, List, [], ◌∷◌, Bytes, codes, get_elem?, drop, ◌==◌,
  if◌then◌else◌, Run, done, undefined, ℕ,
}
use remote_file_system.Config.{default_ip}
use remote_file_system.CString.{equals}
use remote_file_system.Command.{
  CommandType, write, get, unknown, Command, Exit, returned, exit_with, is_unknown,
  str_to_command_type, create_command_struct,
}

abbrev pub remote_flag : Bytes
remote_flag = codes "--remote"

abbrev pub local_flag : Bytes
local_flag = codes "--local"

abbrev pub server_flag : Bytes
server_flag = codes "--server"

unfoldable pub get_command_type : List Bytes → CommandType
get_command_type argv = elim (get_elem? argv 1) [
  | none ↦ unknown
  | some cmd_string ↦ str_to_command_type (some cmd_string)
]

abbrev pub is_flag : Bytes → Bool
is_flag [] = false
is_flag (c ∷ s) = c == b'-'

-- the argument next to the flag
abbrev pub flag_value : List Bytes → Exit (Option Bytes)
flag_value [] = exit_with 1
flag_value (path ∷ rest) = if is_flag path then exit_with 1 else returned (some path)

-- the loop over the arguments
unfoldable pub search_flag : List Bytes → Bytes → Exit (Option Bytes)
search_flag [] flag = returned none
search_flag (curr_arg ∷ rest) flag =
    if equals (some curr_arg) (some flag) then flag_value rest else search_flag rest flag

unfoldable pub get_path_arg : List Bytes → Bytes → Exit (Option Bytes)
get_path_arg argv flag = search_flag (drop 1 argv) flag

infixl 5 ◌>>=◌
abbrev pub ◌>>=◌ : {A B : Type 0} → Exit A → (A → Exit B) → Exit B
returned a >>= k = k a
exit_with n >>= k = exit_with n

abbrev pub or_else : Option Bytes → Bytes → Bytes
or_else none d = d
or_else (some b) d = b

-- The local and the remote path that the command works on, with the defaults.
unfoldable pub choose_paths : CommandType → Option Bytes → Option Bytes → Exit (Bytes × Bytes)
choose_paths write none remote_path = exit_with 1
choose_paths write (some local_path) remote_path =
    returned (local_path, or_else remote_path local_path)
choose_paths get local_path none = exit_with 1
choose_paths get local_path (some remote_path) =
    returned (or_else local_path remote_path, remote_path)
choose_paths _ local_path none = exit_with 1
choose_paths _ local_path (some remote_path) = returned ([], remote_path)

-- the three flags, in the order of the source
unfoldable pub parse_flags : CommandType → List Bytes → Exit (Bytes × Bytes × Bytes)
parse_flags type argv = do
  ip_address ← get_path_arg argv server_flag
  local_path ← get_path_arg argv local_flag
  remote_path ← get_path_arg argv remote_flag
  (local, remote) ← choose_paths type local_path remote_path
  returned (or_else ip_address default_ip, local, remote)

unfoldable pub arg_parser : Bool → List Bytes → Run (Exit (Option Command))
arg_parser mem argv =
    if is_unknown (get_command_type argv)
    then done (exit_with 1)
    else elim (parse_flags (get_command_type argv) argv) [
      | exit_with n ↦ done (exit_with n)
      | returned (ip, local, remote) ↦
          create_command_struct mem (get_command_type argv) (some ip) local remote
    ]
