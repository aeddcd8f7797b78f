-- ===== src/Command.antt =====
-- command.c and command.h: the command types, their names, and the command that the client runs.
pub mod Names
use remote_file_system.Prelude.{
  ℕ, zero, suc, ◌+◌, Bool, true, false, Option, none, some, List, [], ◌∷◌, ◌++◌, Bytes, codes,
  length, Run, done, undefined, ◌>>=◌, if◌then◌else◌, get_elem?,
}
use remote_file_system.Config.{path_prefix, path_format}
use remote_file_system.CString.{equals, store_text}

pub data CommandType : Type 0 where
  write get rm ls unknown : CommandType

-- the integer that C gives to the enumerator
abbrev pub enum_value : CommandType → ℕ
enum_value write = 0
enum_value get = 1
enum_value rm = 2
enum_value ls = 3
enum_value unknown = 4

-- the enumerator of an integer from 0 to 4; no other is converted
abbrev pub of_enum_value : ℕ → CommandType
of_enum_value zero = write
of_enum_value (suc zero) = get
of_enum_value (suc (suc zero)) = rm
of_enum_value (suc (suc (suc zero))) = ls
of_enum_value (suc (suc (suc (suc n)))) = unknown

abbrev pub is_unknown : CommandType → Bool
is_unknown unknown = true
is_unknown write = false
is_unknown get = false
is_unknown rm = false
is_unknown ls = false

abbrev pub command_strings : List Bytes
command_strings = codes "WRITE" ∷ codes "GET" ∷ codes "RM" ∷ codes "LS" ∷ []

abbrev pub num_commands : ℕ
num_commands = 4

-- the loop of `strToCommandType`: the first index from `i` on at which the name is `str`
match_name : List Bytes → ℕ → Option Bytes → Option ℕ
match_name [] i str = none
match_name (name ∷ names) i str =
    if equals (some name) str then some i else match_name names (suc i) str

-- the tests that follow it: the digits 0 to 3
match_digit : Option Bytes → CommandType
match_digit str =
    if equals str (some (codes "0"))
    then of_enum_value 0
    else if equals str (some (codes "1"))
    then of_enum_value 1
    else if equals str (some (codes "2"))
    then of_enum_value 2
    else if equals str (some (codes "3"))
    then of_enum_value 3
    else unknown

unfoldable pub str_to_command_type : Option Bytes → CommandType
unfolding match_name match_digit
str_to_command_type str = elim (match_name command_strings 0 str) [
  | some i ↦ of_enum_value i
  | none ↦ match_digit str
]

-- `mem` says whether `malloc` has memory to give. The buffer has room for the format, whose `%s`
-- leaves a byte for the NUL.
unfoldable pub format_path : Bool → Bytes → Run (Option Bytes)
format_path mem str =
    if mem
    then (store_text (length path_format + length str) (path_prefix ++ str) >>= λ text.
        done (some text))
    else done none

pub record Command : Type 0 where
  pub c_type : CommandType
  pub server_ip : Bytes
  pub local_path : Option Bytes
  pub remote_path : Option Bytes

-- What the process does at a call that may end it.
pub data Exit {ℓ} (A : Type ℓ) : Type ℓ where
  returned : A → Exit A
  exit_with : ℕ → Exit A

-- the fields of the new struct
new_command : Bool → CommandType → Bytes → Bytes → Bytes → Run (Option Command)
new_command mem type ip_address local remote = do
  local_path ← format_path mem local
  remote_path ← format_path mem remote
  done (
      some (record {
        c_type = type;
        server_ip = ip_address;
        local_path = local_path;
        remote_path = remote_path;
      }))

-- Without memory for the struct the process exits with status 1.
unfoldable pub create_command_struct :
    Bool → CommandType → Option Bytes → Bytes → Bytes → Run (Exit (Option Command))
unfolding new_command
create_command_struct mem type none local remote = done (returned none)
create_command_struct mem type (some ip_address) local remote =
    if mem
    then (new_command mem type ip_address local remote >>= λ cmd. done (returned cmd))
    else done (exit_with 1)
