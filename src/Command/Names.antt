-- ===== src/Command/Names.antt =====
-- Which texts `strToCommandType` accepts, and that `formatPath` stays inside its buffer.
use mathlib.Core.Path.{subst}
use remote_file_system.Prelude.{
  sym, ◌≡◌, ◌↔◌, ◌⊎◌, inl, inr, ◌≢◌, refl, true, some, [], ◌++◌, Bytes, codes, done, arith,
  bytes_eq, bytes_eq_iff,
}
use remote_file_system.CString.{equals, store_text}
use remote_file_system.Config.{path_prefix}
use remote_file_system.Command.{
  CommandType, write, get, rm, ls, unknown, str_to_command_type, format_path,
}

-- the two spellings of a command on the wire and on the command line
abbrev pub name_of : CommandType → Bytes
name_of write = codes "WRITE"
name_of get = codes "GET"
name_of rm = codes "RM"
name_of ls = codes "LS"
name_of unknown = []

abbrev pub digit_of : CommandType → Bytes
digit_of write = codes "0"
digit_of get = codes "1"
digit_of rm = codes "2"
digit_of ls = codes "3"
digit_of unknown = []

-- the case of each command
named :
    (t : CommandType) (s : Bytes)
    → (s ≡ name_of t) ⊎ (s ≡ digit_of t)
    → t ≢ unknown
    → str_to_command_type (some s) ≡ t
unfolding str_to_command_type equals bytes_eq
named write s (inl e) h = subst (λ x. str_to_command_type (some x) ≡ write) (sym e) refl
named write s (inr e) h = subst (λ x. str_to_command_type (some x) ≡ write) (sym e) refl
named get s (inl e) h = subst (λ x. str_to_command_type (some x) ≡ get) (sym e) refl
named get s (inr e) h = subst (λ x. str_to_command_type (some x) ≡ get) (sym e) refl
named rm s (inl e) h = subst (λ x. str_to_command_type (some x) ≡ rm) (sym e) refl
named rm s (inr e) h = subst (λ x. str_to_command_type (some x) ≡ rm) (sym e) refl
named ls s (inl e) h = subst (λ x. str_to_command_type (some x) ≡ ls) (sym e) refl
named ls s (inr e) h = subst (λ x. str_to_command_type (some x) ≡ ls) (sym e) refl
named unknown s e h = absurd (h refl)

read_name :
    (t : CommandType) (s : Bytes)
    → str_to_command_type (some s) ≡ t
    → t ≢ unknown
    → (s ≡ name_of t) ⊎ (s ≡ digit_of t)
unfolding str_to_command_type equals
read_name unknown s e h = absurd (h refl)
read_name _ s e h = ground (
  arith,
  bytes_eq_iff (codes "WRITE") s,
  bytes_eq_iff s (codes "0"),
  bytes_eq_iff (codes "GET") s,
  bytes_eq_iff s (codes "1"),
  bytes_eq_iff (codes "RM") s,
  bytes_eq_iff s (codes "2"),
  bytes_eq_iff (codes "LS") s,
  bytes_eq_iff s (codes "3"),
)

-- A text is read as a command other than UNKNOWN exactly when it is that command's name or digit.
pub str_to_command_type_iff :
    (t : CommandType) (s : Bytes)
    → t ≢ unknown
    → (str_to_command_type (some s) ≡ t) ↔ ((s ≡ name_of t) ⊎ (s ≡ digit_of t))
str_to_command_type_iff t s h = (λ e. read_name t s e h, λ e. named t s e h)

-- `formatPath` puts the path in the data folder, and its buffer is large enough for every path.
pub format_path-fits : (str : Bytes) → format_path true str ≡ done (some (path_prefix ++ str))
unfolding format_path store_text
format_path-fits str = ground arith
