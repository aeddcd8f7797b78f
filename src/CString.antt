-- ===== src/CString.antt =====
-- The functions of the C library that the program applies to strings: `strcmp` (as `equals` of
-- utils.c uses it), `strtok`, `strrchr`, `strtol`, and `sprintf` of a number and into a buffer.
pub mod Tokens
pub mod Decimal
pub mod Search
pub mod Digits
use remote_file_system.Prelude.{
  ℕ, Bytes, Run, done, undefined, ltb, length, if◌then◌else◌, bytes_eq, [], ◌∷◌, ◌==◌, Option, none,
  some, Bool, true, false,
}

-- `equals` of utils.c: NULL equals NULL alone.
unfoldable pub equals : Option Bytes → Option Bytes → Bool
equals none none = true
equals none (some b) = false
equals (some a) none = false
equals (some a) (some b) = if bytes_eq a b then true else false

-- `sprintf`, `strcpy` or `strcat` that leaves a text and its NUL in `size` bytes of memory: past the end it is undefined.
unfoldable pub store_text : ℕ → Bytes → Run Bytes
store_text size text = if ltb (length text) size then done text else undefined

-- the bytes before the first NUL
unfoldable pub until_nul : Bytes → Bytes
until_nul [] = []
until_nul (c ∷ b) = if c == 0 then [] else c ∷ until_nul b

-- The string in a zeroed buffer of `size` bytes into which `b` was received. With no NUL in it the
-- string has no end, and reading it is undefined.
unfoldable pub buffer_text : ℕ → Bytes → Run Bytes
buffer_text size b = store_text size (until_nul b)
