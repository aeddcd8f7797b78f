-- ===== src/Config.antt =====
-- config.h: the constants. The debug macro prints and is left out.
use remote_file_system.Prelude.{ℕ, Bytes, codes}

abbrev pub port : ℕ
port = 8080

abbrev pub default_ip : Bytes
default_ip = codes "127.0.0.1"

abbrev pub max_buff_size : ℕ
max_buff_size = 2000

abbrev pub max_path_len : ℕ
max_path_len = 260

-- what stands before the `%s` of PATH_FORMAT, and the length of the whole format
abbrev pub path_prefix : Bytes
path_prefix = codes "data/"

abbrev pub path_format : Bytes
path_format = codes "data/%s"

abbrev pub version_subfolder : Bytes
version_subfolder = codes "/.versions"
