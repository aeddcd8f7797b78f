-- ===== src/Structs/Commands.antt =====
-- Commands in memory: what `freeCommandStruct` leaves behind.
use remote_file_system.Prelude.{◌≡◌, ◌≢◌, refl, ◌∙◌, none, some, Bytes, ==_ne, done, ◌>>=◌, arith}
use remote_file_system.Command.{CommandType, returned}
use remote_file_system.LockList.{Ptr, null}
use remote_file_system.Structs.{
  command_block, Memory, put_block, strdup, free, free_command_struct, allocate_command,
}
use remote_file_system.Structs.Blocks.{
  IsNew, IsApart, SameBlocks, put_block-at, load_block-block, free-strdup, strdup-IsNew,
  put_block-IsNew, strdup-strdup, strdup-put_block, strdup-SameBlocks,
}

free_command_struct-block :
    (cmd ip local remote : Ptr) (type : CommandType) (x : Memory)
    → cmd ≢ null
    → x cmd ≡ some (command_block type ip local remote)
    → free_command_struct cmd x ≡ (free ip x >>= λ m1. free local m1 >>= λ m2. free remote m2)
unfolding free_command_struct
free_command_struct-block cmd ip local remote type x ne at =
    rw (==_ne cmd null ne, load_block-block cmd _ x ne at) refl

-- Three texts are freed in the order in which they were made.
free-three :
    (a b c : Ptr) (s t u : Bytes) (m x : Memory)
    → IsNew m a
    → IsNew m b
    → IsNew m c
    → IsApart a b
    → IsApart a c
    → IsApart b c
    → SameBlocks (strdup c u (strdup b t (strdup a s m))) x
    → (x' : Memory) × ((free a x >>= λ m1. free b m1 >>= λ m2. free c m2) ≡ done x')
      × SameBlocks m x'
free-three a b c s t u m x new_a new_b new_c ab ac bc same =
    let (x1, e1, same1) =
      free-strdup a s (strdup c u (strdup b t m)) x
        (strdup-IsNew a c u (strdup b t m) (strdup-IsNew a b t m new_a ab) ac)
        (λ q.
          same q
          ∙ strdup-SameBlocks c u (strdup a s (strdup b t m)) (strdup b t (strdup a s m))
              (strdup-strdup a b s t m ab) q
          ∙ strdup-strdup a c s u (strdup b t m) ac q) in
    let (x2, e2, same2) =
      free-strdup b t (strdup c u m) x1 (strdup-IsNew b c u m new_b bc)
        (λ q. same1 q ∙ strdup-strdup b c t u m bc q) in
    let (x3, e3, same3) = free-strdup c u m x2 new_c same2 in (x3, rw (e1, e2, e3) refl, same3)

-- `createCommandStruct` and `freeCommandStruct` on memory, where `malloc` returns a new address for the
-- struct, and for each text NULL or a new address, all of which differ: both return, each text is freed, every
-- other block is as it was, and the block of the struct is left behind: it leaks.
pub free_command_struct-allocate_command :
    (cmd ip local remote : Ptr) (type : CommandType) (s t u : Bytes) (m : Memory)
    → cmd ≢ null
    → m cmd ≡ none
    → IsNew m ip
    → IsNew m local
    → IsNew m remote
    → IsApart ip cmd
    → IsApart local cmd
    → IsApart remote cmd
    → IsApart ip local
    → IsApart ip remote
    → IsApart local remote
    → (m' m'' : Memory) × (allocate_command cmd ip local remote type s t u m ≡ returned (cmd, m'))
      × (free_command_struct cmd m' ≡ done m'')
      × SameBlocks (put_block cmd (some (command_block type ip local remote)) m) m''
unfolding allocate_command
free_command_struct-allocate_command cmd ip local remote type s t u m ne free_cmd new_ip new_local
      new_remote ip_cmd local_cmd remote_cmd ip_local ip_remote local_remote =
    let b = command_block type ip local remote in
    let base = put_block cmd (some b) m in
    let m' = put_block cmd (some b) (strdup remote u (strdup local t (strdup ip s m))) in
    let (m'', e, same) =
      free-three ip local remote s t u base m' (put_block-IsNew ip cmd (some b) m new_ip ip_cmd)
        (put_block-IsNew local cmd (some b) m new_local local_cmd)
        (put_block-IsNew remote cmd (some b) m new_remote remote_cmd) ip_local ip_remote
        local_remote
        (λ q.
          strdup-put_block remote cmd u (some b) (strdup local t (strdup ip s m)) remote_cmd q
          ∙ strdup-SameBlocks remote u _ _
              (strdup-put_block local cmd t (some b) (strdup ip s m) local_cmd) q
          ∙ strdup-SameBlocks remote u _ _
              (strdup-SameBlocks local t _ _ (strdup-put_block ip cmd s (some b) m ip_cmd)) q) in
    (
      m',
      m'',
      rw (==_ne cmd null ne) refl,
      free_command_struct-block cmd ip local remote type m' ne (
            ground (
              arith,
              put_block-at cmd cmd (some b) (strdup remote u (strdup local t (strdup ip s m))),
            ))
          ∙ e,
      same,
    )
