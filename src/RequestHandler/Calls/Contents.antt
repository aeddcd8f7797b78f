-- ===== src/RequestHandler/Calls/Contents.antt =====
-- The loops of the transfers change the files by writes to the file that they were given.
use remote_file_system.Prelude.{
  ℕ, zero, suc, Bool, true, some, Bytes, arith, inl, inr, Option-cases, Bool-cases, ltb, ◌&&◌, ◌==◌,
  ◌-◌, length,
}
use remote_file_system.Prelude.Int.{ℤ}
use remote_file_system.FileSystem.{Stream, fread, fwrite, open_write}
use remote_file_system.RequestHandler.Calls.{Owns, empties, writes, call, Acts}
use remote_file_system.RequestHandler.Calls.Rules.{Calls-refl}
use remote_file_system.Socket
use remote_file_system.Utils.Transfer.{copy_loop, receive_loop, receive_file_contents, byte_count}
use remote_file_system.World.{with_fs}

pub copy_loop-Acts :
    (path : Bytes) (fuel : ℕ) (source : Stream) (q : Bytes)
    → Owns path q
    → Acts (some path) (copy_loop fuel source q)
unfolding copy_loop
copy_loop-Acts path zero source q o = record { at = λ w w' s e. cc e }
copy_loop-Acts path (suc fuel) source q o = record {
  at = λ w w' s e.
      let b = (fread 2000 source).0 in
      call (writes q b o) (elim (Bool-cases (fread 2000 source).2) [
        | inl ends ↦ Calls-refl (ground (arith, e, ends))
        | inr more ↦
            (copy_loop-Acts path fuel (fread 2000 source).1 q o).at (with_fs w (fwrite w.fs q b).1)
              w' s (ground (arith, e, more))
      ]);
}

receive_loop-Acts :
    (path : Bytes) (fuel : ℕ) (q : Bytes) (remaining : ℕ) (success : Bool)
    → Owns path q
    → Acts (some path) (receive_loop fuel q remaining success)
unfolding receive_loop
receive_loop-Acts path zero q remaining success o = record { at = λ w w' s e. cc e }
receive_loop-Acts path (suc fuel) q remaining success o = record {
  at = λ w w' s e. elim (Bool-cases (ltb 0 remaining)) [
    | inr ends ↦ Calls-refl (ground (arith, e, ends))
    | inl more ↦ elim (Option-cases (Socket.recv 2000 w.socket).0) [
      | inl n ↦ Calls-refl (ground (arith, e, more, n))
      | inr (b, got) ↦ call (writes q b o) (
          (receive_loop-Acts path fuel q (remaining - length b)
              (success && ((fwrite w.fs q b).0 == length b)) o).at
            (record w { fs = (fwrite w.fs q b).1; socket = (Socket.recv 2000 w.socket).1 }) w' s
            (ground (arith, e, more, got)))
    ]
  ];
}

pub receive_file_contents-Acts :
    (path : Bytes) (fuel : ℕ) (q : Bytes) (size : ℤ)
    → Owns path q
    → Acts (some path) (receive_file_contents fuel q size)
unfolding receive_file_contents
receive_file_contents-Acts path fuel q size o = record {
  at = λ w w' s e. elim (Option-cases (open_write w.fs q)) [
    | inl n ↦ Calls-refl (ground (arith, e, n))
    | inr (fs, opens) ↦ call (empties q fs o opens) (
        (receive_loop-Acts path fuel q (byte_count size) true o).at (with_fs w fs) w' s
          (ground (arith, e, opens)))
  ];
}
