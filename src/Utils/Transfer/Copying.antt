-- ===== src/Utils/Transfer/Copying.antt =====
-- `copyFile`: the whole of the source reaches the destination.
use native.Mathlib.Decide.{dec_lt}
use remote_file_system.Prelude.{
  ℕ, zero, suc, ◌<◌, ◌≡◌, refl, ap, ◌∙◌, true, false, some, [], ◌++◌, append_assoc, Bytes, length,
  take, drop, take-append-drop, length-drop, bytes_eq, bytes_eq_self, done, running, arith,
}
use mathlib.Core.Path.{subst}
use remote_file_system.Config.{max_buff_size}
use remote_file_system.FileSystem.{
  FileSystem, Stream, left, of_directory, regular, find, fread, fwrite,
}
use remote_file_system.FileSystem.Laws.{find-put}
use remote_file_system.World.{World, with_fs}
use remote_file_system.Utils.Transfer.{copy_loop, copy_file}
use remote_file_system.Utils.Transfer.Sending.{fread-short, fread-long}
use remote_file_system.Utils.Transfer.Receiving.{grown, fwrite-grown}

-- `fs'` is `fs` with `b` behind the contents `old` of the file at `path`, and nothing else changed.
pub record Appended (path old b : Bytes) (fs fs' : FileSystem) : Type 0 where
  pub file : find path fs'.entries ≡ some (regular (old ++ b))
  pub others : (q : Bytes) → bytes_eq path q ≡ false → find q fs'.entries ≡ find q fs.entries
  pub same : fs' ≡ record fs { entries = fs'.entries }

module _ (fuel : ℕ) (file file' : Stream) (path buffer : Bytes) (w : World) (written : ℕ)
    (fs : FileSystem) where
  copy_last :
      fread max_buff_size file ≡ (buffer, file', true)
      → fwrite w.fs path buffer ≡ (written, fs)
      → copy_loop (suc fuel) file path w ≡ done (true, with_fs w fs)
  unfolding copy_loop
  copy_last r f = ground (arith, r, f)

  copy_next :
      fread max_buff_size file ≡ (buffer, file', false)
      → fwrite w.fs path buffer ≡ (written, fs)
      → copy_loop (suc fuel) file path w ≡ copy_loop fuel file' path (with_fs w fs)
  unfolding copy_loop
  copy_next r f = ground (arith, r, f)

Appended-grown :
    (path old b : Bytes) (fs : FileSystem) → Appended path old b fs (grown fs path (old ++ b))
Appended-grown path old b fs = record {
  file = find-put path path (regular (old ++ b)) fs.entries ∙ rw (bytes_eq_self path) refl;
  others = λ q h. find-put path q (regular (old ++ b)) fs.entries ∙ rw h refl;
  same = refl;
}

Appended-trans :
    (path old b c : Bytes) (fs mid end : FileSystem)
    → Appended path old b fs mid
    → Appended path (old ++ b) c mid end
    → Appended path old (b ++ c) fs end
Appended-trans path old b c fs mid end x y = record {
  file = y.file ∙ ap (λ t. some (regular t)) (append_assoc old b c);
  others = λ q h. y.others q h ∙ x.others q h;
  same = y.same ∙ λ i. record (x.same i) { entries = end.entries };
}

-- From any point of the loop.
copy_loop-copies :
    (fuel : ℕ) (path old b : Bytes) (w : World)
    → w.fs.disk_full ≡ false
    → find path w.fs.entries ≡ some (regular old)
    → length b < fuel
    → (fs : FileSystem) × (copy_loop fuel (left b) path w ≡ done (true, with_fs w fs))
      × Appended path old b w.fs fs
copy_loop-copies zero path old b w room e lt = elim lt [ ]
copy_loop-copies (suc fuel) path old b w room e lt = elim (dec_lt (length b) max_buff_size) [
  | yes short ↦ (
    grown w.fs path (old ++ b),
    copy_last fuel (left b) _ path b w _ _ (fread-short max_buff_size b short)
        (fwrite-grown w.fs path old b room e),
    Appended-grown path old b w.fs,
  )
  | no long ↦
      let n = max_buff_size in
      let first = Appended-grown path old (take n b) w.fs in
      let mid = grown w.fs path (old ++ take n b) in
      let (fs, e', rest) =
        copy_loop-copies fuel path (old ++ take n b) (drop n b) (with_fs w mid) room first.file
          (omega (arith, length-drop n b)) in
      (
        fs,
        copy_next fuel (left b) (left (drop n b)) path (take n b) w _ mid
              (fread-long n b (omega arith)) (fwrite-grown w.fs path old (take n b) room e)
            ∙ e',
        subst (λ t. Appended path old t w.fs fs) (take-append-drop n b)
            (Appended-trans path old (take n b) (drop n b) w.fs mid fs first rest),
      )
]

-- `copyFile` into a file that is open and empty, on a disk with room and with more fuel than there
-- are bytes: it returns true, the destination holds the bytes of the source, and nothing else changed.
pub copy_file-copies :
    (fuel : ℕ) (path b : Bytes) (w : World)
    → w.fs.disk_full ≡ false
    → find path w.fs.entries ≡ some (regular [])
    → length b < fuel
    → (fs : FileSystem) × (copy_file fuel (some (left b)) (some path) w ≡ done (true, with_fs w fs))
      × Appended path [] b w.fs fs
unfolding copy_file
copy_file-copies fuel path b w room e lt = copy_loop-copies fuel path [] b w room e lt

-- A directory that was opened for reading is copied for ever, whatever the fuel.
pub copy_file-directory :
    (fuel : ℕ) (path : Bytes) (w : World)
    → copy_file fuel (some of_directory) (some path) w ≡ running
unfolding copy_file
copy_file-directory zero path w = unfold copy_loop in refl
copy_file-directory (suc fuel) path w =
    let f = fwrite w.fs path [] in
    copy_next fuel of_directory of_directory path [] w f.0 f.1 (unfold fread in refl) refl
    ∙ copy_file-directory fuel path (with_fs w f.1)
