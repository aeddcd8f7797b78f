-- ===== src/RequestHandler/Calls/Folders.antt =====
-- `createNestedDirectories` changes the files by calls of `mkdir` alone.
use remote_file_system.Prelude.{
  ◌≡◌, ap, Bool, none, some, List, [], ◌∷◌, Bytes, done, Run, arith, Run-cases, inl, inr,
  Bool-cases, Option,
}
use remote_file_system.Config.{max_path_len}
use remote_file_system.CString.{store_text}
use remote_file_system.FileSystem.{Made, made, exists, failed, mkdir, is_directory}
use remote_file_system.RequestHandler.Calls.{makes, Calls, call, Acts}
use remote_file_system.RequestHandler.Calls.Rules.{Calls-refl, result-parts}
use remote_file_system.Utils.Paths.{
  append_folder, after_mkdir, mkdir_in, make_folders, ensure_extracted, create_nested_directories,
  extract_directory,
}
use remote_file_system.World.{World}

after_mkdir-Calls :
    (path : Bytes) (m : Made) (rest : Run (Bool × World)) (w w' : World) (s : Bool)
    → (rest ≡ done (s, w') → Calls (some path) w.fs w'.fs)
    → after_mkdir m rest w ≡ done (s, w')
    → Calls (some path) w.fs w'.fs
after_mkdir-Calls path made rest w w' s h e = h e
after_mkdir-Calls path exists rest w w' s h e = h e
after_mkdir-Calls path failed rest w w' s h e = Calls-refl (ap (λ v. v.fs) (result-parts e).1)

make_folders-Acts :
    (path : Bytes) (tokens : List Bytes) (curr : Bytes)
    → Acts (some path) (make_folders tokens curr)
unfolding make_folders
make_folders-Acts path [] curr = record {
  at = λ w w' s e. Calls-refl (ap (λ v. v.fs) (result-parts e).1);
}
make_folders-Acts path (token ∷ rest) curr = record {
  at = λ w w' s e. elim (Run-cases (store_text max_path_len (append_folder curr token))) [
    | inr bad ↦ absurd (ground (arith, e, bad))
    | inl (next, q) ↦ call (makes next) (
        after_mkdir-Calls path (mkdir w.fs next).0 (make_folders rest next (mkdir_in w next))
          (mkdir_in w next) w' s
          (λ g. (make_folders-Acts path rest next).at (mkdir_in w next) w' s g) (rw q at e))
  ];
}

ensure_extracted-Acts :
    (path : Bytes) (folder : Option Bytes) → Acts (some path) (ensure_extracted folder)
ensure_extracted-Acts path none = record {
  at = λ w w' s e. Calls-refl (ap (λ v. v.fs) (result-parts e).1);
}
ensure_extracted-Acts path (some folder) = record {
  at = λ w w' s e. elim (Bool-cases (is_directory w.fs folder)) [
    | inl there ↦ Calls-refl (ap (λ v. v.fs) (result-parts (rw there at e)).1)
    | inr absent ↦ (make_folders-Acts path _ []).at w w' s (rw absent at e)
  ];
}

pub create_nested_directories-Acts :
    (path full_path : Bytes) → Acts (some path) (create_nested_directories full_path)
unfolding create_nested_directories
create_nested_directories-Acts path full_path = record {
  at = λ w w' s e. elim (Run-cases (extract_directory (some full_path) (some max_path_len))) [
    | inr bad ↦ absurd (ground (arith, e, bad))
    | inl (folder, q) ↦ (ensure_extracted-Acts path folder).at w w' s (rw q at e)
  ];
}
