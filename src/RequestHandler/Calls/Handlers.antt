-- ===== src/RequestHandler/Calls/Handlers.antt =====
-- What the handlers of WRITE, GET and RM do to the files, whatever comes of the request.
use remote_file_system.Prelude.{
  ℕ, ◌≡◌, refl, sym, ap, Bool, true, false, none, some, List, [], ◌∷◌, ◌++◌, Bytes, codes, done,
  undefined, arith, Run-cases, inl, inr, Option-cases, Bool-cases, ◌&&◌, is_empty, if◌then◌else◌,
}
use mathlib.Core.Path.{subst}
use remote_file_system.Config.{max_path_len, version_subfolder}
use remote_file_system.CString.{store_text}
use remote_file_system.FileSystem
use remote_file_system.FileSystem.{FileSystem, Stream, open_read, is_directory, readdir}
use remote_file_system.Prelude.Int.{pos}
use remote_file_system.Protocol.Request.{Request}
use remote_file_system.Protocol.Transmit.{build_and_send_response}
use remote_file_system.RequestHandler.{
  version_name, make_version_name, split_path, version_folder, version_path, store_version,
  save_current_version, receive_if, handle_write_request, remove, remove_versions, remove_history,
  after_removal, handle_remove_request, starts_with,
}
use remote_file_system.RequestHandler.Remove.{starts_with-append}
use remote_file_system.RequestHandler.Calls.{
  version_of, Owns, itself, version, empties, removes, call, Acts,
}
use remote_file_system.RequestHandler.Calls.Rules.{
  Calls-refl, result-parts, Acts-pure, Acts-undefined, Acts-if, Acts-bind, acts_rules,
  build_and_send_response-Acts,
}
use remote_file_system.RequestHandler.Calls.Folders.{create_nested_directories-Acts}
use remote_file_system.RequestHandler.Calls.Contents.{copy_loop-Acts, receive_file_contents-Acts}
use remote_file_system.Utils.Paths.{create_nested_directories}
use remote_file_system.Utils.Transfer.{copy_file}
use remote_file_system.World.{M, pure, open_write}

module _ (path q : Bytes) (o : Owns path q) where
  open_write-Acts : Acts (some path) (open_write q)
  unfolding open_write
  open_write-Acts = record {
    at = λ w w' s e. elim (Option-cases (FileSystem.open_write w.fs q)) [
      | inl n ↦ Calls-refl (ground (arith, e, n))
      | inr (fs, opens) ↦ call (empties q fs o opens) (Calls-refl (ground (arith, e, opens)))
    ];
  }

  copy_file-Acts :
      (fuel : ℕ) (source : Stream) (opened : Bool)
      → Acts (some path) (copy_file fuel (some source) (if opened then some q else none))
  unfolding copy_file
  copy_file-Acts fuel source true = copy_loop-Acts path fuel source q o
  copy_file-Acts fuel source false = Acts-pure false

  remove-Acts : Acts (some path) (remove q)
  remove-Acts = record {
    at = λ w w' s e. call (removes q o) (Calls-refl (ap (λ v. v.fs) (result-parts e).1));
  }

  store_version-Acts : (fuel : ℕ) (file : Stream) → Acts (some path) (store_version fuel file q)
  unfolding store_version
  store_version-Acts fuel file =
      Acts-bind (create_nested_directories q) _ (create_nested_directories-Acts path q) (λ _.
        Acts-bind (open_write q) _ open_write-Acts (λ opened.
          Acts-bind (copy_file fuel (some file) (if opened then some q else none)) _
            (copy_file-Acts fuel file opened)
            (λ success.
              Acts-if opened (pure success) (λ w. undefined) (Acts-pure success) Acts-undefined)))

store_text-same :
    (size : ℕ) (text stored : Bytes) → store_text size text ≡ done stored → stored ≡ text
unfolding store_text
store_text-same size text stored e = ground (arith, e)

version_path-same :
    (mem : Bool) (now : ℕ × ℕ) (folder name full_path : Bytes)
    → version_path mem now folder name ≡ done full_path
    → full_path ≡ version_of folder (version_name name now)
unfolding version_path make_version_name store_text
version_path-same mem now folder name full_path e = ground (arith, e)

module _ (path : Bytes) where
  save_current_version-Acts : (fuel : ℕ) → Acts (some path) (save_current_version fuel path)
  unfolding save_current_version
  save_current_version-Acts fuel = record {
    at = λ w w' s e. elim (Option-cases (open_read w.fs path)) [
      | inl n ↦ Calls-refl (ground (arith, e, n))
      | inr (file, opened) ↦ elim (Run-cases (split_path path)) [
        | inr bad ↦ absurd (ground (arith, e, opened, bad))
        | inl (none, p) ↦ Calls-refl (ground (arith, e, opened, p))
        | inl (some (folder, name), p) ↦
            elim (Run-cases (version_path w.memory w.now folder name)) [
              | inr bad ↦ absurd (ground (arith, e, opened, p, bad))
              | inl (full_path, v) ↦
                  (store_version-Acts path full_path
                      (version folder name (version_name name w.now) p (starts_with-append name _)
                        (version_path-same w.memory w.now folder name full_path v))
                      fuel file).at
                    w w' s (ground (arith, e, opened, p, v))
            ]
      ]
    ];
  }

  remove_versions-Acts :
      (folder base : Bytes) (names : List (Bytes × Bool)) (success : Bool)
      → split_path path ≡ done (some (folder, base))
      → Acts (some path) (remove_versions (folder ++ version_subfolder) base names success)
  unfolding remove_versions
  remove_versions-Acts folder base [] success p = record {
    at = λ w w' s e. Calls-refl (ap (λ v. v.fs) (result-parts e).1);
  }
  remove_versions-Acts folder base ((name, regular) ∷ rest) success p = record {
    at = λ w w' s e. elim (Bool-cases (regular && starts_with base name)) [
      | inr skips ↦
          (remove_versions-Acts folder base rest success p).at w w' s (ground (arith, e, skips))
      | inl takes ↦
          elim (Run-cases
            (store_text max_path_len ((folder ++ version_subfolder) ++ b'/' ∷ name))) [
              | inr bad ↦ absurd (ground (arith, e, takes, bad))
              | inl (full_path, t) ↦ elim (Bool-cases success) [
                | inr failed ↦
                    (remove_versions-Acts folder base rest false p).at w w' s
                      (ground (arith, e, takes, t, failed))
                | inl good ↦
                    call
                      (removes full_path (
                        version folder base name p (ground (arith, takes))
                          (store_text-same max_path_len _ full_path t)))
                      ((remove_versions-Acts folder base rest (FileSystem.remove w.fs full_path).0
                          p).at
                        (record w { fs = (FileSystem.remove w.fs full_path).1 }) w' s
                        (ground (arith, e, takes, t, good)))
              ]
            ]
    ];
  }

  -- the answer to an RM whose versions were looked for
  abbrev report : Bool → M Bool
  report success =
      if success
      then build_and_send_response true (pos 0) (some (codes "OK"))
      else build_and_send_response false (pos 0)
          (some (codes "ERROR: unable to remove all prior versions of this file"))

  report-Acts : (success : Bool) → Acts (some path) (report success)
  report-Acts success = search (acts_rules, build_and_send_response-Acts)

  remove_history-Acts :
      (folder base : Bytes)
      → split_path path ≡ done (some (folder, base))
      → Acts (some path) (remove_history folder base)
  unfolding remove_history
  remove_history-Acts folder base p = record {
    at = λ w w' s e. elim (Run-cases (version_folder folder)) [
      | inr bad ↦ absurd (ground (arith, e, bad))
      | inl (versions, v) ↦ elim (Bool-cases (is_directory w.fs versions)) [
        | inr absent ↦
            (build_and_send_response-Acts true (pos 0) (some (codes "OK"))).at w w' s
              (ground (arith, e, v, absent))
        | inl there ↦
            (Acts-bind (remove_versions versions base (readdir versions w.fs.entries) true) report
                (subst
                  (λ d.
                    Acts (some path) (remove_versions d base (readdir versions w.fs.entries) true))
                  (sym (store_text-same max_path_len (folder ++ version_subfolder) versions v))
                  (remove_versions-Acts folder base (readdir versions w.fs.entries) true p))
                report-Acts).at
              w w' s (ground (arith, e, v, there))
      ]
    ];
  }

  after_removal-Acts : Acts (some path) (after_removal path)
  unfolding after_removal
  after_removal-Acts = record {
    at = λ w w' s e. elim (Run-cases (split_path path)) [
      | inr bad ↦ absurd (ground (arith, e, bad))
      | inl (none, p) ↦ (build_and_send_response-Acts false (pos 0) _).at w w' s (rw p at e)
      | inl (some (folder, base), p) ↦ (remove_history-Acts folder base p).at w w' s (rw p at e)
    ];
  }

-- Whatever comes of a WRITE, it changes the files by such calls on its own file and its versions.
pub handle_write_request-Acts :
    (fuel : ℕ) (r : Request) → Acts (some r.remote_path) (handle_write_request fuel r)
unfolding handle_write_request
handle_write_request-Acts fuel r =
    Acts-bind (create_nested_directories r.remote_path) _
      (create_nested_directories-Acts r.remote_path r.remote_path)
      (λ _.
        Acts-bind (save_current_version fuel r.remote_path) _
          (save_current_version-Acts r.remote_path fuel)
          (λ saved.
            Acts-bind (receive_if saved fuel r) _
              (Acts-if saved _ _
                (receive_file_contents-Acts r.remote_path fuel r.remote_path r.data_len
                  (itself refl))
                (Acts-pure false))
              (λ status. build_and_send_response-Acts status (pos 0) (some []))))

-- Whatever comes of an RM, it changes the files by such calls on its own file and its versions.
pub handle_remove_request-Acts : (r : Request) → Acts (some r.remote_path) (handle_remove_request r)
unfolding handle_remove_request
handle_remove_request-Acts r =
    Acts-if (is_empty r.remote_path) _ _ (build_and_send_response-Acts false (pos 0) _) (
      Acts-bind (remove r.remote_path) _ (remove-Acts r.remote_path r.remote_path (itself refl))
        (λ removed.
          Acts-if removed (after_removal r.remote_path)
            (build_and_send_response false (pos 0) (some (codes "unable to remove file")))
            (after_removal-Acts r.remote_path) (build_and_send_response-Acts false (pos 0) _)))
