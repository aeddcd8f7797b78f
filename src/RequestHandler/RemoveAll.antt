-- ===== src/RequestHandler/RemoveAll.antt =====
-- The whole of `handleRemoveRequest`, and the versions of other files.
use remote_file_system.Prelude.{
  ◌≡◌, ap, sym, ◌∙◌, ◌⊎◌, inl, inr, Bool, true, false, Option, none, some, List, [], ◌∷◌, ◌++◌,
  Bytes, codes, Bool-cases, if◌then◌else◌, bytes_eq, bytes_eq_self, is_empty, done, arith,
}
use remote_file_system.Prelude.Int.{pos}
use remote_file_system.CString.Digits.{zero_no_power}
use remote_file_system.FileSystem
use remote_file_system.FileSystem.{FileSystem, Entry, find, discard, is_directory, readdir}
use remote_file_system.FileSystem.Laws.{find-discard}
use remote_file_system.Protocol.Request.{Request}
use remote_file_system.Protocol.Response.{response_text}
use remote_file_system.Protocol.Transmit.{build_and_send_response}
use remote_file_system.Protocol.Delivery.{build_and_send_response-sends}
use remote_file_system.RequestHandler.{
  starts_with, split_path, version_folder, remove_versions, remove_history, after_removal,
  handle_remove_request,
}
use remote_file_system.RequestHandler.Remove.{
  starts_with-append, Pruned, matched, in_folder, remove-cases, remove_versions-gone,
  remove_versions-Pruned,
}
use remote_file_system.World.{World, with_fs}
use remote_file_system.Utils.Transfer.Sending.{after_sending}

matched-append :
    (folder base q name : Bytes) (before after : List (Bytes × Bool))
    → starts_with base name ≡ true
    → bytes_eq (in_folder folder name) q ≡ true
    → matched folder base q (before ++ (name, true) ∷ after) ≡ true
matched-append folder base q name [] after s e = ground arith
matched-append folder base q name (x ∷ before) after s e =
    ground (arith, matched-append folder base q name before after s e)

-- A removal that succeeds takes with it every regular file of the version folder whose name goes on
-- after the base name, the versions of other files with a longer name among them.
pub remove_versions-longer_name :
    (folder base suffix : Bytes) (before after : List (Bytes × Bool)) (w w' : World)
    → remove_versions folder base (before ++ (base ++ suffix, true) ∷ after) true w
      ≡ done (true, w')
    → find (in_folder folder (base ++ suffix)) w'.fs.entries ≡ none
remove_versions-longer_name folder base suffix before after w w' e =
    let q = in_folder folder (base ++ suffix) in
    remove_versions-gone folder base q (before ++ (base ++ suffix, true) ∷ after) w w' e (
      matched-append folder base q (base ++ suffix) before after (starts_with-append base suffix)
        (bytes_eq_self q))

module _ (r : Request) (w w1 : World) (s : Bool) (fs : FileSystem) where
  refused :
      is_empty r.remote_path ≡ false
      → FileSystem.remove w.fs r.remote_path ≡ (false, fs)
      → build_and_send_response false (pos 0) (some (codes "unable to remove file")) (with_fs w fs)
        ≡ done (s, w1)
      → handle_remove_request r w ≡ done (s, w1)
  unfolding handle_remove_request
  refused ne f b = ground (arith, f, b)

  removed :
      is_empty r.remote_path ≡ false
      → FileSystem.remove w.fs r.remote_path ≡ (true, fs)
      → handle_remove_request r w ≡ after_removal r.remote_path (with_fs w fs)
  unfolding handle_remove_request
  removed ne f = ground (arith, f)

module _ (path folder base versions : Bytes) (w w1 w2 : World) where
  history :
      split_path path ≡ done (some (folder, base))
      → after_removal path w ≡ remove_history folder base w
  unfolding after_removal
  history e = ground (arith, e)

  with_versions :
      version_folder folder ≡ done versions
      → is_directory w.fs versions ≡ true
      → remove_versions versions base (readdir versions w.fs.entries) true w ≡ done (true, w1)
      → build_and_send_response true (pos 0) (some (codes "OK")) w1 ≡ done (true, w2)
      → remove_history folder base w ≡ done (true, w2)
  unfolding remove_history
  with_versions v d r b = ground (arith, v, d, r, b)

-- If the file cannot be removed, the client is sent the error alone and every file is as it was, with
-- memory and a network that takes all it is given.
pub handle_remove_request-refused :
    (r : Request) (w : World)
    → is_empty r.remote_path ≡ false
    → FileSystem.remove w.fs r.remote_path ≡ (false, w.fs)
    → w.memory ≡ true
    → w.socket.accepts ≡ []
    → handle_remove_request r w
      ≡ done
          (true, after_sending w (response_text false (pos 0) (codes "unable to remove file")) [])
handle_remove_request-refused r w ne f memory takes =
    refused r w (after_sending w (response_text false (pos 0) (codes "unable to remove file")) [])
      true w.fs ne f
      (build_and_send_response-sends w false (codes "unable to remove file") memory 0 zero_no_power
        takes)

-- what a removal that succeeds does to the entry at `q`
removed_entries :
    (before after : FileSystem) (path : Bytes)
    → FileSystem.remove before path ≡ (true, after)
    → (q : Bytes) → find q after.entries ≡ (if bytes_eq path q then none else find q before.entries)
removed_entries before after path f q = elim (remove-cases before path) [
  | inl e ↦ absurd (cc (f, e))
  | inr e ↦ ap (λ x. find q x.1.entries) (sym f ∙ e) ∙ find-discard path q before.entries
]

own_entry :
    (path : Bytes) (before middle after : FileSystem)
    → find path middle.entries ≡ (if bytes_eq path path then none else find path before.entries)
    → (find path after.entries ≡ find path middle.entries) ⊎ (find path after.entries ≡ none)
    → find path after.entries ≡ none
own_entry path before middle after e p = ground (arith, e, p, bytes_eq_self path)

listed :
    (folder base q : Bytes) (list : List (Bytes × Bool)) (before after : Option Entry)
    → Pruned (matched folder base q list) true before after
    → (matched folder base q list ≡ false) ⊎ (after ≡ none)
listed folder base q list before after p = ground (arith, p.gone)

other :
    (folder base path q : Bytes) (list : List (Bytes × Bool)) (before middle after : FileSystem)
    → find q middle.entries ≡ (if bytes_eq path q then none else find q before.entries)
    → Pruned (matched folder base q list) true (find q middle.entries) (find q after.entries)
    → ((matched folder base q list ≡ true) ⊎ (bytes_eq path q ≡ true))
      ⊎ (find q after.entries ≡ find q before.entries)
other folder base path q list before middle after e p = elim (Bool-cases (bytes_eq path q)) [
  | inl same ↦ inl (inr same)
  | inr differs ↦ elim p.kept [
    | inl hit ↦ inl (inl hit)
    | inr kept ↦ inr (ground (arith, kept, e, differs))
  ]
]

-- Where the file can be removed, its version folder is there and all its versions can be removed, with
-- memory and a network that takes all it is given: the handler returns, the client is sent the response
-- of success, each listed version is gone, and every other entry but the file's own is as it was.
pub handle_remove_request-removes :
    (r : Request) (w w1 : World) (fs : FileSystem) (folder base versions : Bytes)
    → is_empty r.remote_path ≡ false
    → FileSystem.remove w.fs r.remote_path ≡ (true, fs)
    → split_path r.remote_path ≡ done (some (folder, base))
    → version_folder folder ≡ done versions
    → is_directory fs versions ≡ true
    → remove_versions versions base (readdir versions fs.entries) true (with_fs w fs)
      ≡ done (true, w1)
    → w1.memory ≡ true
    → w1.socket.accepts ≡ []
    → (handle_remove_request r w
        ≡ done (true, after_sending w1 (response_text true (pos 0) (codes "OK")) []))
      × (find r.remote_path w1.fs.entries ≡ none)
      × ((q : Bytes)
          → (matched versions base q (readdir versions fs.entries) ≡ false)
            ⊎ (find q w1.fs.entries ≡ none))
      × ((q : Bytes)
          → ((matched versions base q (readdir versions fs.entries) ≡ true)
              ⊎ (bytes_eq r.remote_path q ≡ true))
            ⊎ (find q w1.fs.entries ≡ find q w.fs.entries))
handle_remove_request-removes r w w1 fs folder base versions ne f parts v d gone memory takes =
    let w2 = after_sending w1 (response_text true (pos 0) (codes "OK")) [] in
    let list = readdir versions fs.entries in
    let entries = removed_entries w.fs fs r.remote_path f in
    let pruned =
      λ (q : Bytes). remove_versions-Pruned versions base q list (with_fs w fs) w1 true gone in
    (
      removed r w w2 true fs ne f
          ∙ history r.remote_path folder base versions (with_fs w fs) w1 w2 parts
          ∙ with_versions r.remote_path folder base versions (with_fs w fs) w1 w2 v d gone
              (build_and_send_response-sends w1 true (codes "OK") memory 0 zero_no_power takes),
      own_entry r.remote_path w.fs fs w1.fs (entries r.remote_path) (pruned r.remote_path).either,
      (λ q. listed versions base q list (find q fs.entries) (find q w1.fs.entries) (pruned q)),
      λ q. other versions base r.remote_path q list w.fs fs w1.fs (entries q) (pruned q),
    )
