-- ===== src/Utils/Paths/Nested.antt =====
-- `createNestedDirectories`: which folders there are afterwards, and what it leaves alone.
use remote_file_system.Prelude.{
  ℕ, ◌≡◌, ◌≢◌, refl, ap, sym, ◌∙◌, ◌⊎◌, inl, inr, Bool, true, false, none, some, List, [], ◌∷◌,
  Bytes, is_empty, All, Run, done, undefined, arith, ◌>>=◌, running, Bool-cases,
}
use mathlib.Core.Path.{subst}
use remote_file_system.Config.{max_path_len}
use remote_file_system.CString.{store_text}
use remote_file_system.CString.Tokens.{tokens}
use remote_file_system.FileSystem.{
  FileSystem, find, Made, made, exists, failed, mkdir, is_directory,
}
use remote_file_system.World.{World, with_fs}
use remote_file_system.Utils.Paths.{
  append_folder, after_mkdir, make_folders, mkdir_in, ensure_folder, ensure_extracted, before_slash,
  create_nested_directories, extract_directory,
}
use remote_file_system.Utils.Paths.Extends.{
  Extends, Extends-refl, Extends-trans, mkdir-Extends, mkdir-present,
}

-- the folders that the loop makes, one inside the other
abbrev pub nested : List Bytes → Bytes → List Bytes
nested [] curr = []
nested (token ∷ rest) curr = append_folder curr token ∷ nested rest (append_folder curr token)

abbrev pub IsPresent : FileSystem → Bytes → Type 0
IsPresent fs p = find p fs.entries ≢ none

Extends-IsPresent :
    (fs fs' : FileSystem) (p : Bytes) → Extends fs fs' → IsPresent fs p → IsPresent fs' p
Extends-IsPresent fs fs' p x h = ground (arith, x.only p)

pub store-cases :
    (size : ℕ) (text : Bytes)
    → (store_text size text ≡ done text) ⊎ (store_text size text ≡ undefined)
unfolding store_text
store-cases size text = ground arith

-- what a run of the loop did, if it returned
pub record Ensured (w w' : World) (status : Bool) (folders : List Bytes) : Type 0 where
  pub extends : Extends w.fs w'.fs
  pub same : w' ≡ with_fs w w'.fs
  pub present : (status ≡ false) ⊎ All (IsPresent w'.fs) folders

module _ (token : Bytes) (rest : List Bytes) (curr : Bytes) (w : World) where
  abbrev next : Bytes
  next = append_folder curr token

  step_stored :
      store_text max_path_len next ≡ done next
      → make_folders (token ∷ rest) curr w
        ≡ after_mkdir
            (mkdir w.fs next).0
            (make_folders rest next (mkdir_in w next))
            (mkdir_in w next)
  unfolding make_folders
  step_stored e = rw e refl

  step_overflow :
      store_text max_path_len next ≡ undefined → make_folders (token ∷ rest) curr w ≡ undefined
  unfolding make_folders
  step_overflow e = rw e refl

after-cases :
    (m : Made) (rest : Run (Bool × World)) (w w' : World) (status : Bool)
    → after_mkdir m rest w ≡ done (status, w')
    → ((m ≢ failed) × (rest ≡ done (status, w'))) ⊎ ((status ≡ false) × (w' ≡ w))
after-cases made rest w w' status e = inl (cc, e)
after-cases exists rest w w' status e = inl (cc, e)
after-cases failed rest w w' status e = inr (ground arith, ground arith)

no_folders : (curr : Bytes) (w : World) → make_folders [] curr w ≡ done (true, w)
unfolding make_folders
no_folders curr w = refl

pub done-parts :
    {a b : Bool} {w w' : World}
    → ◌≡◌ {A = Run (Bool × World)} (done (a, w)) (done (b, w'))
    → (b ≡ a) × (w' ≡ w)
done-parts e = ground arith

unchanged :
    (w w' : World) (status : Bool) (folders : List Bytes)
    → w' ≡ w
    → (status ≡ false) ⊎ All (IsPresent w'.fs) folders
    → Ensured w w' status folders
unchanged w w' status folders same h = record {
  extends = subst (λ v. Extends w.fs v.fs) (sym same) (Extends-refl w.fs);
  same = same ∙ ap (λ v. with_fs w v.fs) (sym same);
  present = h;
}

make_folders-Ensured :
    (ts : List Bytes) (curr : Bytes) (w w' : World) (status : Bool)
    → make_folders ts curr w ≡ done (status, w')
    → Ensured w w' status (nested ts curr)
make_folders-Ensured [] curr w w' status e =
    let (st, same) = done-parts (sym (no_folders curr w) ∙ e) in
    unchanged w w' status [] same (inr tt)
make_folders-Ensured (t ∷ ts) curr w w' status e =
    elim (store-cases max_path_len (append_folder curr t)) [
      | inr bad ↦ absurd (cc (step_overflow t ts curr w bad))
      | inl ok ↦
          let p = append_folder curr t in
          let x = mkdir-Extends w.fs p in
          elim (after-cases (mkdir w.fs p).0 (make_folders ts p (mkdir_in w p)) (mkdir_in w p) w'
            status (sym (step_stored t ts curr w ok) ∙ e)) [
              | inr (st, same) ↦ record {
                extends = subst (λ v. Extends w.fs v.fs) (sym same) x;
                same = same ∙ ap (λ v. with_fs w v.fs) (sym same);
                present = inl st;
              }
              | inl (went_on, e') ↦
                  let r = make_folders-Ensured ts p (mkdir_in w p) w' status e' in
                  record {
                    extends = Extends-trans w.fs (mkdir w.fs p).1 w'.fs x r.extends;
                    same = r.same;
                    present = elim r.present [
                      | inl st ↦ inl st
                      | inr all ↦ inr (
                        Extends-IsPresent (mkdir w.fs p).1 w'.fs p r.extends
                            (mkdir-present w.fs p went_on),
                        all,
                      )
                    ];
                  }
            ]
    ]

-- what a run of the whole function did, if it returned
pub record FolderReady (path : Bytes) (w w' : World) (status : Bool) : Type 0 where
  pub extends : Extends w.fs w'.fs
  pub same : w' ≡ with_fs w w'.fs
  pub ready :
      (status ≡ false)
      ⊎ ((is_directory w.fs (before_slash path) ≡ true)
          ⊎ All (IsPresent w'.fs) (nested (tokens b'/' (before_slash path)) []))

ensure-FolderReady :
    (path : Bytes) (w w' : World) (status : Bool)
    → ensure_folder (before_slash path) w ≡ done (status, w')
    → FolderReady path w w' status
ensure-FolderReady path w w' status e = elim (Bool-cases (is_directory w.fs (before_slash path))) [
  | inl there ↦
      let (st, same) = done-parts {a = true} {w = w} (rw there at e) in
      record {
        extends = subst (λ v. Extends w.fs v.fs) (sym same) (Extends-refl w.fs);
        same = same ∙ ap (λ v. with_fs w v.fs) (sym same);
        ready = inr (inl there);
      }
  | inr absent ↦
      let r =
        make_folders-Ensured (tokens b'/' (before_slash path)) [] w w' status (rw absent at e) in
      record {
        extends = r.extends;
        same = r.same;
        ready = elim r.present [ inl st ↦ inl st | inr all ↦ inr (inr all) ];
      }
]

module _ (path : Bytes) (w : World) where
  no_path : is_empty path ≡ true → create_nested_directories path w ≡ done (false, w)
  unfolding create_nested_directories extract_directory
  no_path h = rw h refl

  some_path :
      is_empty path ≡ false
      → create_nested_directories path w
        ≡ (store_text max_path_len path >>= λ text. ensure_folder (before_slash text) w)
  unfolding create_nested_directories extract_directory
  some_path h = rw h (bind_again (store_text max_path_len path))
    where
      bind_again :
          (r : Run Bytes)
          → (r >>= (λ text. done (some (before_slash text))) >>= λ d. ensure_extracted d w)
            ≡ (r >>= λ text. ensure_folder (before_slash text) w)
      bind_again (done t) = refl
      bind_again undefined = refl
      bind_again running = refl

-- Whenever `createNestedDirectories` returns, every entry that was there is as it was, the only new
-- entries are folders, and nothing but the table of entries changed. If it returned true, the folder
-- of the path was there already, or every folder on the way to it has an entry now.
pub create_nested_directories-FolderReady :
    (path : Bytes) (w w' : World) (status : Bool)
    → create_nested_directories path w ≡ done (status, w')
    → FolderReady path w w' status
create_nested_directories-FolderReady path w w' status e = elim (Bool-cases (is_empty path)) [
  | inl none_given ↦
      let (st, same) = done-parts (sym (no_path path w none_given) ∙ e) in
      record {
        extends = subst (λ v. Extends w.fs v.fs) (sym same) (Extends-refl w.fs);
        same = same ∙ ap (λ v. with_fs w v.fs) (sym same);
        ready = inl st;
      }
  | inr given ↦
      let e' = sym (some_path path w given) ∙ e in
      elim (store-cases max_path_len path) [
        | inl fits ↦ ensure-FolderReady path w w' status (rw fits at e')
        | inr bad ↦ absurd (cc (rw bad at e'))
      ]
]
