-- ===== src/RequestHandler/Remove.antt =====
-- `handleRemoveRequest`: which entries are gone afterwards, and which are left.
use remote_file_system.Prelude.{
  ◌≡◌, refl, ap, sym, ◌∙◌, ◌⊎◌, inl, inr, Bool, true, false, ◌&&◌, Option, none, List, [], ◌∷◌,
  ◌++◌, Bytes, bytes_eq, done, undefined, arith, Bool-cases, ◌||◌,
}
use remote_file_system.Config.{max_path_len}
use remote_file_system.CString.{store_text}
use remote_file_system.FileSystem
use remote_file_system.FileSystem.{FileSystem, Entry, find, discard}
use remote_file_system.FileSystem.Laws.{find-discard}
use remote_file_system.RequestHandler.{starts_with, remove_versions}
use remote_file_system.Utils.Paths.Nested.{store-cases, done-parts}
use remote_file_system.World.{World, with_fs}

-- A text starts with each of its prefixes.
pub starts_with-append : (base suffix : Bytes) → starts_with base (base ++ suffix) ≡ true
unfolding starts_with
starts_with-append [] suffix = refl
starts_with-append (b ∷ base) suffix = ground (arith, starts_with-append base suffix)

pub remove-cases :
    (fs : FileSystem) (path : Bytes)
    → (FileSystem.remove fs path ≡ (false, fs))
      ⊎ (FileSystem.remove fs path ≡ (true, record fs { entries = discard path fs.entries }))
unfolding FileSystem.remove
remove-cases fs path = ground arith

-- the path of an entry of the version folder
abbrev pub in_folder : Bytes → Bytes → Bytes
in_folder folder name = folder ++ b'/' ∷ name

module _ (folder base name : Bytes) (rest : List (Bytes × Bool)) (w : World) where
  skip :
      (regular success : Bool)
      → (regular && starts_with base name) ≡ false
      → remove_versions folder base ((name, regular) ∷ rest) success w
        ≡ remove_versions folder base rest success w
  unfolding remove_versions
  skip regular success e = ground (arith, e)

  too_long :
      (regular success : Bool)
      → (regular && starts_with base name) ≡ true
      → store_text max_path_len (in_folder folder name) ≡ undefined
      → remove_versions folder base ((name, regular) ∷ rest) success w ≡ undefined
  unfolding remove_versions
  too_long regular success e s = ground (arith, e, s)

  after_failure :
      (regular : Bool)
      → (regular && starts_with base name) ≡ true
      → store_text max_path_len (in_folder folder name) ≡ done (in_folder folder name)
      → remove_versions folder base ((name, regular) ∷ rest) false w
        ≡ remove_versions folder base rest false w
  unfolding remove_versions
  after_failure regular e s = ground (arith, e, s)

  one_removed :
      (regular removed : Bool) (fs : FileSystem)
      → (regular && starts_with base name) ≡ true
      → store_text max_path_len (in_folder folder name) ≡ done (in_folder folder name)
      → FileSystem.remove w.fs (in_folder folder name) ≡ (removed, fs)
      → remove_versions folder base ((name, regular) ∷ rest) true w
        ≡ remove_versions folder base rest removed (with_fs w fs)
  unfolding remove_versions
  one_removed regular removed fs e s r = ground (arith, e, s, r)

-- The path is that of a listed regular file whose name starts with `base`.
abbrev pub matched : Bytes → Bytes → Bytes → List (Bytes × Bool) → Bool
matched folder base q [] = false
matched folder base q ((name, regular) ∷ rest) =
    ((regular && starts_with base name) && bytes_eq (in_folder folder name) q)
    || matched folder base q rest

-- what the loop did to the entry at `q`
pub record Pruned (hit s : Bool) (before after : Option Entry) : Type 0 where
  pub either : (after ≡ before) ⊎ (after ≡ none)
  pub kept : (hit ≡ true) ⊎ (after ≡ before)
  pub gone : (s ≡ false) ⊎ ((hit ≡ false) ⊎ (after ≡ none))

no_entries :
    (folder base : Bytes) (success : Bool) (w : World)
    → remove_versions folder base [] success w ≡ done (success, w)
unfolding remove_versions
no_entries folder base success w = refl

module _ (folder base q : Bytes) where
  -- after a failure nothing more is removed
  remove_versions-failed :
      (list : List (Bytes × Bool)) (w w' : World) (s : Bool)
      → remove_versions folder base list false w ≡ done (s, w')
      → (s ≡ false) × (w' ≡ w)
  remove_versions-failed [] w w' s e = done-parts (sym (no_entries folder base false w) ∙ e)
  remove_versions-failed ((name, regular) ∷ rest) w w' s e =
      elim (Bool-cases (regular && starts_with base name)) [
        | inr miss ↦
            remove_versions-failed rest w w' s
              (sym (skip folder base name rest w regular false miss) ∙ e)
        | inl hit ↦ elim (store-cases max_path_len (in_folder folder name)) [
          | inr bad ↦ absurd (cc (too_long folder base name rest w regular false hit bad))
          | inl fits ↦
              remove_versions-failed rest w w' s
                (sym (after_failure folder base name rest w regular hit fits) ∙ e)
        ]
      ]

  pub remove_versions-Pruned :
      (list : List (Bytes × Bool)) (w w' : World) (s : Bool)
      → remove_versions folder base list true w ≡ done (s, w')
      → Pruned (matched folder base q list) s (find q w.fs.entries) (find q w'.fs.entries)
  remove_versions-Pruned [] w w' s e =
      let (st, same) = done-parts (sym (no_entries folder base true w) ∙ e) in
      let eq = ap (λ v. find q v.fs.entries) same in
      record { either = inl eq; kept = inr eq; gone = inr (inl refl) }
  remove_versions-Pruned ((name, regular) ∷ rest) w w' s e =
      elim (Bool-cases (regular && starts_with base name)) [
        | inr miss ↦
            let p =
              remove_versions-Pruned rest w w' s
                (sym (skip folder base name rest w regular true miss) ∙ e) in
            record { either = p.either; kept = rw miss p.kept; gone = rw miss p.gone }
        | inl hit ↦ elim (store-cases max_path_len (in_folder folder name)) [
          | inr bad ↦ absurd (cc (too_long folder base name rest w regular true hit bad))
          | inl fits ↦ elim (remove-cases w.fs (in_folder folder name)) [
            | inl refused ↦
                let (st, same) = remove_versions-failed rest w w' s (
                  sym (one_removed folder base name rest w regular false w.fs hit fits refused)
                  ∙ e) in
                let eq = ap (λ v. find q v.fs.entries) same in
                record { either = inl eq; kept = inr eq; gone = inl st }
            | inr removed ↦
                let fs = record w.fs { entries = discard (in_folder folder name) w.fs.entries } in
                let p = remove_versions-Pruned rest (with_fs w fs) w' s (
                  sym (one_removed folder base name rest w regular true fs hit fits removed) ∙ e) in
                let d = find-discard (in_folder folder name) q w.fs.entries in
                record {
                  either = ground (arith, p.either, d);
                  kept = rw hit (ground (arith, p.kept, d));
                  gone = rw hit (ground (arith, p.gone, p.either, d));
                }
          ]
        ]
      ]

  -- Where the loop over the version folder returns true, each listed regular file whose name starts
  -- with the base name is gone.
  pub remove_versions-gone :
      (list : List (Bytes × Bool)) (w w' : World)
      → remove_versions folder base list true w ≡ done (true, w')
      → matched folder base q list ≡ true
      → find q w'.fs.entries ≡ none
  remove_versions-gone list w w' e hit =
      let p = remove_versions-Pruned list w w' true e in ground (arith, p.gone)

  -- Every other entry is as it was, whatever the loop returns.
  pub remove_versions-kept :
      (list : List (Bytes × Bool)) (w w' : World) (s : Bool)
      → remove_versions folder base list true w ≡ done (s, w')
      → matched folder base q list ≡ false
      → find q w'.fs.entries ≡ find q w.fs.entries
  remove_versions-kept list w w' s e miss =
      let p = remove_versions-Pruned list w w' s e in ground (arith, p.kept)
