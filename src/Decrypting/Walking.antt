-- ===== src/Decrypting/Walking.antt =====
-- `secureLoadKustomizationFile`, `recurseKustomizationFiles` and `DecryptSources`: the walk over the
-- kustomization files from a directory on.
pub mod Visits
pub mod Termination
pub mod Boundary
pub mod Once
use fork_kustomize_controlle.Prelude.{
  ℕ, zero, suc, String, Bool, true, false, not, Option, none, some, List, [], ◌∷◌, ◌++◌, ◌==◌,
  if◌then◌else◌, on_option, contains, string_eq,
}
use fork_kustomize_controlle.Errors.{
  Err, Arg, Result, ok, err, wrapf, errorf, recurse_ignore, sprintf₁,
}
use fork_kustomize_controlle.Decrypting.Task.{
  Task, ◌>>=◌, return, get, modify, skip, wrap, failed_with,
}
use fork_kustomize_controlle.Decrypting.Paths.{is_abs, join, secure_path_err}
use fork_kustomize_controlle.Decrypting.Types.{State, KeyApi}
use fork_kustomize_controlle.Decrypting.Keys.{sops_provider}
use fork_kustomize_controlle.Decrypting.Trees.{TreeApi}
use fork_kustomize_controlle.Decrypting.Files.{
  FileApi, FileInfo, KustomizationFile, Walked, is_not_exist, reading, secured,
  decrypt_kustomization_sources,
}

module _ {W T : Type 0} (api : KeyApi W) (trees : TreeApi W T) (files : FileApi W) where
  -- What a name of a kustomization file adds to the path that was found before.
  abbrev on_stat :
      String → String → Option String → Result FileInfo → (Err → Err) → Result (Option String)
  on_stat name path found (err e) secure =
      if is_not_exist e
      then ok found
      else err (wrapf (sprintf₁ "failed to lstat %s: %w" name) (secure e))
  on_stat name path found (ok fi) secure =
      if not fi.is_regular
      then err (errorf (sprintf₁ "expected %s to be a regular file" name))
      else on_option found (ok (some path))
          (λ other. err (errorf (Arg.str "found multiple kustomization files")))

  abbrev joined : String → Result String → Result String
  joined name = failed_with (wrapf (sprintf₁ "failed to secure join %s: %w" name))

  -- The loop over the recognized names.
  unfoldable pub find_kustomization_file :
      String → String → List String → Option String → Task (Walked W) (Option String)
  unfolding ◌>>=◌ return get is_not_exist reading join secure_path_err
  find_kustomization_file root path [] found = return (ok found)
  find_kustomization_file root path (name ∷ names) found = do
    file ← reading (λ w. joined name (files.secure_join root (join path name) w))
    s ← get
    found' ←
        return
          (on_stat name file found (files.lstat file s.state.session.world) (secure_path_err root))
    find_kustomization_file root path names found'

  abbrev parsed : String → Result KustomizationFile → Result KustomizationFile
  parsed path =
      failed_with (wrapf (sprintf₁ "failed to unmarshal kustomization file from '%s': %w" path))

  abbrev read_error : String → Err → Err
  read_error root e =
      wrapf (Arg.str "failed to read kustomization file: %w") (secure_path_err root e)

  abbrev found_file : Option String → Result String
  found_file found = on_option found (err (errorf (Arg.str "no kustomization file found"))) ok

  -- `secureLoadKustomizationFile`
  unfoldable pub secure_load_kustomization_file :
      String → String → Task (Walked W) KustomizationFile
  unfolding ◌>>=◌ return reading wrap find_kustomization_file is_abs
  secure_load_kustomization_file root path =
      if not (is_abs root)
      then return (err (errorf (sprintf₁ "root '%s' must be absolute" root)))
      else if is_abs path
      then return (err (errorf (sprintf₁ "path '%s' must be relative" path)))
      else (do
        found ← find_kustomization_file root path files.recognized_names none
        file ← return (found_file found)
        bytes ← wrap (read_error root) (reading (files.read_file file))
        return (parsed file (files.unmarshal_kustomization bytes)))

  -- What is returned where the directory cannot be read.
  unfoldable pub stat_error : String → Err → Err
  unfolding is_not_exist secure_path_err
  stat_error root e =
      let secure = secure_path_err root e in
      if is_not_exist secure then recurse_ignore secure else secure

  abbrev check_dir : FileInfo → Result {0} Unit
  check_dir fi =
      if fi.is_dir then ok tt else err (recurse_ignore (errorf (Arg.str "not a directory")))

  -- A directory that was not visited before: its kustomization file is loaded and visited, and what
  -- it refers to is returned.
  unfoldable pub visit_directory : String → String → String → String → Task (Walked W) (List String)
  unfolding ◌>>=◌ return reading wrap stat_error secure_load_kustomization_file
      decrypt_kustomization_sources
  visit_directory root path abs rel = do
    fi ← wrap (stat_error root) (reading (files.lstat abs))
    checked ← return (check_dir fi)
    kus ← secure_load_kustomization_file root rel
    done ← decrypt_kustomization_sources api trees files root path kus
    return (ok (kus.resources ++ kus.components))

  abbrev is_ignored : Err → Bool
  is_ignored (recurse_ignore e) = true
  is_ignored _ = false

  abbrev continue_on :
      Result {0} Unit
      → Walked W
      → Option (Result {0} Unit × Walked W)
      → Option (Result {0} Unit × Walked W)
  continue_on (ok u) s rest = rest
  continue_on (err e) s rest = if is_ignored e then rest else some (err e, s)

  -- The loop over the references, with the function that recurses into one of them.
  unfoldable pub walk_each :
      (String → Walked W → Option (Result {0} Unit × Walked W))
      → String
      → List String
      → Walked W
      → Option (Result {0} Unit × Walked W)
  unfolding is_abs join
  walk_each recurse path [] s = some (ok tt, s)
  walk_each recurse path (res ∷ rest) s =
      on_option (recurse (if is_abs res then res else join path res) s) none
        (λ (r, t). continue_on r t (walk_each recurse path rest t))

  abbrev mark_visited : String → Walked W → Walked W
  mark_visited abs s = record s { visited = abs ∷ s.visited }

  abbrev into :
      (List String → Walked W → Option (Result {0} Unit × Walked W))
      → Result (List String) × Walked W
      → Option (Result {0} Unit × Walked W)
  into next (ok resources, s) = next resources s
  into next (err e, s) = some (err e, s)

  abbrev at_directory :
      (List String → Walked W → Option (Result {0} Unit × Walked W))
      → String
      → String
      → Result (String × String)
      → Walked W
      → Option (Result {0} Unit × Walked W)
  at_directory next root path (err e) s = some (err e, s)
  at_directory next root path (ok (abs, rel)) s =
      if contains abs s.visited
      then some (ok tt, s)
      else into next (visit_directory root path abs rel (mark_visited abs s))

  -- `recurseKustomizationFiles`, to the depth that the fuel allows
  unfoldable pub recurse_kustomization_files :
      String → ℕ → String → Walked W → Option (Result {0} Unit × Walked W)
  unfolding secured visit_directory walk_each
  recurse_kustomization_files root zero path s = none
  recurse_kustomization_files root (suc n) path s =
      at_directory (walk_each (recurse_kustomization_files root n) path) root path
        (secured files root path s).0 s

  abbrev pub begin : State W → Walked W
  begin s = record { state = s; decrypted = []; visited = [] }

  -- `DecryptSources`
  unfoldable pub decrypt_sources : ℕ → String → State W → Option (Result {0} Unit × Walked W)
  unfolding recurse_kustomization_files
  decrypt_sources fuel path s =
      on_option s.decryptor.kustomization.spec.decryption (some (ok tt, begin s)) (λ decryption.
        if not (decryption.provider == sops_provider)
        then some (ok tt, begin s)
        else recurse_kustomization_files s.decryptor.root fuel path (begin s))
