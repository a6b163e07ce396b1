-- ===== src/Decrypting/Walking/Visits.antt =====
-- What the visit of a directory keeps.
use fork_kustomize_controlle.Prelude.{String, not, Option, none, List, [], ◌∷◌, string_eq}
use fork_kustomize_controlle.Decrypting.Task.{return, get, wrap}
use fork_kustomize_controlle.Decrypting.Paths.{is_abs, join, secure_path_err}
use fork_kustomize_controlle.Decrypting.Types.{KeyApi}
use fork_kustomize_controlle.Decrypting.Trees.{TreeApi}
use fork_kustomize_controlle.Decrypting.Files.{Walked, FileApi, reading}
use fork_kustomize_controlle.Decrypting.Files.Boundary.{
  Keeps, Keeps-bind, Keeps-return, Keeps-reading, Keeps-wrap, Keeps-if, Keeps-get, Frame,
  Keeps-visit,
}
use fork_kustomize_controlle.Decrypting.Walking.{
  find_kustomization_file, secure_load_kustomization_file, visit_directory, check_dir, stat_error,
  on_stat, joined, found_file, read_error,
}

module _ {W T : Type 0} (api : KeyApi W) (trees : TreeApi W T) (files : FileApi W)
    (root : String) where
  module _ {P : Walked W → Type 0} where
    Keeps-find :
        (path : String) (names : List String) (found : Option String)
        → Keeps P (find_kustomization_file api trees files root path names found)
    unfolding find_kustomization_file
    Keeps-find path [] found = Keeps-return _
    Keeps-find path (name ∷ names) found =
        Keeps-bind
          (reading (λ w. joined api trees files name (files.secure_join root (join path name) w))) _
          (Keeps-reading _)
          (λ file s e. Keeps-bind get _ Keeps-get (λ t u g.
            Keeps-bind
              (return (
                on_stat api trees files name file found (files.lstat file t.state.session.world)
                  (secure_path_err root)))
              _ (Keeps-return _) (λ found' v k. Keeps-find path names found')))

    Keeps-load :
        (path : String) → Keeps P (secure_load_kustomization_file api trees files root path)
    unfolding secure_load_kustomization_file
    Keeps-load path = Keeps-if (not (is_abs root)) (return _) _ (Keeps-return _) (
        Keeps-if (is_abs path) (return _) _ (Keeps-return _) (
          Keeps-bind (find_kustomization_file api trees files root path files.recognized_names none)
            _ (Keeps-find _ _ _)
            (λ found s e.
              Keeps-bind (return (found_file api trees files found)) _ (Keeps-return _) (λ file t g.
                Keeps-bind (wrap (read_error api trees files root) (reading (files.read_file file)))
                  _ (Keeps-wrap _ _ (Keeps-reading _)) (λ bytes u k. Keeps-return _)))))

    -- The visit of a directory.
    pub Keeps-directory :
        Frame api trees files root P
        → (path abs rel : String) → Keeps P (visit_directory api trees files root path abs rel)
    unfolding visit_directory
    Keeps-directory frame path abs rel =
        Keeps-bind (wrap (stat_error api trees files root) (reading (files.lstat abs))) _
          (Keeps-wrap _ _ (Keeps-reading _))
          (λ fi s e.
            Keeps-bind (return (check_dir api trees files fi)) _ (Keeps-return _) (λ checked t g.
              Keeps-bind (secure_load_kustomization_file api trees files root rel) _
                (Keeps-load rel)
                (λ kus u k.
                  Keeps-bind _ _ (Keeps-visit api trees files root frame path kus)
                    (λ done v m. Keeps-return _))))
