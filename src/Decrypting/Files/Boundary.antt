-- ===== src/Decrypting/Files/Boundary.antt =====
-- What the visits keep: a predicate on the state that no decryption ends, and no write to a path
-- that `SecureJoin` made of the root.
use fork_kustomize_controlle.Prelude.{
  String, Bool, true, false, ◌||◌, List, [], ◌∷◌, ◌==◌, if◌then◌else◌, ◌≡◌, refl, ap, subst,
  contains, string_eq, Bool-cases, inl, inr,
}
use fork_kustomize_controlle.Errors.{Err, Result, ok, err, >>=-eq-ok, ok-injective}
use fork_kustomize_controlle.Decrypting.Task.{Task, ◌>>=◌, return, get, wrap, skip, run_on}
use fork_kustomize_controlle.Decrypting.Paths.{
  secure_paths, strip_root, secure_path_err, is_abs, join,
}
use fork_kustomize_controlle.Decrypting.Formats.{Format, format_for_path}
use fork_kustomize_controlle.Decrypting.Types.{KeyApi}
use fork_kustomize_controlle.Decrypting.Trees.{TreeApi}
use fork_kustomize_controlle.Decrypting.Files.{
  Walked, FileApi, SecretGenerator, KustomizationFile, reading, writing, decrypting, secured,
  record_decrypted, for_each, decrypt_content, sops_decrypt_file, decrypt_ref, visit_ref,
  visit_file_source, visit_env_source, visit_generator, visit_patch, is_remote_url,
  decrypt_kustomization_sources, split_source, dotenv_by_default, check_file,
}

pub record Keeps {W A : Type 0} (P : Walked W → Type 0) (m : Task (Walked W) A) : Type 0 where
  pub at : (s : Walked W) → P s → P (m s).1

module _ {W A B : Type 0} {P : Walked W → Type 0} where
  -- The second call is given what the first one returned.
  pub Keeps-bind :
      (m : Task (Walked W) A) (f : A → Task (Walked W) B)
      → Keeps P m
      → ((a : A) (s : Walked W) → (m s).0 ≡ ok a → Keeps P (f a))
      → Keeps P (m >>= f)
  unfolding ◌>>=◌
  Keeps-bind m f hm hf = record { at = λ s p. next s (m s) refl (hm.at s p) }
    where
      next : (s : Walked W) (q : Result A × Walked W) → m s ≡ q → P q.1 → P (run_on q.0 f q.1).1
      next s (ok a, t) h p = (hf a s (ap (λ q. q.0) h)).at t p
      next s (err e, t) h p = p

module _ {W A : Type 0} {P : Walked W → Type 0} where
  pub Keeps-return : (r : Result A) → Keeps P (return r)
  unfolding return
  Keeps-return r = record { at = λ s p. p }

  pub Keeps-reading : (f : W → Result A) → Keeps P (reading f)
  unfolding reading
  Keeps-reading f = record { at = λ s p. p }

  pub Keeps-wrap : (f : Err → Err) (m : Task (Walked W) A) → Keeps P m → Keeps P (wrap f m)
  unfolding wrap
  Keeps-wrap f m h = record { at = λ s p. h.at s p }

  pub Keeps-if :
      (b : Bool) (m n : Task (Walked W) A) → Keeps P m → Keeps P n → Keeps P (if b then m else n)
  Keeps-if true m n hm hn = hm
  Keeps-if false m n hm hn = hn

module _ {W : Type 0} {P : Walked W → Type 0} where
  pub Keeps-get : Keeps P get
  unfolding get
  Keeps-get = record { at = λ s p. p }

  pub Keeps-skip : Keeps P skip
  unfolding skip
  Keeps-skip = record { at = λ s p. p }

  Keeps-for_each :
      {A : Type 0} (f : A → Task (Walked W) Unit) (xs : List A)
      → ((a : A) → Keeps P (f a))
      → Keeps P (for_each f xs)
  unfolding for_each
  Keeps-for_each f [] h = Keeps-skip
  Keeps-for_each f (x ∷ xs) h = Keeps-bind (f x) _ (h x) (λ done s e. Keeps-for_each f xs h)

module _ {W T : Type 0} (api : KeyApi W) (trees : TreeApi W T) (files : FileApi W)
    (root : String) where
  -- A path that was made of the root in this world.
  abbrev pub SecuredIn : W → String → Type 0
  SecuredIn w path = (p : String) × (files.secure_join root p w ≡ ok path)

  pub secured-SecuredIn :
      (path abs rel : String) (s : Walked W)
      → (secured files root path s).0 ≡ ok (abs, rel)
      → SecuredIn s.state.session.world abs
  unfolding secured secure_paths
  secured-SecuredIn path abs rel s h =
      let (a, joined, same) =
        >>=-eq-ok
          (files.secure_join root (if is_abs path then strip_root root path else path)
            s.state.session.world)
          _ h in
      (
        _,
        subst
            (λ x.
              files.secure_join root (if is_abs path then strip_root root path else path)
                s.state.session.world
              ≡ ok x)
            (ap (λ p. p.0) (ok-injective same)) joined,
      )

  -- A path that was made of the root.
  abbrev pub Secured : String → Type 0
  Secured path = (p : String) × (w : W) × (files.secure_join root p w ≡ ok path)

  -- A predicate that the decryption of a file keeps.
  record Writes (P : Walked W → Type 0) : Type 0 where
    decryption :
        (s : Walked W) (bytes : String) (in_f out_f : Format)
        → P s
        → P (decrypting api trees files bytes in_f out_f s).1
    write : (s : Walked W) (path out : String) → Secured path → P s → P (writing files path out s).1

  -- A predicate that the visits keep. Only a path that is not recorded is recorded.
  pub record Frame (P : Walked W → Type 0) : Type 0 where
    pub decryption :
        (s : Walked W) (bytes : String) (in_f out_f : Format)
        → P s
        → P (decrypting api trees files bytes in_f out_f s).1
    pub write :
        (s : Walked W) (path out : String) → Secured path → P s → P (writing files path out s).1
    pub recording :
        (s : Walked W) (path : String)
        → contains path s.decrypted ≡ false
        → P s
        → P (record_decrypted path s).1

  pub secured-Secured :
      (path : String) (s : Walked W) (paths : String × String)
      → (secured files root path s).0 ≡ ok paths
      → Secured paths.0
  secured-Secured path s paths h =
      let (p, joined) = secured-SecuredIn path paths.0 paths.1 s h in
      (p, s.state.session.world, joined)

  module _ {P : Walked W → Type 0} (writes : Writes P) where
    Keeps-content :
        (path bytes : String) (in_f out_f : Format)
        → Secured path
        → Keeps P (decrypt_content api trees files path bytes in_f out_f)
    unfolding decrypt_content
    Keeps-content path bytes in_f out_f inside = Keeps-if _ skip _ Keeps-skip (
        Keeps-bind (decrypting api trees files bytes in_f out_f) _
          (record { at = λ s p. writes.decryption s bytes in_f out_f p })
          (λ out s e. Keeps-wrap _ _ (record { at = λ s p. writes.write s path out inside p })))

    Keeps-file :
        (path : String) (in_f out_f : Format)
        → Secured path
        → Keeps P (sops_decrypt_file api trees files path in_f out_f)
    unfolding sops_decrypt_file
    Keeps-file path in_f out_f inside = Keeps-bind get _ Keeps-get (λ s₀ s e.
        Keeps-bind (reading (files.lstat path)) _ (Keeps-reading _) (λ fi s e.
          Keeps-bind (return (check_file s₀.state.decryptor fi)) _ (Keeps-return _) (λ u s e.
            Keeps-bind (reading (files.read_file path)) _ (Keeps-reading _)
              (λ bytes s e. Keeps-content path bytes in_f out_f inside))))

  module _ {P : Walked W → Type 0} (frame : Frame P) where
    Keeps-secured : (path : String) → Keeps P (secured files root path)
    unfolding secured
    Keeps-secured path = record { at = λ s p. p }

    -- The path is not recorded, and will not be by the decryption of a file.
    abbrev Fresh : String → Walked W → Type 0
    Fresh abs s = P s × (contains abs s.decrypted ≡ false)

    Writes-Fresh : (abs : String) → Writes (Fresh abs)
    unfolding decrypting writing
    Writes-Fresh abs = record {
      decryption = λ s bytes in_f out_f h. (frame.decryption s bytes in_f out_f h.0, h.1);
      write = λ s path out inside h. (frame.write s path out inside h.0, h.1);
    }

    decrypt_ref_keeps :
        (abs : String) (format : Format) (s : Walked W)
        → Secured abs
        → Fresh abs s
        → P (decrypt_ref api trees files root abs format s).1
    unfolding decrypt_ref ◌>>=◌
    decrypt_ref_keeps abs format s inside h =
        recorded
          (wrap (secure_path_err root) (sops_decrypt_file api trees files abs format format) s)
          ((Keeps-wrap (secure_path_err root) _
              (Keeps-file (Writes-Fresh abs) abs format format inside)).at
            s h)
      where
        recorded :
            (q : Result Unit × Walked W)
            → Fresh abs q.1
            → P (run_on q.0 (λ done. record_decrypted abs) q.1).1
        recorded (ok done, t) h = frame.recording t abs h.1 h.0
        recorded (err e, t) h = h.0

    Keeps-at_paths :
        (abs : String) (format : Format)
        → Secured abs
        → Keeps P (
            get >>= λ s.
            if contains abs s.decrypted then skip else decrypt_ref api trees files root abs format)
    unfolding ◌>>=◌ get skip
    Keeps-at_paths abs format inside = record {
      at = λ s p. elim (Bool-cases (contains abs s.decrypted)) [
        | inl seen ↦ rw seen p
        | inr fresh ↦ rw fresh (decrypt_ref_keeps abs format s inside (p, fresh))
      ];
    }

    Keeps-ref :
        (path source : String) (format : Format)
        → Keeps P (visit_ref api trees files root path source format)
    unfolding visit_ref
    Keeps-ref path source format =
        Keeps-bind (secured files root (if is_abs source then source else join path source))
          (λ paths. get >>= λ s.
            if contains paths.0 s.decrypted
            then skip
            else decrypt_ref api trees files root paths.0 format)
          (Keeps-secured (if is_abs source then source else join path source))
          (λ paths s e.
            Keeps-at_paths paths.0 format
              (secured-Secured (if is_abs source then source else join path source) s paths e))

    Keeps-file_source :
        (path source : String) → Keeps P (visit_file_source api trees files root path source)
    unfolding visit_file_source
    Keeps-file_source path source =
        Keeps-ref path (split_source source).1
          (format_for_path files.known_format (split_source source).0)

    Keeps-env_source :
        (path file : String) → Keeps P (visit_env_source api trees files root path file)
    unfolding visit_env_source
    Keeps-env_source path file =
        Keeps-ref path file (dotenv_by_default (format_for_path files.known_format file))

    Keeps-patch : (path patch : String) → Keeps P (visit_patch api trees files root path patch)
    unfolding visit_patch
    Keeps-patch path patch =
        Keeps-if (patch == "" || is_remote_url files patch) skip
          (visit_ref api trees files root path patch (format_for_path files.known_format patch))
          Keeps-skip (Keeps-ref path patch (format_for_path files.known_format patch))

    Keeps-generator :
        (path : String) (gen : SecretGenerator)
        → Keeps P (visit_generator api trees files root path gen)
    unfolding visit_generator
    Keeps-generator path gen =
        Keeps-bind (for_each (visit_file_source api trees files root path) gen.file_sources)
          (λ done. for_each (visit_env_source api trees files root path) gen.env_sources)
          (Keeps-for_each _ gen.file_sources (Keeps-file_source path))
          (λ done s e. Keeps-for_each _ gen.env_sources (Keeps-env_source path))

    -- The visit of a kustomization file.
    pub Keeps-visit :
        (path : String) (kus : KustomizationFile)
        → Keeps P (decrypt_kustomization_sources api trees files root path kus)
    unfolding decrypt_kustomization_sources
    Keeps-visit path kus =
        Keeps-bind (for_each (visit_generator api trees files root path) kus.secret_generator)
          (λ done. for_each (visit_patch api trees files root path) kus.patches)
          (Keeps-for_each _ kus.secret_generator (Keeps-generator path))
          (λ done s e. Keeps-for_each _ kus.patches (Keeps-patch path))
