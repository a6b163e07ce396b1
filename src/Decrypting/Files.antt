-- ===== src/Decrypting/Files.antt =====
-- The files that a Kustomization refers to: `sopsDecryptFile`, the visit of a kustomization file by
-- `decryptKustomizationSources`, and `secureLoadKustomizationFile`.
pub mod Boundary
pub mod Untouched
use Prim.Native.String.{◌++◌}
use fork_kustomize_controlle.Prelude.{
  ℕ, String, Bool, true, false, not, ◌||◌, ◌&&◌, Option, none, some, List, [], ◌∷◌, ◌++◌ as append,
  ◌==◌, if◌then◌else◌, on_option, ltb, contains, string_eq,
}
use fork_kustomize_controlle.Prelude.Texts.{occurs_in, cut_at}
use fork_kustomize_controlle.Errors.{
  Err, Arg, Result, ok, err, wrapf, errorf, path_error, terminal, not_exist, user_error,
  recurse_ignore, sprintf₁, sprintf₂,
}
use fork_kustomize_controlle.Decrypting.Task.{
  Task, ◌>>=◌, return, get, modify, skip, wrap, failed_with,
}
use fork_kustomize_controlle.Decrypting.Paths.{is_abs, join, secure_paths, secure_path_err}
use fork_kustomize_controlle.Decrypting.Formats.{
  Format, format_for_path, sops_format_to_string, sops_format_to_marker_bytes,
}
use fork_kustomize_controlle.Decrypting.Types.{Decryptor, Session, State, KeyApi}
use fork_kustomize_controlle.Decrypting.Trees.{TreeApi, sops_decrypt_with_format}

pub record FileInfo : Type 0 where
  pub is_regular : Bool
  pub is_dir : Bool
  pub size : ℕ

pub record SecretGenerator : Type 0 where
  pub file_sources : List String
  pub env_sources : List String

-- `kustypes.Kustomization`: a kustomization file; of its patches, their paths.
pub record KustomizationFile : Type 0 where
  pub secret_generator : List SecretGenerator
  pub patches : List String
  pub resources : List String
  pub components : List String

-- The file system, which is a part of the world, and what is parsed. Reading leaves the world.
pub record FileApi (W : Type 0) : Type 0 where
  pub lstat : String → W → Result FileInfo
  pub read_file : String → W → Result String
  pub write_file : String → String → W → Result {0} Unit × W
  -- `securejoin.SecureJoin`
  pub secure_join : String → String → W → Result String
  -- `konfig.RecognizedKustomizationFileNames`
  pub recognized_names : List String
  pub unmarshal_kustomization : String → Result KustomizationFile
  -- `url.Parse`: the scheme and the host
  pub parse_url : String → Result (String × String)
  pub known_format : String → Format

-- `errors.Is(err, fs.ErrNotExist)`
unfoldable pub is_not_exist : Err → Bool
is_not_exist not_exist = true
is_not_exist (path_error op path e) = is_not_exist e
is_not_exist (wrapf f e) = is_not_exist e
is_not_exist (terminal e) = is_not_exist e
is_not_exist (recurse_ignore e) = is_not_exist e
is_not_exist _ = false

-- The state of `DecryptSources`: the files that were decrypted and the directories that were
-- visited.
pub record Walked (W : Type 0) : Type 0 where
  pub state : State W
  pub decrypted : List String
  pub visited : List String

abbrev pub with_world : {W : Type 0} → State W → W → State W
with_world s w = record s { session = record s.session { world = w } }

-- `strings.SplitN(fileSrc, "=", 2)`: the key and the path
unfoldable pub split_source : String → String × String
unfolding cut_at
split_source source = on_option (cut_at 61 source) (source, source) (λ p. p)

abbrev pub dotenv_by_default : Format → Format
dotenv_by_default Format.binary = Format.dotenv
dotenv_by_default f = f

abbrev not_written : Format → Format → Err → Err
not_written in_f out_f e =
    wrapf
      (sprintf₂ "error writing sops decrypted %s data to %s file: %w" (sops_format_to_string in_f)
        (sops_format_to_string out_f))
      e

module _ {W : Type 0} where
  -- A call on the file system that reads.
  unfoldable pub reading : {A : Type 0} → (W → Result A) → Task (Walked W) A
  reading f s = (f s.state.session.world, s)

  abbrev pub check_file : Decryptor W → FileInfo → Result {0} Unit
  check_file d fi =
      if not fi.is_regular
      then err (errorf (Arg.str "cannot decrypt irregular file as it has file mode type bits set"))
      else if ltb 0 d.max_file_size && ltb d.max_file_size fi.size
      then err (errorf (Arg.str "cannot decrypt file with size (%d bytes) exceeding limit (%d)"))
      else ok tt

  unfoldable pub record_decrypted : String → Task (Walked W) Unit
  record_decrypted path s = (ok tt, record s { decrypted = path ∷ s.decrypted })

  unfoldable pub for_each :
      {A : Type 0} → (A → Task (Walked W) Unit) → List A → Task (Walked W) Unit
  unfolding ◌>>=◌ skip
  for_each f [] = skip
  for_each f (x ∷ xs) = f x >>= λ done. for_each f xs

module _ {W : Type 0} (files : FileApi W) where
  -- `isRemoteURL`
  unfoldable pub is_remote_url : String → Bool
  is_remote_url path = remote (files.parse_url path)
    where
      remote : Result (String × String) → Bool
      remote (ok (scheme, host)) = not (scheme == "") && not (host == "")
      remote (err e) = false

  unfoldable pub writing : String → String → Task (Walked W) Unit
  writing path out s =
      let (r, w) = files.write_file path out s.state.session.world in
      (r, record s { state = with_world s.state w })

  unfoldable pub secured : String → String → Task (Walked W) (String × String)
  unfolding secure_paths
  secured root path s =
      (secure_paths (λ r p. files.secure_join r p s.state.session.world) root path, s)

module _ {W T : Type 0} (api : KeyApi W) (trees : TreeApi W T) (files : FileApi W) where
  unfoldable pub decrypting : String → Format → Format → Task (Walked W) String
  unfolding sops_decrypt_with_format
  decrypting bytes in_f out_f s =
      let (r, t) = sops_decrypt_with_format api trees bytes in_f out_f s.state in
      (r, record s { state = t })

  unfoldable pub decrypt_content : String → String → Format → Format → Task (Walked W) Unit
  unfolding ◌>>=◌ skip wrap decrypting writing occurs_in
  decrypt_content path bytes in_f out_f =
      if not (occurs_in (sops_format_to_marker_bytes in_f) bytes)
      then skip
      else (decrypting bytes in_f out_f >>= λ out.
          wrap (not_written in_f out_f) (writing files path out))

  -- `sopsDecryptFile`
  unfoldable pub sops_decrypt_file : String → Format → Format → Task (Walked W) Unit
  unfolding ◌>>=◌ return get reading decrypt_content
  sops_decrypt_file path in_f out_f = do
    s ← get
    fi ← reading (files.lstat path)
    checked ← return (check_file s.state.decryptor fi)
    bytes ← reading (files.read_file path)
    decrypt_content path bytes in_f out_f

  -- A path is recorded after its decryption.
  unfoldable pub decrypt_ref : String → String → Format → Task (Walked W) Unit
  unfolding ◌>>=◌ wrap sops_decrypt_file record_decrypted secure_path_err
  decrypt_ref root abs format = do
    done ← wrap (secure_path_err root) (sops_decrypt_file abs format format)
    record_decrypted abs

  -- `visitRef`
  unfoldable pub visit_ref : String → String → String → Format → Task (Walked W) Unit
  unfolding ◌>>=◌ get skip secured decrypt_ref is_abs join
  visit_ref root path source format = do
    paths ← secured files root (if is_abs source then source else join path source)
    s ← get
    if contains paths.0 s.decrypted then skip else decrypt_ref root paths.0 format

  unfoldable pub visit_file_source : String → String → String → Task (Walked W) Unit
  unfolding visit_ref split_source format_for_path
  visit_file_source root path source =
      let (key, file) = split_source source in
      visit_ref root path file (format_for_path files.known_format key)

  unfoldable pub visit_env_source : String → String → String → Task (Walked W) Unit
  unfolding visit_ref format_for_path
  visit_env_source root path file =
      visit_ref root path file (dotenv_by_default (format_for_path files.known_format file))

  unfoldable pub visit_generator : String → String → SecretGenerator → Task (Walked W) Unit
  unfolding ◌>>=◌ for_each visit_file_source visit_env_source
  visit_generator root path gen = do
    done ← for_each (visit_file_source root path) gen.file_sources
    for_each (visit_env_source root path) gen.env_sources

  unfoldable pub visit_patch : String → String → String → Task (Walked W) Unit
  unfolding visit_ref skip is_remote_url format_for_path
  visit_patch root path patch =
      if patch == "" || is_remote_url files patch
      then skip
      else visit_ref root path patch (format_for_path files.known_format patch)

  -- The function that `decryptKustomizationSources` returns.
  unfoldable pub decrypt_kustomization_sources :
      String → String → KustomizationFile → Task (Walked W) Unit
  unfolding ◌>>=◌ for_each visit_generator visit_patch
  decrypt_kustomization_sources root path kus = do
    done ← for_each (visit_generator root path) kus.secret_generator
    for_each (visit_patch root path) kus.patches
