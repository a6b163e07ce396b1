-- ===== src/Decrypting/Keys.antt =====
-- `ImportKeys`: the keys of the Secret that the Kustomization refers to, or of the fallback Secret
-- with age keys.
pub mod Fallback
use Prim.Native.Char.{code}
use fork_kustomize_controlle.Prelude.{
  ℕ, String, Bool, true, false, ◌&&◌, not, Option, none, some, List, [], ◌∷◌, ◌==◌, eqb,
  if◌then◌else◌, on_option, is_some,
}
use fork_kustomize_controlle.Prelude.Texts.{trim, occurs_in}
use fork_kustomize_controlle.Errors.{Err, Arg, Result, ok, err, wrapf, arg, nil, sprintf₂}
use fork_kustomize_controlle.Api.{Kustomization, Decryption, Labels}
use fork_kustomize_controlle.Controller.{NamespacedName}
use fork_kustomize_controlle.Sops.MasterKeys.{AwsCredentials, AzureCredential}
use fork_kustomize_controlle.Sops.Aws.{load_static_credentials_from_yaml}
use fork_kustomize_controlle.Sops.Azure.{
  load_aad_config_from_bytes, token_credential_from_aad_config,
}
use fork_kustomize_controlle.Decrypting.Task.{
  Task, ◌>>=◌, return, get, modify, skip, wrap, failed_with,
}
use fork_kustomize_controlle.Decrypting.Types.{Decryptor, State, KeyApi, bare_decryptor}

abbrev pub sops_provider : String
sops_provider = "sops"

-- `filepath.Ext`
unfoldable pub ext : String → String
unfolding occurs_in
ext String.[] = String.[]
ext (String.◌∷◌ c s) =
    let rest = ext s in
    if not (rest == "")
    then rest
    else if eqb (code c) 46 && not (occurs_in "/" s)
    then String.◌∷◌ c s
    else String.[]

abbrev pub bytes_of : String → List ℕ
bytes_of String.[] = []
bytes_of (String.◌∷◌ c s) = code c ∷ bytes_of s

module _ {W : Type 0} where
  -- A call on the world, from the methods of the decryptor.
  unfoldable pub outside : {A : Type 0} → (W → Result A × W) → Task (State W) A
  outside f s =
      let (r, w) = f s.session.world in (r, record s { session = record s.session { world = w } })

  unfoldable pub set : (Decryptor W → Decryptor W) → Task (State W) Unit
  set f s = (ok tt, record s { decryptor = f s.decryptor })

module _ {W : Type 0} (api : KeyApi W) where
  abbrev name_of : NamespacedName → Arg
  name_of n = sprintf₂ "%s/%s" n.namespace n.name

  abbrev unavailable : String → NamespacedName → Err → Err
  unavailable format name e =
      if api.is_not_found e then e else wrapf (Arg.printf format (arg (name_of name) nil)) e

  abbrev not_imported : String → String → NamespacedName → Err → Err
  not_imported format entry name e =
      wrapf (Arg.printf format (arg (Arg.str entry) (arg (name_of name) nil))) e

  unfoldable pub import_pgp : String → Task (State W) Unit
  unfolding ◌>>=◌ get outside
  import_pgp value = do s ← get; outside (api.import_pgp s.decryptor.gnupg_home value)

  unfoldable pub import_age : String → Task (State W) Unit
  unfolding ◌>>=◌ return get set
  import_age value = do
    s ← get
    identities ← return (api.import_age s.decryptor.age_identities value)
    set (λ d. record d { age_identities = identities })

  unfoldable pub import_aws : String → Task (State W) Unit
  unfolding ◌>>=◌ return set load_static_credentials_from_yaml
  import_aws value = do
    credentials ← return (load_static_credentials_from_yaml api.unmarshal_aws value)
    set (λ d. record d { aws_credentials_provider = some (λ region. credentials) })

  unfoldable pub import_azure : String → Task (State W) Unit
  unfolding ◌>>=◌ return set load_aad_config_from_bytes token_credential_from_aad_config
  import_azure value = do
    config ← return (load_aad_config_from_bytes api.azure (bytes_of value))
    token ← return (token_credential_from_aad_config api.azure config)
    set (λ d. record d { azure_token_credential = some token })

  unfoldable pub import_gcp : String → Task (State W) Unit
  unfolding ◌>>=◌ return set trim
  import_gcp value = do
    source ← return (api.credentials_from_json (trim 10 value))
    set (λ d. record d { gcp_token_source = some source })

  -- The `switch` over the extension of an entry.
  unfoldable pub import_entry : String → String → Task (State W) Unit
  unfolding import_pgp import_age import_aws import_azure import_gcp skip set ext trim
  import_entry name value =
      if ext name == ".asc"
      then import_pgp value
      else if ext name == ".agekey"
      then import_age value
      else if name == "sops.vault-token"
      then set (λ d. record d { vault_token = trim 10 (api.trim_space value) })
      else if name == "sops.aws-kms"
      then import_aws value
      else if name == "sops.azure-kv"
      then import_azure value
      else if name == "sops.gcp-kms"
      then import_gcp value
      else skip

  -- The entry of the fallback Secret.
  unfoldable pub import_fallback : String → String → Task (State W) Unit
  unfolding import_age skip ext
  import_fallback name value = if ext name == ".agekey" then import_age value else skip

  -- The loop over the data of a Secret, until an import fails.
  unfoldable pub import_each :
      (String → String → Task (State W) Unit) → (String → Err → Err) → Labels → Task (State W) Unit
  unfolding ◌>>=◌ skip wrap
  import_each import_one failed [] = skip
  import_each import_one failed ((name, value) ∷ rest) =
      wrap (failed name) (import_one name value) >>= λ done. import_each import_one failed rest

  abbrev import_secret : NamespacedName → Task (State W) Unit
  import_secret name = do
    entries ←
        wrap (unavailable "cannot get sops decryption Secret '%s': %w" name)
          (outside (api.get_secret name))
    import_each import_entry
        (λ entry.
          not_imported "failed to import '%s' data from sops decryption Secret '%s': %w" entry name)
        entries

  abbrev pub import_fallback_secret : NamespacedName → Task (State W) Unit
  import_fallback_secret name = do
    entries ←
        wrap (unavailable "cannot get sops SOPS age decryption Secret '%s': %w" name)
          (outside (api.get_secret name))
    import_each import_fallback
        (λ entry.
          not_imported "failed to import '%s' data from sops SOPS age decryption Secret '%s': %w"
            entry name)
        entries

  -- `ImportKeys`
  unfoldable pub import_keys : Task (State W) Unit
  unfolding ◌>>=◌ get outside wrap import_each import_entry import_fallback skip
  import_keys = do
    s ← get
    on_option s.decryptor.kustomization.spec.decryption skip (λ decryption.
        if not (decryption.provider == sops_provider)
        then skip
        else on_option decryption.secret_ref
            (on_option s.decryptor.sops_age_secret skip import_fallback_secret)
            (λ ref.
              import_secret
                (record { namespace = s.decryptor.kustomization.namespace; name = ref })))
