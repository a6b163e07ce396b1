-- ===== src/Decrypting/Types.antt =====
-- The decryptor (decryptor.go), its options (options.go), and what it calls.
use fork_kustomize_controlle.Prelude.{
  ℕ, ◌*◌, ◌^◌, String, Bool, true, false, Option, none, some, List, [], ◌∷◌, ◌==◌, if◌then◌else◌,
}
use fork_kustomize_controlle.Errors.{Err, Arg, Result, ok, err, wrapf}
use fork_kustomize_controlle.Api.{Kustomization, Labels}
use fork_kustomize_controlle.Controller.{NamespacedName}
use fork_kustomize_controlle.Sops.MasterKeys.{
  AuthOptions, AwsCredentials, AzureCredential, GcpTokenSource, MasterKeyApi,
}
use fork_kustomize_controlle.Sops.Azure.{AzureApi}
use fork_kustomize_controlle.Sops.Aws.{CredentialsFile}
use fork_kustomize_controlle.Sops.Keyservice.{Server, DefaultServer}

-- What the function that obtains Vault tokens keeps: the tokens by address, and the login paths
-- once they are loaded. The world `W` is what is outside of the program.
pub record Session (W : Type 0) : Type 0 where
  pub tokens : List (String × String)
  pub login_paths : Option (List (String × String))
  pub world : W

-- `auth.GetAccessToken` of the generic provider: its token, or a token of another type
pub data AccessToken : Type 0 where
  generic_token : String → AccessToken
  other_token : String → AccessToken

pub record VaultInstance : Type 0 where
  pub address : String
  pub login_path : String

pub record VaultConfig : Type 0 where
  pub instances : List VaultInstance

-- `Decryptor`; the client is in the parameters.
pub record Decryptor (W : Type 0) : Type 0 where
  pub root : String
  pub kustomization : Kustomization
  pub max_file_size : ℕ
  pub check_sops_mac : Bool
  -- a token cache is set
  pub token_cache : Bool
  pub gnupg_home : String
  pub age_identities : List String
  pub vault_token : String
  pub vault_k8s_auth : Option (String → Session W → Result String × Session W)
  pub vault_config_map : Option NamespacedName
  pub aws_credentials_provider : Option (String → AwsCredentials)
  pub azure_token_credential : Option AzureCredential
  pub gcp_token_source : Option GcpTokenSource
  -- the server of the key services, once it is loaded
  pub key_services : Option (Server (Session W))
  pub sops_age_secret : Option NamespacedName

pub record State (W : Type 0) : Type 0 where
  pub decryptor : Decryptor W
  pub session : Session W

-- The API server, the identity provider, Vault, and the functions of the libraries.
pub record KeyApi (W : Type 0) : Type 0 where
  pub new_gnupg_home : W → Result String × W
  pub is_not_found : Err → Bool
  -- the data of a Secret, in the order in which the program visits it, and of a ConfigMap
  pub get_secret : NamespacedName → W → Result Labels × W
  pub get_config_map : NamespacedName → W → Result Labels × W
  -- the import into the keyring at a home directory
  pub import_pgp : String → String → W → Result {0} Unit × W
  -- the identities, and those that a text adds
  pub import_age : List String → String → Result (List String)
  pub trim_space : String → String
  pub unmarshal_aws : String → Result CredentialsFile
  pub azure : AzureApi
  pub credentials_from_json : String → Result GcpTokenSource
  -- `auth.GetDefaultDecryptionServiceAccount`
  pub default_service_account : String
  pub get_access_token : AuthOptions → W → Result AccessToken × W
  -- the base64 and the JSON of a token's payload, and its subject
  pub decode_raw_url : String → Result String
  pub unmarshal_subject : String → Result String
  pub unmarshal_vault_config : String → Result VaultConfig
  -- a client for the address, and the secret that a write of a role and a token returns: nil, or
  -- its client token, which is empty where there is no authentication in it
  pub new_vault_client : String → Result {0} Unit
  pub write_login : String → String → String → String → W → Result (Option String) × W
  pub master_keys : MasterKeyApi
  pub sops_server : DefaultServer

-- The options of options.go.
pub data DecryptorOption : Type 0 where
  with_root : String → DecryptorOption
  with_token_cache : DecryptorOption
  with_sops_age_secret : String → String → DecryptorOption
  with_vault_config_map : String → String → DecryptorOption

-- `maxEncryptedFileSize`
abbrev pub max_encrypted_file_size : ℕ
max_encrypted_file_size = 5 * 2 ^ 20

module _ {W : Type 0} where
  -- What the functions `With…` return.
  unfoldable pub apply_option : DecryptorOption → Decryptor W → Decryptor W
  apply_option (with_root root) d = record d { root = root }
  apply_option with_token_cache d = record d { token_cache = true }
  apply_option (with_sops_age_secret name namespace) d = record d {
    sops_age_secret = some (record { namespace = namespace; name = name });
  }
  apply_option (with_vault_config_map name namespace) d = record d {
    vault_config_map = some (record { namespace = namespace; name = name });
  }

  abbrev pub apply_options : List DecryptorOption → Decryptor W → Decryptor W
  apply_options [] d = d
  apply_options (o ∷ os) d = apply_options os (apply_option o d)

  abbrev pub bare_decryptor : Kustomization → String → Decryptor W
  bare_decryptor kustomization home = record {
    root = "";
    kustomization = kustomization;
    max_file_size = max_encrypted_file_size;
    check_sops_mac = false;
    token_cache = false;
    gnupg_home = home;
    age_identities = [];
    vault_token = "";
    vault_k8s_auth = none;
    vault_config_map = none;
    aws_credentials_provider = none;
    azure_token_credential = none;
    gcp_token_source = none;
    key_services = none;
    sops_age_secret = none;
  }

  -- `New`; the caller removes the home directory.
  unfoldable pub new :
      KeyApi W → Kustomization → List DecryptorOption → W → Result (Decryptor W) × W
  unfolding apply_option
  new api kustomization os w = let (home, w') = api.new_gnupg_home w in (made home, w')
    where
      made : Result String → Result (Decryptor W)
      made (ok home) = ok (apply_options os (bare_decryptor kustomization home))
      made (err e) = err (wrapf (Arg.str "cannot create decryptor: %w") e)

-- A map that is read and written by its keys, the last write first.
unfoldable pub find : String → Labels → Option String
find k [] = none
find k ((j, v) ∷ rest) = let found = find k rest in if j == k then some v else found
