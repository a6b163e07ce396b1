-- ===== src/Sops/Keyservice.antt =====
-- internal/sops/keyservice: the server that encrypts and decrypts data keys (server.go), and its
-- options (options.go). `S` is the state of the function that obtains a Vault token.
pub mod Roundtrip
pub mod Panics
use fork_kustomize_controlle.Prelude.{
  String, Bool, true, false, not, ◌||◌, Option, none, some, List, [], ◌∷◌, ◌==◌, is_some,
  if◌then◌else◌,
}
use fork_kustomize_controlle.Errors.{Err, Arg, Result, ok, err, errorf}
use fork_kustomize_controlle.Api.{Labels}
use fork_kustomize_controlle.Sops.MasterKeys.{
  AwsCredentials, AzureCredential, GcpTokenSource, MasterKeyApi, PgpMasterKey, AgeMasterKey, Reply,
  answer, failure, panicked, reply_of, VaultMasterKey, KmsMasterKey, AzureMasterKey, GcpMasterKey,
}
use fork_kustomize_controlle.Sops.Aws.Region.{get_region_from_kms_arn}

-- The key of a request, with its type. The key, and the message of a known type, may be nil.
pub data KeyType : Type 0 where
  -- the fingerprint
  pgp_key : String → KeyType
  -- the recipient
  age_key : String → KeyType
  -- the address, the engine path and the name
  vault_key : String → String → String → KeyType
  -- the ARN, the role and the context
  kms_key : String → String → Labels → KeyType
  -- the URL, the name and the version
  azure_keyvault_key : String → String → String → KeyType
  gcp_kms_key : String → KeyType
  -- a type that the server does not know
  other_key : String → KeyType
  no_key : KeyType
  -- a message that is nil, for Vault and for the other known types
  nil_vault_key nil_message : KeyType
  -- `req.Key` is nil
  nil_key : KeyType

-- A key and a text: `EncryptRequest` with its plaintext, `DecryptRequest` with its ciphertext.
pub record Request : Type 0 where
  pub key : KeyType
  pub content : String

pub record DefaultServer : Type 0 where
  pub encrypt : Request → Result String
  pub decrypt : Request → Result String

-- `Server`. A field that may be nil is an option. For AWS it is the function that the option
-- makes; its function may be nil, and calling that panics.
pub record Server (S : Type 0) : Type 0 where
  pub gnupg_home : String
  pub age_identities : List String
  pub vault_token : String
  pub vault_k8s_auth : Option (String → S → Result String × S)
  pub azure_token_credential : Option (Option AzureCredential)
  pub aws_credentials_provider : Option (String → Reply (Option AwsCredentials))
  pub gcp_token_source : Option GcpTokenSource
  pub default_server : Option DefaultServer

-- The options, in the order of options.go.
pub data ServerOption (S : Type 0) : Type 0 where
  with_gnupg_home : String → ServerOption S
  with_vault_token : String → ServerOption S
  with_vault_k8s_auth : Option (String → S → Result String × S) → ServerOption S
  with_age_identities : List String → ServerOption S
  with_aws_credentials_provider : Option (String → AwsCredentials) → ServerOption S
  with_gcp_token_source : Option GcpTokenSource → ServerOption S
  with_azure_token_credential : Option AzureCredential → ServerOption S
  with_default_server : Option DefaultServer → ServerOption S

-- `cp := o.CredentialsProvider(region)`
abbrev pub provided : Option (String → AwsCredentials) → String → Reply (Option AwsCredentials)
provided none arn = panicked
provided (some p) arn = answer (some (p (get_region_from_kms_arn arn)))

abbrev pub or_default : DefaultServer → Option DefaultServer → Option DefaultServer
or_default d none = some d
or_default d (some e) = some e

module _ {S : Type 0} where
  -- `ApplyToServer` of each option
  unfoldable pub apply_to_server : ServerOption S → Server S → Server S
  apply_to_server (with_gnupg_home home) s = record s { gnupg_home = home }
  apply_to_server (with_vault_token token) s = record s { vault_token = token }
  apply_to_server (with_vault_k8s_auth f) s = record s { vault_k8s_auth = f }
  apply_to_server (with_age_identities is) s = record s { age_identities = is }
  apply_to_server (with_aws_credentials_provider p) s = record s {
    aws_credentials_provider = some (provided p);
  }
  apply_to_server (with_gcp_token_source t) s = record s { gcp_token_source = t }
  apply_to_server (with_azure_token_credential c) s = record s { azure_token_credential = some c }
  apply_to_server (with_default_server d) s = record s { default_server = d }

  unfoldable pub apply_all : List (ServerOption S) → Server S → Server S
  unfolding apply_to_server
  apply_all [] s = s
  apply_all (o ∷ os) s = apply_all os (apply_to_server o s)

  -- `&Server{}`
  abbrev pub empty_server : Server S
  empty_server = record {
    gnupg_home = "";
    age_identities = [];
    vault_token = "";
    vault_k8s_auth = none;
    azure_token_credential = none;
    aws_credentials_provider = none;
    gcp_token_source = none;
    default_server = none;
  }

  -- `NewServer`, with the server of the SOPS library
  unfoldable pub new_server : DefaultServer → List (ServerOption S) → Server S
  unfolding apply_all
  new_server sops os =
      let s = apply_all os empty_server in
      record s { default_server = or_default sops s.default_server }

-- The methods of the server keep the state of the token function.
abbrev pub Served : Type 0 → Type 0 → Type 0
Served S A = S → Reply A × S

module _ {S A B : Type 0} where
  abbrev pub serve_on : Reply A → (A → Served S B) → Served S B
  serve_on (answer a) f s = f a s
  serve_on (failure e) f s = (failure e, s)
  serve_on panicked f s = (panicked, s)

  infixl 5 ◌>>=◌
  unfoldable pub ◌>>=◌ : Served S A → (A → Served S B) → Served S B
  ◌>>=◌ m f s = let (r, t) = m s in serve_on r f t

module _ {S A : Type 0} where
  unfoldable pub give : Reply A → Served S A
  give r s = (r, s)

  unfoldable pub return_of : Result A → Served S A
  return_of r s = (reply_of r, s)

module _ (api : MasterKeyApi) {S : Type 0} (ks : Server S) where
  abbrev pub pgp_master_key : String → PgpMasterKey
  pgp_master_key fingerprint = record {
    fingerprint = fingerprint;
    disable_open_pgp = true;
    home = if not (ks.gnupg_home == "") then some ks.gnupg_home else none;
    encrypted_key = "";
  }

  abbrev pub age_master_key : String → List String → AgeMasterKey
  age_master_key recipient identities = record {
    recipient = recipient;
    identities = identities;
    encrypted_key = "";
  }

  abbrev pub vault_master_key : String → String → String → String → VaultMasterKey
  vault_master_key address path name token = record {
    vault_address = address;
    engine_path = path;
    key_name = name;
    token = token;
    encrypted_key = "";
  }

  -- `kmsKeyToMasterKey`, and the credentials
  abbrev pub kms_key_to_master_key : String → String → Labels → Option AwsCredentials → KmsMasterKey
  kms_key_to_master_key arn role context credentials = record {
    arn = arn;
    role = role;
    encryption_context = context;
    credentials = credentials;
    encrypted_key = "";
  }

  abbrev pub azure_master_key : String → String → String → Option AzureCredential → AzureMasterKey
  azure_master_key url name version credential = record {
    vault_url = url;
    name = name;
    version = version;
    credential = credential;
    encrypted_key = "";
  }

  abbrev pub gcp_master_key : String → GcpMasterKey
  gcp_master_key id = record { resource_id = id; source = ks.gcp_token_source; encrypted_key = "" }

  abbrev replied : Result String × S → Reply String × S
  replied (r, s) = (reply_of r, s)

  abbrev exchanged : Option (String → S → Result String × S) → String → Served S String
  exchanged none address s = (panicked, s)
  exchanged (some f) address s = replied (f address s)

  -- `resolveVaultToken`
  unfoldable pub resolve_vault_token : String → Served S String
  resolve_vault_token address s =
      if not (ks.vault_token == "")
      then (answer ks.vault_token, s)
      else exchanged ks.vault_k8s_auth address s

  -- `ks.awsCredentialsProvider(key.Arn)`
  abbrev pub aws_credentials : String → Reply (Option AwsCredentials)
  aws_credentials arn = called ks.aws_credentials_provider
    where
      called : Option (String → Reply (Option AwsCredentials)) → Reply (Option AwsCredentials)
      called none = panicked
      called (some f) = f arn

  abbrev pub vault_configured : Bool
  vault_configured = not (ks.vault_token == "") || is_some ks.vault_k8s_auth

  abbrev pub default_reply : (DefaultServer → Result String) → Reply String
  default_reply f = asked ks.default_server
    where
      asked : Option DefaultServer → Reply String
      asked none = panicked
      asked (some d) = reply_of (f d)

  -- `Encrypt`
  unfoldable pub encrypt : Request → Served S String
  unfolding resolve_vault_token return_of give ◌>>=◌
  encrypt req = by_key req.key
    where
      by_key : KeyType → Served S String
      by_key (pgp_key fingerprint) =
          return_of (api.encrypt_pgp (pgp_master_key fingerprint) req.content)
      by_key (age_key recipient) =
          return_of (api.encrypt_age (age_master_key recipient []) req.content)
      by_key (vault_key address path name) =
          if vault_configured
          then (do
            token ← resolve_vault_token address
            return_of (api.encrypt_vault (vault_master_key address path name token) req.content))
          else give (default_reply (λ d. d.encrypt req))
      by_key (kms_key arn role context) = do
        credentials ← give (aws_credentials arn)
        return_of (api.encrypt_kms (kms_key_to_master_key arn role context credentials) req.content)
      by_key (azure_keyvault_key url name version) = do
        credential ← give (api.apply_azure ks.azure_token_credential)
        return_of (api.encrypt_azure (azure_master_key url name version credential) req.content)
      by_key (gcp_kms_key id) = return_of (api.encrypt_gcp (gcp_master_key id) req.content)
      by_key (other_key text) = give (default_reply (λ d. d.encrypt req))
      by_key no_key = give (failure (errorf (Arg.str "must provide a key")))
      by_key nil_vault_key =
          if vault_configured then give panicked else give (default_reply (λ d. d.encrypt req))
      by_key nil_message = give panicked
      by_key nil_key = give panicked

  -- `Decrypt`
  unfoldable pub decrypt : Request → Served S String
  unfolding resolve_vault_token return_of give ◌>>=◌
  decrypt req = by_key req.key
    where
      by_key : KeyType → Served S String
      by_key (pgp_key fingerprint) =
          return_of
            (api.decrypt_pgp (record (pgp_master_key fingerprint) { encrypted_key = req.content }))
      by_key (age_key recipient) = return_of (
          api.decrypt_age
            (record (age_master_key recipient ks.age_identities) { encrypted_key = req.content }))
      by_key (vault_key address path name) =
          if vault_configured
          then (do
            token ← resolve_vault_token address
            return_of (
                api.decrypt_vault (record (vault_master_key address path name token) {
                  encrypted_key = req.content;
                })))
          else give (default_reply (λ d. d.decrypt req))
      by_key (kms_key arn role context) = do
        credentials ← give (aws_credentials arn)
        return_of (
            api.decrypt_kms (record (kms_key_to_master_key arn role context credentials) {
              encrypted_key = req.content;
            }))
      by_key (azure_keyvault_key url name version) = do
        credential ← give (api.apply_azure ks.azure_token_credential)
        return_of (
            api.decrypt_azure (record (azure_master_key url name version credential) {
              encrypted_key = req.content;
            }))
      by_key (gcp_kms_key id) =
          return_of (api.decrypt_gcp (record (gcp_master_key id) { encrypted_key = req.content }))
      by_key (other_key text) = give (default_reply (λ d. d.decrypt req))
      by_key no_key = give (failure (errorf (Arg.str "must provide a key")))
      by_key nil_vault_key =
          if vault_configured then give panicked else give (default_reply (λ d. d.decrypt req))
      by_key nil_message = give panicked
      by_key nil_key = give panicked
