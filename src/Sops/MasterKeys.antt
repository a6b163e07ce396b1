-- ===== src/Sops/MasterKeys.antt =====
-- Credentials, and the master keys of the SOPS library that the key service fills in. Bytes are a
-- text with one character for each byte.
use fork_kustomize_controlle.Prelude.{String, Bool, Option, List}
use fork_kustomize_controlle.Errors.{Err, Result, ok, err}
use fork_kustomize_controlle.Api.{Labels}

-- The `auth.Option`s that are collected for the authentication with a cloud provider.
pub record AuthOptions : Type 0 where
  -- the name and the namespace of the service account
  pub service_account : Option (String × String)
  -- the operation under which tokens are cached
  pub cached_for : Option String
  pub audience : Option String

-- `awssdk.CredentialsProvider`
pub data AwsCredentials : Type 0 where
  -- the key id, the secret key and the session token of a file
  static_credentials : String → String → String → AwsCredentials
  -- `aws.NewCredentialsProvider`, with the region
  aws_identity : AuthOptions → String → AwsCredentials

-- `cloud.Configuration`: the public cloud, or another authority host
pub data CloudConfiguration : Type 0 where
  azure_public : CloudConfiguration
  authority_host : String → CloudConfiguration

-- `azcore.TokenCredential`
pub data AzureCredential : Type 0 where
  -- the tenant, the client and the secret
  client_secret_credential : String → String → String → CloudConfiguration → AzureCredential
  -- the tenant, the client, the certificates and whether the chain is sent
  client_certificate_credential :
      String → String → String → Bool → CloudConfiguration → AzureCredential
  managed_identity_credential : String → AzureCredential
  -- `azure.NewTokenCredential`
  azure_identity : AuthOptions → AzureCredential

-- `oauth2.TokenSource`
pub data GcpTokenSource : Type 0 where
  json_source : String → GcpTokenSource
  -- `gcp.NewTokenSource`
  gcp_identity : AuthOptions → GcpTokenSource

pub record PgpMasterKey : Type 0 where
  pub fingerprint : String
  pub disable_open_pgp : Bool
  pub home : Option String
  pub encrypted_key : String

pub record AgeMasterKey : Type 0 where
  pub recipient : String
  pub identities : List String
  pub encrypted_key : String

pub record VaultMasterKey : Type 0 where
  pub vault_address : String
  pub engine_path : String
  pub key_name : String
  pub token : String
  pub encrypted_key : String

pub record KmsMasterKey : Type 0 where
  pub arn : String
  pub role : String
  pub encryption_context : Labels
  pub credentials : Option AwsCredentials
  pub encrypted_key : String

pub record AzureMasterKey : Type 0 where
  pub vault_url : String
  pub name : String
  pub version : String
  pub credential : Option AzureCredential
  pub encrypted_key : String

pub record GcpMasterKey : Type 0 where
  pub resource_id : String
  pub source : Option GcpTokenSource
  pub encrypted_key : String

-- What a call leaves: an answer, an error, or a panic.
pub data Reply {ℓ} (A : Type ℓ) : Type ℓ where
  answer : A → Reply A
  failure : Err → Reply A
  panicked : Reply A

abbrev pub reply_of {ℓ} : {A : Type ℓ} → Result A → Reply A
reply_of (ok a) = answer a
reply_of (err e) = failure e

-- The methods of the master keys. `encrypt` returns the encrypted key that the method leaves in
-- the key.
pub record MasterKeyApi : Type 0 where
  pub encrypt_pgp : PgpMasterKey → String → Result String
  pub decrypt_pgp : PgpMasterKey → Result String
  pub encrypt_age : AgeMasterKey → String → Result String
  pub decrypt_age : AgeMasterKey → Result String
  pub encrypt_vault : VaultMasterKey → String → Result String
  pub decrypt_vault : VaultMasterKey → Result String
  pub encrypt_kms : KmsMasterKey → String → Result String
  pub decrypt_kms : KmsMasterKey → Result String
  pub encrypt_azure : AzureMasterKey → String → Result String
  pub decrypt_azure : AzureMasterKey → Result String
  pub encrypt_gcp : GcpMasterKey → String → Result String
  pub decrypt_gcp : GcpMasterKey → Result String
  -- the credential that `ApplyToMasterKey` leaves in the key, called on a pointer that may be nil
  pub apply_azure : Option (Option AzureCredential) → Reply (Option AzureCredential)
