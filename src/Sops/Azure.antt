-- ===== src/Sops/Azure.antt =====
-- internal/sops/azkv/config.go: the Azure credential that a file describes.
pub mod Utf16
pub mod Selection
use fork_kustomize_controlle.Prelude.{ℕ, String, Bool, not, ◌&&◌, List, ◌==◌, if◌then◌else◌}
use fork_kustomize_controlle.Errors.{Err, Arg, Result, ok, err, wrapf, errorf, ◌>>=◌}
use fork_kustomize_controlle.Sops.MasterKeys.{
  AzureCredential, client_secret_credential, client_certificate_credential,
  managed_identity_credential, CloudConfiguration, azure_public, authority_host,
}
use fork_kustomize_controlle.Sops.Azure.Utf16.{decode, Encoding}

-- `AADConfig`, with the fields of the `AZConfig` in it
pub record AadConfig : Type 0 where
  pub app_id : String
  pub tenant : String
  pub password : String
  pub tenant_id : String
  pub client_id : String
  pub client_secret : String
  pub client_certificate : String
  pub client_certificate_password : String
  pub client_certificate_send_chain : Bool
  pub authority : String

-- `GetCloudConfig`
unfoldable pub get_cloud_config : AadConfig → CloudConfiguration
get_cloud_config c = if not (c.authority == "") then authority_host c.authority else azure_public

-- `azidentity`: each constructor may refuse what it is given. `parse_certificates` is given the
-- certificate and its password.
pub record AzureApi : Type 0 where
  pub parse_certificates : String → String → Result String
  pub make : AzureCredential → Result AzureCredential
  -- `utfbom.Skip`: the encoding, and the bytes behind the mark
  pub skip : List ℕ → Encoding × List ℕ
  -- `string` of the runes, as bytes
  pub utf8 : List ℕ → List ℕ
  pub unmarshal : List ℕ → Result AadConfig

abbrev pub is_set : String → Bool
is_set s = not (s == "")

module _ (api : AzureApi) where
  unfoldable pub secret_credential : String → String → String → AadConfig → Result AzureCredential
  unfolding get_cloud_config
  secret_credential tenant client secret c =
      api.make (client_secret_credential tenant client secret (get_cloud_config c))

  unfoldable pub certificate_credential : AadConfig → Result AzureCredential
  unfolding get_cloud_config
  certificate_credential c =
      api.parse_certificates c.client_certificate c.client_certificate_password >>= λ certs.
      api.make (
        client_certificate_credential c.tenant_id c.client_id certs c.client_certificate_send_chain
          (get_cloud_config c))

  -- The `switch` of `TokenCredentialFromAADConfig`.
  unfoldable pub other_credential : AadConfig → Result AzureCredential
  unfolding secret_credential
  other_credential c =
      if is_set c.tenant && (is_set c.app_id && is_set c.password)
      then secret_credential c.tenant c.app_id c.password c
      else if is_set c.client_id
      then api.make (managed_identity_credential c.client_id)
      else err (
          errorf (
            Arg.str
              "invalid data: requires a '%s' field, a combination of '%s', '%s' and '%s', or '%s', '%s' and '%s'"))

  -- `TokenCredentialFromAADConfig`
  unfoldable pub token_credential_from_aad_config : AadConfig → Result AzureCredential
  unfolding secret_credential certificate_credential other_credential
  token_credential_from_aad_config c =
      if is_set c.tenant_id && is_set c.client_id
      then (if is_set c.client_secret
          then secret_credential c.tenant_id c.client_id c.client_secret c
          else if is_set c.client_certificate
          then certificate_credential c
          else other_credential c)
      else other_credential c

  abbrev unmarshalled : Result AadConfig → Result AadConfig
  unmarshalled (ok c) = ok c
  unmarshalled (err e) = err (wrapf (Arg.str "failed to unmarshal Azure authentication file: %w") e)

  -- `LoadAADConfigFromBytes`. What is behind the mark holds as many words as are read, so that
  -- `decode` returns no error.
  unfoldable pub load_aad_config_from_bytes : List ℕ → Result AadConfig
  unfolding decode
  load_aad_config_from_bytes b =
      let (encoding, rest) = api.skip b in
      unmarshalled (api.unmarshal (decode encoding rest api.utf8))
