-- ===== src/Decrypting/Authentication.antt =====
-- `SetAuthOptions`, and the key service server that the decryptor is given to (`keyServiceServer`
-- and `loadKeyServiceServer`).
pub mod Providers
pub mod DataKeys
use fork_kustomize_controlle.Prelude.{
  String, Bool, true, false, ◌&&◌, not, Option, none, some, List, [], ◌∷◌, ◌==◌, if◌then◌else◌,
  on_option, is_some,
}
use fork_kustomize_controlle.Errors.{Err, Result, ok, err}
use fork_kustomize_controlle.Sops.MasterKeys.{
  AuthOptions, AwsCredentials, aws_identity, AzureCredential, azure_identity, GcpTokenSource,
  gcp_identity,
}
use fork_kustomize_controlle.Sops.Keyservice.{
  Server, ServerOption, with_gnupg_home, with_vault_token, with_vault_k8s_auth, with_age_identities,
  with_aws_credentials_provider, with_azure_token_credential, with_gcp_token_source, new_server,
}
use fork_kustomize_controlle.Decrypting.Types.{Decryptor, State, Session, KeyApi}
use fork_kustomize_controlle.Decrypting.Keys.{sops_provider}
use fork_kustomize_controlle.Decrypting.Vault.{vault_k8s_token}

module _ {W : Type 0} (api : KeyApi W) where
  abbrev account_name : String → String
  account_name name = if name == "" then api.default_service_account else name

  -- `opts`
  abbrev pub common_options : Decryptor W → String → AuthOptions
  common_options d name = record {
    service_account =
        if account_name name == ""
        then none
        else some (account_name name, d.kustomization.namespace);
    cached_for = none;
    audience = none;
  }

  abbrev pub cached : Decryptor W → String → AuthOptions → AuthOptions
  cached d operation opts =
      if d.token_cache then record opts { cached_for = some operation } else opts

  unfoldable pub set_aws : AuthOptions → Decryptor W → Decryptor W
  set_aws opts d = if is_some d.aws_credentials_provider then d else record d {
    aws_credentials_provider = some (aws_identity (cached d "decrypt_with_aws" opts));
  }

  unfoldable pub set_azure : AuthOptions → Decryptor W → Decryptor W
  set_azure opts d = if is_some d.azure_token_credential then d else record d {
    azure_token_credential = some (azure_identity (cached d "decrypt_with_azure" opts));
  }

  unfoldable pub set_gcp : AuthOptions → Decryptor W → Decryptor W
  set_gcp opts d =
      if is_some d.gcp_token_source
      then d
      else record d { gcp_token_source = some (gcp_identity (cached d "decrypt_with_gcp" opts)) }

  abbrev empty_session : Session W → Session W
  empty_session s = record s { tokens = []; login_paths = none }

  -- The token function starts with no tokens.
  unfoldable pub set_vault : AuthOptions → State W → State W
  unfolding vault_k8s_token
  set_vault opts s =
      let d = s.decryptor in
      if d.vault_token == "" && not (is_some d.vault_k8s_auth)
      then on_option d.vault_config_map s (λ name. record {
        decryptor = record d {
          vault_k8s_auth = some (vault_k8s_token api name (cached d "decrypt_with_vault" opts));
        };
        session = empty_session s.session;
      })
      else s

  -- `SetAuthOptions`
  unfoldable pub set_auth_options : State W → State W
  unfolding set_aws set_azure set_gcp set_vault
  set_auth_options s = on_option s.decryptor.kustomization.spec.decryption s (λ decryption.
      if decryption.provider == sops_provider
      then (let opts = common_options s.decryptor decryption.service_account_name in
          set_vault opts
            (record s { decryptor = set_gcp opts (set_azure opts (set_aws opts s.decryptor)) }))
      else s)

  -- `loadKeyServiceServer`
  unfoldable pub load_key_service_server : Decryptor W → Server (Session W)
  unfolding new_server
  load_key_service_server d = new_server api.sops_server (
      with_gnupg_home d.gnupg_home
      ∷ (with_vault_token d.vault_token
          ∷ (with_vault_k8s_auth d.vault_k8s_auth
              ∷ (with_age_identities d.age_identities
                  ∷ (with_aws_credentials_provider d.aws_credentials_provider
                      ∷ (with_azure_token_credential d.azure_token_credential
                          ∷ (with_gcp_token_source d.gcp_token_source ∷ [])))))))

  -- `keyServiceServer`: the server is loaded by the first call.
  unfoldable pub key_service_server : Decryptor W → Server (Session W) × Decryptor W
  unfolding load_key_service_server
  key_service_server d =
      on_option d.key_services
        (let server = load_key_service_server d in
          (server, record d { key_services = some server }))
        (λ server. (server, d))
