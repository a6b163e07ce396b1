-- ===== src/Examples/Secrets/Keys.antt =====
-- Runs of the key services, of the import of keys and of the token function.
use Prim.Native.String.{◌++◌}
use fork_kustomize_controlle.Prelude.{
  String, false, not, ◌&&◌, none, some, [], ◌∷◌, ◌≡◌, ◌≢◌, refl, inl, inr, arith,
}
use fork_kustomize_controlle.Errors.{ok}
use fork_kustomize_controlle.Sops.MasterKeys.{panicked, AuthOptions}
use fork_kustomize_controlle.Sops.Azure.{AadConfig, token_credential_from_aad_config}
use fork_kustomize_controlle.Sops.Azure.Selection.{
  prefer, ways, configured, is_ok, token_credential_from_aad_config-ok,
}
use fork_kustomize_controlle.Sops.Azure.Utf16.{
  decode, decode-roundtrip, bytes_little, bytes_big, encode_words, utf16_little_endian,
  utf16_big_endian,
}
use fork_kustomize_controlle.Sops.Keyservice.{Request, vault_key, kms_key, encrypt, decrypt}
use fork_kustomize_controlle.Sops.Aws.Region.{get_region_from_kms_arn, is_nonempty_line, is_line}
use fork_kustomize_controlle.Sops.Aws.Region.Arn.{tail_of, get_region_from_kms_arn-roundtrip}
use fork_kustomize_controlle.Decrypting.Types.{Session, find}
use fork_kustomize_controlle.Decrypting.Keys.{import_keys}
use fork_kustomize_controlle.Decrypting.Keys.Fallback.{but_identities, import_keys-fallback}
use fork_kustomize_controlle.Decrypting.Vault.{vault_k8s_token}
use fork_kustomize_controlle.Decrypting.Vault.Tokens.{
  vault_k8s_token-again, vault_k8s_token-refused,
}
use fork_kustomize_controlle.Decrypting.Authentication.{load_key_service_server, set_auth_options}
use fork_kustomize_controlle.Decrypting.Authentication.Providers.{no_panic}
use fork_kustomize_controlle.Controller.{NamespacedName}
use fork_kustomize_controlle.Examples.Secrets.{
  World, sample_keys, sample_master_keys, sample_azure, sample_secrets, sample_session,
  sops_decryption,
}

abbrev vault_request : Request
vault_request = record { key = vault_key "https://vault" "sops" "key"; content = "data key" }

-- The session after a token was obtained.
abbrev vault_session : Session World
vault_session = record {
  tokens = ("https://vault", "apps_decryptor") ∷ [];
  login_paths = some (("https://vault", "auth/kubernetes/login") ∷ []);
  world = [];
}

no_panic_example :
    ((encrypt sample_master_keys
        (load_key_service_server sample_keys
          (set_auth_options sample_keys sample_secrets).decryptor)
        (record { key = kms_key "arn:aws:kms:eu-west-1:1:key/k" "" []; content = "data key" })
        sample_session).0
      ≢ panicked)
    × ((decrypt sample_master_keys
          (load_key_service_server sample_keys
            (set_auth_options sample_keys sample_secrets).decryptor)
          (record { key = kms_key "arn:aws:kms:eu-west-1:1:key/k" "" []; content = "data key" })
          sample_session).0
        ≢ panicked)
no_panic_example =
    no_panic sample_keys sample_secrets sample_session (sops_decryption none)
      (record { key = kms_key "arn:aws:kms:eu-west-1:1:key/k" "" []; content = "data key" })
      (λ c h. cc) refl refl refl

abbrev vault_name : NamespacedName
vault_name = record { namespace = "flux"; name = "vault" }

abbrev no_options : AuthOptions
no_options = record { service_account = none; cached_for = none; audience = none }

sample_token :
    vault_k8s_token sample_keys vault_name no_options "https://vault" sample_session
    ≡ (ok "apps_decryptor", vault_session)
unfolding vault_k8s_token
sample_token = refl

vault_k8s_token-again_example :
    vault_k8s_token sample_keys vault_name no_options "https://vault" vault_session
    ≡ (ok "apps_decryptor", vault_session)
vault_k8s_token-again_example =
    vault_k8s_token-again sample_keys vault_name no_options "https://vault" sample_session
      vault_session "apps_decryptor" sample_token

vault_k8s_token-refused_example :
    ((vault_k8s_token sample_keys vault_name no_options "https://other" vault_session).1
      ≡ vault_session)
    × ((t : String)
        → (vault_k8s_token sample_keys vault_name no_options "https://other" vault_session).0
          ≢ ok t)
vault_k8s_token-refused_example =
    vault_k8s_token-refused sample_keys vault_name no_options "https://other" vault_session
      (("https://vault", "auth/kubernetes/login") ∷ []) refl (unfold find in refl)
      (unfold find in refl)

import_keys-fallback_example :
    but_identities (import_keys sample_keys sample_secrets).1.decryptor
    ≡ but_identities sample_secrets.decryptor
import_keys-fallback_example =
    import_keys-fallback sample_keys sample_secrets (sops_decryption none) refl refl

-- A certificate and a tenant, without a client id.
abbrev certificate_config : AadConfig
certificate_config = record {
  app_id = "";
  tenant = "";
  password = "";
  tenant_id = "tenant";
  client_id = "";
  client_secret = "";
  client_certificate = "certificate";
  client_certificate_password = "";
  client_certificate_send_chain = false;
  authority = "";
}

token_credential_from_aad_config-ok_example :
    (token_credential_from_aad_config sample_azure certificate_config
      ≡ prefer (ways sample_azure certificate_config))
    × ((is_ok (token_credential_from_aad_config sample_azure certificate_config)
          && not (configured certificate_config))
        ≡ false)
token_credential_from_aad_config-ok_example =
    token_credential_from_aad_config-ok sample_azure certificate_config

decode-roundtrip_example :
    (decode utf16_little_endian (bytes_little (encode_words (97 ∷ (128512 ∷ [])))) (λ b. b)
      ≡ 97 ∷ (128512 ∷ []))
    × (decode utf16_big_endian (bytes_big (encode_words (97 ∷ (128512 ∷ [])))) (λ b. b)
        ≡ 97 ∷ (128512 ∷ []))
decode-roundtrip_example =
    decode-roundtrip (λ b. b) (97 ∷ (128512 ∷ []))
      (inl (omega arith), (inr (omega arith, omega arith), tt))

get_region_from_kms_arn-roundtrip_example :
    get_region_from_kms_arn
      ("arn:aws" ++ ("-cn" ++ (":kms:" ++ ("cn-north-1" ++ tail_of "107501996527" "612d5f0b"))))
    ≡ "cn-north-1"
get_region_from_kms_arn-roundtrip_example =
    get_region_from_kms_arn-roundtrip "-cn" "cn-north-1" "107501996527" "612d5f0b" refl refl refl
      refl refl (unfold is_nonempty_line is_line in refl) refl

sample_region :
    get_region_from_kms_arn
      "arn:aws:kms:us-west-2:107501996527:key/612d5f0p-p1l3-45e6-aca6-a5b005693a48"
    ≡ "us-west-2"
unfolding get_region_from_kms_arn is_line
sample_region = refl
