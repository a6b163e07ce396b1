-- ===== src/Sops/Aws.antt =====
-- internal/sops/awskms: static credentials, and the region in the ARN of a key.
pub mod Region
use fork_kustomize_controlle.Prelude.{String}
use fork_kustomize_controlle.Errors.{Err, Arg, Result, ok, err, wrapf}
use fork_kustomize_controlle.Sops.MasterKeys.{AwsCredentials, static_credentials}

-- The struct that the YAML is read into.
pub record CredentialsFile : Type 0 where
  pub access_key_id : String
  pub secret_access_key : String
  pub session_token : String

-- `LoadStaticCredentialsFromYAML`, with `yaml.Unmarshal`
unfoldable pub load_static_credentials_from_yaml :
    (String → Result CredentialsFile) → String → Result AwsCredentials
load_static_credentials_from_yaml unmarshal b = loaded (unmarshal b)
  where
    loaded : Result CredentialsFile → Result AwsCredentials
    loaded (ok d) = ok (static_credentials d.access_key_id d.secret_access_key d.session_token)
    loaded (err e) = err (wrapf (Arg.str "failed to unmarshal AWS credentials file: %w") e)
