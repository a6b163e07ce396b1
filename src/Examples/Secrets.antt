-- ===== src/Examples/Secrets.antt =====
-- Concrete key services, trees and files, on which the decryptor is run. The world is the list of
-- the files that were written, the newest first.
mod Decryptions
mod Keys
use fork_kustomize_controlle.Prelude.{
  ℕ, String, Bool, true, false, not, ◌&&◌, Option, none, some, List, [], ◌∷◌, ◌==◌, if◌then◌else◌,
  is_some, on_option, select, ◌≡◌, sym, refl,
}
use fork_kustomize_controlle.Prelude.Texts.{cut_prefix}
use fork_kustomize_controlle.Errors.{Err, opaque, Result, ok, err, path_error, not_exist}
use fork_kustomize_controlle.Api.{Kustomization, Labels, Decryption}
use fork_kustomize_controlle.Sops.MasterKeys.{
  MasterKeyApi, Reply, answer, panicked, AzureCredential,
}
use fork_kustomize_controlle.Sops.Azure.{AzureApi}
use fork_kustomize_controlle.Sops.Azure.Utf16.{Encoding, utf16_little_endian}
use fork_kustomize_controlle.Sops.Keyservice.{DefaultServer, Request}
use fork_kustomize_controlle.Decrypting.Formats.{Format}
use fork_kustomize_controlle.Decrypting.Paths.{join}
use fork_kustomize_controlle.Decrypting.Types.{
  KeyApi, Decryptor, State, Session, bare_decryptor, generic_token, VaultInstance,
}
use fork_kustomize_controlle.Decrypting.Trees.{TreeApi}
use fork_kustomize_controlle.Decrypting.Files.{FileApi, FileInfo, KustomizationFile}
use fork_kustomize_controlle.Decrypting.Resources.{ResourceApi}
use fork_kustomize_controlle.Examples.{sample_kustomization}

-- Every key encrypts a text to itself.
abbrev pub sample_master_keys : MasterKeyApi
sample_master_keys = record {
  encrypt_pgp = λ k p. ok p;
  decrypt_pgp = λ k. ok k.encrypted_key;
  encrypt_age = λ k p. ok p;
  decrypt_age = λ k. ok k.encrypted_key;
  encrypt_vault = λ k p. ok p;
  decrypt_vault = λ k. ok k.encrypted_key;
  encrypt_kms = λ k p. ok p;
  decrypt_kms = λ k. ok k.encrypted_key;
  encrypt_azure = λ k p. ok p;
  decrypt_azure = λ k. ok k.encrypted_key;
  encrypt_gcp = λ k p. ok p;
  decrypt_gcp = λ k. ok k.encrypted_key;
  apply_azure = λ c. on_option c panicked (λ o. answer o);
}

abbrev pub sample_azure : AzureApi
sample_azure = record {
  parse_certificates = λ c p. ok c;
  make = λ c. ok c;
  skip = λ b. (utf16_little_endian, b);
  utf8 = λ b. b;
  unmarshal = λ b. err (opaque "no configuration");
}

abbrev pub sample_server : DefaultServer
sample_server = record { encrypt = λ r. ok r.content; decrypt = λ r. ok r.content }

abbrev pub vault_instance : VaultInstance
vault_instance = record { address = "https://vault"; login_path = "auth/kubernetes/login" }

abbrev pub World : Type 0
World = List String

abbrev pub sample_keys : KeyApi World
sample_keys = record {
  new_gnupg_home = λ w. (ok "/gnupg", w);
  is_not_found = λ e. false;
  get_secret = λ n w. (ok (("identity.agekey", "AGE") ∷ (("sops.vault-token", "root") ∷ [])), w);
  get_config_map = λ n w. (ok (("config.yaml", "instances") ∷ []), w);
  import_pgp = λ home value w. (ok tt, w);
  import_age = λ is value. ok (value ∷ is);
  trim_space = λ s. s;
  unmarshal_aws = λ s. err (opaque "no credentials");
  azure = sample_azure;
  credentials_from_json = λ s. err (opaque "no credentials");
  default_service_account = "";
  get_access_token = λ opts w. (ok (generic_token "header.payload.signature"), w);
  decode_raw_url = λ s. ok s;
  unmarshal_subject = λ s. ok "system:serviceaccount:apps:decryptor";
  unmarshal_vault_config = λ s. ok (record { instances = vault_instance ∷ [] });
  new_vault_client = λ address. ok tt;
  write_login = λ address path role jwt w. (ok (some role), w);
  master_keys = sample_master_keys;
  sops_server = sample_server;
}

-- A tree is the text of its file.
abbrev pub sample_trees : TreeApi World String
sample_trees = record {
  load_encrypted = λ f b. answer b;
  get_data_key = λ t ask s. (answer "key", s);
  decrypt_tree = λ t k. answer ("plain", "mac");
  decrypt_mac = λ t k. answer "mac";
  emit_plain = λ f t. answer t;
  error_text = λ e. "";
  load_plain = λ m f b. answer b;
  generate_data_key = λ t ask s. (answer ([], (t, "key")), s);
  encrypt_tree = λ t k. answer (t, "mac");
  set_mac = λ t k mac. answer t;
  emit_encrypted = λ f t. answer t;
}

abbrev pub under_root : String → String → Result String
under_root root path = if is_some (cut_prefix root path) then ok path else err (opaque "outside")

abbrev pub file_info : Bool → FileInfo
file_info is_dir = record { is_regular = not is_dir; is_dir = is_dir; size = 12 }

-- The directory /r with a kustomization file, which refers to an encrypted file and to itself.
abbrev pub sample_files : FileApi World
sample_files = record {
  lstat = λ path w.
      if path == "/r"
      then ok (file_info true)
      else if path == "/r/kustomization.yaml"
      then ok (file_info false)
      else if path == "/r/secret.yaml"
      then ok (file_info false)
      else err (path_error "lstat" path not_exist);
  read_file = λ path w. if path == "/r/secret.yaml" then ok "mac: ENC[AES" else ok "resources";
  write_file = λ path out w. (ok tt, path ∷ w);
  secure_join = λ root path w. under_root root (join root path);
  recognized_names = "kustomization.yaml" ∷ [];
  unmarshal_kustomization = λ s. ok (record {
    secret_generator = record { file_sources = "token=secret.yaml" ∷ []; env_sources = [] } ∷ [];
    patches = [];
    resources = "." ∷ ("missing" ∷ []);
    components = [];
  });
  parse_url = λ s. ok ("", "");
  known_format = λ s. Format.yaml;
}

abbrev pub sops_decryption : Option String → Decryption
sops_decryption ref = record {
  provider = "sops";
  service_account_name = "decryptor";
  secret_ref = ref;
}

abbrev pub encrypted_kustomization : Option String → Kustomization
encrypted_kustomization ref = record sample_kustomization {
  spec = record sample_kustomization.spec { decryption = some (sops_decryption ref) };
}

-- A decryptor that is rooted at /r, with the fallback Secret and the ConfigMap for Vault set.
abbrev pub sample_decryptor : Decryptor World
sample_decryptor = record (bare_decryptor (encrypted_kustomization none) "/gnupg") {
  root = "/r";
  check_sops_mac = true;
  sops_age_secret = some (record { namespace = "flux"; name = "sops-age" });
  vault_config_map = some (record { namespace = "flux"; name = "vault" });
}

abbrev pub sample_session : Session World
sample_session = record { tokens = []; login_paths = none; world = [] }

abbrev pub sample_secrets : State World
sample_secrets = record { decryptor = sample_decryptor; session = sample_session }

-- A resource is its data.
abbrev pub sample_resources : ResourceApi Labels
sample_resources = record {
  annotations = λ r. [];
  namespace = λ r. "apps";
  name = λ r. "secret";
  kind = λ r. "Secret";
  sops_is_empty = λ r. true;
  mac_is_empty = λ r. true;
  marshal_json = λ r. ok "";
  unmarshal_json = λ s r. ok r;
  data_map = λ r. r;
  set_data_map = λ d r. d;
  decode_base64 = λ s. ok s;
  encode_base64 = λ s. s;
  known_format = λ s. Format.binary;
  marker_order =
      Format.yaml ∷ (Format.json ∷ (Format.binary ∷ (Format.ini ∷ (Format.dotenv ∷ []))));
}
