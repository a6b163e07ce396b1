-- ===== src/Decrypting/Vault.antt =====
-- The token of a Vault server, which a token of the decryption's service account is exchanged for:
-- `loadVaultLoginPaths`, `vaultLogin`, and the function that `SetAuthOptions` makes.
pub mod Account
pub mod Tokens
use Prim.Native.String.{◌++◌}
use fork_kustomize_controlle.Prelude.{
  String, Bool, not, Option, none, some, List, [], ◌∷◌, ◌==◌, if◌then◌else◌, on_option,
}
use fork_kustomize_controlle.Errors.{
  Err, Arg, Result, ok, err, wrapf, errorf, printf, arg, nil, sprintf₁, sprintf₂, sprintf₃,
}
use fork_kustomize_controlle.Api.{Labels}
use fork_kustomize_controlle.Controller.{NamespacedName}
use fork_kustomize_controlle.Sops.MasterKeys.{AuthOptions}
use fork_kustomize_controlle.Decrypting.Task.{Task, ◌>>=◌, return, get, modify, wrap}
use fork_kustomize_controlle.Decrypting.Types.{
  Session, AccessToken, generic_token, other_token, VaultInstance, VaultConfig, KeyApi, find,
}
use fork_kustomize_controlle.Decrypting.Vault.Account.{service_account_from_token}

-- The map that is made of the instances, where a later instance replaces an earlier one.
unfoldable pub paths_of : Labels → List VaultInstance → Labels
paths_of paths [] = paths
paths_of paths (i ∷ is) = paths_of ((i.address, i.login_path) ∷ paths) is

module _ {W : Type 0} (api : KeyApi W) where
  unfoldable pub calling : {A : Type 0} → (W → Result A × W) → Task (Session W) A
  calling f s = let (r, w) = f s.world in (r, record s { world = w })

  abbrev config_entry : NamespacedName → Labels → Result String
  config_entry name entries =
      on_option (find "config.yaml" entries)
        (err (
          errorf (
            sprintf₃ "Vault ConfigMap '%s/%s' is missing the '%s' key" name.namespace name.name
              "config.yaml")))
        ok

  -- `loadVaultLoginPaths`
  unfoldable pub load_vault_login_paths : NamespacedName → Task (Session W) Labels
  unfolding ◌>>=◌ return wrap calling paths_of find
  load_vault_login_paths name = do
    entries ←
        wrap (wrapf (sprintf₂ "failed to get Vault ConfigMap '%s/%s': %w" name.namespace name.name))
          (calling (api.get_config_map name))
    text ← return (config_entry name entries)
    config ←
        wrap
          (wrapf (
            sprintf₃ "failed to parse '%s' in Vault ConfigMap '%s/%s': %w" "config.yaml"
              name.namespace name.name))
          (return (api.unmarshal_vault_config text))
    return (ok (paths_of [] config.instances))

  abbrev no_token : String → String → String → Result String
  no_token address login_path role = err (
      errorf (
        sprintf₃ "Vault '%s' returned no token for login at '%s' as role '%s'" address login_path
          role))

  abbrev client_token : String → String → String → Option String → Result String
  client_token address login_path role secret =
      on_option secret (no_token address login_path role)
        (λ t. if t == "" then no_token address login_path role else ok t)

  -- `vaultLogin`
  unfoldable pub vault_login : String → String → String → String → Task (Session W) String
  unfolding ◌>>=◌ return wrap calling
  vault_login address login_path role jwt = do
    client ←
        wrap (wrapf (sprintf₁ "failed to create Vault client for '%s': %w" address))
          (return (api.new_vault_client address))
    secret ←
        wrap
          (wrapf (
            sprintf₃ "failed to authenticate with Vault '%s' at login path '%s' as role '%s': %w"
              address login_path role))
          (calling (api.write_login address login_path role jwt))
    return (client_token address login_path role secret)

  abbrev ksa_token : AccessToken → Result String
  ksa_token (generic_token t) = ok t
  ksa_token (other_token type) =
      err (errorf (sprintf₁ "unexpected token type %T for Vault authentication" type))

  -- The part of the token function that loads the login paths, once.
  unfoldable pub known_login_paths : NamespacedName → Task (Session W) Labels
  unfolding ◌>>=◌ return get modify load_vault_login_paths
  known_login_paths name = do
    s ← get
    on_option s.login_paths
        (load_vault_login_paths name >>= λ paths.
          (modify (λ s. record s { login_paths = some paths }) >>= λ done. return (ok paths)))
        (λ paths. return (ok paths))

  abbrev login_path_for : NamespacedName → String → Labels → Result String
  login_path_for name address paths =
      on_option (find address paths) (err (unknown address))
        (λ p. if p == "" then err (unknown address) else ok p)
    where
      unknown : String → Err
      unknown address = errorf (
          sprintf₃ "no Vault login path configured for address '%s' in ConfigMap '%s/%s'" address
            name.namespace name.name)

  -- The token function, from the resolution of the login path to the token of the server.
  unfoldable pub exchange_token : NamespacedName → AuthOptions → String → Task (Session W) String
  unfolding ◌>>=◌ return wrap calling known_login_paths vault_login service_account_from_token find
  exchange_token name opts address = do
    paths ← known_login_paths name
    login_path ← return (login_path_for name address paths)
    access ←
        wrap (wrapf (Arg.str "failed to issue Kubernetes token for Vault authentication: %w"))
          (calling (api.get_access_token (record opts { audience = some address })))
    jwt ← return (ksa_token access)
    account ←
        wrap (wrapf (Arg.str "failed to derive Vault role for authentication: %w"))
          (return (service_account_from_token api jwt))
    vault_login address login_path (account.0 ++ ("_" ++ account.1)) jwt

  -- The token function: a token that was obtained for the address, or a new one.
  unfoldable pub vault_k8s_token : NamespacedName → AuthOptions → String → Task (Session W) String
  unfolding ◌>>=◌ return get modify exchange_token find
  vault_k8s_token name opts address = do
    s ← get
    on_option (find address s.tokens)
        (exchange_token name opts address >>= λ token.
          (modify (λ s. record s { tokens = (address, token) ∷ s.tokens }) >>= λ done.
          return (ok token)))
        (λ token. return (ok token))
