-- ===== src/Decrypting/Authentication/Providers.antt =====
-- The providers that the key service server is given.
use fork_kustomize_controlle.Prelude.{
  String, Bool, true, false, Option, none, some, if◌then◌else◌, on_option, is_some, ◌≡◌, ◌≢◌, refl,
  ap, ◌∙◌, Bool-cases, inl, inr,
}
use fork_kustomize_controlle.Errors.{Result}
use fork_kustomize_controlle.Api.{Decryption}
use fork_kustomize_controlle.Sops.MasterKeys.{
  AuthOptions, AwsCredentials, AzureCredential, GcpTokenSource, panicked,
}
use fork_kustomize_controlle.Sops.Keyservice.{
  provided, new_server, apply_all, apply_to_server, Request, decrypt, encrypt,
}
use fork_kustomize_controlle.Decrypting.Types.{Decryptor, State, Session, KeyApi}
use fork_kustomize_controlle.Decrypting.Authentication.{
  set_auth_options, set_aws, set_azure, set_gcp, set_vault, load_key_service_server,
}
use fork_kustomize_controlle.Sops.Keyservice.Panics.{
  Provided, is_complete, NoPanic-decrypt, NoPanic-encrypt,
}

-- A part that both branches share.
module _ {X Y : Type 0} (f : X → Y) {z : Y} where
  if-part : (b : Bool) (x y : X) → f x ≡ z → f y ≡ z → f (if b then x else y) ≡ z
  if-part true x y hx hy = hx
  if-part false x y hx hy = hy

  on_option-part :
      {A : Type 0} (o : Option A) (x : X) (g : A → X)
      → f x ≡ z
      → ((a : A) → f (g a) ≡ z)
      → f (on_option o x g) ≡ z
  on_option-part none x g hx hg = hx
  on_option-part (some a) x g hx hg = hg a

given : {A : Type 0} (o : Option A) → is_some o ≡ true → (a : A) × (o ≡ some a)
given none h = cc
given (some a) h = (a, refl)

module _ {W : Type 0} (api : KeyApi W) (opts : AuthOptions) where
  aws-set : (d : Decryptor W) → is_some (set_aws api opts d).aws_credentials_provider ≡ true
  unfolding set_aws
  aws-set d = elim (Bool-cases (is_some d.aws_credentials_provider)) [
    | inl here ↦ rw here here
    | inr absent ↦ rw absent refl
  ]

  azure-set : (d : Decryptor W) → is_some (set_azure api opts d).azure_token_credential ≡ true
  unfolding set_azure
  azure-set d = elim (Bool-cases (is_some d.azure_token_credential)) [
    | inl here ↦ rw here here
    | inr absent ↦ rw absent refl
  ]

  gcp-set : (d : Decryptor W) → is_some (set_gcp api opts d).gcp_token_source ≡ true
  unfolding set_gcp
  gcp-set d = elim (Bool-cases (is_some d.gcp_token_source)) [
    | inl here ↦ rw here here
    | inr absent ↦ rw absent refl
  ]

  -- Each step changes its own field alone.
  module _ {Y : Type 0} (f : Decryptor W → Y) where
    pub aws-keeps :
        (d : Decryptor W)
        → ((p : Option (String → AwsCredentials))
            → f (record d { aws_credentials_provider = p }) ≡ f d)
        → f (set_aws api opts d) ≡ f d
    unfolding set_aws
    aws-keeps d same = if-part f _ _ _ refl (same _)

    pub azure-keeps :
        (d : Decryptor W)
        → ((c : Option AzureCredential) → f (record d { azure_token_credential = c }) ≡ f d)
        → f (set_azure api opts d) ≡ f d
    unfolding set_azure
    azure-keeps d same = if-part f _ _ _ refl (same _)

    pub gcp-keeps :
        (d : Decryptor W)
        → ((t : Option GcpTokenSource) → f (record d { gcp_token_source = t }) ≡ f d)
        → f (set_gcp api opts d) ≡ f d
    unfolding set_gcp
    gcp-keeps d same = if-part f _ _ _ refl (same _)

    vault-keeps :
        (s : State W)
        → ((a : Option (String → Session W → Result String × Session W))
            → f (record s.decryptor { vault_k8s_auth = a }) ≡ f s.decryptor)
        → f (set_vault api opts s).decryptor ≡ f s.decryptor
    unfolding set_vault
    vault-keeps s same =
        if-part (λ (s : State W). f s.decryptor) _ _ _
          (on_option-part (λ (s : State W). f s.decryptor) s.decryptor.vault_config_map _ _ refl
            (λ n. same _))
          refl

  -- The providers that are set after all steps.
  all-set :
      (s : State W) (d : Decryptor W)
      → (is_some
            (set_vault api opts (record s {
              decryptor = set_gcp api opts (set_azure api opts (set_aws api opts d));
            })).decryptor.aws_credentials_provider
          ≡ true)
        × (is_some
              (set_vault api opts (record s {
                decryptor = set_gcp api opts (set_azure api opts (set_aws api opts d));
              })).decryptor.azure_token_credential
            ≡ true)
        × (is_some
              (set_vault api opts (record s {
                decryptor = set_gcp api opts (set_azure api opts (set_aws api opts d));
              })).decryptor.gcp_token_source
            ≡ true)
  all-set s d = (
    vault-keeps (λ d. is_some d.aws_credentials_provider) _ (λ a. refl)
        ∙ (gcp-keeps (λ d. is_some d.aws_credentials_provider) _ (λ t. refl)
            ∙ (azure-keeps (λ d. is_some d.aws_credentials_provider) _ (λ c. refl) ∙ aws-set d)),
    vault-keeps (λ d. is_some d.azure_token_credential) _ (λ a. refl)
        ∙ (gcp-keeps (λ d. is_some d.azure_token_credential) _ (λ t. refl) ∙ azure-set _),
    vault-keeps (λ d. is_some d.gcp_token_source) _ (λ a. refl) ∙ gcp-set _,
  )

module _ {W : Type 0} (api : KeyApi W) where
  -- The loaded server has what the decryptor has.
  loaded-Provided :
      (d : Decryptor W)
      → is_some d.aws_credentials_provider ≡ true
      → is_some d.azure_token_credential ≡ true
      → Provided (load_key_service_server api d)
  unfolding load_key_service_server new_server apply_all apply_to_server
  loaded-Provided d aws azure =
      let (p, hp) = given d.aws_credentials_provider aws in
      let (c, hc) = given d.azure_token_credential azure in
      record {
        aws = (p, ap (λ o. some (provided o)) hp);
        azure = (c, ap some hc);
        default = (api.sops_server, refl);
      }

  authenticated :
      (s : State W) (dec : Decryption)
      → s.decryptor.kustomization.spec.decryption ≡ some dec
      → dec.provider ≡ "sops"
      → Provided (load_key_service_server api (set_auth_options api s).decryptor)
  unfolding set_auth_options
  authenticated s dec here provider =
      simp (here, provider) (let all = all-set api _ s s.decryptor in loaded-Provided _ all.0 all.1)

  -- Whatever keys were imported, the key service server that is loaded after SetAuthOptions, where
  -- the decryption's provider is SOPS, does not panic in Encrypt and Decrypt, in every state of the
  -- token function, for every request whose key is not nil and, if its type is known, has a message
  -- that is not nil, if an Azure credential is applied without a panic. The other calls of the SOPS
  -- library are taken to return.
  pub no_panic :
      (s : State W) (session : Session W) (dec : Decryption) (req : Request)
      → ((c : AzureCredential) → api.master_keys.apply_azure (some (some c)) ≢ panicked)
      → s.decryptor.kustomization.spec.decryption ≡ some dec
      → dec.provider ≡ "sops"
      → is_complete req.key ≡ true
      → ((encrypt api.master_keys
            (load_key_service_server api (set_auth_options api s).decryptor)
            req
            session).0
          ≢ panicked)
        × ((decrypt api.master_keys
              (load_key_service_server api (set_auth_options api s).decryptor)
              req
              session).0
            ≢ panicked)
  no_panic s session dec req accepts here provider complete =
      let has = authenticated s dec here provider in
      (
        (NoPanic-encrypt api.master_keys accepts _ has req.key req.content complete).at session,
        (NoPanic-decrypt api.master_keys accepts _ has req.key req.content complete).at session,
      )
