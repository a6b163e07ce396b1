-- ===== src/Sops/Azure/Selection.antt =====
-- Which credential a configuration gives.
use fork_kustomize_controlle.Prelude.{
  Bool, true, false, not, ◌&&◌, ◌||◌, List, [], ◌∷◌, if◌then◌else◌, ◌≡◌, refl, arith, Bool-cases,
  inl, inr,
}
use fork_kustomize_controlle.Errors.{Result, ok, err, errorf, Arg, ◌>>=◌}
use fork_kustomize_controlle.Sops.MasterKeys.{
  AzureCredential, client_secret_credential, client_certificate_credential,
  managed_identity_credential,
}
use fork_kustomize_controlle.Sops.Azure.{
  AadConfig, AzureApi, is_set, token_credential_from_aad_config, secret_credential,
  certificate_credential, other_credential, get_cloud_config,
}

abbrev pub is_ok : {A : Type 0} → Result A → Bool
is_ok (ok a) = true
is_ok (err e) = false

-- A way to a credential: whether its fields are set, and what it gives.
abbrev pub Ranked : Type 0
Ranked = Bool × Result AzureCredential

-- The first way whose fields are set.
abbrev pub prefer : List Ranked → Result AzureCredential
prefer [] = err (
    errorf (
      Arg.str
        "invalid data: requires a '%s' field, a combination of '%s', '%s' and '%s', or '%s', '%s' and '%s'"))
prefer ((here, r) ∷ ws) = let rest = prefer ws in if here then r else rest

-- The fields of an `az` service principal are set.
abbrev pub has_principal : AadConfig → Bool
has_principal c = is_set c.tenant && (is_set c.app_id && is_set c.password)

-- The configuration names an identity at all.
abbrev pub configured : AadConfig → Bool
configured c = is_set c.client_id || has_principal c

module _ (api : AzureApi) where
  -- The ways in the order of preference: a secret of the client, a certificate of the client, an
  -- `az` service principal, and a managed identity.
  abbrev pub ways : AadConfig → List Ranked
  ways c =
      (
        is_set c.tenant_id && (is_set c.client_id && is_set c.client_secret),
        api.make
            (client_secret_credential c.tenant_id c.client_id c.client_secret (get_cloud_config c)),
      )
      ∷ ((
        is_set c.tenant_id && (is_set c.client_id && is_set c.client_certificate),
        api.parse_certificates c.client_certificate c.client_certificate_password >>= λ certs.
            api.make (
              client_certificate_credential c.tenant_id c.client_id certs
                c.client_certificate_send_chain (get_cloud_config c)),
      )
          ∷ ((
            has_principal c,
            api.make (client_secret_credential c.tenant c.app_id c.password (get_cloud_config c)),
          )
              ∷ ((is_set c.client_id, api.make (managed_identity_credential c.client_id)) ∷ [])))

  preferred : (c : AadConfig) → token_credential_from_aad_config api c ≡ prefer (ways c)
  unfolding token_credential_from_aad_config other_credential secret_credential
      certificate_credential
  preferred c = elim (Bool-cases (is_set c.tenant_id)) [
    | inr absent ↦ rw absent refl
    | inl tenant ↦ elim (Bool-cases (is_set c.client_id)) [
      | inr absent ↦ rw (tenant, absent) refl
      | inl client ↦ rw (tenant, client) refl
    ]
  ]

  -- Without an identity there is no credential.
  unconfigured : (c : AadConfig) → (is_ok (prefer (ways c)) && not (configured c)) ≡ false
  unconfigured c = elim (Bool-cases (is_set c.client_id)) [
    | inl client ↦ rw client (ground arith)
    | inr absent ↦ elim (Bool-cases (has_principal c)) [
      | inl principal ↦ rw (absent, principal) (ground arith)
      | inr neither ↦ rw (absent, neither) (ground arith)
    ]
  ]

  -- TokenCredentialFromAADConfig gives what the first way gives whose fields are set, in the order
  -- client secret, client certificate, `az` service principal, managed identity, with the errors of
  -- azidentity passed on; and it gives no credential unless the client id is set, or the tenant, the
  -- app id and the password of a service principal are.
  pub token_credential_from_aad_config-ok :
      (c : AadConfig)
      → (token_credential_from_aad_config api c ≡ prefer (ways c))
        × ((is_ok (token_credential_from_aad_config api c) && not (configured c)) ≡ false)
  token_credential_from_aad_config-ok c = (preferred c, rw (preferred c) (unconfigured c))
