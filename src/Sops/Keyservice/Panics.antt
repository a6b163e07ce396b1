-- ===== src/Sops/Keyservice/Panics.antt =====
-- When the server does not panic.
use fork_kustomize_controlle.Prelude.{
  String, Bool, true, false, not, some, ◌==◌, if◌then◌else◌, ◌≡◌, ◌≢◌, refl, sym, ap, ◌∙◌,
  Bool-cases, Option-cases, inl, inr,
}
use fork_kustomize_controlle.Errors.{Err, Result, ok, err}
use fork_kustomize_controlle.Sops.MasterKeys.{
  AwsCredentials, AzureCredential, MasterKeyApi, Reply, answer, failure, panicked, reply_of,
}
use fork_kustomize_controlle.Sops.Keyservice.{
  Server, DefaultServer, Served, serve_on, provided, KeyType, pgp_key, age_key, vault_key, kms_key,
  azure_keyvault_key, gcp_kms_key, other_key, no_key, nil_vault_key, nil_message, nil_key, decrypt,
  encrypt, resolve_vault_token, return_of, give, ◌>>=◌, default_reply, vault_configured,
  aws_credentials,
}

-- The request has a key, and a message where the type of the key is known.
abbrev pub is_complete : KeyType → Bool
is_complete nil_vault_key = false
is_complete nil_message = false
is_complete nil_key = false
is_complete _ = true

-- The calls do not panic, in any state of the token function.
pub record NoPanic {S A : Type 0} (m : Served S A) : Type 0 where
  pub at : (s : S) → (m s).0 ≢ panicked

module _ {S A : Type 0} where
  NoPanic-return_of : (r : Result A) → NoPanic (return_of {S = S} r)
  unfolding return_of
  NoPanic-return_of (ok a) = record { at = λ s h. cc }
  NoPanic-return_of (err e) = record { at = λ s h. cc }

  NoPanic-if : (b : Bool) (m n : Served S A) → NoPanic m → NoPanic n → NoPanic (if b then m else n)
  NoPanic-if true m n hm hn = hm
  NoPanic-if false m n hm hn = hn

module _ {S A B : Type 0} where
  NoPanic-bind :
      (m : Served S A) (f : A → Served S B)
      → NoPanic m
      → ((a : A) → NoPanic (f a))
      → NoPanic (m >>= f)
  unfolding ◌>>=◌
  NoPanic-bind m f hm hf = record { at = λ s. on (m s) (hm.at s) }
    where
      on : (q : Reply A × S) → q.0 ≢ panicked → (serve_on q.0 f q.1).0 ≢ panicked
      on (answer a, t) h = (hf a).at t
      on (failure e, t) h = λ g. cc
      on (panicked, t) h = λ g. h refl

-- The providers that the key service calls without a check are set.
pub record Provided {S : Type 0} (ks : Server S) : Type 0 where
  pub aws : (p : String → AwsCredentials) × (ks.aws_credentials_provider ≡ some (provided (some p)))
  pub azure : (c : AzureCredential) × (ks.azure_token_credential ≡ some (some c))
  pub default : (d : DefaultServer) × (ks.default_server ≡ some d)

module _ (api : MasterKeyApi)
    (accepts : (c : AzureCredential) → api.apply_azure (some (some c)) ≢ panicked) {S : Type 0}
    (ks : Server S) (has : Provided ks) where
  NoPanic-aws : (arn : String) → NoPanic (give {S = S} (aws_credentials api ks arn))
  unfolding give
  NoPanic-aws arn = let (p, here) = has.aws in record { at = λ s h. cc (simp here at h) }

  NoPanic-azure : NoPanic (give {S = S} (api.apply_azure ks.azure_token_credential))
  unfolding give
  NoPanic-azure =
      let (c, here) = has.azure in
      record { at = λ s h. accepts c (ap api.apply_azure (sym here) ∙ h) }

  NoPanic-default :
      (f : DefaultServer → Result String) → NoPanic (give {S = S} (default_reply api ks f))
  unfolding give
  NoPanic-default f =
      let (d, here) = has.default in record { at = λ s h. replied (f d) (simp here at h) }
    where
      replied : (r : Result String) → reply_of r ≢ panicked
      replied (ok a) h = cc
      replied (err e) h = cc

  NoPanic-resolve :
      (address : String)
      → vault_configured api ks ≡ true
      → NoPanic (resolve_vault_token api ks address)
  unfolding resolve_vault_token
  NoPanic-resolve address h = record {
    at = λ s. elim (Bool-cases (not (ks.vault_token == ""))) [
      | inl static ↦ λ g. cc (simp static at g)
      | inr dynamic ↦ elim (Option-cases ks.vault_k8s_auth) [
        | inl absent ↦ cc (simp (dynamic, absent) at h)
        | inr (f, here) ↦ λ g. replied (f address s).0 (simp (dynamic, here) at g)
      ]
    ];
  }
    where
      replied : (r : Result String) → reply_of r ≢ panicked
      replied (ok a) h = cc
      replied (err e) h = cc

  NoPanic-vault :
      {A : Type 0} (address : String) (f : String → Served S A) (m : Served S A)
      → ((t : String) → NoPanic (f t))
      → NoPanic m
      → NoPanic (if vault_configured api ks then resolve_vault_token api ks address >>= f else m)
  NoPanic-vault address f m hf hm = elim (Bool-cases (vault_configured api ks)) [
    | inl configured ↦ rw configured (
        NoPanic-bind (resolve_vault_token api ks address) f (NoPanic-resolve address configured) hf)
    | inr other ↦ rw other hm
  ]

  pub NoPanic-decrypt :
      (k : KeyType) (content : String)
      → is_complete k ≡ true
      → NoPanic (decrypt api ks (record { key = k; content = content }))
  unfolding decrypt
  NoPanic-decrypt (pgp_key f) c h = NoPanic-return_of _
  NoPanic-decrypt (age_key r) c h = NoPanic-return_of _
  NoPanic-decrypt (vault_key a b n) c h =
      NoPanic-vault a _ _ (λ t. NoPanic-return_of _) (NoPanic-default _)
  NoPanic-decrypt (kms_key a b n) c h =
      NoPanic-bind (give (aws_credentials api ks a)) _ (NoPanic-aws a) (λ x. NoPanic-return_of _)
  NoPanic-decrypt (azure_keyvault_key a b n) c h =
      NoPanic-bind (give (api.apply_azure ks.azure_token_credential)) _ NoPanic-azure
        (λ x. NoPanic-return_of _)
  NoPanic-decrypt (gcp_kms_key i) c h = NoPanic-return_of _
  NoPanic-decrypt (other_key t) c h = NoPanic-default _
  NoPanic-decrypt nil_vault_key c h = cc
  NoPanic-decrypt nil_message c h = cc
  NoPanic-decrypt nil_key c h = cc
  NoPanic-decrypt no_key c h = record { at = λ s g. refused g }
    where
      refused : {e : Err} → ◌≢◌ {A = Reply String} (failure e) panicked
      refused h = cc

  pub NoPanic-encrypt :
      (k : KeyType) (content : String)
      → is_complete k ≡ true
      → NoPanic (encrypt api ks (record { key = k; content = content }))
  unfolding encrypt
  NoPanic-encrypt (pgp_key f) c h = NoPanic-return_of _
  NoPanic-encrypt (age_key r) c h = NoPanic-return_of _
  NoPanic-encrypt (vault_key a b n) c h =
      NoPanic-vault a _ _ (λ t. NoPanic-return_of _) (NoPanic-default _)
  NoPanic-encrypt (kms_key a b n) c h =
      NoPanic-bind (give (aws_credentials api ks a)) _ (NoPanic-aws a) (λ x. NoPanic-return_of _)
  NoPanic-encrypt (azure_keyvault_key a b n) c h =
      NoPanic-bind (give (api.apply_azure ks.azure_token_credential)) _ NoPanic-azure
        (λ x. NoPanic-return_of _)
  NoPanic-encrypt (gcp_kms_key i) c h = NoPanic-return_of _
  NoPanic-encrypt (other_key t) c h = NoPanic-default _
  NoPanic-encrypt nil_vault_key c h = cc
  NoPanic-encrypt nil_message c h = cc
  NoPanic-encrypt nil_key c h = cc
  NoPanic-encrypt no_key c h = record { at = λ s g. refused g }
    where
      refused : {e : Err} → ◌≢◌ {A = Reply String} (failure e) panicked
      refused h = cc
