-- ===== src/Sops/Keyservice/Roundtrip.antt =====
-- The ciphertext of the server, decrypted by it.
use fork_kustomize_controlle.Prelude.{
  String, Option, [], not, some, ◌≡◌, refl, ap, ◌∙◌, ◌==◌, Bool-cases, Option-cases, inl, inr,
}
use fork_kustomize_controlle.Errors.{Result, ok, err}
use fork_kustomize_controlle.Sops.MasterKeys.{
  AwsCredentials, AzureCredential, MasterKeyApi, Reply, answer, failure, panicked, reply_of,
}
use fork_kustomize_controlle.Sops.Keyservice.{
  Server, DefaultServer, Request, KeyType, pgp_key, age_key, vault_key, kms_key, azure_keyvault_key,
  gcp_kms_key, other_key, no_key, nil_vault_key, nil_message, nil_key, Served, serve_on, encrypt,
  decrypt, resolve_vault_token, return_of, give, ◌>>=◌, vault_configured, aws_credentials,
  default_reply, pgp_master_key, age_master_key, vault_master_key, kms_key_to_master_key,
  azure_master_key, gcp_master_key,
}

module _ (api : MasterKeyApi) {S : Type 0} (ks : Server S) where
  -- What is needed of the server: a token that was obtained is obtained again.
  pub record Steady : Type 0 where
    pub token :
        (f : String → S → Result String × S) (address t : String) (s s' : S)
        → ks.vault_k8s_auth ≡ some f
        → f address s ≡ (ok t, s')
        → f address s' ≡ (ok t, s')

  -- The default server decrypts what it encrypts with the key.
  abbrev pub ByDefault : KeyType → Type 0
  ByDefault k =
      (d : DefaultServer) (p c : String)
      → ks.default_server ≡ some d
      → d.encrypt (record { key = k; content = p }) ≡ ok c
      → d.decrypt (record { key = k; content = c }) ≡ ok p

  -- The holder of this key may decrypt what was encrypted with it: the private key is in the
  -- keyring of the server, one of its identities is the recipient's, or the service permits the
  -- decryption to the credentials with which it permitted the encryption.
  abbrev pub Recovers : KeyType → Type 0
  Recovers (pgp_key f) =
      (p c : String)
      → api.encrypt_pgp (pgp_master_key api ks f) p ≡ ok c
      → api.decrypt_pgp (record (pgp_master_key api ks f) { encrypted_key = c }) ≡ ok p
  Recovers (age_key r) =
      (p c : String)
      → api.encrypt_age (age_master_key api ks r []) p ≡ ok c
      → api.decrypt_age (record (age_master_key api ks r ks.age_identities) { encrypted_key = c })
        ≡ ok p
  Recovers (vault_key a b n) =
      ((token p c : String)
        → api.encrypt_vault (vault_master_key api ks a b n token) p ≡ ok c
        → api.decrypt_vault (record (vault_master_key api ks a b n token) { encrypted_key = c })
          ≡ ok p)
      × ByDefault (vault_key a b n)
  Recovers (kms_key a b n) =
      (x : Option AwsCredentials) (p c : String)
      → aws_credentials api ks a ≡ answer x
      → api.encrypt_kms (kms_key_to_master_key api ks a b n x) p ≡ ok c
      → api.decrypt_kms (record (kms_key_to_master_key api ks a b n x) { encrypted_key = c }) ≡ ok p
  Recovers (azure_keyvault_key a b n) =
      (x : Option AzureCredential) (p c : String)
      → api.apply_azure ks.azure_token_credential ≡ answer x
      → api.encrypt_azure (azure_master_key api ks a b n x) p ≡ ok c
      → api.decrypt_azure (record (azure_master_key api ks a b n x) { encrypted_key = c }) ≡ ok p
  Recovers (gcp_kms_key i) =
      (p c : String)
      → api.encrypt_gcp (gcp_master_key api ks i) p ≡ ok c
      → api.decrypt_gcp (record (gcp_master_key api ks i) { encrypted_key = c }) ≡ ok p
  Recovers (other_key t) = ByDefault (other_key t)
  Recovers nil_vault_key = ByDefault nil_vault_key
  Recovers no_key = Unit
  Recovers nil_message = Unit
  Recovers nil_key = Unit

  reply_of-eq-answer : (r : Result String) (c : String) → reply_of r ≡ answer c → r ≡ ok c
  reply_of-eq-answer (ok a) c h = cc
  reply_of-eq-answer (err e) c h = cc

  answered :
      (r : Result String) (c : String) (s s' : S)
      → return_of r s ≡ (answer c, s')
      → (r ≡ ok c) × (s ≡ s')
  unfolding return_of
  answered r c s s' h = (reply_of-eq-answer r c (ap (λ p. p.0) h), ap (λ p. p.1) h)

  -- The first of two calls answered, if the second did.
  bound :
      {A : Type 0} (m : Reply A × S) (f : A → Served S String) (c : String) (s' : S)
      → serve_on m.0 f m.1 ≡ (answer c, s')
      → (a : A) × (m ≡ (answer a, m.1)) × (f a m.1 ≡ (answer c, s'))
  bound (answer a, t) f c s' h = (a, refl, h)
  bound (failure e, t) f c s' h = cc
  bound (panicked, t) f c s' h = cc

  giving :
      {A : Type 0} (r : Reply A) (f g : A → Served S String) (p c : String) (s s' : S)
      → ((a : A) → r ≡ answer a → f a s ≡ (answer c, s') → (g a s').0 ≡ answer p)
      → (give r >>= f) s ≡ (answer c, s')
      → ((give r >>= g) s').0 ≡ answer p
  unfolding give ◌>>=◌
  giving (answer a) f g p c s s' k h = k a refl h
  giving (failure e) f g p c s s' k h = cc
  giving panicked f g p c s s' k h = cc

  replied-eq-answer :
      (q : Result String × S) (t : String) (s' : S)
      → ◌≡◌ {A = Reply String × S} (reply_of q.0, q.1) (answer t, s')
      → q ≡ (ok t, s')
  replied-eq-answer (ok a, u) t s' h = cc
  replied-eq-answer (err e, u) t s' h = cc

  -- A token that was obtained is obtained again.
  resolve_again :
      (address t : String) (s s' : S)
      → Steady
      → resolve_vault_token api ks address s ≡ (answer t, s')
      → resolve_vault_token api ks address s' ≡ (answer t, s')
  unfolding resolve_vault_token
  resolve_again address t s s' steady h = elim (Bool-cases (not (ks.vault_token == ""))) [
    | inl static ↦ rw static (cc (rw static at h))
    | inr dynamic ↦ elim (Option-cases ks.vault_k8s_auth) [
      | inl absent ↦ cc (simp (dynamic, absent) at h)
      | inr (f, here) ↦
          simp (dynamic, here)
            (ap (λ q. (reply_of q.0, q.1))
              (steady.token f address t s s' here
                (replied-eq-answer (f address s) t s' (simp (dynamic, here) at h))))
    ]
  ]

  resolving :
      (address p c : String) (f g : String → Served S String) (s s' : S)
      → Steady
      → ((t : String) (s₁ : S) → f t s₁ ≡ (answer c, s') → (s₁ ≡ s') × ((g t s').0 ≡ answer p))
      → (resolve_vault_token api ks address >>= f) s ≡ (answer c, s')
      → ((resolve_vault_token api ks address >>= g) s').0 ≡ answer p
  unfolding ◌>>=◌
  resolving address p c f g s s' steady k h =
      let (t, first, second) = bound (resolve_vault_token api ks address s) f c s' h in
      let (same, done) = k t _ second in
      let again = resolve_again address t s s' steady (first ∙ ap (λ u. (answer t, u)) same) in
      ap (λ q. (serve_on q.0 g q.1).0) again ∙ done

  by_default :
      (k : KeyType) (p c : String) (s s' : S)
      → ByDefault k
      → give (default_reply api ks (λ d. d.encrypt (record { key = k; content = p }))) s
        ≡ (answer c, s')
      → (give (default_reply api ks (λ d. d.decrypt (record { key = k; content = c }))) s').0
        ≡ answer p
  unfolding give
  by_default k p c s s' recovers h = elim (Option-cases ks.default_server) [
    | inl absent ↦ cc (rw absent at h)
    | inr (d, here) ↦
        rw here (
          ap reply_of (recovers d p c here (reply_of-eq-answer _ c (ap (λ q. q.0) (rw here at h)))))
  ]

  by_key :
      (k : KeyType) (p c : String) (s s' : S)
      → Steady
      → Recovers k
      → encrypt api ks (record { key = k; content = p }) s ≡ (answer c, s')
      → (decrypt api ks (record { key = k; content = c }) s').0 ≡ answer p
  unfolding encrypt decrypt return_of
  by_key (pgp_key f) p c s s' steady h e = ap reply_of (h p c (answered _ c s s' e).0)
  by_key (age_key r) p c s s' steady h e = ap reply_of (h p c (answered _ c s s' e).0)
  by_key (vault_key a b n) p c s s' steady h e = elim (Bool-cases (vault_configured api ks)) [
    | inl configured ↦ rw configured (
        resolving a p c _ _ s s' steady
          (λ t s₁ q.
            let (encrypted, same) = answered _ c s₁ s' q in
            (same, ap reply_of (h.0 t p c encrypted)))
          (rw configured at e))
    | inr other ↦ rw other (by_default (vault_key a b n) p c s s' h.1 (rw other at e))
  ]
  by_key (kms_key a b n) p c s s' steady h e =
      giving (aws_credentials api ks a) _ _ p c s s'
        (λ x r q. ap reply_of (h x p c r (answered _ c s s' q).0)) e
  by_key (azure_keyvault_key a b n) p c s s' steady h e =
      giving (api.apply_azure ks.azure_token_credential) _ _ p c s s'
        (λ x r q. ap reply_of (h x p c r (answered _ c s s' q).0)) e
  by_key (gcp_kms_key i) p c s s' steady h e = ap reply_of (h p c (answered _ c s s' e).0)
  by_key (other_key t) p c s s' steady h e = by_default (other_key t) p c s s' h e
  by_key nil_vault_key p c s s' steady h e = elim (Bool-cases (vault_configured api ks)) [
    | inl configured ↦ cc (rw configured at e)
    | inr other ↦ rw other (by_default nil_vault_key p c s s' h (rw other at e))
  ]
  by_key no_key p c s s' steady h e = cc
  by_key nil_message p c s s' steady h e = cc
  by_key nil_key p c s s' steady h e = cc

  -- A ciphertext that the server answers is decrypted to its plaintext by the server in the state
  -- that the encryption left, if the holder of the key may decrypt what was encrypted with it, and
  -- the server obtains a Vault token again that it obtained.
  pub decrypt-encrypt :
      (req : Request) (c : String) (s s' : S)
      → Steady
      → Recovers req.key
      → encrypt api ks req s ≡ (answer c, s')
      → (decrypt api ks (record req { content = c }) s').0 ≡ answer req.content
  decrypt-encrypt req c s s' steady h e = by_key req.key req.content c s s' steady h e
