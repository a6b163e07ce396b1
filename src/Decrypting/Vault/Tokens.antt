-- ===== src/Decrypting/Vault/Tokens.antt =====
-- What the token function keeps, and which servers it asks.
use fork_kustomize_controlle.Prelude.{
  String, none, some, ◌∷◌, ◌≡◌, ◌≢◌, refl, ap, subst, ◌∙◌, inl, inr, Option-cases, eq_refl,
}
use fork_kustomize_controlle.Errors.{Result, ok}
use fork_kustomize_controlle.Api.{Labels}
use fork_kustomize_controlle.Controller.{NamespacedName}
use fork_kustomize_controlle.Sops.MasterKeys.{AuthOptions}
use fork_kustomize_controlle.Decrypting.Task.{◌>>=◌, return, get, modify, >>=-eq-ok}
use fork_kustomize_controlle.Decrypting.Types.{Session, KeyApi, find}
use fork_kustomize_controlle.Decrypting.Vault.{vault_k8s_token, exchange_token, known_login_paths}

module _ {W : Type 0} (api : KeyApi W) (name : NamespacedName) (opts : AuthOptions)
    (address : String) where
  abbrev keep_token : String → Session W → Session W
  keep_token t s = record s { tokens = (address, t) ∷ s.tokens }

  ok-eq :
      {a b : String} {u v : Session W}
      → ◌≡◌ {A = Result String × Session W} (ok a, u) (ok b, v)
      → (a ≡ b) × (u ≡ v)
  ok-eq h = (injected (ap (λ p. p.0) h), ap (λ p. p.1) h)
    where
      injected : {a b : String} → ok a ≡ ok b → a ≡ b
      injected h = cc

  kept_again :
      (s : Session W) (t : String)
      → find address s.tokens ≡ some t
      → vault_k8s_token api name opts address s ≡ (ok t, s)
  unfolding vault_k8s_token ◌>>=◌ get return
  kept_again s t h = rw h refl

  found_first : (t : String) (tokens : Labels) → find address ((address, t) ∷ tokens) ≡ some t
  unfolding find
  found_first t tokens = rw (eq_refl address) refl

  -- A token that was obtained for an address is obtained for it again, with no further call.
  pub vault_k8s_token-again :
      (s s' : Session W) (t : String)
      → vault_k8s_token api name opts address s ≡ (ok t, s')
      → vault_k8s_token api name opts address s' ≡ (ok t, s')
  unfolding vault_k8s_token ◌>>=◌ get return modify
  vault_k8s_token-again s s' t h = elim (Option-cases (find address s.tokens)) [
    | inr (kept, here) ↦
        let (same, stays) = ok-eq (rw here at h) in
        kept_again s' t (subst (λ u. find address u.tokens ≡ some t) stays (here ∙ ap some same))
    | inl absent ↦
        let (a, u, first, second) =
          >>=-eq-ok (exchange_token api name opts address)
            (λ token. modify (λ s. record s { tokens = (address, token) ∷ s.tokens }) >>= λ done.
              return (ok token))
            s (rw absent at h) in
        let (same, stays) = ok-eq second in
        kept_again s' t (
          subst (λ v. find address v.tokens ≡ some t) stays (found_first a u.tokens ∙ ap some same))
  ]

  -- An address that is not among the loaded login paths, and has no token yet, is refused without
  -- any call.
  pub vault_k8s_token-refused :
      (s : Session W) (paths : Labels)
      → s.login_paths ≡ some paths
      → find address paths ≡ none
      → find address s.tokens ≡ none
      → (vault_k8s_token api name opts address s).1 ≡ s
        × ((t : String) → (vault_k8s_token api name opts address s).0 ≢ ok t)
  unfolding vault_k8s_token exchange_token known_login_paths ◌>>=◌ get return
  vault_k8s_token-refused s paths loaded unlisted fresh =
      simp (fresh, loaded, unlisted) (refl, λ t h. cc)
