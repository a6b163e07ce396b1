-- ===== src/Controller/Applying/Refusal.antt =====
-- What `apply` refuses.
use fork_kustomize_controlle.Prelude.{
  String, Bool, true, false, List, [], ◌∷◌, ◌≡◌, refl, ◌∙◌, any, Bool-cases, inl, inr,
}
use fork_kustomize_controlle.Errors.{Err, Result, ok, err}
use fork_kustomize_controlle.Objects.{Unstructured}
use fork_kustomize_controlle.Controller.{Reconciler, Env, State, get_obj, lift, ◌>>=◌, ◌>>◌}
use fork_kustomize_controlle.Controller.Frames.Chains.{}
use fork_kustomize_controlle.Controller.Applying.{
  is_refused, refuse_encrypted, apply, with_common_metadata,
}

module _ (r : Reconciler) (env : Env) where
  is_err : Result (Unit {0}) → Bool
  is_err (ok u) = false
  is_err (err e) = true

  is_err-refuse_encrypted :
      (us : List Unstructured) → is_err (refuse_encrypted r env us) ≡ any (is_refused env) us
  unfolding refuse_encrypted is_err
  is_err-refuse_encrypted [] = refl
  is_err-refuse_encrypted (u ∷ us) = elim (Bool-cases (is_refused env u)) [
    | inl refused ↦ rw refused refl
    | inr fine ↦ rw fine (is_err-refuse_encrypted us)
  ]

  eq-err : (x : Result (Unit {0})) → is_err x ≡ true → (e : Err) × (x ≡ err e)
  unfolding is_err
  eq-err (ok u) h = cc
  eq-err (err e) h = (e, refl)

  -- If some object that `apply` is about to apply is an encrypted Secret whose decryption is not
  -- disabled, it returns an error, and neither the Kustomization nor the cluster has changed.
  pub apply_refuses :
      (revision origin_revision : String) (us normal : List Unstructured) (s : State)
      → env.normalize us ≡ ok normal
      → any (is_refused env) (with_common_metadata r env s.obj.spec.common_metadata normal) ≡ true
      → (e : Err) × (apply r env revision origin_revision us s ≡ (err e, s))
  unfolding apply ◌>>=◌ ◌>>◌ get_obj lift
  apply_refuses revision origin_revision us normal s n h =
      let (e, eq) = eq-err _ (is_err-refuse_encrypted _ ∙ h) in (e, rw (n, eq) refl)
