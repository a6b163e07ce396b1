-- ===== src/Controller/Builder.antt =====
-- The calls of `build` on the decryptor and on kustomize, and the choice of a client.
use fork_kustomize_controlle.Prelude.{
  String, Bool, not, ◌||◌, none, some, ◌==◌, is_some, if◌then◌else◌,
}
use fork_kustomize_controlle.Errors.{Arg, Result, ok, err, wrapf}
use fork_kustomize_controlle.Api.{Kustomization}
use fork_kustomize_controlle.Controller.{
  Reconciler, Impersonation, client_built, generated, built, sources_decrypted, Env, Exec, pure,
  raise, lift, call, check, attempt, get_state, ◌>>=◌, ◌>>◌,
}
use fork_kustomize_controlle.Controller.Building.{build_resources}

-- `mustImpersonate` and the options of the impersonator; `polls` says that a poller is configured.
unfoldable pub impersonation : Reconciler → Kustomization → Bool → Impersonation
impersonation r obj polls =
    let accounts =
      not (r.default_service_account == "") || not (obj.spec.service_account_name == "") in
    record {
      must_impersonate = accounts || is_some obj.spec.kube_config;
      service_account =
          if accounts
          then some (r.default_service_account, obj.spec.service_account_name, obj.namespace)
          else none;
      kube_config = is_some obj.spec.kube_config;
      polling = polls;
    }

module _ (r : Reconciler) (env : Env) where
  -- With nothing to impersonate the controller's own client serves, and no error arises.
  unfoldable pub build_client : Impersonation → Exec (Unit {0})
  build_client i =
      if i.must_impersonate
      then call (client_built i) (λ h. env.get_client h i) >>= check
      else pure tt

  unfoldable pub generate : Kustomization → String → Exec (Unit {0})
  generate obj dir_path = call (generated dir_path) (λ h. env.write_file h obj dir_path) >>= check

  abbrev built_or_failed {ℓ} : {A : Type ℓ} → Result A → Result A
  built_or_failed (ok a) = ok a
  built_or_failed (err e) = err (wrapf (Arg.str "kustomize build failed: %w") e)

  -- `build`; the options of the decryptor are in its parameters
  unfoldable pub build : Kustomization → String → String → Exec String
  build obj work_dir dir_path = do
    s ← get_state
    check (env.new_decryptor s.history)
    check (env.import_keys s.history)
    attempt (call (sources_decrypted dir_path) (λ h. env.decrypt_sources h dir_path) >>= check)
        (λ e. raise (wrapf (Arg.str "error decrypting sources: %w") e))
    m ← call (built dir_path) (λ h. env.secure_build h work_dir dir_path (not r.no_remote_bases))
    resources ← lift (built_or_failed m)
    final ← lift (build_resources r env obj resources)
    lift (built_or_failed (env.as_yaml final))
