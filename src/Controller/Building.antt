-- ===== src/Controller/Building.antt =====
-- What `build` does with each resource of the overlay.
use fork_kustomize_controlle.Prelude.{
  String, Bool, ◌||◌, Option, none, some, List, [], ◌∷◌, ◌==◌, is_some, if◌then◌else◌,
}
use fork_kustomize_controlle.Errors.{Err, sprintf₁, sprintf₂, Result, ok, err, ◌>>=◌, wrapf, errorf}
use fork_kustomize_controlle.Api.{Kustomization, substitute_strategy_always}
use fork_kustomize_controlle.Api.Defaults.{get_substitute_strategy}
use fork_kustomize_controlle.Controller.{Reconciler, Resource, Env}

module _ (r : Reconciler) (env : Env) where
  abbrev replaced : Option Err → Resource → Result Resource
  replaced none res = ok res
  replaced (some e) res = err e

  -- What a step returns, with the resource kept where the result is nil.
  abbrev replace_with : Resource → Option Resource → Result Resource
  replace_with old none = ok old
  replace_with old (some new) = replaced (env.replace new) new

  abbrev failed_at {ℓ} : {A : Type ℓ} → String → Resource → Result A → Result A
  failed_at f res (ok a) = ok a
  failed_at f res (err e) = err (wrapf (sprintf₂ f res.kind res.name) e)

  -- Resources are decrypted before their final YAML is made.
  unfoldable pub decrypt_step : Kustomization → Resource → Result Resource
  decrypt_step obj res =
      if is_some obj.spec.decryption
      then (do
        out ← failed_at "decryption failed for '%s/%s': %w" res (env.decrypt_resource obj res)
        replace_with res out)
      else ok res

  unfoldable pub substitute_step : Kustomization → Resource → Result Resource
  unfolding get_substitute_strategy
  substitute_step obj res =
      let always = get_substitute_strategy obj == substitute_strategy_always in
      if is_some obj.spec.post_build
      then (do
        out ←
            failed_at "post build failed for '%s/%s': %w" res
              (env.substitute_variables obj r.strict_substitutions always res)
        replace_with res out)
      else ok res

  -- A resource without a name, a kind or an API version.
  abbrev pub is_malformed : Resource → Bool
  is_malformed res = res.name == "" || (res.kind == "" || res.api_version == "")

  -- The body of the loop over the resources.
  unfoldable pub build_resource : Kustomization → Resource → Result Resource
  unfolding decrypt_step substitute_step
  build_resource obj res =
      if is_malformed res
      then err (
          errorf
            (sprintf₁ "failed to decode Kubernetes apiVersion, kind and name from: %v" res.content))
      else (do plain ← decrypt_step obj res; substitute_step obj plain)

  unfoldable pub build_resources : Kustomization → List Resource → Result (List Resource)
  build_resources obj [] = ok []
  build_resources obj (res ∷ rest) = do
    res' ← build_resource obj res
    rest' ← build_resources obj rest
    ok (res' ∷ rest')
