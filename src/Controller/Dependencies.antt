-- ===== src/Controller/Dependencies.antt =====
-- `checkDependencies` and `evalReadyExpr`.
pub mod Readiness
use fork_kustomize_controlle.Prelude.{
  String, Bool, true, false, not, ◌&&◌, ◌||◌, Option, none, some, List, [], ◌∷◌, ◌==◌, eqb,
  is_empty, if◌then◌else◌,
}
use fork_kustomize_controlle.Errors.{
  Err, Arg, nil, arg, Result, ok, err, wrapf, errorf, terminal, sprintf₁,
}
use fork_kustomize_controlle.Api.{Kustomization, DependencyReference, ready}
use fork_kustomize_controlle.Controller.{
  Reconciler, direct, NamespacedName, Artifact, got_kustomization, Env, Exec, pure, raise, lift,
  call, check, attempt, ◌>>=◌, ◌>>◌,
}
use fork_kustomize_controlle.Controller.Sources.{name_arg}

abbrev pub about : String → NamespacedName → Arg
about f n = Arg.printf f (arg (name_arg n) nil)

-- The name of a dependency; its namespace is the object's if it is not given.
abbrev pub dependency_name : Kustomization → DependencyReference → NamespacedName
dependency_name obj d = record {
  namespace = if d.namespace == "" then obj.namespace else d.namespace;
  name = d.name;
}

abbrev pub source_namespace_of : Kustomization → String
source_namespace_of k =
    if k.spec.source_ref.namespace == "" then k.namespace else k.spec.source_ref.namespace

-- Both objects are made from one source.
abbrev pub same_source : Kustomization → Kustomization → Bool
same_source dep obj =
    dep.spec.source_ref.name == obj.spec.source_ref.name
    && (source_namespace_of dep == source_namespace_of obj
        && dep.spec.source_ref.kind == obj.spec.source_ref.kind)

abbrev pub converted : Option Err → (Err → Err) → Result (Unit {0})
converted none f = ok tt
converted (some e) f = err (f e)

infixl 5 ◌then_result◌
abbrev pub ◌then_result◌ {ℓ} : {A : Type ℓ} → Result (Unit {0}) → Result A → Result A
ok u then_result k = k
err e then_result k = err e

abbrev pub expression_result : NamespacedName → Result Bool → Result (Unit {0})
expression_result name (err e) = err e
expression_result name (ok true) = ok tt
expression_result name (ok false) =
    err (errorf (about "dependency '%s' is not ready according to readyExpr eval" name))

module _ (r : Reconciler) (env : Env) where
  -- `evalReadyExpr`; a compilation error is terminal
  unfoldable pub eval_ready_expr : String → Kustomization → Kustomization → Result Bool
  eval_ready_expr expr self dep =
      converted (env.new_expression expr)
        (λ e. terminal (wrapf (sprintf₁ "failed to evaluate dependency %s" dep.name) e))
      then_result converted (env.to_unstructured dep)
          (wrapf (sprintf₁ "failed to convert %s object to map" "dep"))
      then_result env.evaluate expr self dep

  -- The conditions and the revision of a dependency that was read.
  unfoldable pub built_in_check :
      Kustomization → Artifact → NamespacedName → Kustomization → Result (Unit {0})
  built_in_check obj artifact name dep =
      if is_empty dep.status.conditions || not (eqb dep.generation dep.status.observed_generation)
      then err (errorf (about "dependency '%s' is not ready" name))
      else if not (env.conditions.is_status_condition_true dep.status.conditions ready)
      then err (errorf (about "dependency '%s' is not ready" name))
      else if same_source dep obj
          && not (env.has_revision artifact dep.status.last_applied_revision)
      then err (errorf (about "dependency '%s' revision is not up to date" name))
      else ok tt

  -- The body of the loop, after the dependency was read.
  unfoldable pub check_read :
      Kustomization
      → Artifact
      → DependencyReference
      → NamespacedName
      → Kustomization
      → Result (Unit {0})
  unfolding built_in_check
  check_read obj artifact ref name dep =
      (if not (ref.ready_expr == "")
        then expression_result name (eval_ready_expr ref.ready_expr obj dep)
        else ok tt)
      then_result (if not (ref.ready_expr == "") && not r.additive_cel_dependency_check
          then ok tt
          else built_in_check obj artifact name dep)

  -- The body of the loop.
  unfoldable pub check_dependency : Kustomization → Artifact → DependencyReference → Exec (Unit {0})
  check_dependency obj artifact ref =
      let name = dependency_name obj ref in
      do
        dep ←
            attempt
              (call (got_kustomization direct name) (λ h. env.get_kustomization h direct name)
                >>= lift)
              (λ e. raise (wrapf (about "dependency '%s' not found" name) e))
        lift (check_read obj artifact ref name dep)

  unfoldable pub check_each : Kustomization → Artifact → List DependencyReference → Exec (Unit {0})
  check_each obj artifact [] = pure tt
  check_each obj artifact (ref ∷ refs) =
      check_dependency obj artifact ref >> check_each obj artifact refs

  unfoldable pub check_dependencies : Kustomization → Artifact → Exec (Unit {0})
  unfolding check_each
  check_dependencies obj artifact = do
    lift (
        converted (env.to_unstructured obj)
          (wrapf (Arg.str "failed to convert Kustomization to unstructured")))
    check_each obj artifact obj.spec.depends_on
