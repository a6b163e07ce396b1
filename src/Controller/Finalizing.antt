-- ===== src/Controller/Finalizing.antt =====
-- `finalize`: what happens to a Kustomization under deletion.
pub mod Deletion
use fork_kustomize_controlle.Prelude.{
  on_option, String, Bool, true, false, not, ◌&&◌, Option, none, some, List, [], ◌∷◌, ◌==◌,
  if◌then◌else◌,
}
use fork_kustomize_controlle.Errors.{Err, Arg, Result, ok, err}
use fork_kustomize_controlle.Api.{
  Kustomization, ResourceInventory, kustomization_finalizer, deletion_policy_wait_for_termination,
}
use fork_kustomize_controlle.Api.Defaults.{get_deletion_policy, get_timeout}
use fork_kustomize_controlle.Objects.{Unstructured, ChangeSetEntry}
use fork_kustomize_controlle.Inventory.{new, list}
use fork_kustomize_controlle.Controller.{
  Reconciler, Requeue, no_requeue, Severity, info_severity, error_severity, waited_termination,
  cache_events_deleted, Outcome, Env, Exec, pure, raise, call, emit, check, attempt, get_obj,
  get_state, modify, when, ◌>>=◌, ◌>>◌,
}
use fork_kustomize_controlle.Controller.Status.{event}
use fork_kustomize_controlle.Controller.Builder.{impersonation, build_client}
use fork_kustomize_controlle.Controller.Pruning.{delete_objects, finalizer_should_delete_resources}

abbrev inventory_of : Option ResourceInventory → ResourceInventory
inventory_of none = new
inventory_of (some inv) = inv

-- `objects, _ := inventory.List(…)`: with an error the list is nil.
abbrev objects_or_none : Result (List Unstructured) → List Unstructured
objects_or_none (ok us) = us
objects_or_none (err e) = []

-- `kustomizev1.AllMetrics` of api/v1/metrics.go
abbrev pub all_metrics : List String
all_metrics =
    "fetch_kubeconfig" ∷ "decrypt_with_aws" ∷ "decrypt_with_azure" ∷ "decrypt_with_gcp"
    ∷ "decrypt_with_vault" ∷ []

module _ (r : Reconciler) (env : Env) where
  -- The events of the finalizer have the revisions that were applied last.
  unfoldable pub final_event : Kustomization → Severity → Arg → Exec (Unit {0})
  final_event obj severity msg =
      event env obj.status.last_applied_revision obj.status.last_applied_origin_revision severity
        msg []

  -- With the policy WaitForTermination a timeout is reported, and no error.
  unfoldable pub wait_terminated : Kustomization → List ChangeSetEntry → Exec (Unit {0})
  unfolding get_deletion_policy
  wait_terminated obj entries =
      when (get_deletion_policy obj == deletion_policy_wait_for_termination) (
        attempt
          (call (waited_termination entries (get_timeout obj))
              (λ h. env.wait_for_set_termination h entries (get_timeout obj))
            >>= check)
          (λ e.
            final_event obj error_severity (Arg.str "failed to wait for resources termination")))

  unfoldable pub report_deleted : Kustomization → Option (List ChangeSetEntry) → Exec (Unit {0})
  unfolding wait_terminated
  report_deleted obj none = pure tt
  report_deleted obj (some []) = pure tt
  report_deleted obj (some (e ∷ es)) =
      final_event obj info_severity (env.format_change_set (e ∷ es)) >> wait_terminated obj (e ∷ es)

  unfoldable pub delete_managed : Kustomization → List Unstructured → Exec (Unit {0})
  unfolding report_deleted delete_objects
  delete_managed obj objects = do
    build_client r env (impersonation r obj r.cluster_reader)
    out ← delete_objects env obj objects
    on_option out.error (report_deleted obj out.value) (λ e.
        final_event obj error_severity (Arg.str "pruning for deleted resource failed") >> raise e)

  -- When the account to impersonate is gone, the objects are reported and left.
  unfoldable pub finalize_resources : Kustomization → Exec (Unit {0})
  unfolding delete_managed
  finalize_resources obj = do
    let objects = objects_or_none (list env.objects (inventory_of obj.status.inventory))
    s ← get_state
    if env.can_impersonate s.history (impersonation r obj r.cluster_reader)
        then delete_managed obj objects
        else final_event obj error_severity (env.format_objects objects)

  unfoldable pub delete_cache_events : List String → Exec (Unit {0})
  delete_cache_events [] = pure tt
  delete_cache_events (op ∷ ops) = emit (cache_events_deleted op) >> delete_cache_events ops

  unfoldable pub finalize : Exec Requeue
  unfolding finalizer_should_delete_resources finalize_resources delete_cache_events
  finalize = do
    obj ← get_obj
    when (finalizer_should_delete_resources obj) (finalize_resources obj)
    modify (λ o. record o {
      finalizers = env.finalizers.remove_finalizer o.finalizers kustomization_finalizer;
    })
    delete_cache_events all_metrics
    pure no_requeue
