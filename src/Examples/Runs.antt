-- ===== src/Examples/Runs.antt =====
-- The controller's methods on one Kustomization, and on variants of it.
use fork_kustomize_controlle.Prelude.{true, false, none, some, [], ◌∷◌, ◌≡◌, refl, any}
use fork_kustomize_controlle.Errors.{Err, opaque, ok, err, str}
use fork_kustomize_controlle.Api.{
  Kustomization, Condition, ready, reconciling, status_true, status_false, reconciliation_failed,
  progressing, kustomization_finalizer,
}
use fork_kustomize_controlle.Objects.{Unstructured, bare_object}
use fork_kustomize_controlle.Controller.{
  attempt, when, emit, call, check, modify, pure, get_obj, ◌>>=◌, ◌>>◌, Env, State, no_requeue,
  status_of,
}
use fork_kustomize_controlle.Controller.Frames.{is_mutation}
use fork_kustomize_controlle.Controller.Frames.Chains.{ByResult}
use fork_kustomize_controlle.Controller.Status.{final_status, finalize_status, patch, event}
use fork_kustomize_controlle.Controller.Sources.{get_source}
use fork_kustomize_controlle.Controller.Sources.Access.{Allowed, get_source-Allowed}
use fork_kustomize_controlle.Controller.Dependencies.{
  check_dependencies, check_dependency, check_read,
}
use fork_kustomize_controlle.Controller.Dependencies.Readiness.{
  AllSatisfied, check_dependencies-AllSatisfied,
}
use fork_kustomize_controlle.Controller.Applying.{
  apply, is_encrypted_secret, is_decryption_disabled,
}
use fork_kustomize_controlle.Controller.Applying.Refusal.{apply_refuses}
use fork_kustomize_controlle.Controller.Health.{check_health}
use fork_kustomize_controlle.Controller.Health.Verdict.{Judged, check_health-Verdict}
use fork_kustomize_controlle.Controller.Finalizing.{finalize}
use fork_kustomize_controlle.Controller.Finalizing.Deletion.{finalize_holds, finalize_spares}
use fork_kustomize_controlle.Controller.Reconciliation.{reconcile, snapshot_of}
use fork_kustomize_controlle.Controller.Reconciliation.Garbage.{Accounted}
use fork_kustomize_controlle.Controller.Reconciliation.Orphans.{no_orphans}
use fork_kustomize_controlle.Controller.Reconciliation.Outcomes.{
  Finished, Unfinished, reconcile_outcome,
}
use fork_kustomize_controlle.Controller.Loop.{
  reconcile_object, reconcile_from, deferred, report_success,
}
use fork_kustomize_controlle.Controller.Loop.Requests.{Scheduled, reconcile_object-Scheduled}
use fork_kustomize_controlle.Controller.Loop.Reports.{ready_observed, request_handled}
use fork_kustomize_controlle.Examples.{
  sample_reconciler, sample_env, sample_artifact, sample_state, sample_kustomization,
  sample_dependency, sample_metadata, condition,
}
use fork_kustomize_controlle.Examples.Laws.{object_laws, condition_laws, finalizer_laws}

abbrev env : Env
env = sample_env none

-- the deletion fails
abbrev failing_env : Env
failing_env = sample_env (some (opaque "denied"))

abbrev suspended : Kustomization
suspended = record sample_dependency { spec = record sample_dependency.spec { suspend = true } }

abbrev suspended_state : State
suspended_state = record { obj = suspended; history = [] }

-- Ready is false, and a reconciliation had begun.
abbrev begun : Condition
begun = condition status_true reconciling progressing (str "")

abbrev failed : Kustomization
failed = record sample_kustomization {
  status = record sample_kustomization.status {
    conditions = condition status_false ready reconciliation_failed (str "") ∷ begun ∷ [];
  };
}

-- the health of a workload is to be checked
abbrev waiting_state : State
waiting_state = record sample_state {
  obj = record sample_kustomization {
    spec = record sample_kustomization.spec {
      health_checks =
          record { api_version = "apps/v1"; kind = "Deployment"; name = "web"; namespace = "" }
          ∷ [];
    };
  };
}

abbrev secret : Unstructured
secret = record (bare_object "" "v1" "Secret" "credentials" "") { has_sops = true }

no_orphans_example :
    Accounted failing_env
      (snapshot_of sample_state.obj.status.inventory)
      (sample_metadata "gone")
      (reconcile sample_reconciler failing_env sample_artifact "" sample_state).1
no_orphans_example =
    no_orphans sample_reconciler failing_env object_laws condition_laws sample_artifact ""
      sample_state (sample_metadata "gone") refl refl

reconcile_outcome_example :
    ByResult
      (Unfinished env sample_state.obj.status.last_applied_revision
        sample_state.obj.status.last_applied_origin_revision)
      (Finished env sample_artifact.revision "")
      (reconcile sample_reconciler env sample_artifact "" sample_state)
reconcile_outcome_example =
    reconcile_outcome sample_reconciler env condition_laws sample_artifact "" sample_state

ready_observed_example :
    (status_of (
        env.conditions.get
          (reconcile_from sample_reconciler env suspended_state).final.obj.status.conditions
          reconciling)
      ≡ none)
    × ((reconcile_from sample_reconciler env suspended_state).final.obj.status.observed_generation
        ≡ (reconcile_from sample_reconciler env suspended_state).final.obj.generation)
unfolding reconcile_from reconcile_object deferred finalize_status patch final_status report_success
    event when emit call check modify pure get_obj ◌>>=◌ ◌>>◌
ready_observed_example = ready_observed sample_reconciler env condition_laws suspended_state refl

request_handled_example :
    (reconcile_from sample_reconciler env
      suspended_state).final.obj.status.last_handled_reconcile_at
    ≡ "now"
unfolding reconcile_from reconcile_object deferred finalize_status patch final_status report_success
    event when emit call check modify pure get_obj ◌>>=◌ ◌>>◌
request_handled_example = request_handled sample_reconciler env suspended_state "now" refl

reconcile_object-Scheduled_example :
    Scheduled sample_reconciler failing_env
      (reconcile_object sample_reconciler failing_env sample_state)
reconcile_object-Scheduled_example =
    reconcile_object-Scheduled sample_reconciler failing_env sample_state refl refl refl

finalize_holds_example :
    ByResult
      (λ t. t.obj.finalizers ≡ sample_state.obj.finalizers)
      (λ t.
        failing_env.finalizers.contains_finalizer t.obj.finalizers kustomization_finalizer ≡ false)
      (finalize sample_reconciler failing_env sample_state)
finalize_holds_example =
    finalize_holds sample_reconciler failing_env condition_laws finalizer_laws sample_state

finalize_spares_example :
    ((finalize sample_reconciler env suspended_state).0 ≡ ok no_requeue)
    × (env.finalizers.contains_finalizer
          (finalize sample_reconciler env suspended_state).1.obj.finalizers
          kustomization_finalizer
        ≡ false)
    × (any is_mutation (finalize sample_reconciler env suspended_state).1.history
        ≡ any is_mutation suspended_state.history)
finalize_spares_example = finalize_spares sample_reconciler env finalizer_laws suspended_state refl

check_dependencies-AllSatisfied_example :
    AllSatisfied sample_reconciler env sample_kustomization sample_artifact
      sample_kustomization.spec.depends_on
unfolding check_dependencies check_dependency check_read attempt ◌>>◌
check_dependencies-AllSatisfied_example =
    check_dependencies-AllSatisfied sample_reconciler env sample_kustomization sample_artifact
      sample_state refl

get_source-Allowed_example :
    Allowed sample_reconciler env sample_kustomization sample_state
      (record { artifact = some sample_artifact })
unfolding get_source attempt ◌>>=◌
get_source-Allowed_example =
    get_source-Allowed sample_reconciler env sample_kustomization sample_state
      (record { artifact = some sample_artifact }) refl

apply_refuses_example :
    (e : Err) × (apply sample_reconciler env "main@2" "" (secret ∷ []) sample_state
      ≡ (err e, sample_state))
unfolding is_encrypted_secret is_decryption_disabled
apply_refuses_example =
    apply_refuses sample_reconciler env "main@2" "" (secret ∷ []) (secret ∷ []) sample_state refl
      refl

check_health-Verdict_example :
    Judged sample_reconciler env condition_laws
      (check_health sample_reconciler env "main@2" "" true true [] [] waiting_state)
check_health-Verdict_example =
    check_health-Verdict sample_reconciler env condition_laws "main@2" "" true true [] []
      waiting_state
