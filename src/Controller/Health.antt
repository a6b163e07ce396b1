-- ===== src/Controller/Health.antt =====
-- `checkHealth`.
pub mod Verdict
use fork_kustomize_controlle.Prelude.{
  String, Bool, true, false, not, ◌&&◌, ◌||◌, Option, none, some, List, [], map, select, ◌==◌,
  is_empty, if◌then◌else◌,
}
use fork_kustomize_controlle.Prelude.Int.{pos}
use fork_kustomize_controlle.Errors.{Err, Arg, nil, arg, str, duration, Message, Result, wrapf}
use fork_kustomize_controlle.Api.{
  Kustomization, ready, healthy, status_true, status_false, status_unknown, progressing, succeeded,
  health_check_failed, kustomization_kind,
}
use fork_kustomize_controlle.Api.Defaults.{get_timeout}
use fork_kustomize_controlle.Objects.{ObjMetadata, ChangeSetEntry, Action, skipped}
use fork_kustomize_controlle.Inventory.{reference_to_obj_metadata_set}
use fork_kustomize_controlle.Controller.{
  Reconciler, WaitOptions, waited, info_severity, Env, Exec, raise, lift, call, check, attempt,
  mark, when, get_state, get_obj, modify_conditions, ◌>>=◌, ◌>>◌,
}
use fork_kustomize_controlle.Controller.Status.{event, patch}

abbrev pub is_skipped : Action → Bool
is_skipped skipped = true
is_skipped _ = false

-- The Kustomization itself, on which a wait would never end.
abbrev pub is_itself : Kustomization → ObjMetadata → Bool
is_itself obj o =
    o.kind == kustomization_kind && (o.name == obj.name && o.namespace == obj.namespace)

-- The loop that makes `toCheck`.
unfoldable pub to_check : Kustomization → List ObjMetadata → List ObjMetadata
to_check obj = select (λ o. not (is_itself obj o))

-- `ToObjMetadataSet` of the entries that were not skipped
unfoldable pub without_skipped : List ChangeSetEntry → List ObjMetadata
without_skipped entries = map (λ e. e.metadata) (select (λ e. not (is_skipped e.action)) entries)

-- a format of the revision and the timeout
abbrev pub progress_message : String → String → Kustomization → Message
progress_message f revision obj =
    Arg.printf f (arg (str revision) (arg (duration (get_timeout obj)) nil))

module _ (r : Reconciler) (env : Env) where
  unfoldable pub delete_healthy : Exec (Unit {0})
  delete_healthy = modify_conditions (env.conditions.delete healthy)

  -- The objects whose health is checked: those applied, or those of `spec.healthChecks`.
  unfoldable pub health_objects : Kustomization → List ChangeSetEntry → Result (List ObjMetadata)
  unfolding without_skipped
  health_objects obj entries =
      if obj.spec.wait
      then Result.ok (without_skipped entries)
      else reference_to_obj_metadata_set env.objects obj.spec.health_checks

  unfoldable pub unhealthy : Err → Exec (Unit {0})
  unhealthy e = do
    mark env status_false ready health_check_failed (Arg.error e)
    mark env status_false healthy health_check_failed (Arg.error e)
    raise (wrapf (Arg.str "health check failed after %s") e)

  unfoldable pub queued_or_unhealthy : Option Err → Err → Exec (Unit {0})
  unfolding unhealthy
  queued_or_unhealthy none e = unhealthy e
  queued_or_unhealthy (some queued) e = raise queued

  -- A wait that failed: with a new reconciliation in the queue its event source is the error.
  unfoldable pub wait_failed : Err → Exec (Unit {0})
  unfolding queued_or_unhealthy
  wait_failed e = do s ← get_state; queued_or_unhealthy (env.is_object_enqueued s.history) e

  -- The wait and what follows, for the objects to check and the flags of the call.
  unfoldable pub wait_healthy :
      Kustomization → String → String → Bool → List ObjMetadata → List ObjMetadata → Exec (Unit {0})
  unfolding to_check wait_failed
  wait_healthy obj revision origin_revision recovered objects jobs_with_ttl =
      let message =
        progress_message "Running health checks for revision %s with a timeout of %s" revision
          obj in
      let opts : WaitOptions = record {
        interval = pos 5000000000;
        timeout = get_timeout obj;
        fail_fast = r.fail_fast;
        jobs_with_ttl = jobs_with_ttl;
      } in
      do
        modify_conditions (env.conditions.mark_reconciling progressing message)
        mark env status_unknown healthy progressing message
        attempt (patch env)
            (λ e. raise (wrapf (Arg.str "unable to update the healthy status to progressing") e))
        failure ←
            call (waited (to_check obj objects) opts)
              (λ h. env.wait_for_set h (to_check obj objects) opts)
        attempt (check failure) wait_failed
        when recovered (
            event env revision origin_revision info_severity (Arg.str "Health check passed in %s")
              [])
        mark env status_true healthy succeeded (Arg.str "Health check passed in %s")
        attempt (patch env)
            (λ e. raise (wrapf (Arg.str "unable to update the healthy status to progressing") e))

  unfoldable pub check_health :
      String → String → Bool → Bool → List ChangeSetEntry → List ObjMetadata → Exec (Unit {0})
  unfolding wait_healthy health_objects
  check_health revision origin_revision is_new_revision drifted entries jobs_with_ttl = do
    obj ← get_obj
    if is_empty obj.spec.health_checks && not obj.spec.wait then delete_healthy else do
      objects ← lift (health_objects obj entries)
      let was_healthy = env.conditions.is_status_condition_true obj.status.conditions healthy
      if is_empty objects
          then delete_healthy
          else wait_healthy obj revision origin_revision
              (not was_healthy || is_new_revision && drifted) objects jobs_with_ttl
