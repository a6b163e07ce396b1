-- ===== src/Controller/Loop.antt =====
-- `Reconcile`: the entry point, once for each request.
pub mod Requests
pub mod Reports
use fork_kustomize_controlle.Prelude.{
  on_option, String, Bool, true, false, not, ◌&&◌, Option, none, some, List, [], ◌∷◌, ◌==◌,
  is_empty, if◌then◌else◌, inl, inr, ◌⊎◌,
}
use fork_kustomize_controlle.Errors.{
  Err, Arg, Args, str, Result, ok, err, terminal, is_terminal, is_file_not_found, as_queue_event,
  QueueEventSource, sprintf₁, sprintf₃,
}
use fork_kustomize_controlle.Api.{
  Kustomization, Decryption, Reason, ready, status_false, invalid_cel_expression,
  feature_gate_disabled, artifact_failed, access_denied, dependency_not_ready,
  health_check_canceled, kustomization_finalizer,
}
use fork_kustomize_controlle.Api.Defaults.{get_retry_interval, get_requeue_after, source_string}
use fork_kustomize_controlle.Controller.{
  Reconciler, cached, NamespacedName, Artifact, Source, Requeue, no_requeue, at_once, after,
  info_severity, error_severity, got_kustomization, duration_recorded, Effect, History, State, Env,
  Exec, pure, raise, lift, call, emit, check, attempt, outcome, mark, when, get_obj, modify,
  modify_status, modify_conditions, ◌>>=◌, ◌>>◌,
}
use fork_kustomize_controlle.Controller.Sources.{get_source, get_origin_revision}
use fork_kustomize_controlle.Controller.Status.{event, finalize_status}
use fork_kustomize_controlle.Controller.Dependencies.{check_dependencies}
use fork_kustomize_controlle.Controller.Finalizing.{finalize}
use fork_kustomize_controlle.Controller.Reconciliation.{reconcile}

-- A text with an error behind it: `fmt.Sprintf("%s: %v", TerminalErrorMessage, err)`.
abbrev terminal_message : Err → Arg
terminal_message e = Arg.printf "%s: %v" (
    Args.arg (str "Reconciliation failed terminally due to configuration error")
      (Args.arg (Arg.error e) Args.nil))

-- spec.decryption.serviceAccountName is set
abbrev uses_account : Option Decryption → Bool
uses_account none = false
uses_account (some d) = not (d.service_account_name == "")

-- What `Reconcile` returns, and the state that it leaves.
pub record Report : Type 0 where
  pub result : Requeue
  pub error : Option Err
  pub final : State

module _ (r : Reconciler) (env : Env) where
  unfoldable pub observe : Exec (Unit {0})
  observe =
      modify (λ o. record o { status = record o.status { observed_generation = o.generation } })

  -- Ready is false and the object is stalled, both for one reason.
  unfoldable pub stall : Reason → Arg → Exec (Unit {0})
  stall reason msg = do
    mark env status_false ready reason msg
    modify_conditions (env.conditions.mark_stalled reason msg)

  unfoldable pub add_finalizer : Exec Requeue
  add_finalizer = do
    modify (λ o. record o {
      finalizers = env.finalizers.add_finalizer o.finalizers kustomization_finalizer;
    })
    pure at_once

  -- The custom health checks do not compile.
  unfoldable pub invalid_health_checks : Err → Exec Requeue
  unfolding stall
  invalid_health_checks e = do
    stall invalid_cel_expression (terminal_message e)
    observe
    event env "" "" error_severity (terminal_message e) []
    raise (terminal e)

  unfoldable pub gate_disabled : Exec Requeue
  unfolding stall
  gate_disabled =
      let msg =
        sprintf₁
          "to use spec.decryption.serviceAccountName for decryption authentication please enable the %s feature gate in the controller"
          "ObjectLevelWorkloadIdentity" in
      do stall feature_gate_disabled msg; event env "" "" error_severity msg []; pure no_requeue

  -- The source cannot be had.
  unfoldable pub source_failed : Err → Exec Requeue
  unfolding stall
  source_failed e = do
    mark env status_false ready artifact_failed (Arg.error e)
    obj ← get_obj
    if env.is_not_found e
        then pure (after (get_retry_interval obj))
        else if env.is_access_denied e
        then (do
          stall access_denied (Arg.error e)
          event env "" "" error_severity (Arg.error e) []
          raise (terminal e))
        else raise e

  abbrev retry_message : String → Arg
  retry_message f = Arg.printf f (Args.arg (Arg.duration r.dependency_requeue_interval) Args.nil)

  -- The source has no artifact yet, or the artifact's file is gone.
  unfoldable pub artifact_missing : String → Exec Requeue
  artifact_missing f = do
    mark env status_false ready artifact_failed (retry_message f)
    pure (after r.dependency_requeue_interval)

  unfoldable pub dependencies_failed : String → String → Err → Exec Requeue
  unfolding stall
  dependencies_failed revision origin_revision e =
      if is_terminal e
      then (do
        stall invalid_cel_expression (terminal_message e)
        observe
        event env revision origin_revision error_severity (terminal_message e) []
        raise e)
      else (do
        mark env status_false ready dependency_not_ready (Arg.error e)
        event env revision origin_revision info_severity
            (retry_message "Dependencies do not meet ready condition, retrying in %s") []
        pure (after r.dependency_requeue_interval))

  -- A new reconciliation cancelled the health checks.
  unfoldable pub health_canceled : String → String → QueueEventSource → Exec Requeue
  health_canceled revision origin_revision q = do
    mark env status_false ready health_check_canceled
        (sprintf₃ "New reconciliation triggered by %s/%s/%s" q.kind q.namespace q.name)
    event env revision origin_revision info_severity
        (sprintf₃ "Health checks canceled due to new reconciliation triggered by %s/%s/%s" q.kind
          q.namespace q.name)
        []
    pure at_once

  -- The failure is broadcast, and retried after the retry interval.
  unfoldable pub broadcast : String → String → Err → Exec Requeue
  broadcast revision origin_revision e = do
    event env revision origin_revision error_severity (env.error_text e) []
    obj ← get_obj
    pure (after (get_retry_interval obj))

  -- What `Reconcile` makes of the error that `reconcile` returned.
  unfoldable pub reconcile_failed : String → String → Err → Exec Requeue
  unfolding artifact_missing health_canceled broadcast
  reconcile_failed revision origin_revision e =
      if is_file_not_found e
      then artifact_missing "Source is not ready, artifact not found, retrying in %s"
      else on_option (as_queue_event e) (broadcast revision origin_revision e)
          (health_canceled revision origin_revision)

  unfoldable pub reconciled : String → String → Result (Unit {0}) → Exec Requeue
  unfolding reconcile_failed
  reconciled revision origin_revision (err e) = reconcile_failed revision origin_revision e
  reconciled revision origin_revision (ok u) = do
    obj ← get_obj
    pure (after (env.jitter (get_requeue_after obj)))

  unfoldable pub dependencies_checked : Artifact → String → Result (Unit {0}) → Exec Requeue
  unfolding dependencies_failed reconciled
  dependencies_checked a origin_revision (err e) = dependencies_failed a.revision origin_revision e
  dependencies_checked a origin_revision (ok u) =
      outcome (reconcile r env a origin_revision) >>= reconciled a.revision origin_revision

  -- The dependencies and the reconciliation, for a source with an artifact.
  unfoldable pub reconcile_artifact : Artifact → String → Exec Requeue
  unfolding dependencies_checked
  reconcile_artifact a origin_revision = do
    obj ← get_obj
    outcome (when (not (is_empty obj.spec.depends_on)) (check_dependencies r env obj a))
        >>= dependencies_checked a origin_revision

  unfoldable pub source_resolved : Result Source → Exec Requeue
  unfolding artifact_missing reconcile_artifact source_failed
  source_resolved (err e) = source_failed e
  source_resolved (ok src) =
      on_option src.artifact (artifact_missing "Source artifact not found, retrying in %s")
        (λ a. reconcile_artifact a (get_origin_revision r env src))

  -- An object that is neither being deleted nor suspended, and has the finalizer.
  unfoldable pub reconcile_active : Kustomization → Exec Requeue
  unfolding invalid_health_checks gate_disabled source_resolved
  reconcile_active obj =
      on_option (env.new_status_reader obj.spec.health_check_exprs)
        (if uses_account obj.spec.decryption && not env.workload_identity_enabled
          then gate_disabled
          else outcome (get_source r env obj) >>= source_resolved)
        invalid_health_checks

  -- `Reconcile` from the check of the deletion timestamp on.
  unfoldable pub reconcile_object : Exec Requeue
  unfolding add_finalizer reconcile_active
  reconcile_object = do
    obj ← get_obj
    if obj.deleting
        then finalize r env
        else if not (env.finalizers.contains_finalizer obj.finalizers kustomization_finalizer)
        then add_finalizer
        else if obj.spec.suspend
        then pure no_requeue
        else reconcile_active obj

  abbrev result_of : Result Requeue → Requeue
  result_of (ok q) = q
  result_of (err e) = no_requeue

  abbrev error_of {ℓ} : {A : Type ℓ} → Result A → Option Err
  error_of (ok a) = none
  error_of (err e) = some e

  -- The error of the deferred `finalizeStatus` joins that of the function.
  abbrev joined : Option Err → Option Err → Option Err
  joined e none = e
  joined e (some f) = some (env.new_aggregate e f)

  -- The rest of the deferred function: the metrics and, for a ready object, an event.
  unfoldable pub report_success : Exec (Unit {0})
  report_success = do
    emit duration_recorded
    obj ← get_obj
    when (not obj.spec.suspend && env.conditions.is_ready obj.status.conditions) (
        event env obj.status.last_applied_revision obj.status.last_applied_origin_revision
          info_severity
          (Arg.printf "Reconciliation finished in %s, next run in %s"
            (Args.arg (Arg.duration obj.spec.interval) Args.nil))
          env.commit_status)

  -- The deferred function, run on what the body returned and the state that it left.
  unfoldable pub deferred : Result Requeue → State → Report
  unfolding report_success
  deferred res s =
      let (finalized, s') = finalize_status env s in
      record {
        result = result_of res;
        error = joined (error_of res) (error_of finalized);
        final = (report_success s').1;
      }

  unfoldable pub reconcile_from : State → Report
  unfolding reconcile_object deferred
  reconcile_from s = let (res, s') = reconcile_object s in deferred res s'

  -- `Reconcile`. An object that is gone is no error.
  unfoldable pub handle_request : NamespacedName → History → Report ⊎ (Option Err × History)
  unfolding reconcile_from
  handle_request name h = elim (env.get_kustomization h cached name) [
    | err e ↦ inr (if env.is_not_found e then none else some e, got_kustomization cached name ∷ h)
    | ok obj ↦
        inl (reconcile_from (record { obj = obj; history = got_kustomization cached name ∷ h }))
  ]
