-- ===== src/Controller/Status.antt =====
-- `event`, `patch` and `finalizeStatus`.
pub mod Final
use fork_kustomize_controlle.Prelude.{
  on_option, ℕ, String, Bool, true, false, not, ◌&&◌, Option, none, some, List, [], ◌∷◌, ◌==◌,
  if◌then◌else◌,
}
use fork_kustomize_controlle.Errors.{Err, Message}
use fork_kustomize_controlle.Api.{
  Labels, Kustomization, KustomizationStatus, Condition, ready, reconciling, progressing_with_retry,
}
use fork_kustomize_controlle.Controller.{
  Severity, info_severity, error_severity, EventType, normal, warning, Event, patched, emitted, Env,
  Exec, pure, get_obj, call, emit, check, modify, ◌>>=◌, ◌>>◌,
}

abbrev severity_text : Severity → String
severity_text info_severity = "info"
severity_text error_severity = "error"

abbrev event_type : Severity → EventType
event_type info_severity = normal
event_type error_severity = warning

abbrev with_label : String → String → Labels → Labels
with_label k v m = if not (v == "") then (k, v) ∷ m else m

module _ (env : Env) where
  -- The reason of the Ready condition, if it has one, replaces the severity.
  abbrev pub event_reason : Kustomization → Severity → String
  event_reason obj severity =
      let reason = env.conditions.get_reason obj.status.conditions ready in
      if not (reason == "") then reason else severity_text severity

  unfoldable pub event : String → String → Severity → Message → Labels → Exec (Unit {0})
  event revision origin_revision severity msg metadata = do
    obj ← get_obj
    emit (
        emitted (record {
          metadata =
              with_label "kustomize.toolkit.fluxcd.io/originRevision" origin_revision
                (with_label "kustomize.toolkit.fluxcd.io/revision" revision metadata);
          type = event_type severity;
          reason = event_reason obj severity;
          message = msg;
        }))

  -- The error of the patcher, less the NotFound errors if the object is being deleted.
  abbrev filtered : Bool → Option Err → Option Err
  filtered deleting none = none
  filtered true (some e) = env.filter_out_not_found e
  filtered false (some e) = some e

  abbrev aggregated : Option Err → Option Err
  aggregated none = none
  aggregated (some e) = some (env.new_aggregate none e)

  unfoldable pub patch : Exec (Unit {0})
  patch = do
    obj ← get_obj
    e ← call (patched obj) (λ h. env.patch h obj)
    check (aggregated (filtered obj.deleting e))

  -- the reason of the Reconciling condition becomes ProgressingWithRetry
  abbrev retrying : List Condition → List Condition
  retrying cs =
      on_option (env.conditions.get cs reconciling) cs
        (λ c. env.conditions.set (record c { reason = progressing_with_retry }) cs)

  -- The value of the reconciliation request.
  abbrev pub with_request : Option String → KustomizationStatus → KustomizationStatus
  with_request none st = st
  with_request (some v) st = record st { last_handled_reconcile_at = v }

  -- A ready object is not reconciling any more, and its generation was observed.
  abbrev pub when_ready : ℕ → KustomizationStatus → KustomizationStatus
  when_ready generation st =
      if env.conditions.is_true st.conditions ready
      then record st {
        conditions = env.conditions.delete reconciling st.conditions;
        observed_generation = generation;
      }
      else st

  abbrev pub when_failed : KustomizationStatus → KustomizationStatus
  when_failed st =
      if env.conditions.is_false st.conditions ready && env.conditions.has st.conditions reconciling
      then record st { conditions = retrying st.conditions }
      else st

  -- The part of `finalizeStatus` before the patch, on the object.
  unfoldable pub final_status : Kustomization → Kustomization
  final_status obj =
      let st = with_request (env.reconcile_annotation obj.annotations) obj.status in
      record obj { status = when_failed (when_ready obj.generation st) }

  unfoldable pub finalize_status : Exec (Unit {0})
  finalize_status = modify final_status >> patch
