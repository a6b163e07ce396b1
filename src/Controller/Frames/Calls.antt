-- ===== src/Controller/Frames/Calls.antt =====
-- Frames and the methods that report, patch, build, check and wait.
use fork_kustomize_controlle.Prelude.{String, Bool, Option, none, some, List, [], ◌∷◌}
use fork_kustomize_controlle.Errors.{Err, Message}
use fork_kustomize_controlle.Api.{
  Labels, Kustomization, DependencyReference, Reason, ConditionType, ConditionStatus, status_false,
  status_unknown, healthy,
}
use fork_kustomize_controlle.Objects.{ObjMetadata, ChangeSetEntry}
use fork_kustomize_controlle.Controller.{
  Reconciler, Artifact, Env, ConditionLaws, Severity, Impersonation, State, Exec, failing, mark,
}
use fork_kustomize_controlle.Controller.Frames.{
  Frame, Keeps, Keeps-then, Keeps-modify_conditions, Benign-mark_false, Benign-mark_unknown,
  Benign-mark_healthy, keeps_rules,
}
use fork_kustomize_controlle.Controller.Status.{event, patch}
use fork_kustomize_controlle.Controller.Dependencies.{
  check_dependency, check_each, check_dependencies,
}
use fork_kustomize_controlle.Controller.Health.{
  delete_healthy, wait_failed, queued_or_unhealthy, check_health,
}
use fork_kustomize_controlle.Controller.Builder.{build_client, generate, build}
use fork_kustomize_controlle.Controller.Sources.{get_source}

module _ (r : Reconciler) (env : Env) (laws : ConditionLaws env.conditions) {P : State → Type 0}
    (frame : Frame env.conditions P) where
  pub Keeps-event :
      (a b : String) (s : Severity) (m : Message) (l : Labels) → Keeps P (event env a b s m l)
  unfolding event
  Keeps-event a b s m l = search (keeps_rules, frame)

  pub Keeps-patch : Keeps P (patch env)
  unfolding patch
  Keeps-patch = search (keeps_rules, frame)

  pub Keeps-mark_false :
      (t : ConditionType) (x : Reason) (m : Message) → Keeps P (mark env status_false t x m)
  unfolding mark
  Keeps-mark_false t x m = search (Keeps-modify_conditions, frame, laws, Benign-mark_false)

  pub Keeps-mark_unknown :
      (t : ConditionType) (x : Reason) (m : Message) → Keeps P (mark env status_unknown t x m)
  unfolding mark
  Keeps-mark_unknown t x m = search (Keeps-modify_conditions, frame, laws, Benign-mark_unknown)

  pub Keeps-mark_healthy :
      (st : ConditionStatus) (x : Reason) (m : Message) → Keeps P (mark env st healthy x m)
  unfolding mark
  Keeps-mark_healthy st x m = search (Keeps-modify_conditions, frame, laws, Benign-mark_healthy)

  pub Keeps-failing :
      {A : Type 0} (reason : Reason) (f : Err → Err) (m : Exec A)
      → Keeps P m
      → Keeps P (failing env reason f m)
  unfolding failing
  Keeps-failing reason f m km = search (keeps_rules, Keeps-mark_false)

  pub Keeps-build_client : (i : Impersonation) → Keeps P (build_client r env i)
  unfolding build_client
  Keeps-build_client i = search (keeps_rules, frame)

  pub Keeps-generate : (obj : Kustomization) (d : String) → Keeps P (generate r env obj d)
  unfolding generate
  Keeps-generate obj d = search (keeps_rules, frame)

  pub Keeps-build : (obj : Kustomization) (w d : String) → Keeps P (build r env obj w d)
  unfolding build
  Keeps-build obj w d = search (keeps_rules, frame) depth 30

  pub Keeps-get_source : (obj : Kustomization) → Keeps P (get_source r env obj)
  unfolding get_source
  Keeps-get_source obj = search (keeps_rules, frame) depth 30

  Keeps-check_dependency :
      (obj : Kustomization) (a : Artifact) (ref : DependencyReference)
      → Keeps P (check_dependency r env obj a ref)
  unfolding check_dependency
  Keeps-check_dependency obj a ref = search (keeps_rules, frame) depth 12

  Keeps-check_each :
      (obj : Kustomization) (a : Artifact) (refs : List DependencyReference)
      → Keeps P (check_each r env obj a refs)
  unfolding check_each
  Keeps-check_each obj a [] = search keeps_rules
  Keeps-check_each obj a (ref ∷ refs) =
      Keeps-then _ _ (Keeps-check_dependency obj a ref) (Keeps-check_each obj a refs)

  pub Keeps-check_dependencies :
      (obj : Kustomization) (a : Artifact) → Keeps P (check_dependencies r env obj a)
  unfolding check_dependencies
  Keeps-check_dependencies obj a = search (keeps_rules, Keeps-check_each)

  Keeps-queued_or_unhealthy : (o : Option Err) (e : Err) → Keeps P (queued_or_unhealthy r env o e)
  unfolding queued_or_unhealthy
  Keeps-queued_or_unhealthy none e = search (keeps_rules, Keeps-mark_false)
  Keeps-queued_or_unhealthy (some q) e = search keeps_rules

  Keeps-wait_failed : (e : Err) → Keeps P (wait_failed r env e)
  unfolding wait_failed
  Keeps-wait_failed e = search (keeps_rules, Keeps-queued_or_unhealthy)

  pub Keeps-check_health :
      (a b : String) (n d : Bool) (es : List ChangeSetEntry) (js : List ObjMetadata)
      → Keeps P (check_health r env a b n d es js)
  unfolding check_health delete_healthy
  Keeps-check_health a b n d es js =
      search
        (
          keeps_rules, frame, laws, Keeps-event, Keeps-patch, Keeps-mark_unknown,
          Keeps-mark_healthy, Keeps-wait_failed,
        )
        depth 30
